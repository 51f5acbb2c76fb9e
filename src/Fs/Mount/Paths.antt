-- ===== src/Fs/Mount/Paths.antt =====
-- Paths that vfs_open of fs/vfs.c follows in the tree that start_kernel of init/main.c mounts.
use relis.Prelude.{
  ℕ, ◌+◌, ◌≤◌, ◌<◌, ◌≡◌, refl, ap, ◌∙◌, ◌≢◌, false, Option, none, some, List, [], ◌∷◌, ◌++◌, arith,
  ◌==◌, update, update_self,
}
use relis.Mm.Slab.{align16, kernel_heap_size}
use relis.Kernel.State.{Kernel, File, Fop}
use relis.Kernel.Thread.{sizeof_file}
use relis.Fs.Vfs.{
  Dentry, Vfs, slash, walk, found, enter_child, find_child, same_name, descend, open_file, Opened,
  opened, vfs_open, skip_slash,
}
use relis.Fs.Vfs.Paths.{split, resolve, walk-resolve, resolve_step}
use relis.Fs.Vfs.{corrupted}
use relis.Fs.Relisfs.{Relisfs, relisfs_mount}
use relis.Fs.Mount.{name_proc, name_cpuinfo, mount_all}
use relis.Kernel.Thread.Blocks.{advance, top, new_block_lem}
use relis.Fs.Mount.Tree.{Tree, mount_all-Tree, proc_at}

abbrev pub path_proc : List ℕ
path_proc = slash ∷ name_proc

abbrev pub path_cpuinfo : List ℕ
path_cpuinfo = slash ∷ name_proc ++ slash ∷ name_cpuinfo

module _ (b p c i j : ℕ) (vfs : Vfs) (k : Kernel) (t : Tree b p c i j vfs k) where
  enter_proc : enter_child name_proc b vfs.dentries ≡ some p
  unfolding enter_child find_child same_name
  enter_proc = rw (t.at_root, t.at_proc) refl

  enter_cpuinfo : enter_child name_cpuinfo p vfs.dentries ≡ some c
  unfolding enter_child find_child same_name
  enter_cpuinfo = rw (t.at_proc, t.at_cpuinfo) refl

  walk_proc : walk name_proc [] b vfs.dentries ≡ found p
  unfolding split resolve
  walk_proc =
      walk-resolve name_proc b vfs.dentries
      ∙ resolve_step name_proc [] b p vfs.dentries (omega arith) enter_proc

  walk_cpuinfo : walk (name_proc ++ slash ∷ name_cpuinfo) [] b vfs.dentries ≡ found c
  unfolding split resolve
  walk_cpuinfo =
      walk-resolve (name_proc ++ slash ∷ name_cpuinfo) b vfs.dentries
      ∙ resolve_step name_proc (name_cpuinfo ∷ []) b p vfs.dentries (omega arith) enter_proc
      ∙ resolve_step name_cpuinfo [] p c vfs.dentries (omega arith) enter_cpuinfo

walk_root : (d : ℕ) (dentries : ℕ → Dentry) → walk [] [] d dentries ≡ found d
unfolding walk enter_child descend
walk_root d dentries = refl

-- the file that opening an entry gives
abbrev pub Opens : List ℕ → ℕ → Vfs → Kernel → Type 0
Opens path inode vfs k =
    (k' : Kernel) × (vfs_open path vfs k ≡ opened (top k) k')
    × (k'.files (top k) ≡ record { f_inode = inode; f_pos = 0 })
    × (k'.inodes ≡ k.inodes)

opens :
    (path : List ℕ) (d inode : ℕ) (vfs : Vfs) (k : Kernel)
    → vfs.root_dentry ≢ 0
    → walk path [] vfs.root_dentry vfs.dentries ≡ found d
    → (vfs.dentries d).d_inode ≡ inode
    → k.heap.heap_ptr + sizeof_file ≤ kernel_heap_size
    → Opens (slash ∷ path) inode vfs k
unfolding vfs_open skip_slash open_file align16
opens path d inode vfs k r w e h =
    let rooted : (vfs.root_dentry == 0) ≡ false = ground (arith, r) in
    let new = new_block_lem sizeof_file 32 k refl (omega arith) (omega arith) h in
    let file : File = record { f_inode = (vfs.dentries d).d_inode; f_pos = 0 } in
    (
      record (advance 32 k) { files = update k.files (top k) file },
      rw rooted (rw w (ap (placed d vfs) new)),
      update_self k.files (top k) file ∙ ap (λ n. record { f_inode = n; f_pos = 0 }) e,
      refl,
    )
  where
    placed : ℕ → Vfs → Option ℕ × Kernel → Opened
    placed d vfs r = elim r.0 [
      | none ↦ corrupted
      | some f ↦ opened f (record (r.1) {
        files = update (r.1).files f (record { f_inode = (vfs.dentries d).d_inode; f_pos = 0 });
      })
    ]

-- On a disk that relisfs_mount accepts, and with room for its blocks on the heap, start_kernel gets past
-- its mounts, and vfs_open then opens, at the position 0: the root, with the operations of relisfs;
-- the file /proc/cpuinfo, with those of proc_cpuinfo_read; and the directory /proc, with a null inode.
pub mount_all-Opens :
    (fs fs₁ : Relisfs) (vfs : Vfs) (k : Kernel)
    → relisfs_mount fs ≡ some fs₁
    → 0 < k.at.heap_base
    → k.heap.heap_ptr + 2000 ≤ kernel_heap_size
    → (vfs' : Vfs) × (k' : Kernel) × (root : ℕ) × (cpuinfo : ℕ) × (mount_all fs vfs k
        ≡ some (vfs', k', fs₁))
      × ((k'.inodes root).i_fop ≡ Fop.relisfs)
      × ((k'.inodes cpuinfo).i_fop ≡ Fop.cpuinfo)
      × Opens (slash ∷ []) root vfs' k'
      × Opens path_cpuinfo cpuinfo vfs' k'
      × Opens path_proc 0 vfs' k'
mount_all-Opens fs fs₁ vfs k m z h =
    let r = mount_all-Tree fs fs₁ vfs k m z (omega arith) in
    let vfs' = r.0 in
    let k' = r.1 in
    let t = r.3 in
    let b = top k in
    let p = proc_at k in
    let some_root : vfs'.root_dentry ≢ 0 = λ e. absurd (omega (arith, z, e, t.root)) in
    let room : k'.heap.heap_ptr + sizeof_file ≤ kernel_heap_size = omega (arith, h, r.4) in
    let from : (path : List ℕ) (d : ℕ)
        → walk path [] b vfs'.dentries ≡ found d
        → walk path [] vfs'.root_dentry vfs'.dentries ≡ found d =
      λ path d e. ap (λ n. walk path [] n vfs'.dentries) t.root ∙ e in
    (
      vfs',
      k',
      b + 352,
      p + 704,
      r.2,
      t.root_ops,
      t.cpuinfo_ops,
      opens [] b (b + 352) vfs' k' some_root (from [] b (walk_root b vfs'.dentries))
          (ap (λ (e : Dentry). e.d_inode) t.at_root) room,
      opens (name_proc ++ slash ∷ name_cpuinfo) (p + 352) (p + 704) vfs' k' some_root
          (from (name_proc ++ slash ∷ name_cpuinfo) (p + 352)
            (walk_cpuinfo b p (p + 352) (b + 352) (p + 704) vfs' k' t))
          (ap (λ (e : Dentry). e.d_inode) t.at_cpuinfo) room,
      opens name_proc p 0 vfs' k' some_root
          (from name_proc p (walk_proc b p (p + 352) (b + 352) (p + 704) vfs' k' t))
          (ap (λ (e : Dentry). e.d_inode) t.at_proc) room,
    )
