-- ===== src/Fs/Mount/Tree.antt =====
-- The tree that start_kernel of init/main.c leaves: the root of relisfs with the entry "proc" in it.
use relis.Prelude.{
  ℕ, ◌+◌, ◌≤◌, ◌<◌, ◌≡◌, refl, sym, ap, ◌∙◌, ◌≢◌, false, some, List, [], ◌∷◌, ◌++◌, arith, ◌==◌,
  update, update_self, update_ne,
}
use relis.Mm.Slab.{kernel_heap_size}
use relis.Kernel.State.{Kernel, Inode, Fop}
use relis.Fs.Vfs.{Dentry, Vfs, slash}
use relis.Fs.Relisfs.{Relisfs, relisfs_mount}
use relis.Fs.Mount.{
  name_proc, name_cpuinfo, put_dentry, set_inode, proc_mount, vfs_kern_mount, attach, mount_all,
}
use relis.Kernel.Thread.Blocks.{advance, top}
use relis.Fs.Mount.Open.{relisfs_root_lem, proc_mount_lem}

-- the tree with its three entries at `b`, `p` and `c` and two inodes at `i` and `j`
pub record Tree (b p c i j : ℕ) (vfs : Vfs) (k : Kernel) : Type 0 where
  pub root : vfs.root_dentry ≡ b
  pub at_root : vfs.dentries b ≡ record { d_name = slash ∷ []; d_inode = i; d_children = p ∷ [] }
  pub at_proc : vfs.dentries p ≡ record { d_name = name_proc; d_inode = 0; d_children = c ∷ [] }
  pub at_cpuinfo : vfs.dentries c ≡ record { d_name = name_cpuinfo; d_inode = j; d_children = [] }
  pub root_ops : (k.inodes i).i_fop ≡ Fop.relisfs
  pub cpuinfo_ops : (k.inodes j).i_fop ≡ Fop.cpuinfo

abbrev root_entry : ℕ → List ℕ → Dentry
root_entry i children = record { d_name = slash ∷ []; d_inode = i; d_children = children }

abbrev proc_entry : ℕ → Dentry
proc_entry c = record { d_name = name_proc; d_inode = 0; d_children = c ∷ [] }

abbrev cpuinfo_entry : ℕ → Dentry
cpuinfo_entry j = record { d_name = name_cpuinfo; d_inode = j; d_children = [] }

attach_lem :
    (vfs : Vfs) (b p c i j : ℕ)
    → b ≢ p
    → b ≢ c
    → p ≢ c
    → vfs.dentries b ≡ root_entry i []
    → vfs.dentries p ≡ proc_entry c
    → vfs.dentries c ≡ cpuinfo_entry j
    → (attach b p vfs).dentries b ≡ root_entry i (p ∷ [])
      × (attach b p vfs).dentries p ≡ proc_entry c
      × (attach b p vfs).dentries c ≡ cpuinfo_entry j
unfolding attach put_dentry
attach_lem vfs b p c i j h k l hb hp hc =
    let named : Dentry = record (vfs.dentries p) { d_name = name_proc } in
    let under = update vfs.dentries p named in
    let whole : Dentry = record (under b) { d_children = (under b).d_children ++ p ∷ [] } in
    (
      update_self under b whole
          ∙ ap (λ (e : Dentry). record e { d_children = e.d_children ++ p ∷ [] })
              (update_ne vfs.dentries p b named (λ e. h (sym e)) ∙ hb),
      update_ne under b p whole h
          ∙ update_self vfs.dentries p named
          ∙ ap (λ (e : Dentry). record e { d_name = name_proc }) hp,
      update_ne under b c whole k ∙ update_ne vfs.dentries p c named l ∙ hc,
    )

root_kept : (b p : ℕ) (vfs : Vfs) → (attach b p vfs).root_dentry ≡ vfs.root_dentry
unfolding attach put_dentry
root_kept b p vfs = refl

-- the state in front of the call of attach
abbrev before : ℕ → ℕ → ℕ → ℕ → ℕ → Vfs → Vfs
before b p c i j vfs = record {
  dentries =
      update (update (update vfs.dentries b (root_entry i [])) p (proc_entry c)) c
        (cpuinfo_entry j);
  root_dentry = b;
}

before_lem :
    (d : ℕ → Dentry) (b p c : ℕ) (x y z : Dentry)
    → b ≢ p
    → b ≢ c
    → p ≢ c
    → update (update (update d b x) p y) c z b ≡ x
      × update (update (update d b x) p y) c z p ≡ y
      × update (update (update d b x) p y) c z c ≡ z
before_lem d b p c x y z h k l =
    let one = update d b x in
    let two = update one p y in
    (
      update_ne two c b z (λ e. k (sym e))
          ∙ update_ne one p b y (λ e. h (sym e))
          ∙ update_self d b x,
      update_ne two c p z (λ e. l (sym e)) ∙ update_self one p y,
      update_self two c z,
    )

-- what vfs_kern_mount leaves
abbrev rooted : Vfs → Kernel → Vfs
rooted vfs k = record {
  dentries = update vfs.dentries (top k) (root_entry (top k + 352) []);
  root_dentry = top k;
}

abbrev with_disk : Kernel → Kernel
with_disk k = record (advance 464 k) {
  inodes = update k.inodes (top k + 352) (record { i_private = top k + 384; i_fop = Fop.relisfs });
}

kern_mount_lem :
    (fs fs₁ : Relisfs) (vfs : Vfs) (k : Kernel)
    → relisfs_mount fs ≡ some fs₁
    → k.heap.heap_ptr + 464 ≤ kernel_heap_size
    → vfs_kern_mount fs vfs k ≡ some (rooted vfs k, with_disk k, fs₁)
unfolding vfs_kern_mount put_dentry set_inode
kern_mount_lem fs fs₁ vfs k m h = rw (vfs_kern_mount, m) (rw (relisfs_root_lem vfs k h) refl)

abbrev pub proc_at : Kernel → ℕ
proc_at k = k.at.heap_base + (k.heap.heap_ptr + 464)

abbrev all_entries : Vfs → Kernel → Vfs
all_entries vfs k = before (top k) (proc_at k) (proc_at k + 352) (top k + 352) (proc_at k + 704) vfs

abbrev all_inodes : Kernel → Kernel
all_inodes k = record (advance 736 (with_disk k)) {
  inodes =
      update (with_disk k).inodes (proc_at k + 704) (record { i_private = 0; i_fop = Fop.cpuinfo });
}

proc_lem :
    (vfs : Vfs) (k : Kernel)
    → k.heap.heap_ptr + 1200 ≤ kernel_heap_size
    → proc_mount (rooted vfs k) (with_disk k) ≡ some (proc_at k, all_entries vfs k, all_inodes k)
unfolding put_dentry set_inode
proc_lem vfs k h = proc_mount_lem (rooted vfs k) (with_disk k) (omega arith)

mount_all_lem :
    (fs fs₁ : Relisfs) (vfs : Vfs) (k : Kernel)
    → relisfs_mount fs ≡ some fs₁
    → 0 < k.at.heap_base
    → k.heap.heap_ptr + 1200 ≤ kernel_heap_size
    → mount_all fs vfs k ≡ some (attach (top k) (proc_at k) (all_entries vfs k), all_inodes k, fs₁)
unfolding mount_all
mount_all_lem fs fs₁ vfs k m z h =
    let some_root : (top k == 0) ≡ false = ground (arith, z) in
    rw (kern_mount_lem fs fs₁ vfs k m (omega arith)) (rw (proc_lem vfs k h) (rw some_root refl))

-- With a heap that has room for the six blocks, and a disk that relisfs_mount accepts, start_kernel
-- gets past the mounts and leaves the tree.
pub mount_all-Tree :
    (fs fs₁ : Relisfs) (vfs : Vfs) (k : Kernel)
    → relisfs_mount fs ≡ some fs₁
    → 0 < k.at.heap_base
    → k.heap.heap_ptr + 1200 ≤ kernel_heap_size
    → (vfs' : Vfs) × (k' : Kernel) × (mount_all fs vfs k ≡ some (vfs', k', fs₁))
      × Tree (top k) (proc_at k) (proc_at k + 352) (top k + 352) (proc_at k + 704) vfs' k'
      × (k'.heap.heap_ptr ≡ k.heap.heap_ptr + 1200)
      × (k'.at ≡ k.at)
mount_all-Tree fs fs₁ vfs k m z h =
    let b = top k in
    let p = proc_at k in
    let r : ℕ → Dentry = vfs.dentries in
    let t =
      before_lem r b p (p + 352) (root_entry (b + 352) []) (proc_entry (p + 352))
        (cpuinfo_entry (p + 704)) (omega arith) (omega arith) (omega arith) in
    let a =
      attach_lem (all_entries vfs k) b p (p + 352) (b + 352) (p + 704) (omega arith) (omega arith)
        (omega arith) t.0 t.1 t.2 in
    let disk : Inode = record { i_private = b + 384; i_fop = Fop.relisfs } in
    let cpu : Inode = record { i_private = 0; i_fop = Fop.cpuinfo } in
    (
      attach b p (all_entries vfs k),
      all_inodes k,
      mount_all_lem fs fs₁ vfs k m z h,
      record {
        root = root_kept b p (all_entries vfs k);
        at_root = a.0;
        at_proc = a.1;
        at_cpuinfo = a.2;
        root_ops =
            ap (λ (n : Inode). n.i_fop)
              (update_ne (with_disk k).inodes (p + 704) (b + 352) cpu (omega arith)
                ∙ update_self k.inodes (b + 352) disk);
        cpuinfo_ops = ap (λ (n : Inode). n.i_fop) (update_self (with_disk k).inodes (p + 704) cpu);
      },
      omega arith,
      refl,
    )
