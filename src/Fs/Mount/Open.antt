-- ===== src/Fs/Mount/Open.antt =====
-- What vfs_open of fs/vfs.c finds once start_kernel of init/main.c has mounted the file systems.
use relis.Prelude.{ℕ, ◌+◌, ◌≤◌, ◌≡◌, refl, ap, ◌∙◌, Option, some, [], ◌∷◌, arith}
use relis.Mm.Slab.{align16, kernel_heap_size}
use relis.Kernel.State.{Kernel, Fop}
use relis.Kernel.Thread.{sizeof_inode}
use relis.Kernel.Thread.Blocks.{advance, top, block, further, advance_twice}
use relis.Fs.Vfs.{Vfs, slash}
use relis.Fs.Relisfs.{sizeof_disk_inode}
use relis.Fs.Mount.{
  sizeof_dentry, name_proc, name_cpuinfo, put_dentry, set_inode, relisfs_root, proc_mount,
}

-- the results of the two mounts, for the addresses of their blocks
abbrev pub with_root : Vfs → ℕ → ℕ → ℕ → Kernel → Option (ℕ × Vfs × Kernel)
with_root vfs r i p k = some (
  r,
  put_dentry r (record { d_name = slash ∷ []; d_inode = i; d_children = [] }) vfs,
  set_inode i (record { i_private = p; i_fop = Fop.relisfs }) k,
)

abbrev pub with_proc : Vfs → ℕ → ℕ → ℕ → Kernel → Option (ℕ × Vfs × Kernel)
with_proc vfs p c i k = some (
  p,
  put_dentry c (record { d_name = name_cpuinfo; d_inode = i; d_children = [] })
      (put_dentry p (record { d_name = name_proc; d_inode = 0; d_children = c ∷ [] }) vfs),
  set_inode i (record { i_private = 0; i_fop = Fop.cpuinfo }) k,
)

pub relisfs_root_lem :
    (vfs : Vfs) (k : Kernel)
    → k.heap.heap_ptr + 464 ≤ kernel_heap_size
    → relisfs_root vfs k ≡ with_root vfs (top k) (top k + 352) (top k + 384) (advance 464 k)
unfolding relisfs_root align16
relisfs_root_lem vfs k h =
    let second = further k.at.heap_base k.heap.heap_ptr 352 in
    let third : top (advance 32 (advance 352 k)) ≡ top k + 384 = omega arith in
    let end = advance_twice 384 80 k in
    let mid = advance_twice 352 32 k in
    rw
      (
        block sizeof_dentry 352 k refl (omega arith) (omega arith) (omega arith),
        block sizeof_inode 32 (advance 352 k) refl (omega arith) (omega arith) (omega arith),
        block sizeof_disk_inode 80 (advance 32 (advance 352 k)) refl (omega arith) (omega arith)
            (omega arith),
      )
      (ap
          (λ i.
            with_root vfs (top k) i (top (advance 32 (advance 352 k)))
              (advance 80 (advance 32 (advance 352 k))))
          second
        ∙ ap (λ p. with_root vfs (top k) (top k + 352) p (advance 80 (advance 32 (advance 352 k))))
            third
        ∙ ap (with_root vfs (top k) (top k + 352) (top k + 384)) (ap (advance 80) mid ∙ end))

pub proc_mount_lem :
    (vfs : Vfs) (k : Kernel)
    → k.heap.heap_ptr + 736 ≤ kernel_heap_size
    → proc_mount vfs k ≡ with_proc vfs (top k) (top k + 352) (top k + 704) (advance 736 k)
unfolding proc_mount align16
proc_mount_lem vfs k h =
    let second = further k.at.heap_base k.heap.heap_ptr 352 in
    let third : top (advance 352 (advance 352 k)) ≡ top k + 704 = omega arith in
    let end = advance_twice 704 32 k in
    let mid = advance_twice 352 352 k in
    rw
      (
        block sizeof_dentry 352 k refl (omega arith) (omega arith) (omega arith),
        block sizeof_dentry 352 (advance 352 k) refl (omega arith) (omega arith) (omega arith),
        block sizeof_inode 32 (advance 352 (advance 352 k)) refl (omega arith) (omega arith)
            (omega arith),
      )
      (ap
          (λ c.
            with_proc vfs (top k) c (top (advance 352 (advance 352 k)))
              (advance 32 (advance 352 (advance 352 k))))
          second
        ∙ ap (λ i. with_proc vfs (top k) (top k + 352) i (advance 32 (advance 352 (advance 352 k))))
            third
        ∙ ap (with_proc vfs (top k) (top k + 352) (top k + 704)) (ap (advance 32) mid ∙ end))
