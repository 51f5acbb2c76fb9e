-- ===== src/Fs/Mount.antt =====
-- How start_kernel of init/main.c mounts the two file systems: vfs_kern_mount of fs/vfs.c, the
-- directory entries that relisfs_mount and proc_mount make, and the entry "proc" in the root.
pub mod Open
pub mod Tree
pub mod Paths
mod Tests
use relis.Prelude.{
  ℕ, zero, suc, ◌+◌, ◌-◌, ◌*◌, ◌/◌, ◌%◌, ◌^◌, ◌≤◌, ◌<◌, min, bit_and, bit_or, bit_xor, ◌≡◌, refl,
  sym, ap, ◌∙◌, subst, ◌≢◌, ◌↔◌, ◌⊎◌, inl, inr, Bool, true, false, not, ◌&&◌, ◌||◌, Option, none,
  some, List, [], ◌∷◌, ◌++◌, map, append_assoc, append-nil, arith, ltb, leb, ◌==◌, if◌then◌else◌,
  ltb→lt, lt→ltb, leb→le, ==_iff, tests, Bool-cases, Option-cases, if_lem, length, get_elem?,
  get_or, set, take, drop, replicate, length-append, length-set, get_or-set_self, get_or-set_ne,
  length-take, length-drop, take-append-drop, length-replicate, get_or-replicate, update,
  update_self, update_ne, test_bit, not64, bit_and_step, bit_or_step, test_bit-and, test_bit-or,
  test_bit-pow, test_bit-not64, bit_and-zero, bit_and-pow, bit_or-lt, bit_and-le, pow-lt,
  bit_and-ones, test_bit-zero, bit_and_align, bit_and_high, bit_and_mask, bit_or_field,
  bit_or-zero_left, bit_or-zero_right, ℤ, pos, negsuc, minus_one, sub_ℕ,
}
use relis.Kernel.State.{Kernel, Inode, Fop}
use relis.Kernel.Thread.{zeroed_block, sizeof_inode, ◌>>=◌}
use relis.Fs.Vfs.{Dentry, Vfs, slash}
use relis.Fs.Relisfs.{Relisfs, relisfs_mount, sizeof_disk_inode}

abbrev pub sizeof_dentry : ℕ
sizeof_dentry = 344

abbrev pub name_proc : List ℕ
name_proc = b'p' ∷ b'r' ∷ b'o' ∷ b'c' ∷ []

abbrev pub name_cpuinfo : List ℕ
name_cpuinfo = b'c' ∷ b'p' ∷ b'u' ∷ b'i' ∷ b'n' ∷ b'f' ∷ b'o' ∷ []

unfoldable pub put_dentry : ℕ → Dentry → Vfs → Vfs
put_dentry d e vfs = record vfs { dentries = update vfs.dentries d e }

unfoldable pub set_inode : ℕ → Inode → Kernel → Kernel
set_inode i n k = record k { inodes = update k.inodes i n }

-- the end of relisfs_mount: the root, its inode, and the block for the inode of the disk
unfoldable pub relisfs_root : Vfs → Kernel → Option (ℕ × Vfs × Kernel)
relisfs_root vfs k = do
  (root, k₁) ← zeroed_block sizeof_dentry k
  (inode, k₂) ← zeroed_block sizeof_inode k₁
  (disk_inode, k₃) ← zeroed_block sizeof_disk_inode k₂
  let vfs₁ = put_dentry root (record { d_name = slash ∷ []; d_inode = inode; d_children = [] }) vfs
  some (root, vfs₁, set_inode inode (record { i_private = disk_inode; i_fop = Fop.relisfs }) k₃)

unfoldable pub proc_mount : Vfs → Kernel → Option (ℕ × Vfs × Kernel)
proc_mount vfs k = do
  (root, k₁) ← zeroed_block sizeof_dentry k
  (cpuinfo, k₂) ← zeroed_block sizeof_dentry k₁
  (inode, k₃) ← zeroed_block sizeof_inode k₂
  let vfs₁ =
      put_dentry root (record { d_name = name_proc; d_inode = 0; d_children = cpuinfo ∷ [] }) vfs
  let vfs₂ =
      put_dentry cpuinfo (record { d_name = name_cpuinfo; d_inode = inode; d_children = [] }) vfs₁
  some (root, vfs₂, set_inode inode (record { i_private = 0; i_fop = Fop.cpuinfo }) k₃)

-- vfs_kern_mount for `relisfs_fs_type`, whose mount may return NULL
unfoldable pub vfs_kern_mount : Relisfs → Vfs → Kernel → Option (Vfs × Kernel × Relisfs)
vfs_kern_mount fs vfs k = elim (relisfs_mount fs) [
  | none ↦ some (record vfs { root_dentry = 0 }, k, fs)
  | some fs₁ ↦ relisfs_root vfs k >>= λ r. some (record (r.1) { root_dentry = r.0 }, r.2, fs₁)
]

-- `root->d_children[root->d_child_count++] = proc_root`, and the copy of the name
unfoldable pub attach : ℕ → ℕ → Vfs → Vfs
attach root child vfs =
    let vfs₁ = put_dentry child (record (vfs.dentries child) { d_name = name_proc }) vfs in
    put_dentry root
      (record (vfs₁.dentries root) { d_children = (vfs₁.dentries root).d_children ++ child ∷ [] })
      vfs₁

-- the lines of start_kernel
unfoldable pub mount_all : Relisfs → Vfs → Kernel → Option (Vfs × Kernel × Relisfs)
mount_all fs vfs k = do
  (vfs₁, k₁, fs₁) ← vfs_kern_mount fs vfs k
  (child, vfs₂, k₂) ← proc_mount vfs₁ k₁
  some (if vfs₂.root_dentry == 0 then vfs₂ else attach vfs₂.root_dentry child vfs₂, k₂, fs₁)
