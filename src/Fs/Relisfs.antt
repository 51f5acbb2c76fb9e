-- ===== src/Fs/Relisfs.antt =====
-- fs/relisfs/relisfs.c: a file system of one file, its root.
pub mod Encode
pub mod Blocks
pub mod Mounted
pub mod Update
pub mod Remount
pub mod Format
pub mod RoundTrip
mod Tests
use relis.Prelude.{
  ℕ, zero, suc, ◌+◌, ◌-◌, ◌*◌, ◌/◌, ◌%◌, ◌^◌, ◌≤◌, ◌<◌, min, bit_and, bit_or, bit_xor, ◌≡◌, refl,
  sym, ap, ◌∙◌, subst, ◌≢◌, ◌↔◌, ◌⊎◌, inl, inr, Bool, true, false, not, ◌&&◌, ◌||◌, Option, none,
  some, List, [], ◌∷◌, ◌++◌, map, append_assoc, append-nil, arith, ltb, leb, ◌==◌, if◌then◌else◌,
  ltb→lt, lt→ltb, leb→le, ==_iff, tests, Bool-cases, Option-cases, if_lem, length, get_elem?,
  get_or, set, take, drop, replicate, length-append, length-set, get_or-set_self, get_or-set_ne,
  length-take, length-drop, take-append-drop, length-replicate, get_or-replicate, update,
  update_self, update_ne, test_bit, not64, bit_and_step, bit_or_step, test_bit-and, test_bit-or,
  test_bit-pow, test_bit-not64, bit_and-zero, bit_and-pow, bit_or-lt, bit_and-le, pow-lt,
  bit_and-ones, test_bit-zero, bit_and_align, bit_and_high, bit_and_mask, bit_or_field,
  bit_or-zero_left, bit_or-zero_right, ℤ, pos, negsuc, minus_one, sub_ℕ,
}
use relis.Drivers.Ata.{Drive, ata_read_block, ata_write_block, block_size}

abbrev pub relisfs_magic : ℕ
relisfs_magic = 0x52454c49

-- `relisfs_inode_t`; `name` holds all its 64 bytes.
pub record DiskInode : Type 0 where
  pub used : ℕ
  pub size : ℕ
  pub direct_block : ℕ
  pub name : List ℕ

abbrev pub sizeof_disk_inode : ℕ
sizeof_disk_inode = 76

-- The disk, `block_buf`, and the inode in memory that `i_private` of the root points to.
pub record Relisfs : Type 0 where
  pub drive : Drive
  pub block_buf : List ℕ
  pub inode : DiskInode

-- a 32-bit number in memory, and back
unfoldable pub le32 : ℕ → List ℕ
le32 n = n % 2 ^ 8 ∷ n / 2 ^ 8 % 2 ^ 8 ∷ n / 2 ^ 16 % 2 ^ 8 ∷ n / 2 ^ 24 % 2 ^ 8 ∷ []

unfoldable pub read32 : ℕ → List ℕ → ℕ
read32 i bytes =
    get_or bytes i 0
    + get_or bytes (i + 1) 0 * 2 ^ 8
    + get_or bytes (i + 2) 0 * 2 ^ 16
    + get_or bytes (i + 3) 0 * 2 ^ 24

-- the bytes of the struct, and the struct in the first 76 of some bytes
unfoldable pub encode_inode : DiskInode → List ℕ
unfolding le32
encode_inode i = le32 i.used ++ le32 i.size ++ le32 i.direct_block ++ i.name

unfoldable pub decode_inode : List ℕ → DiskInode
unfolding read32
decode_inode bytes = record {
  used = read32 0 bytes;
  size = read32 4 bytes;
  direct_block = read32 8 bytes;
  name = take 64 (drop 12 bytes);
}

-- `kmemcpy(block_buf + at, bytes, n)` that stays inside the buffer
unfoldable pub splice : ℕ → List ℕ → List ℕ → List ℕ
splice at bytes buf = take at buf ++ (bytes ++ drop (at + length bytes) buf)

-- `ata_read_block(lba, block_buf)` and `ata_write_block(lba, block_buf)`: whether they return 0
unfoldable pub load_block : ℕ → Relisfs → Bool × Relisfs
load_block lba fs =
    let (block, d) = ata_read_block lba fs.drive in
    elim block [
      | none ↦ (false, record fs { drive = d })
      | some b ↦ (true, record fs { drive = d; block_buf = b })
    ]

unfoldable pub store_block : ℕ → Relisfs → Bool × Relisfs
store_block lba fs =
    let (ok, d) = ata_write_block lba fs.block_buf fs.drive in (ok, record fs { drive = d })

-- The result, the bytes for the caller's buffer and the new `f_pos`; `none` where the copy leaves
-- `block_buf`.
abbrev pub Transfer : Type 0
Transfer = Option (ℤ × List ℕ × ℕ × Relisfs)

-- How much a read takes; the sum has 64 bits.
unfoldable pub clip : ℕ → ℕ → ℕ → ℕ
clip size f_pos count = if ltb size ((f_pos + count) % 2 ^ 64) then size - f_pos else count

unfoldable pub relisfs_read : ℕ → ℕ → Relisfs → Transfer
unfolding clip
relisfs_read count f_pos fs =
    let n = clip fs.inode.size f_pos count in
    let (ok, fs₁) = load_block fs.inode.direct_block fs in
    if fs.inode.used == 0
    then some (minus_one, [], f_pos, fs)
    else if leb fs.inode.size f_pos
    then some (pos 0, [], f_pos, fs)
    else if not ok
    then some (minus_one, [], f_pos, fs₁)
    else if leb (f_pos + n) block_size
    then some (pos n, take n (drop f_pos fs₁.block_buf), (f_pos + n) % 2 ^ 32, fs₁)
    else none

-- `kmemcpy(block_buf + 76 * 1, inode, 76)`
unfoldable pub put_inode : DiskInode → Relisfs → Relisfs
put_inode i fs = record fs { block_buf = splice sizeof_disk_inode (encode_inode i) fs.block_buf }

-- the end of relisfs_write, which does not look at what the last write returns
unfoldable pub update_inode : ℕ → Relisfs → Relisfs
update_inode f_pos fs =
    let grown = record fs { inode = record (fs.inode) { size = f_pos } } in
    let (ok, fs₁) = load_block 1 grown in
    if ltb fs.inode.size f_pos
    then (if ok then (store_block 1 (put_inode fs₁.inode fs₁)).1 else fs₁)
    else fs

-- The bytes of `buf` up to `count`. A transfer out of the buffer is `none` here too.
unfoldable pub relisfs_write : List ℕ → ℕ → Relisfs → Transfer
relisfs_write bytes f_pos fs =
    let count = length bytes in
    let (ok, fs₁) = load_block fs.inode.direct_block fs in
    let fs₂ = record fs₁ { block_buf = splice f_pos bytes fs₁.block_buf } in
    let (done, fs₃) = store_block fs.inode.direct_block fs₂ in
    let end = (f_pos + count) % 2 ^ 32 in
    if fs.inode.used == 0
    then some (minus_one, [], f_pos, fs)
    else if not ok
    then some (minus_one, [], f_pos, fs₁)
    else if not (leb (f_pos + count) block_size)
    then none
    else if done
    then some (pos count, [], end, update_inode end fs₃)
    else some (minus_one, [], f_pos, fs₃)

-- what a new disk gets in block 0: the four fields of the superblock over what was read
unfoldable pub superblock : List ℕ
superblock = le32 relisfs_magic ++ le32 64 ++ le32 1 ++ le32 2

-- the root of a new disk, with the name "/"
unfoldable pub new_root : DiskInode
new_root = record { used = 1; size = 0; direct_block = 2; name = 0x2f ∷ replicate 63 0 }

-- the branch of relisfs_mount that formats
unfoldable pub format_disk : Relisfs → Relisfs
format_disk fs =
    let fs₁ = (store_block 0 (record fs { block_buf = splice 0 superblock fs.block_buf })).1 in
    let fs₂ = (store_block 1 (record fs₁ { block_buf = replicate block_size 0 })).1 in
    let fs₃ = (load_block 1 fs₂).1 in (store_block 1 (put_inode new_root fs₃)).1

-- the end of relisfs_mount: the inode comes to memory
unfoldable pub load_root : Relisfs → Relisfs
load_root fs =
    let fs₁ = (load_block 1 fs).1 in
    record fs₁ { inode = decode_inode (drop sizeof_disk_inode fs₁.block_buf) }

-- relisfs_mount without the directory entry; `none` for NULL
unfoldable pub relisfs_mount : Relisfs → Option Relisfs
relisfs_mount fs =
    let (ok, fs₁) = load_block 0 fs in
    if not ok
    then none
    else if read32 0 fs₁.block_buf == relisfs_magic
    then some (load_root fs₁)
    else some (load_root (format_disk fs₁))
