-- ===== src/Fs/Relisfs/Format.antt =====
-- relisfs_mount of fs/relisfs/relisfs.c on a disk that has no file system yet.
use relis.Prelude.{
  ℕ, ◌+◌, ◌≡◌, refl, sym, ap, ◌∙◌, subst, ◌≢◌, false, some, List, arith, ◌==◌, if◌then◌else◌,
  if_lem, length, drop, replicate, length-replicate,
}
use relis.Drivers.Ata.{block_size}
use relis.Fs.Relisfs.{
  DiskInode, Relisfs, load_block, store_block, read32, le32, relisfs_magic, sizeof_disk_inode,
  decode_inode, encode_inode, splice, load_root, relisfs_mount, format_disk, superblock, new_root,
  put_inode,
}
use relis.Fs.Relisfs.Encode.{
  Fits, drop-splice, decode_inode-encode_inode, length-splice, length-encode_inode,
}
use relis.Fs.Relisfs.Blocks.{Sized, Prompt, load_block-Loaded, store_block-Stored}
use relis.Fs.Relisfs.Mounted.{Mounted}

-- the disk of a new file system: the superblock over what block 0 held, and the root in the table
record Formatted (fs fs' : Relisfs) : Type 0 where
  status : fs'.drive.status ≡ fs.drive.status
  blocks :
      (j : ℕ)
      → fs'.drive.blocks j ≡ (
          if 1 == j
          then splice sizeof_disk_inode (encode_inode new_root) (replicate block_size 0)
          else (if 0 == j then splice 0 superblock fs.block_buf else fs.drive.blocks j))

-- the writes to block 1 hide each other and keep the others
layer :
    (j : ℕ) (t t' u v w z z' : List ℕ)
    → t ≡ t'
    → u ≡ (if 1 == j then v else w)
    → w ≡ (if 0 == j then z else z')
    → (if 1 == j then t else u) ≡ (if 1 == j then t' else (if 0 == j then z else z'))
layer j t t' u v w z z' a b c = ground (arith, a, b, c)

length-superblock : length superblock ≡ 16
unfolding superblock le32
length-superblock = refl

new_root-Fits : Fits new_root
unfolding new_root
new_root-Fits = record {
  used = omega arith;
  size = omega arith;
  direct_block = omega arith;
  name = refl;
}

-- a block with the root in the table of inodes
length-table :
    (b : List ℕ)
    → length b ≡ block_size
    → length (splice sizeof_disk_inode (encode_inode new_root) b) ≡ block_size
length-table b h =
    length-splice sizeof_disk_inode (encode_inode new_root) b
      (omega (arith, h, length-encode_inode new_root new_root-Fits.name))
    ∙ h

length-first : (b : List ℕ) → length b ≡ block_size → length (splice 0 superblock b) ≡ block_size
length-first b h = length-splice 0 superblock b (omega (arith, h, length-superblock)) ∙ h

format_disk_lem :
    (fs : Relisfs)
    → Prompt fs.drive.status
    → length fs.block_buf ≡ block_size
    → Formatted fs (format_disk fs)
unfolding format_disk put_inode
format_disk_lem fs p buf =
    let a = record fs { block_buf = splice 0 superblock fs.block_buf } in
    let s₁ = store_block-Stored 0 a p (length-first fs.block_buf buf) in
    let fs₁ = (store_block 0 a).1 in
    let b = record fs₁ { block_buf = replicate block_size 0 } in
    let p₁ = subst Prompt (sym s₁.status) p in
    let s₂ = store_block-Stored 1 b p₁ (length-replicate {A = ℕ} block_size 0) in
    let fs₂ = (store_block 1 b).1 in
    let p₂ = subst Prompt (sym s₂.status) p₁ in
    let zeros = ap length (s₂.blocks 1) ∙ length-replicate {A = ℕ} block_size 0 in
    let l = load_block-Loaded 1 fs₂ p₂ zeros in
    let fs₃ = (load_block 1 fs₂).1 in
    let s₃ =
      store_block-Stored 1 (put_inode new_root fs₃) (subst Prompt (sym l.status) p₂)
        (length-table fs₃.block_buf (ap length l.buffer ∙ zeros)) in
    let table = ap (splice sizeof_disk_inode (encode_inode new_root)) (l.buffer ∙ s₂.blocks 1) in
    let under : (j : ℕ) → fs₃.drive.blocks j ≡ fs₂.drive.blocks j =
      λ j. ap (λ (f : ℕ → List ℕ). f j) l.blocks in
    record {
      status = s₃.status ∙ l.status ∙ s₂.status ∙ s₁.status;
      blocks = λ j. s₃.blocks j ∙ layer j _ _ _ _ _ _ _ table (under j ∙ s₂.blocks j) (s₁.blocks j);
    }

new_root_data : new_root.used ≡ 1 × new_root.direct_block ≡ 2
unfolding new_root
new_root_data = (refl, refl)

magic_written : (buf : List ℕ) → read32 0 (splice 0 superblock buf) ≡ relisfs_magic
unfolding read32 splice superblock le32
magic_written buf = refl

table_decodes :
    decode_inode (
      drop sizeof_disk_inode
        (splice sizeof_disk_inode (encode_inode new_root) (replicate block_size 0)))
    ≡ new_root
table_decodes =
    let zeros = replicate block_size 0 in
    let rest = drop (sizeof_disk_inode + length (encode_inode new_root)) zeros in
    ap decode_inode (drop-splice sizeof_disk_inode (encode_inode new_root) zeros (omega arith))
    ∙ decode_inode-encode_inode new_root rest new_root-Fits

-- A new disk with its root in memory is mounted.
fresh-Mounted :
    (base fs m : Relisfs)
    → Prompt base.drive.status
    → Formatted base fs
    → m.drive.blocks ≡ fs.drive.blocks
    → m.drive.status ≡ fs.drive.status
    → m.inode ≡ new_root
    → length base.block_buf ≡ block_size
    → Sized base.drive.blocks
    → Mounted m
fresh-Mounted base fs m p f b s i buf sized =
    let at : (j : ℕ) → m.drive.blocks j ≡ fs.drive.blocks j = λ j. ap (λ (g : ℕ → List ℕ). g j) b in
    let two : m.inode.direct_block ≡ 2 =
      ap (λ (v : DiskInode). v.direct_block) i ∙ new_root_data.1 in
    record {
      prompt = subst Prompt (sym (s ∙ f.status)) p;
      fits = subst Fits (sym i) new_root-Fits;
      used = λ e. absurd (omega (arith, e, new_root_data.0, ap (λ (v : DiskInode). v.used) i));
      apart = (λ e. absurd (omega (arith, e, two)), λ e. absurd (omega (arith, e, two)));
      sized = λ j.
          ap length (at j ∙ f.blocks j)
          ∙ if_lem (λ (c : List ℕ). length c ≡ block_size) (1 == j)
              (length-table (replicate block_size 0) (length-replicate {A = ℕ} block_size 0))
              (if_lem (λ (c : List ℕ). length c ≡ block_size) (0 == j)
                (length-first base.block_buf buf) (sized j));
      synced =
          ap (λ (c : List ℕ). decode_inode (drop sizeof_disk_inode c)) (at 1 ∙ f.blocks 1)
          ∙ table_decodes
          ∙ sym i;
      magic = ap (read32 0) (at 0 ∙ f.blocks 0) ∙ magic_written base.block_buf;
    }

-- On a drive that asks for the data of every transfer in time, with blocks of 512 bytes, relisfs_mount makes a file system out of a disk
-- that has none: it is mounted, and its file is new and empty.
pub relisfs_mount-formats :
    (fs : Relisfs)
    → Prompt fs.drive.status
    → Sized fs.drive.blocks
    → read32 0 (fs.drive.blocks 0) ≢ relisfs_magic
    → (m : Relisfs) × (relisfs_mount fs ≡ some m) × (m.inode ≡ new_root) × Mounted m
unfolding relisfs_mount load_root
relisfs_mount-formats fs p sized h =
    let l = load_block-Loaded 0 fs p (sized 0) in
    let fs₁ = (load_block 0 fs).1 in
    let p₁ = subst Prompt (sym l.status) p in
    let buf = ap length l.buffer ∙ sized 0 in
    let f = format_disk_lem fs₁ p₁ buf in
    let fs₂ = format_disk fs₁ in
    let p₂ = subst Prompt (sym f.status) p₁ in
    let one =
      ap length (f.blocks 1)
      ∙ length-table (replicate block_size 0) (length-replicate {A = ℕ} block_size 0) in
    let k = load_block-Loaded 1 fs₂ p₂ one in
    let no : (read32 0 fs₁.block_buf == relisfs_magic) ≡ false = rw l.buffer (ground (arith, h)) in
    let root : (load_root fs₂).inode ≡ new_root =
      ap (λ (b : List ℕ). decode_inode (drop sizeof_disk_inode b)) (k.buffer ∙ f.blocks 1)
      ∙ table_decodes in
    (
      load_root fs₂,
      rw (l.ok, no) refl,
      root,
      fresh-Mounted fs₁ fs₂ (load_root fs₂) p₁ f k.blocks k.status root buf
          (λ j. ap (λ (b : ℕ → List ℕ). length (b j)) l.blocks ∙ sized j),
    )
