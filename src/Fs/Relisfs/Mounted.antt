-- ===== src/Fs/Relisfs/Mounted.antt =====
-- A file system of fs/relisfs/relisfs.c that is mounted, and what a write into its file leaves.
use relis.Prelude.{
  ℕ, ◌+◌, ◌%◌, ◌^◌, ◌≤◌, ◌≡◌, refl, sym, ap, ◌∙◌, subst, ◌≢◌, true, false, some, List, [], arith,
  leb, ◌==◌, if◌then◌else◌, if_lem, length, drop, pos,
}
use relis.Drivers.Ata.{block_size}
use relis.Fs.Relisfs.{
  Relisfs, load_block, store_block, splice, decode_inode, read32, relisfs_magic, sizeof_disk_inode,
  relisfs_write, update_inode,
}
use relis.Fs.Relisfs.Encode.{Fits, length-splice}
use relis.Fs.Relisfs.Blocks.{Sized, Prompt, place, load_block-Loaded, store_block-Stored}

-- A mounted file system: the drive asks for the data of every transfer, the blocks have 512 bytes, the file's data are not in the
-- table of inodes or the superblock, and the table has the inode that is in memory.
pub record Mounted (fs : Relisfs) : Type 0 where
  pub prompt : Prompt fs.drive.status
  pub fits : Fits fs.inode
  pub used : fs.inode.used ≢ 0
  pub apart : place fs.inode.direct_block ≢ 0 × place fs.inode.direct_block ≢ 1
  pub sized : Sized fs.drive.blocks
  pub synced : decode_inode (drop sizeof_disk_inode (fs.drive.blocks 1)) ≡ fs.inode
  pub magic : read32 0 (fs.drive.blocks 0) ≡ relisfs_magic

-- the state behind the two transfers of relisfs_write
abbrev pub data_stored : List ℕ → ℕ → Relisfs → Relisfs
data_stored bytes f_pos fs =
    let fs₁ = (load_block fs.inode.direct_block fs).1 in
    (store_block fs.inode.direct_block
      (record fs₁ { block_buf = splice f_pos bytes fs₁.block_buf })).1

-- what the write leaves there
pub record Data (bytes : List ℕ) (f_pos : ℕ) (fs fs' : Relisfs) : Type 0 where
  pub status : fs'.drive.status ≡ fs.drive.status
  pub inode : fs'.inode ≡ fs.inode
  pub blocks :
      (j : ℕ)
      → fs'.drive.blocks j ≡ (
          if place fs.inode.direct_block == j
          then splice f_pos bytes (fs.drive.blocks (place fs.inode.direct_block))
          else fs.drive.blocks j)

stored :
    (bytes : List ℕ) (f_pos : ℕ) (fs : Relisfs)
    → Prompt fs.drive.status
    → Sized fs.drive.blocks
    → f_pos + length bytes ≤ block_size
    → (load_block fs.inode.direct_block fs).0 ≡ true
      × (store_block fs.inode.direct_block (record (load_block fs.inode.direct_block fs).1 {
        block_buf = splice f_pos bytes (load_block fs.inode.direct_block fs).1.block_buf;
      })).0
        ≡ true
      × Data bytes f_pos fs (data_stored bytes f_pos fs)
stored bytes f_pos fs p sized h =
    let lba = fs.inode.direct_block in
    let l = load_block-Loaded lba fs p (sized (place lba)) in
    let fs₁ = (load_block lba fs).1 in
    let fs₂ = record fs₁ { block_buf = splice f_pos bytes fs₁.block_buf } in
    let full : length fs₁.block_buf ≡ block_size = ap length l.buffer ∙ sized (place lba) in
    let whole = length-splice f_pos bytes fs₁.block_buf (omega (arith, full, h)) ∙ full in
    let s = store_block-Stored lba fs₂ (subst Prompt (sym l.status) p) whole in
    (
      l.ok,
      s.ok,
      record {
        status = s.status ∙ l.status;
        inode = s.inode ∙ l.inode;
        blocks = λ j. s.blocks j ∙ rw (l.buffer, l.blocks) refl;
      },
    )

pub write_lem :
    (bytes : List ℕ) (f_pos : ℕ) (fs : Relisfs)
    → Prompt fs.drive.status
    → Sized fs.drive.blocks
    → fs.inode.used ≢ 0
    → f_pos + length bytes ≤ block_size
    → relisfs_write bytes f_pos fs
      ≡ some (
        pos (length bytes),
        [],
        f_pos + length bytes,
        update_inode (f_pos + length bytes) (data_stored bytes f_pos fs),
      )
unfolding relisfs_write
write_lem bytes f_pos fs p sized u h =
    let w = stored bytes f_pos fs p sized h in
    let end : (f_pos + length bytes) % 2 ^ 32 ≡ f_pos + length bytes = omega arith in
    let in_use : (fs.inode.used == 0) ≡ false = ground (arith, u) in
    let inside : leb (f_pos + length bytes) block_size ≡ true = ground (arith, h) in
    rw (in_use, w.0, inside, w.1, end) refl

pub data_stored-Data :
    (bytes : List ℕ) (f_pos : ℕ) (fs : Relisfs)
    → Prompt fs.drive.status
    → Sized fs.drive.blocks
    → f_pos + length bytes ≤ block_size
    → Data bytes f_pos fs (data_stored bytes f_pos fs)
data_stored-Data bytes f_pos fs p sized h = (stored bytes f_pos fs p sized h).2

-- a block that a write leaves alone
pub other : (b c : List ℕ) (i j : ℕ) → i ≢ j → (if i == j then b else c) ≡ c
other b c i j h = ground (arith, h)

-- A write inside the block leaves the file system mounted.
pub Data-Mounted :
    (bytes : List ℕ) (f_pos : ℕ) (fs fs' : Relisfs)
    → Mounted fs
    → f_pos + length bytes ≤ block_size
    → Data bytes f_pos fs fs'
    → Mounted fs'
Data-Mounted bytes f_pos fs fs' m h d =
    let one = d.blocks 1 ∙ other _ _ (place fs.inode.direct_block) 1 m.apart.1 in
    let zeroth = d.blocks 0 ∙ other _ _ (place fs.inode.direct_block) 0 m.apart.0 in
    record {
      prompt = subst Prompt (sym d.status) m.prompt;
      fits = subst Fits (sym d.inode) m.fits;
      used = subst (λ i. i.used ≢ 0) (sym d.inode) m.used;
      apart =
          subst (λ i. place i.direct_block ≢ 0 × place i.direct_block ≢ 1) (sym d.inode) m.apart;
      sized = λ j.
          ap length (d.blocks j)
          ∙ if_lem (λ b. length b ≡ block_size) (place fs.inode.direct_block == j)
              (length-splice f_pos bytes (fs.drive.blocks (place fs.inode.direct_block)) (
                  subst (λ n. f_pos + length bytes ≤ n)
                    (sym (m.sized (place fs.inode.direct_block))) h)
                ∙ m.sized (place fs.inode.direct_block))
              (m.sized j);
      synced = ap (λ b. decode_inode (drop sizeof_disk_inode b)) one ∙ m.synced ∙ sym d.inode;
      magic = ap (read32 0) zeroth ∙ m.magic;
    }
