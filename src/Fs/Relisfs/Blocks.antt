-- ===== src/Fs/Relisfs/Blocks.antt =====
-- fs/relisfs/relisfs.c on a drive that asks for its data in time: what a block read or written does to the state.
use relis.Prelude.{
  ℕ, ◌+◌, ◌*◌, ◌%◌, ◌^◌, ◌≡◌, refl, ap, ◌∙◌, ◌⊎◌, inl, inr, Bool, true, List, [], ◌∷◌, arith, ◌==◌,
  if◌then◌else◌, Bool-cases, length, drop,
}
use relis.Drivers.Ata.{
  Drive, block_size, read_sectors, write_sectors, insw, outsw, sent, ready, select, issue, flush,
  ata_read_block, ata_write_block,
}
use relis.Drivers.Ata.Blocks.{Reply, read_lem, write_lem, take_whole}
use relis.Fs.Relisfs.{Relisfs, load_block, store_block}

-- Behind every command that reads or writes, the drive asks for the data in time. Nothing is said of
-- its status behind a flush.
abbrev pub Prompt : (ℕ → ℕ → ℕ → ℕ) → Type 0
Prompt status = (c i : ℕ) → (c ≡ read_sectors) ⊎ (c ≡ write_sectors) → Reply (status c i) true

-- blocks of 512 bytes
abbrev pub Sized : (ℕ → List ℕ) → Type 0
Sized blocks = (j : ℕ) → length (blocks j) ≡ block_size

-- the number of a block on the disk
abbrev pub place : ℕ → ℕ
place lba = lba % 2 ^ 28

pub record Loaded (lba : ℕ) (fs : Relisfs) (r : Bool × Relisfs) : Type 0 where
  pub ok : r.0 ≡ true
  pub buffer : r.1.block_buf ≡ fs.drive.blocks (place lba)
  pub blocks : r.1.drive.blocks ≡ fs.drive.blocks
  pub status : r.1.drive.status ≡ fs.drive.status
  pub inode : r.1.inode ≡ fs.inode

pub record Stored (lba : ℕ) (fs : Relisfs) (r : Bool × Relisfs) : Type 0 where
  pub ok : r.0 ≡ true
  pub buffer : r.1.block_buf ≡ fs.block_buf
  pub blocks :
      (j : ℕ) → r.1.drive.blocks j ≡ (if place lba == j then fs.block_buf else fs.drive.blocks j)
  pub status : r.1.drive.status ≡ fs.drive.status
  pub inode : r.1.inode ≡ fs.inode

sent-keeps :
    (rest : List ℕ) (d : Drive)
    → ((sent rest d).blocks ≡ d.blocks) × ((sent rest d).status ≡ d.status)
unfolding sent
sent-keeps [] d = (refl, refl)
sent-keeps (x ∷ rest) d = (refl, refl)

insw-keeps :
    (n : ℕ) (d : Drive) → ((insw n d).1.blocks ≡ d.blocks) × ((insw n d).1.status ≡ d.status)
unfolding insw
insw-keeps n d = sent-keeps (drop (2 * n) d.port) d

outsw-status : (n : ℕ) (buf : List ℕ) (d : Drive) → (outsw n buf d).status ≡ d.status
unfolding outsw
outsw-status n buf d = ground arith

read-keeps :
    (lba : ℕ) (d : Drive)
    → ((ata_read_block lba d).1.blocks ≡ d.blocks) × ((ata_read_block lba d).1.status ≡ d.status)
unfolding ata_read_block ready select issue
read-keeps lba d =
    let k = insw-keeps 256 (ready (select lba read_sectors d)).1 in
    elim (Bool-cases (ready (select lba read_sectors d)).0) [
      | inl e ↦ rw e (k.0, k.1)
      | inr e ↦ rw e (refl, refl)
    ]

write-status :
    (lba : ℕ) (buf : List ℕ) (d : Drive) → (ata_write_block lba buf d).1.status ≡ d.status
unfolding ata_write_block ready select issue flush
write-status lba buf d =
    let k = outsw-status 256 buf (ready (select lba write_sectors d)).1 in
    elim (Bool-cases (ready (select lba write_sectors d)).0) [ inl e ↦ rw e k | inr e ↦ rw e refl ]

pub load_block-Loaded :
    (lba : ℕ) (fs : Relisfs)
    → Prompt fs.drive.status
    → length (fs.drive.blocks (place lba)) ≡ block_size
    → Loaded lba fs (load_block lba fs)
unfolding load_block
load_block-Loaded lba fs p l =
    let r = read_lem lba fs.drive true (p read_sectors (fs.drive.issued + 1) (inl refl)) l in
    let k = read-keeps lba fs.drive in
    record {
      ok = rw (load_block, r.0) refl;
      buffer = rw (load_block, r.0) refl;
      blocks = rw (load_block, r.0) (k.0);
      status = rw (load_block, r.0) (k.1);
      inode = rw (load_block, r.0) refl;
    }

pub store_block-Stored :
    (lba : ℕ) (fs : Relisfs)
    → Prompt fs.drive.status
    → length fs.block_buf ≡ block_size
    → Stored lba fs (store_block lba fs)
unfolding store_block
store_block-Stored lba fs p l =
    let r =
      write_lem lba fs.block_buf fs.drive true (p write_sectors (fs.drive.issued + 1) (inr refl))
        (omega (arith, l)) in
    record {
      ok = r.0;
      buffer = refl;
      blocks = λ j.
          r.1 j
          ∙ ap (λ (b : List ℕ). if place lba == j then b else fs.drive.blocks j)
              (take_whole block_size fs.block_buf l);
      status = write-status lba fs.block_buf fs.drive;
      inode = refl;
    }
