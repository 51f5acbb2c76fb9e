-- ===== src/Fs/Relisfs/Update.antt =====
-- The end of relisfs_write of fs/relisfs/relisfs.c: the inode on the disk follows the one in memory.
use relis.Prelude.{
  ℕ, ◌+◌, ◌≤◌, ◌≡◌, refl, sym, ap, ◌∙◌, subst, ◌≢◌, inl, inr, List, arith, ltb, ◌==◌, if◌then◌else◌,
  Bool-cases, if_lem, length, drop,
}
use relis.Drivers.Ata.{block_size}
use relis.Fs.Relisfs.{
  DiskInode, Relisfs, load_block, store_block, splice, encode_inode, decode_inode, read32,
  sizeof_disk_inode, put_inode, update_inode,
}
use relis.Fs.Relisfs.Encode.{
  Fits, length-splice, drop-splice, decode_inode-encode_inode, length-encode_inode,
}
use relis.Fs.Relisfs.Blocks.{Prompt, place, load_block-Loaded, store_block-Stored}
use relis.Fs.Relisfs.Mounted.{Mounted, other}

-- the inode once the file ends at `end` or behind it
abbrev pub grown : ℕ → DiskInode → DiskInode
grown end i = record i { size = if ltb i.size end then end else i.size }

pub record Updated (end : ℕ) (fs fs' : Relisfs) : Type 0 where
  pub mounted : Mounted fs'
  pub inode : fs'.inode ≡ grown end fs.inode
  pub others : (j : ℕ) → j ≢ 1 → fs'.drive.blocks j ≡ fs.drive.blocks j

-- the state behind the two transfers of a file that grew
abbrev rewritten : ℕ → Relisfs → Relisfs
rewritten end fs =
    let fs₁ = (load_block 1 (record fs { inode = record (fs.inode) { size = end } })).1 in
    (store_block 1 (put_inode fs₁.inode fs₁)).1

update_lem :
    (end : ℕ) (fs : Relisfs)
    → Prompt fs.drive.status
    → length (fs.drive.blocks 1) ≡ block_size
    → update_inode end fs ≡ (if ltb fs.inode.size end then rewritten end fs else fs)
unfolding update_inode
update_lem end fs p sized =
    let l = load_block-Loaded 1 (record fs { inode = record (fs.inode) { size = end } }) p sized in
    rw l.ok refl

-- the inode in front of what the block held
record Rewritten (i : DiskInode) (fs fs' : Relisfs) : Type 0 where
  status : fs'.drive.status ≡ fs.drive.status
  inode : fs'.inode ≡ i
  blocks :
      (j : ℕ)
      → fs'.drive.blocks j ≡ (
          if 1 == j
          then splice sizeof_disk_inode (encode_inode i) (fs.drive.blocks 1)
          else fs.drive.blocks j)

rewritten_lem :
    (end : ℕ) (fs : Relisfs)
    → Prompt fs.drive.status
    → length (fs.drive.blocks 1) ≡ block_size
    → length fs.inode.name ≡ 64
    → Rewritten (record (fs.inode) { size = end }) fs (rewritten end fs)
unfolding put_inode
rewritten_lem end fs p sized name =
    let g = record fs { inode = record (fs.inode) { size = end } } in
    let l = load_block-Loaded 1 g p sized in
    let fs₁ = (load_block 1 g).1 in
    let full : length fs₁.block_buf ≡ block_size = ap length l.buffer ∙ sized in
    let named : length fs₁.inode.name ≡ 64 = ap (λ (v : DiskInode). length v.name) l.inode ∙ name in
    let whole =
      length-splice sizeof_disk_inode (encode_inode fs₁.inode) fs₁.block_buf
        (omega (arith, full, length-encode_inode fs₁.inode named))
      ∙ full in
    let s = store_block-Stored 1 (put_inode fs₁.inode fs₁) (subst Prompt (sym l.status) p) whole in
    record {
      status = s.status ∙ l.status;
      inode = s.inode ∙ l.inode;
      blocks = λ j. s.blocks j ∙ rw (l.buffer, l.blocks, l.inode) refl;
    }

Rewritten-Mounted :
    (i : DiskInode) (fs fs' : Relisfs)
    → Mounted fs
    → Fits i
    → i.used ≢ 0
    → i.direct_block ≡ fs.inode.direct_block
    → Rewritten i fs fs'
    → Mounted fs'
Rewritten-Mounted i fs fs' m f u same w =
    let b = fs.drive.blocks 1 in
    let enough : sizeof_disk_inode + length (encode_inode i) ≤ length b =
      omega (arith, length-encode_inode i f.name, m.sized 1) in
    let start : sizeof_disk_inode ≤ length b = omega (arith, m.sized 1) in
    let rest = drop (sizeof_disk_inode + length (encode_inode i)) b in
    record {
      prompt = subst Prompt (sym w.status) m.prompt;
      fits = subst Fits (sym w.inode) f;
      used = subst (λ (v : DiskInode). v.used ≢ 0) (sym w.inode) u;
      apart =
          subst (λ (n : ℕ). place n ≢ 0 × place n ≢ 1)
            (sym (ap (λ (v : DiskInode). v.direct_block) w.inode ∙ same)) m.apart;
      sized = λ j.
          ap length (w.blocks j)
          ∙ if_lem (λ (c : List ℕ). length c ≡ block_size) (1 == j)
              (length-splice sizeof_disk_inode (encode_inode i) b enough ∙ m.sized 1) (m.sized j);
      synced =
          ap (λ (c : List ℕ). decode_inode (drop sizeof_disk_inode c)) (w.blocks 1)
          ∙ ap decode_inode (drop-splice sizeof_disk_inode (encode_inode i) b start)
          ∙ decode_inode-encode_inode i rest f
          ∙ sym w.inode;
      magic = ap (read32 0) (w.blocks 0) ∙ m.magic;
    }

pub update_inode-Updated :
    (end : ℕ) (fs : Relisfs) → Mounted fs → end ≤ block_size → Updated end fs (update_inode end fs)
update_inode-Updated end fs m h = elim (Bool-cases (ltb fs.inode.size end)) [
  | inl g ↦
      let i = record (fs.inode) { size = end } in
      let w = rewritten_lem end fs m.prompt (m.sized 1) m.fits.name in
      let f : Fits i = record {
        used = m.fits.used;
        size = omega arith;
        direct_block = m.fits.direct_block;
        name = m.fits.name;
      } in
      subst (Updated end fs) (sym (update_lem end fs m.prompt (m.sized 1) ∙ rw g refl)) (record {
        mounted = Rewritten-Mounted i fs (rewritten end fs) m f m.used refl w;
        inode = w.inode ∙ rw g refl;
        others = λ j n. w.blocks j ∙ other _ _ 1 j (λ e. n (sym e));
      })
  | inr g ↦
      subst (Updated end fs) (sym (update_lem end fs m.prompt (m.sized 1) ∙ rw g refl))
        (record { mounted = m; inode = rw g refl; others = λ j n. refl })
]
