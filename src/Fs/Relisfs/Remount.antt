-- ===== src/Fs/Relisfs/Remount.antt =====
-- relisfs_mount of fs/relisfs/relisfs.c, on a disk that has the file system and on one that has none.
use relis.Prelude.{ℕ, ◌≡◌, refl, sym, ap, ◌∙◌, subst, ◌≢◌, some, List, length, drop}
use relis.Drivers.Ata.{block_size}
use relis.Fs.Relisfs.{
  DiskInode, Relisfs, load_block, read32, sizeof_disk_inode, decode_inode, load_root, relisfs_mount,
}
use relis.Fs.Relisfs.Encode.{Fits}
use relis.Fs.Relisfs.Blocks.{Prompt, place, load_block-Loaded}
use relis.Fs.Relisfs.Mounted.{Mounted}

-- the part of relisfs_mount on a disk that has the magic number
pub mount_lem :
    (fs : Relisfs)
    → Mounted fs
    → (m : Relisfs) × (relisfs_mount fs ≡ some m)
      × (m.inode ≡ fs.inode)
      × (m.drive.blocks ≡ fs.drive.blocks)
      × (m.drive.status ≡ fs.drive.status)
unfolding relisfs_mount load_root
mount_lem fs v =
    let l = load_block-Loaded 0 fs v.prompt (v.sized 0) in
    let fs₁ = (load_block 0 fs).1 in
    let k =
      load_block-Loaded 1 fs₁ (subst Prompt (sym l.status) v.prompt)
        (ap (λ (f : ℕ → List ℕ). length (f 1)) l.blocks ∙ v.sized 1) in
    (
      load_root fs₁,
      rw (l.ok, l.buffer, v.magic) refl,
      ap (λ (b : List ℕ). decode_inode (drop sizeof_disk_inode b))
            (k.buffer ∙ ap (λ (f : ℕ → List ℕ). f 1) l.blocks)
          ∙ v.synced,
      k.blocks ∙ l.blocks,
      k.status ∙ l.status,
    )

-- All that the predicate reads is the disk and the inode.
pub Mounted-same :
    (fs m : Relisfs)
    → Mounted fs
    → m.inode ≡ fs.inode
    → m.drive.blocks ≡ fs.drive.blocks
    → m.drive.status ≡ fs.drive.status
    → Mounted m
Mounted-same fs m v i b s = record {
  prompt = subst Prompt (sym s) v.prompt;
  fits = subst Fits (sym i) v.fits;
  used = subst (λ (n : DiskInode). n.used ≢ 0) (sym i) v.used;
  apart =
      subst (λ (n : DiskInode). place n.direct_block ≢ 0 × place n.direct_block ≢ 1) (sym i)
        v.apart;
  sized = subst (λ (f : ℕ → List ℕ). (j : ℕ) → length (f j) ≡ block_size) (sym b) v.sized;
  synced =
      ap (λ (f : ℕ → List ℕ). decode_inode (drop sizeof_disk_inode (f 1))) b ∙ v.synced ∙ sym i;
  magic = ap (λ (f : ℕ → List ℕ). read32 0 (f 0)) b ∙ v.magic;
}
