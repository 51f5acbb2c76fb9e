-- ===== src/Fs/Relisfs/RoundTrip.antt =====
-- Files of fs/relisfs/relisfs.c keep what is written, also over a new mount.
use relis.Prelude.{
  ℕ, ◌+◌, ◌%◌, ◌^◌, ◌≤◌, ◌<◌, ◌≡◌, refl, sym, ap, ◌∙◌, subst, ◌≢◌, true, false, some, List, [],
  arith, ltb, leb, ◌==◌, if◌then◌else◌, length, take, drop, pos,
}
use relis.Drivers.Ata.{block_size}
use relis.Fs.Relisfs.{
  DiskInode, Relisfs, load_block, clip, relisfs_read, relisfs_write, update_inode, relisfs_mount,
}
use relis.Fs.Relisfs.Encode.{take-splice}
use relis.Fs.Relisfs.Blocks.{Sized, Prompt, place, load_block-Loaded}
use relis.Fs.Relisfs.Mounted.{Mounted, data_stored, Data, write_lem, data_stored-Data, Data-Mounted}
use relis.Fs.Relisfs.Remount.{mount_lem, Mounted-same}
use relis.Fs.Relisfs.Update.{Updated, update_inode-Updated}

read_lem :
    (count f_pos : ℕ) (fs : Relisfs)
    → Prompt fs.drive.status
    → Sized fs.drive.blocks
    → fs.inode.used ≢ 0
    → f_pos < fs.inode.size
    → f_pos + count ≤ fs.inode.size
    → f_pos + count ≤ block_size
    → relisfs_read count f_pos fs
      ≡ some (
        pos count,
        take count (drop f_pos (fs.drive.blocks (place fs.inode.direct_block))),
        f_pos + count,
        (load_block fs.inode.direct_block fs).1,
      )
unfolding relisfs_read clip
read_lem count f_pos fs p sized u a b h =
    let l = load_block-Loaded fs.inode.direct_block fs p (sized (place fs.inode.direct_block)) in
    let end : (f_pos + count) % 2 ^ 32 ≡ f_pos + count = omega arith in
    let in_use : (fs.inode.used == 0) ≡ false = ground (arith, u) in
    let before : leb fs.inode.size f_pos ≡ false = ground (arith, a) in
    let all : ltb fs.inode.size ((f_pos + count) % 2 ^ 64) ≡ false = ground (arith, b) in
    let inside : leb (f_pos + count) block_size ≡ true = ground (arith, h) in
    rw (in_use, before, all, inside, l.ok, l.buffer, end) refl

-- what a read of `bytes` at `f_pos` must give
abbrev pub ReadsBack : List ℕ → ℕ → Relisfs → Type 0
ReadsBack bytes f_pos m =
    (m' : Relisfs) × (relisfs_read (length bytes) f_pos m
      ≡ some (pos (length bytes), bytes, f_pos + length bytes, m'))

reads_back :
    (bytes : List ℕ) (f_pos : ℕ) (m : Relisfs)
    → Mounted m
    → 0 < length bytes
    → f_pos + length bytes ≤ m.inode.size
    → f_pos + length bytes ≤ block_size
    → take (length bytes) (drop f_pos (m.drive.blocks (place m.inode.direct_block))) ≡ bytes
    → ReadsBack bytes f_pos m
reads_back bytes f_pos m v h a b e =
    let r = read_lem (length bytes) f_pos m v.prompt v.sized v.used (omega arith) a b in
    (
      (load_block m.inode.direct_block m).1,
      r
          ∙ ap
              (λ (bs : List ℕ). some (
                pos (length bytes),
                bs,
                f_pos + length bytes,
                (load_block m.inode.direct_block m).1,
              ))
              e,
    )

Updated-long : (end : ℕ) (fs fs' : Relisfs) → Updated end fs fs' → end ≤ fs'.inode.size
Updated-long end fs fs' u =
    subst (λ (i : DiskInode). end ≤ i.size) (sym u.inode) (longer end fs.inode.size)
  where
    longer : (end size : ℕ) → end ≤ (if ltb size end then end else size)
    longer end size = ground arith

-- what the file's block holds behind a write
content_lem :
    (bytes : List ℕ) (f_pos : ℕ) (fs mid fs' : Relisfs)
    → Mounted fs
    → f_pos + length bytes ≤ block_size
    → Data bytes f_pos fs mid
    → Updated (f_pos + length bytes) mid fs'
    → take (length bytes) (drop f_pos (fs'.drive.blocks (place fs'.inode.direct_block))) ≡ bytes
content_lem bytes f_pos fs mid fs' v b d u =
    let lba = place fs.inode.direct_block in
    let same : place fs'.inode.direct_block ≡ lba =
      ap (λ (i : DiskInode). place i.direct_block) u.inode
      ∙ ap (λ (i : DiskInode). place i.direct_block) d.inode in
    let inside : f_pos ≤ length (fs.drive.blocks lba) = omega (arith, v.sized lba, b) in
    ap (λ (j : ℕ). take (length bytes) (drop f_pos (fs'.drive.blocks j))) same
    ∙ ap (λ (c : List ℕ). take (length bytes) (drop f_pos c))
        (u.others lba v.apart.1 ∙ d.blocks lba ∙ itself _ _ lba)
    ∙ take-splice f_pos bytes (fs.drive.blocks lba) inside
  where
    itself : (x y : List ℕ) (i : ℕ) → (if i == i then x else y) ≡ x
    itself x y i = ground arith

-- In a mounted file system, on a drive that asks for the data of every transfer in time, a write that is not empty and ends inside the
-- block reports all its bytes, leaves the file system mounted, and a read at the same place gives
-- the bytes back, both at once and after relisfs_mount has read the disk again.
pub relisfs_write-read :
    (bytes : List ℕ) (f_pos : ℕ) (fs : Relisfs)
    → Mounted fs
    → 0 < length bytes
    → f_pos + length bytes ≤ block_size
    → (fs' : Relisfs) × (relisfs_write bytes f_pos fs
        ≡ some (pos (length bytes), [], f_pos + length bytes, fs'))
      × Mounted fs'
      × ReadsBack bytes f_pos fs'
      × ((m : Relisfs) × (relisfs_mount fs' ≡ some m) × Mounted m × ReadsBack bytes f_pos m)
relisfs_write-read bytes f_pos fs v h b =
    let end = f_pos + length bytes in
    let w = write_lem bytes f_pos fs v.prompt v.sized v.used b in
    let d = data_stored-Data bytes f_pos fs v.prompt v.sized b in
    let before = Data-Mounted bytes f_pos fs (data_stored bytes f_pos fs) v b d in
    let u = update_inode-Updated end (data_stored bytes f_pos fs) before b in
    let fs' = update_inode end (data_stored bytes f_pos fs) in
    let long = Updated-long end (data_stored bytes f_pos fs) fs' u in
    let content = content_lem bytes f_pos fs (data_stored bytes f_pos fs) fs' v b d u in
    let r = mount_lem fs' u.mounted in
    let again = Mounted-same fs' r.0 u.mounted r.2 r.3 r.4 in
    (
      fs',
      w,
      u.mounted,
      reads_back bytes f_pos fs' u.mounted h long b content,
      (
        r.0,
        r.1,
        again,
        reads_back bytes f_pos r.0 again h (subst (λ (i : DiskInode). end ≤ i.size) (sym r.2) long)
            b (rw (r.2, r.3) content),
      ),
    )
