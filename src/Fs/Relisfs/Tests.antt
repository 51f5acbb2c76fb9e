-- ===== src/Fs/Relisfs/Tests.antt =====
-- A new disk, and bytes written to its file.
use relis.Prelude.{
  ℕ, ◌≡◌, refl, sym, subst, inl, inr, true, ◌||◌, some, [], ◌∷◌, arith, ◌==◌, if◌then◌else◌,
  replicate, pos,
}
use relis.Drivers.Ata.{drq_answer, wait_bsy, block_size, read_sectors, write_sectors}
use relis.Fs.Relisfs.{Relisfs, relisfs_mount, relisfs_write, read32, new_root}
use relis.Fs.Relisfs.Blocks.{Prompt}
use relis.Fs.Relisfs.Mounted.{Mounted}
use relis.Fs.Relisfs.Format.{relisfs_mount-formats}
use relis.Drivers.Ata.Blocks.{Reply, answer}
use relis.Fs.Relisfs.RoundTrip.{ReadsBack, relisfs_write-read}

-- busy at the first read behind a command, and with data from the second on; without data behind a flush
abbrev ready_at_1 : ℕ → ℕ
ready_at_1 n = if n == 0 then 0xd0 else 0x58

abbrev status : ℕ → ℕ → ℕ → ℕ
status c i n = if (c == read_sectors) || (c == write_sectors) then ready_at_1 n else 0x50

in_time : Reply ready_at_1 true
unfolding drq_answer wait_bsy
in_time = answer 0 (omega arith) (λ i h. absurd (omega arith)) refl

status-Prompt : Prompt status
status-Prompt c i (inl e) = subst (λ (n : ℕ). Reply (status n i) true) (sym e) in_time
status-Prompt c i (inr e) = subst (λ (n : ℕ). Reply (status n i) true) (sym e) in_time

abbrev blank : Relisfs
blank = record {
  drive = record {
    status = status;
    issued = 0;
    polls = 0;
    drv = 0;
    count = 0;
    lba_lo = 0;
    lba_mid = 0;
    lba_hi = 0;
    command = 0;
    left = 0;
    done = 0;
    port = [];
    aborted = 0;
    blocks = λ _. replicate block_size 0;
  };
  block_buf = replicate block_size 0;
  inode = record { used = 0; size = 0; direct_block = 0; name = [] };
}

relisfs_mount-formats_example :
    (m : Relisfs) × (relisfs_mount blank ≡ some m) × (m.inode ≡ new_root) × Mounted m
unfolding read32
relisfs_mount-formats_example =
    relisfs_mount-formats blank status-Prompt (λ j. refl) (λ e. absurd (ground (arith, e)))

-- the state that the mount leaves
new_disk : (m : Relisfs) × (relisfs_mount blank ≡ some m) × (m.inode ≡ new_root) × Mounted m
unfolding read32
new_disk = relisfs_mount-formats blank status-Prompt (λ j. refl) (λ e. absurd (ground (arith, e)))

abbrev mounted : Relisfs
mounted = new_disk.0

relisfs_write-read_example :
    (fs' : Relisfs) × (relisfs_write (7 ∷ 8 ∷ 9 ∷ []) 500 mounted ≡ some (pos 3, [], 503, fs'))
    × Mounted fs'
    × ReadsBack (7 ∷ 8 ∷ 9 ∷ []) 500 fs'
    × ((m : Relisfs) × (relisfs_mount fs' ≡ some m) × Mounted m × ReadsBack (7 ∷ 8 ∷ 9 ∷ []) 500 m)
relisfs_write-read_example =
    relisfs_write-read (7 ∷ 8 ∷ 9 ∷ []) 500 mounted new_disk.3 (omega arith) (omega arith)
