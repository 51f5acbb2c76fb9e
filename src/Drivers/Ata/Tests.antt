-- ===== src/Drivers/Ata/Tests.antt =====
-- A drive that is busy for one read and wants data at the fourth, behind every command that transfers.
use relis.Prelude.{ℕ, ◌||◌, [], ◌==◌, if◌then◌else◌, replicate}
use relis.Drivers.Ata.{Drive, block_size, read_sectors, write_sectors}

-- busy at the first read, idle without data at the next two, then with the data bit set
abbrev slow : ℕ → ℕ
slow n = if n == 0 then 0x80 else if n == 1 then 0x40 else if n == 2 then 0x50 else 0x58

-- idle without data behind a flush
abbrev behind : ℕ → ℕ → ℕ → ℕ
behind c i n = if (c == read_sectors) || (c == write_sectors) then slow n else 0x50

abbrev drive : Drive
drive = record {
  status = behind;
  issued = 0;
  polls = 0;
  drv = 0;
  count = 0;
  lba_lo = 0;
  lba_mid = 0;
  lba_hi = 0;
  command = 0;
  left = 0;
  done = 0;
  port = [];
  aborted = 0;
  blocks = λ i. replicate block_size i;
}
