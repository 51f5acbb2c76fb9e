-- ===== src/Drivers/Ata.antt =====
-- drivers/block/ata.c: one block of 512 bytes of the disk at a time, by programmed I/O.
pub mod Wait
pub mod Blocks
mod Tests
use relis.Prelude.{
  ℕ, zero, suc, ◌+◌, ◌-◌, ◌*◌, ◌/◌, ◌%◌, ◌^◌, ◌≤◌, ◌<◌, min, bit_and, bit_or, bit_xor, ◌≡◌, refl,
  sym, ap, ◌∙◌, subst, ◌≢◌, ◌↔◌, ◌⊎◌, inl, inr, Bool, true, false, not, ◌&&◌, ◌||◌, Option, none,
  some, List, [], ◌∷◌, ◌++◌, map, append_assoc, append-nil, arith, ltb, leb, ◌==◌, if◌then◌else◌,
  ltb→lt, lt→ltb, leb→le, ==_iff, tests, Bool-cases, Option-cases, if_lem, length, get_elem?,
  get_or, set, take, drop, replicate, length-append, length-set, get_or-set_self, get_or-set_ne,
  length-take, length-drop, take-append-drop, length-replicate, get_or-replicate, update,
  update_self, update_ne, test_bit, not64, bit_and_step, bit_or_step, test_bit-and, test_bit-or,
  test_bit-pow, test_bit-not64, bit_and-zero, bit_and-pow, bit_or-lt, bit_and-le, pow-lt,
  bit_and-ones, test_bit-zero, bit_and_align, bit_and_high, bit_and_mask, bit_or_field,
  bit_or-zero_left, bit_or-zero_right, ℤ, pos, negsuc, minus_one, sub_ℕ,
}

abbrev pub block_size : ℕ
block_size = 512

abbrev pub ata_timeout : ℕ
ata_timeout = 1000000

abbrev pub read_sectors : ℕ
read_sectors = 0x20

abbrev pub write_sectors : ℕ
write_sectors = 0x30

abbrev pub flush_cache : ℕ
flush_cache = 0xe7

-- The drive behind the ports, by the ATA standard. `status c i n` is what read `n` of the status port
-- returns behind command `c`, the `i`th of all; `polls` counts those reads. The registers that the code
-- writes hold a byte each. Of the running transfer, `left` sectors are still to come and `done` are
-- over, `port` has the bytes of the next one that wait in the drive or have come to it; `aborted`
-- counts the transfers that a new command cut off.
pub record Drive : Type 0 where
  pub status : ℕ → ℕ → ℕ → ℕ
  pub issued : ℕ
  pub polls : ℕ
  pub drv : ℕ
  pub count : ℕ
  pub lba_lo : ℕ
  pub lba_mid : ℕ
  pub lba_hi : ℕ
  pub command : ℕ
  pub left : ℕ
  pub done : ℕ
  pub port : List ℕ
  pub aborted : ℕ
  pub blocks : ℕ → List ℕ

-- the block that the registers name
unfoldable pub selected : Drive → ℕ
selected d = d.lba_lo + d.lba_mid * 2 ^ 8 + d.lba_hi * 2 ^ 16 + d.drv % 2 ^ 4 * 2 ^ 24

-- `outb(ATA_CMD, c)`: a count of 0 means 256 sectors.
unfoldable pub issue : ℕ → Drive → Drive
unfolding selected
issue c d =
    let sectors = if d.count == 0 then 256 else d.count in
    record d {
      issued = d.issued + 1;
      polls = 0;
      command = c;
      left = if (c == read_sectors) || (c == write_sectors) then sectors else 0;
      done = 0;
      port = if c == read_sectors then d.blocks (selected d) else [];
      aborted = if d.left == 0 then d.aborted else d.aborted + 1;
    }

-- the drive once the bytes `rest` of the sector that is read are left
unfoldable pub sent : List ℕ → Drive → Drive
sent [] d = record d {
  left = d.left - 1;
  done = d.done + 1;
  port = if leb d.left 1 then [] else d.blocks (selected d + d.done + 1);
}
sent (b ∷ rest) d = record d { port = b ∷ rest }

-- `insw(ATA_DATA, buf, words)`
unfoldable pub insw : ℕ → Drive → List ℕ × Drive
unfolding sent
insw words d = (take (2 * words) d.port, sent (drop (2 * words) d.port) d)

-- `outsw(ATA_DATA, buf, words)`: a sector is stored once all its bytes have come.
unfoldable pub outsw : ℕ → List ℕ → Drive → Drive
outsw words buf d =
    let bytes = d.port ++ take (2 * words) buf in
    if (d.command == write_sectors) && not (d.left == 0) && (length bytes == block_size)
    then record d {
      blocks = update d.blocks (selected d + d.done) bytes;
      left = d.left - 1;
      done = d.done + 1;
      port = [];
    }
    else record d { port = bytes }

-- `while ((inb(ATA_STATUS) & 0x80) && --timeout)`: the number of reads, for a timeout that is not 0
unfoldable pub wait_bsy : ℕ → (ℕ → ℕ) → ℕ → ℕ
wait_bsy zero status polls = polls
wait_bsy (suc timeout) status polls = elim (bit_and (status polls) 0x80 == 0) [
  | true ↦ polls + 1
  | false ↦ wait_bsy timeout status (polls + 1)
]

-- what one read of the status tells ata_wait_drq: to return 1, to return 0, or to go on
unfoldable pub drq_answer : ℕ → Option Bool
drq_answer s =
    if not (bit_and s 0x08 == 0)
    then some true
    else if not (bit_and s 0x01 == 0)
    then some false
    else if not (bit_and s 0x20 == 0)
    then some false
    else none

unfoldable pub wait_drq : ℕ → (ℕ → ℕ) → ℕ → Bool × ℕ
wait_drq zero status polls = (false, polls)
wait_drq (suc timeout) status polls = elim (drq_answer (status polls)) [
  | some answer ↦ (answer, polls + 1)
  | none ↦ wait_drq timeout status (polls + 1)
]

-- the six writes to the ports with which both transfers start
unfoldable pub select : ℕ → ℕ → Drive → Drive
unfolding issue
select lba command d = issue command (record d {
  drv = bit_or 0xe0 (bit_and (lba / 2 ^ 24) 0x0f);
  count = 1;
  lba_lo = bit_and lba 0xff;
  lba_mid = bit_and (lba / 2 ^ 8) 0xff;
  lba_hi = bit_and (lba / 2 ^ 16) 0xff;
})

-- what the status port says behind the last command
abbrev pub stream : Drive → ℕ → ℕ
stream d = d.status d.command d.issued

-- ata_wait_bsy and ata_wait_drq
unfoldable pub ready : Drive → Bool × Drive
ready d =
    let p = wait_bsy ata_timeout (stream d) d.polls in
    let (answer, q) = wait_drq ata_timeout (stream d) p in (answer, record d { polls = q })

-- `none` for -1
unfoldable pub ata_read_block : ℕ → Drive → Option (List ℕ) × Drive
unfolding insw
ata_read_block lba d =
    let (answer, e) = ready (select lba read_sectors d) in
    let (bytes, f) = insw 256 e in if answer then (some bytes, f) else (none, e)

-- The flush at the end waits for the drive and looks at no more than its busy bit.
unfoldable pub flush : Drive → Drive
unfolding issue
flush d =
    let e = issue flush_cache d in record e { polls = wait_bsy ata_timeout (stream e) e.polls }

-- `buf` is the memory from the buffer on.
unfoldable pub ata_write_block : ℕ → List ℕ → Drive → Bool × Drive
unfolding outsw flush
ata_write_block lba buf d =
    let (answer, e) = ready (select lba write_sectors d) in
    if answer then (true, flush (outsw 256 buf e)) else (false, e)
