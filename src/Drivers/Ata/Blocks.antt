-- ===== src/Drivers/Ata/Blocks.antt =====
-- What a transfer of drivers/block/ata.c does to the disk.
use relis.Prelude.{
  ℕ, zero, suc, ◌+◌, ◌/◌, ◌%◌, ◌^◌, ◌≤◌, ◌<◌, bit_and, bit_or, ◌≡◌, refl, ap, ◌∙◌, Bool, true,
  false, ◌&&◌, none, some, List, [], ◌∷◌, arith, ◌==◌, if◌then◌else◌, length, take, drop,
  length-take, update, bit_or_step, bit_and_mask,
}
use relis.Drivers.Ata.{
  Drive, ata_timeout, wait_bsy, wait_drq, drq_answer, select, selected, ready, flush, flush_cache,
  issue, insw, outsw, sent, block_size, ata_read_block, ata_write_block, read_sectors,
  write_sectors,
}
use relis.Drivers.Ata.Wait.{Silent, wait_drq-answers, wait_drq-Silent}

drive_bits : (x : ℕ) → x < 16 → bit_or 0xe0 x % 16 ≡ x
drive_bits x h = omega (
  arith,
  bit_or_step 0xe0 x,
  bit_or_step 112 (x / 2),
  bit_or_step 56 (x / 2 / 2),
  bit_or_step 28 (x / 2 / 2 / 2),
)

-- The five registers name the block by the low 28 bits of its number.
pub selected-select : (lba command : ℕ) (d : Drive) → selected (select lba command d) ≡ lba % 2 ^ 28
unfolding selected select
selected-select lba command d =
    let hi : bit_or 0xe0 (bit_and (lba / 2 ^ 24) 0x0f) % 16 ≡ lba / 2 ^ 24 % 16 =
      rw (bit_and_mask 4 (lba / 2 ^ 24)) (drive_bits (lba / 2 ^ 24 % 16) (omega arith)) in
    omega
      (arith, hi, bit_and_mask 8 lba, bit_and_mask 8 (lba / 2 ^ 8), bit_and_mask 8 (lba / 2 ^ 16))

-- where ata_wait_drq starts to read
abbrev pub after_bsy : (ℕ → ℕ) → ℕ
after_bsy status = wait_bsy ata_timeout status 0

-- What the status says behind a command answers the wait for data with `b`: at a read that comes in
-- time, and the reads before it behind the busy ones say nothing; or no read in time says
-- anything, which counts as the answer 0.
pub data Reply (status : ℕ → ℕ) : Bool → Type 0 where
  answer :
      (n : ℕ) {b : Bool}
      → n < ata_timeout
      → Silent n status (after_bsy status)
      → drq_answer (status (after_bsy status + n)) ≡ some b
      → Reply status b
  silence : Silent ata_timeout status (after_bsy status) → Reply status false

-- the status behind the next command
abbrev pub next_status : ℕ → Drive → ℕ → ℕ
next_status command d = d.status command (d.issued + 1)

Reply-wait :
    (status : ℕ → ℕ) (b : Bool)
    → Reply status b
    → (wait_drq ata_timeout status (after_bsy status)).0 ≡ b
Reply-wait status b (answer n h s a) =
    ap (λ (r : Bool × ℕ). r.0) (wait_drq-answers ata_timeout n status (after_bsy status) b h s a)
Reply-wait status b (silence s) =
    ap (λ (r : Bool × ℕ). r.0) (wait_drq-Silent ata_timeout status (after_bsy status) s)

reply_lem :
    (lba command : ℕ) (d : Drive) (b : Bool)
    → Reply (next_status command d) b
    → (ready (select lba command d)).0 ≡ b
unfolding ready select issue
reply_lem lba command d b r = Reply-wait (next_status command d) b r

pub take_whole : (n : ℕ) (xs : List ℕ) → length xs ≡ n → take n xs ≡ xs
take_whole zero [] h = refl
take_whole zero (x ∷ xs) h = absurd (omega arith)
take_whole (suc n) [] h = refl
take_whole (suc n) (x ∷ xs) h = ap (◌∷◌ x) (take_whole n xs (omega arith))

drop_whole : (n : ℕ) (xs : List ℕ) → length xs ≡ n → drop n xs ≡ []
drop_whole zero [] h = refl
drop_whole zero (x ∷ xs) h = absurd (omega arith)
drop_whole (suc n) [] h = refl
drop_whole (suc n) (x ∷ xs) h = drop_whole n xs (omega arith)

-- What a transfer of a block does to the drive `d`, which becomes `e`: it is over, and cut off none.
pub record Complete (d e : Drive) : Type 0 where
  pub left : e.left ≡ 0
  pub aborted : d.left ≡ 0 → e.aborted ≡ d.aborted

-- the drive in front of the transfer of the data
abbrev waiting : ℕ → ℕ → Drive → Drive
waiting lba command d = (ready (select lba command d)).1

-- Waiting moves neither the registers nor the blocks.
waiting_read :
    (lba : ℕ) (d : Drive)
    → ((waiting lba read_sectors d).port ≡ d.blocks (lba % 2 ^ 28))
      × ((waiting lba read_sectors d).left ≡ 1)
      × ((waiting lba read_sectors d).blocks ≡ d.blocks)
      × (d.left ≡ 0 → (waiting lba read_sectors d).aborted ≡ d.aborted)
unfolding ready select issue
waiting_read lba d = (ap d.blocks (selected-select lba read_sectors d), refl, refl, λ h. rw h refl)

waiting_write :
    (lba : ℕ) (d : Drive)
    → ((waiting lba write_sectors d).port ≡ [])
      × ((waiting lba write_sectors d).left ≡ 1)
      × ((waiting lba write_sectors d).blocks ≡ d.blocks)
      × (d.left ≡ 0 → (waiting lba write_sectors d).aborted ≡ d.aborted)
      × ((waiting lba write_sectors d).command ≡ write_sectors)
      × ((waiting lba write_sectors d).done ≡ 0)
      × (selected (waiting lba write_sectors d) ≡ lba % 2 ^ 28)
unfolding ready select issue selected
waiting_write lba d =
    (refl, refl, refl, λ h. rw h refl, refl, refl, selected-select lba write_sectors d)

insw_lem :
    (e : Drive)
    → e.left ≡ 1
    → length e.port ≡ block_size
    → ((insw 256 e).0 ≡ e.port) × ((insw 256 e).1.left ≡ 0) × ((insw 256 e).1.aborted ≡ e.aborted)
unfolding insw sent
insw_lem e h l =
    rw (take_whole block_size e.port l, drop_whole block_size e.port l, h) (refl, refl, refl)

outsw_lem :
    (buf : List ℕ) (e : Drive)
    → e.left ≡ 1
    → e.port ≡ []
    → e.command ≡ write_sectors
    → block_size ≤ length buf
    → ((outsw 256 buf e).blocks ≡ update e.blocks (selected e + e.done) (take block_size buf))
      × ((outsw 256 buf e).left ≡ 0)
      × ((outsw 256 buf e).aborted ≡ e.aborted)
unfolding outsw
outsw_lem buf e h p c l =
    let whole : (length (take block_size buf) == block_size) ≡ true =
      ground (arith, length-take block_size buf, l) in
    rw (p, c, h, whole) (refl, refl, refl)

flush_lem :
    (d : Drive)
    → ((flush d).blocks ≡ d.blocks)
      × ((flush d).left ≡ 0)
      × (d.left ≡ 0 → (flush d).aborted ≡ d.aborted)
      × ((flush d).command ≡ flush_cache)
unfolding flush issue
flush_lem d = (refl, refl, λ h. rw h refl, refl)

pub read_lem :
    (lba : ℕ) (d : Drive) (b : Bool)
    → Reply (next_status read_sectors d) b
    → length (d.blocks (lba % 2 ^ 28)) ≡ block_size
    → ((ata_read_block lba d).0 ≡ (if b then some (d.blocks (lba % 2 ^ 28)) else none))
      × (b ≡ true → Complete d (ata_read_block lba d).1)
unfolding ata_read_block
read_lem lba d true r l =
    let (port, left, blocks, aborted) = waiting_read lba d in
    let (bytes, none_left, same) =
      insw_lem (waiting lba read_sectors d) left (ap length port ∙ l) in
    rw (reply_lem lba read_sectors d true r) (
      ap (λ (bs : List ℕ). some bs) (bytes ∙ port),
      λ _. record { left = none_left; aborted = λ h. same ∙ aborted h },
    )
read_lem lba d false r l =
    rw (reply_lem lba read_sectors d false r) (refl, λ e. absurd (ground (arith, e)))

pub write_lem :
    (lba : ℕ) (buf : List ℕ) (d : Drive) (b : Bool)
    → Reply (next_status write_sectors d) b
    → block_size ≤ length buf
    → ((ata_write_block lba buf d).0 ≡ b)
      × ((j : ℕ)
          → (ata_write_block lba buf d).1.blocks j
            ≡ (if b && (lba % 2 ^ 28 == j) then take block_size buf else d.blocks j))
      × (b ≡ true
          → Complete d (ata_write_block lba buf d).1
            × ((ata_write_block lba buf d).1.command ≡ flush_cache))
unfolding ata_write_block
write_lem lba buf d true r l =
    let (port, left, blocks, aborted, command, done, place) = waiting_write lba d in
    let e = waiting lba write_sectors d in
    let (stored, none_left, same) = outsw_lem buf e left port command l in
    let (kept, idle, uncut, flushed) = flush_lem (outsw 256 buf e) in
    let at : selected e + e.done ≡ lba % 2 ^ 28 = omega (arith, done, place) in
    rw (reply_lem lba write_sectors d true r) (
      refl,
      λ j.
          ap (λ (f : ℕ → List ℕ). f j) (kept ∙ stored)
          ∙ ap (λ (i : ℕ). update e.blocks i (take block_size buf) j) at
          ∙ ap (λ (f : ℕ → List ℕ). update f (lba % 2 ^ 28) (take block_size buf) j) blocks,
      λ _. (record { left = idle; aborted = λ h. uncut none_left ∙ same ∙ aborted h }, flushed),
    )
write_lem lba buf d false r l =
    let (port, left, blocks, aborted, command, done, place) = waiting_write lba d in
    rw (reply_lem lba write_sectors d false r)
      (refl, λ j. ap (λ (f : ℕ → List ℕ). f j) blocks, λ e. absurd (ground (arith, e)))
