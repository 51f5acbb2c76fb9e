-- ===== src/Drivers/Ata/Wait.antt =====
-- The two loops of drivers/block/ata.c that wait for the drive.
use relis.Prelude.{
  ℕ, zero, suc, ◌+◌, ◌≤◌, ◌<◌, bit_and, ◌≡◌, refl, ap, ◌∙◌, inl, inr, Bool, false, none, some,
  arith, ◌==◌, Bool-cases,
}
use relis.Drivers.Ata.{wait_bsy, wait_drq, drq_answer}

-- `n` reads from `polls` on that tell nothing
abbrev pub Silent : ℕ → (ℕ → ℕ) → ℕ → Type 0
Silent n status polls = (i : ℕ) → i < n → drq_answer (status (polls + i)) ≡ none

later :
    (n : ℕ) (status : ℕ → ℕ) (polls : ℕ) → Silent (suc n) status polls → Silent n status (polls + 1)
later n status polls s i h = ap (λ a. drq_answer (status a)) (omega arith) ∙ s (suc i) (omega arith)

now :
    (n : ℕ) (status : ℕ → ℕ) (polls : ℕ)
    → Silent (suc n) status polls
    → drq_answer (status polls) ≡ none
now n status polls s = ap (λ a. drq_answer (status a)) (omega arith) ∙ s 0 (omega arith)

one_more :
    (timeout : ℕ) (status : ℕ → ℕ) (polls : ℕ)
    → drq_answer (status polls) ≡ none
    → wait_drq (suc timeout) status polls ≡ wait_drq timeout status (polls + 1)
unfolding wait_drq
one_more timeout status polls h = rw (wait_drq, h) refl

pub wait_drq-answers :
    (timeout n : ℕ) (status : ℕ → ℕ) (polls : ℕ) (b : Bool)
    → n < timeout
    → Silent n status polls
    → drq_answer (status (polls + n)) ≡ some b
    → wait_drq timeout status polls ≡ (b, polls + n + 1)
unfolding wait_drq
wait_drq-answers zero n status polls b h s a = absurd (omega arith)
wait_drq-answers (suc timeout) zero status polls b h s a =
    let here : drq_answer (status polls) ≡ some b =
      ap (λ p. drq_answer (status p)) (omega arith) ∙ a in
    rw (wait_drq, here) (ap (λ (p : ℕ). (b, p)) (omega arith))
wait_drq-answers (suc timeout) (suc n) status polls b h s a =
    one_more timeout status polls (now n status polls s)
    ∙ wait_drq-answers timeout n status (polls + 1) b (omega arith) (later n status polls s)
        (ap (λ p. drq_answer (status p)) (omega arith) ∙ a)
    ∙ ap (λ (p : ℕ). (b, p)) (omega arith)

pub wait_drq-Silent :
    (timeout : ℕ) (status : ℕ → ℕ) (polls : ℕ)
    → Silent timeout status polls
    → wait_drq timeout status polls ≡ (false, polls + timeout)
unfolding wait_drq
wait_drq-Silent zero status polls s = ap (λ (p : ℕ). (false, p)) (omega arith)
wait_drq-Silent (suc timeout) status polls s =
    one_more timeout status polls (now timeout status polls s)
    ∙ wait_drq-Silent timeout status (polls + 1) (later timeout status polls s)
    ∙ ap (λ (p : ℕ). (false, p)) (omega arith)

-- The loop of ata_wait_bsy reads the status at least once, and `timeout` times at most.
pub wait_bsy-bounds :
    (timeout : ℕ) (status : ℕ → ℕ) (polls : ℕ)
    → polls ≤ wait_bsy timeout status polls × wait_bsy timeout status polls ≤ polls + timeout
unfolding wait_bsy
wait_bsy-bounds zero status polls = (omega arith, omega arith)
wait_bsy-bounds (suc timeout) status polls =
    let r = wait_bsy-bounds timeout status (polls + 1) in
    elim (Bool-cases (bit_and (status polls) 0x80 == 0)) [
      | inl e ↦ rw (wait_bsy, e) (omega arith, omega arith)
      | inr e ↦ rw (wait_bsy, e) (omega arith, omega arith)
    ]
