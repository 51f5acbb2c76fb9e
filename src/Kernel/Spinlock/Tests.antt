-- ===== src/Kernel/Spinlock/Tests.antt =====
-- Two processors that want the lock.
use relis.Prelude.{ℕ, ◌≡◌, refl, ◌≢◌, ◌↔◌, arith}
use relis.Kernel.Spinlock.{
  System, Reach, start, onward, turn, call, exchange_free, exchange_held, critical,
}
use relis.Kernel.Spinlock.Exclusion.{spin_lock-excludes}

-- Both call; processor 0 gets the word and processor 1 spins.
contended : (s : System) × Reach s
contended =
    let r1 = onward start (turn 0 call) in
    let r2 = onward r1 (turn 1 call) in
    let r3 = onward r2 (turn 0 (exchange_free {m = 1} refl refl)) in
    (_, onward r3 (turn 1 (exchange_held {m = 1} (λ e. ground (arith, e)) refl)))

spin_lock-excludes_example :
    ((i j : ℕ) → contended.0.pc i ≡ critical → contended.0.pc j ≡ critical → i ≡ j)
    × (contended.0.lock ≢ 0 ↔ ((i : ℕ) × (contended.0.pc i ≡ critical)))
spin_lock-excludes_example = spin_lock-excludes contended.0 contended.1
