-- ===== src/Str/Scan.antt =====
-- The loops of lib/string.c that go to the end of a string end there.
use relis.Prelude.{
  ℕ, zero, suc, ◌+◌, ◌<◌, min, ◌≡◌, refl, ap, true, false, Option, none, some, arith, ◌==◌,
}
use relis.Str.{Memory, kstrlen, kstrnlen}
use relis.Str.Text.{IsString, behind}

not_end : (m : Memory) (s n : ℕ) → IsString m s (suc n) → (m s == 0) ≡ false
not_end m s n h =
    let first : s + 0 ≡ s = omega arith in ground (arith, h.inside 0 (omega arith), ap m first)

at_end : (m : Memory) (s : ℕ) → IsString m s 0 → (m s == 0) ≡ true
at_end m s h = let first : s + 0 ≡ s = omega arith in ground (arith, h.end, ap m first)

ends : (m : Memory) (s n fuel : ℕ) → IsString m s n → n < fuel → kstrlen fuel s m ≡ some n
unfolding kstrlen
ends m s n zero h f = absurd (omega arith)
ends m s zero (suc fuel) h f = rw (at_end m s h) refl
ends m s (suc n) (suc fuel) h f = rw (not_end m s n h) (
    ap (λ (o : Option ℕ). elim o [ none ↦ none | some k ↦ some (suc k) ])
      (ends m (s + 1) n fuel (behind m s n h) (omega arith)))

bounded : (m : Memory) (s n : ℕ) → IsString m s n → (bound : ℕ) → kstrnlen s bound m ≡ min n bound
unfolding kstrnlen
bounded m s n h zero = omega arith
bounded m s zero h (suc b) = rw (at_end m s h) (omega arith)
bounded m s (suc n) h (suc b) =
    rw (not_end m s n h) (omega (arith, bounded m (s + 1) n (behind m s n h) b))

-- For a string of `n` bytes kstrlen ends within `n + 1` rounds, with the length `n`, and kstrnlen gives the
-- smaller one of the length and its bound.
kstrlen-IsString :
    (m : Memory) (s n fuel : ℕ)
    → IsString m s n
    → n < fuel
    → kstrlen fuel s m ≡ some n × ((bound : ℕ) → kstrnlen s bound m ≡ min n bound)
kstrlen-IsString m s n fuel h f = (ends m s n fuel h f, bounded m s n h)
