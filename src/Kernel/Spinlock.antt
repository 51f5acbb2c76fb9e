-- ===== src/Kernel/Spinlock.antt =====
-- include/relis/spinlock.h: the lock as a system of processors that share one word.
pub mod Exclusion
mod Tests
use relis.Prelude.{
  ℕ, zero, suc, ◌+◌, ◌-◌, ◌*◌, ◌/◌, ◌%◌, ◌^◌, ◌≤◌, ◌<◌, min, bit_and, bit_or, bit_xor, ◌≡◌, refl,
  sym, ap, ◌∙◌, subst, ◌≢◌, ◌↔◌, ◌⊎◌, inl, inr, Bool, true, false, not, ◌&&◌, ◌||◌, Option, none,
  some, List, [], ◌∷◌, ◌++◌, map, append_assoc, append-nil, arith, ltb, leb, ◌==◌, if◌then◌else◌,
  ltb→lt, lt→ltb, leb→le, ==_iff, tests, Bool-cases, Option-cases, if_lem, length, get_elem?,
  get_or, set, take, drop, replicate, length-append, length-set, get_or-set_self, get_or-set_ne,
  length-take, length-drop, take-append-drop, length-replicate, get_or-replicate, update,
  update_self, update_ne, test_bit, not64, bit_and_step, bit_or_step, test_bit-and, test_bit-or,
  test_bit-pow, test_bit-not64, bit_and-zero, bit_and-pow, bit_or-lt, bit_and-le, pow-lt,
  bit_and-ones, test_bit-zero, bit_and_align, bit_and_high, ℤ, pos, negsuc, minus_one, sub_ℕ,
}

-- Where a processor is: outside, before the exchange of spin_lock, in the inner loop, or behind
-- spin_lock and before spin_unlock.
pub data Pc : Type 0 where
  outside trying spinning critical : Pc

-- One atomic access of a processor, from the lock's word `l` to `m`. The exchange always stores 1;
-- what it returns decides.
pub data Access : ℕ → Pc → ℕ → Pc → Type 0 where
  call : {l : ℕ} → Access l outside l trying
  exchange_free : {l m : ℕ} → l ≡ 0 → m ≡ 1 → Access l trying m critical
  exchange_held : {l m : ℕ} → l ≢ 0 → m ≡ 1 → Access l trying m spinning
  still_held : {l : ℕ} → l ≢ 0 → Access l spinning l spinning
  seen_free : {l : ℕ} → l ≡ 0 → Access l spinning l trying
  unlock : {l m : ℕ} → m ≡ 0 → Access l critical m outside

pub record System : Type 0 where
  pub lock : ℕ
  pub pc : ℕ → Pc

-- Any processor may go next.
pub data Step (s : System) : System → Type 0 where
  turn :
      {m : ℕ} {p : Pc} (i : ℕ)
      → Access s.lock (s.pc i) m p
      → Step s (record { lock = m; pc = update s.pc i p })

-- SPIN_LOCK_UNLOCKED, and nobody inside
abbrev pub unlocked : System
unlocked = record { lock = 0; pc = λ _. outside }

pub data Reach : System → Type 0 where
  start : Reach unlocked
  onward : {s t : System} → Reach s → Step s t → Reach t
