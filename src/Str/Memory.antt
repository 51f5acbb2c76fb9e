-- ===== src/Str/Memory.antt =====
-- The loops over memory of lib/string.c: what each byte is afterwards.
use relis.Prelude.{
  ℕ, zero, suc, ◌+◌, ◌-◌, ◌%◌, ◌^◌, ◌≤◌, ◌<◌, ◌≡◌, refl, ◌≢◌, ◌↔◌, ◌⊎◌, inl, inr, ◌&&◌, arith, ltb,
  leb, ◌==◌, if◌then◌else◌, Bool-cases, update, pos,
}
use relis.Str.{Memory, kmemset, kmemcpy, copy_backwards, kmemmove, kmemcmp}

-- The byte at `a` after the `n` bytes from `dest` on were set to `c`.
pub kmemset_lem :
    (s c n : ℕ) (m : Memory) (a : ℕ)
    → kmemset s c n m a ≡ (if leb s a && ltb a (s + n) then c % 2 ^ 8 else m a)
unfolding kmemset
kmemset_lem s c zero m a = ground arith
kmemset_lem s c (suc n) m a = ground (arith, kmemset_lem (s + 1) c n (update m s (c % 2 ^ 8)) a)

-- memory after the `n` bytes from `src` on, as they were, were put at `dest`
abbrev pub moved : ℕ → ℕ → ℕ → Memory → Memory
moved dest src n m a = if leb dest a && ltb a (dest + n) then m (src + (a - dest)) else m a

forwards :
    (dest src n : ℕ) (m : Memory) (a : ℕ)
    → (dest ≤ src) ⊎ (src + n ≤ dest)
    → kmemcpy dest src n m a ≡ moved dest src n m a
unfolding kmemcpy
forwards dest src zero m a h = ground arith
forwards dest src (suc n) m a h = elim (Bool-cases (ltb dest a)) [
  | inl e ↦
      let there : dest ≢ a = λ q. ground arith in
      let one_less : src + 1 + (a - (dest + 1)) ≡ src + (a - dest) = ground arith in
      let read_later : a < dest + suc n → src + (a - dest) ≢ dest = λ b q. ground arith in
      ground (arith, forwards (dest + 1) (src + 1) n (update m dest (m src)) a (ground arith))
  | inr e ↦
      let first : a ≡ dest → src + (a - dest) ≡ src = λ q. omega arith in
      ground (arith, forwards (dest + 1) (src + 1) n (update m dest (m src)) a (ground arith))
]

backwards :
    (dest src n : ℕ) (m : Memory) (a : ℕ)
    → src ≤ dest
    → copy_backwards dest src n m a ≡ moved dest src n m a
unfolding copy_backwards
backwards dest src zero m a h = ground arith
backwards dest src (suc n) m a h =
    ground (arith, backwards dest src n (update m (dest + n) (m (src + n))) a h)

-- kmemmove moves the bytes as they were before the call however the two ranges overlap, and changes no other byte.
pub kmemmove_lem :
    (dest src n : ℕ) (m : Memory) (a : ℕ) → kmemmove dest src n m a ≡ moved dest src n m a
unfolding kmemmove
kmemmove_lem dest src n m a = elim (Bool-cases (ltb src dest && ltb dest (src + n))) [
  | inl e ↦ rw e (backwards dest src n m a (ground arith))
  | inr e ↦ rw e (forwards dest src n m a (ground arith))
]

add_zero : (s : ℕ) → s + 0 ≡ s
add_zero s = omega arith

add_suc : (s i : ℕ) → s + suc i ≡ s + 1 + i
add_suc s i = omega arith

equal_suc :
    (s1 s2 n : ℕ) (m : Memory)
    → m s1 ≡ m s2
    → ((i : ℕ) → i < n → m (s1 + 1 + i) ≡ m (s2 + 1 + i))
    → (i : ℕ) → i < suc n
    → m (s1 + i) ≡ m (s2 + i)
equal_suc s1 s2 n m e f zero h = cc (e, add_zero s1, add_zero s2)
equal_suc s1 s2 n m e f (suc i) h = cc (f i (omega arith), add_suc s1 i, add_suc s2 i)

-- kmemcmp is 0 exactly if the two ranges hold the same bytes.
pub kmemcmp-zero :
    (s1 s2 n : ℕ) (m : Memory)
    → (kmemcmp s1 s2 n m ≡ pos 0) ↔ ((i : ℕ) → i < n → m (s1 + i) ≡ m (s2 + i))
unfolding kmemcmp
kmemcmp-zero s1 s2 zero m = (λ e i h. absurd (omega arith), λ h. refl)
kmemcmp-zero s1 s2 (suc n) m = elim (Bool-cases (m s1 == m s2)) [
  | inl e ↦
      let rest = kmemcmp-zero (s1 + 1) (s2 + 1) n m in
      rw e (
        λ q. equal_suc s1 s2 n m (ground arith) (rest.0 q),
        λ q. rest.1 (λ i h. cc (q (suc i) (omega arith), add_suc s1 i, add_suc s2 i)),
      )
  | inr e ↦ rw e (
    λ q. absurd (ground arith),
    λ q.
        let first : m s1 ≡ m s2 = cc (q 0 (omega arith), add_zero s1, add_zero s2) in
        absurd (ground arith),
  )
]
