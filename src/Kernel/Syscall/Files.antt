-- ===== src/Kernel/Syscall/Files.antt =====
-- The table of open files: the descriptor given out is the lowest free one, and a closed one is free.
use relis.Prelude.{
  ℕ, zero, suc, ◌+◌, ◌≤◌, ◌<◌, ◌≡◌, refl, subst, ◌≢◌, inl, inr, Option, none, some, arith, ◌==◌,
  Bool-cases, ℤ, pos, minus_one,
}
use relis.Kernel.State.{Kernel, max_fds}
use relis.Kernel.Thread.{set_fd}
use relis.Kernel.Syscall.{first_free, alloc_fd}

-- what the search from `i` on over `n` descriptors finds
abbrev pub Searched : ℕ → ℕ → (ℕ → ℕ) → Option ℕ → Type 0
Searched n i files none = (j : ℕ) → i ≤ j → j < i + n → files j ≢ 0
Searched n i files (some r) =
    (i ≤ r × r < i + n) × files r ≡ 0 × ((j : ℕ) → i ≤ j → j < r → files j ≢ 0)

next :
    (n i : ℕ) (files : ℕ → ℕ) (o : Option ℕ)
    → files i ≢ 0
    → Searched n (i + 1) files o
    → Searched (suc n) i files o
next n i files none u s = λ j l h. elim (Bool-cases (i == j)) [
  | inl e ↦ subst (λ (x : ℕ). files x ≢ 0) (ground arith) u
  | inr e ↦ s j (ground arith) (omega arith)
]
next n i files (some r) u s = (
  (omega (arith, s.0), omega (arith, s.0)),
  s.1,
  λ j l h. elim (Bool-cases (i == j)) [
    | inl e ↦ subst (λ (x : ℕ). files x ≢ 0) (ground arith) u
    | inr e ↦ s.2 j (ground arith) h
  ],
)

first_free-Searched : (n i : ℕ) (files : ℕ → ℕ) → Searched n i files (first_free n i files)
unfolding first_free
first_free-Searched zero i files = λ j l h. absurd (omega arith)
first_free-Searched (suc n) i files = elim (Bool-cases (files i == 0)) [
  | inl e ↦ rw e ((omega arith, omega arith), ground arith, λ j l h. absurd (omega arith))
  | inr e ↦ rw e (
      next n i files (first_free n (i + 1) files) (ground arith)
        (first_free-Searched n (i + 1) files))
]

-- the outcome of alloc_fd, for a task whose table was `files`
abbrev pub Given : ℕ → ℕ → Kernel → Option ℕ → ℤ × Kernel → Type 0
Given t f k none r = r ≡ (minus_one, k)
Given t f k (some fd) r = r ≡ (pos fd, set_fd t fd f k)

given :
    (t f : ℕ) (k : Kernel) (o : Option ℕ)
    → Given t f k o (elim o [ none ↦ (minus_one, k) | some i ↦ (pos i, set_fd t i f k) ])
given t f k none = refl
given t f k (some fd) = refl

-- alloc_fd gives the lowest descriptor below 32 that is free and puts the file there; if all are in use it gives -1 and changes
-- nothing.
pub alloc_fd-lowest :
    (t f : ℕ) (k : Kernel)
    → (fd : Option ℕ) × (Searched max_fds 0 (k.tasks t).files fd × Given t f k fd (alloc_fd t f k))
unfolding alloc_fd
alloc_fd-lowest t f k =
    let found = first_free max_fds 0 (k.tasks t).files in
    (found, (first_free-Searched max_fds 0 (k.tasks t).files, given t f k found))
