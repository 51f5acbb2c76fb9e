-- ===== src/ListHead/Ring.antt =====
-- What the links of a list head stand for: the sequence of its elements.
use relis.Prelude.{
  ℕ, ◌≡◌, refl, ap, ◌↔◌, ◌⊎◌, inl, inr, Bool, true, false, ◌||◌, List, [], ◌∷◌, ◌++◌, arith, ◌==◌,
}
use relis.ListHead.{Links}

abbrev pub has : ℕ → List ℕ → Bool
has a [] = false
has a (x ∷ xs) = (a == x) || has a xs

abbrev pub Distinct : List ℕ → Type 0
Distinct [] = Unit
Distinct (x ∷ xs) = (has x xs ≡ false) × Distinct xs

-- The links lead from `p` through `xs` to `q`, in both directions.
abbrev pub Seg : Links → ℕ → List ℕ → ℕ → Type 0
Seg l p [] q = (l.next p ≡ q) × (l.prev q ≡ p)
Seg l p (x ∷ xs) q = (l.next p ≡ x) × (l.prev x ≡ p) × Seg l x xs q

-- The list at `head` holds the elements `xs`, in order.
pub record Ring (l : Links) (head : ℕ) (xs : List ℕ) : Type 0 where
  pub seg : Seg l head xs head
  pub head_out : has head xs ≡ false
  pub distinct : Distinct xs

pub has-append : (a : ℕ) (xs ys : List ℕ) → has a (xs ++ ys) ≡ (has a xs || has a ys)
has-append a [] ys = refl
has-append a (x ∷ xs) ys = ground (arith, has-append a xs ys)

-- A segment survives a change elsewhere.
pub Seg-frame :
    (l m : Links) (p : ℕ) (xs : List ℕ) (q : ℕ)
    → ((a : ℕ) → has a (p ∷ xs) ≡ true → m.next a ≡ l.next a)
    → ((a : ℕ) → has a (q ∷ xs) ≡ true → m.prev a ≡ l.prev a)
    → Seg l p xs q
    → Seg m p xs q
Seg-frame l m p [] q n v s = ground (arith, n p, v q)
Seg-frame l m p (x ∷ xs) q n v s = (
  ground (arith, n p),
  ground (arith, v x),
  Seg-frame l m x xs q (λ a h. n a (ground arith)) (λ a h. v a (ground arith)) s.2,
)

pub Seg-split :
    (l : Links) (p : ℕ) (xs : List ℕ) (x : ℕ) (ys : List ℕ) (q : ℕ)
    → Seg l p (xs ++ x ∷ ys) q ↔ (Seg l p xs x × Seg l x ys q)
Seg-split l p [] x ys q = (λ s. ((s.0, s.1), s.2), λ s. (s.0.0, s.0.1, s.1))
Seg-split l p (z ∷ xs) x ys q =
    let ih = Seg-split l z xs x ys q in
    (λ s. ((s.0, s.1, (ih.0 s.2).0), (ih.0 s.2).1), λ s. (s.0.0, s.0.1, ih.1 (s.0.2, s.1)))

-- A list is empty or has a last element.
pub snoc_cases : (xs : List ℕ) → (xs ≡ []) ⊎ ((ys : List ℕ) × (u : ℕ) × (xs ≡ ys ++ u ∷ []))
snoc_cases [] = inl refl
snoc_cases (x ∷ xs) = elim (snoc_cases xs) [
  | inl e ↦ inr ([], x, ap (λ (r : List ℕ). x ∷ r) e)
  | inr (ys, u, e) ↦ inr (x ∷ ys, u, ap (λ (r : List ℕ). x ∷ r) e)
]

pub Distinct-append :
    (xs ys : List ℕ)
    → Distinct (xs ++ ys)
    → Distinct xs × Distinct ys × ((a : ℕ) → has a xs ≡ true → has a ys ≡ false)
Distinct-append [] ys d = (tt, d, λ a h. cc)
Distinct-append (x ∷ xs) ys d =
    let (dx, dy, apart) = Distinct-append xs ys d.1 in
    (
      (ground (arith, has-append x xs ys, d.0), dx),
      dy,
      λ a h. ground (arith, has-append x xs ys, d.0, apart a),
    )

pub append-Distinct :
    (xs ys : List ℕ)
    → Distinct xs
    → Distinct ys
    → ((a : ℕ) → has a xs ≡ true → has a ys ≡ false)
    → Distinct (xs ++ ys)
append-Distinct [] ys dx dy apart = dy
append-Distinct (x ∷ xs) ys dx dy apart = (
  ground (arith, has-append x xs ys, dx.0, apart x),
  append-Distinct xs ys dx.1 dy (λ a h. apart a (ground arith)),
)

-- The links determine the elements.
pub Ring-first :
    (l : Links) (head : ℕ) (xs : List ℕ) → Ring l head xs → (l.next head ≡ head) ↔ (xs ≡ [])
Ring-first l head [] r = (λ _. refl, λ _. r.seg.0)
Ring-first l head (x ∷ xs) r = (λ e. absurd (ground (arith, r.seg.0, r.head_out)), λ e. cc)
