-- ===== src/ListHead/Insert.antt =====
-- list_add and list_add_tail of include/relis/list.h against the sequence of elements.
use relis.Prelude.{
  ℕ, ◌≡◌, refl, sym, ap, subst, ◌≢◌, inl, inr, true, false, ◌||◌, List, [], ◌∷◌, ◌++◌, append_assoc,
  arith, ◌==◌, Bool-cases,
}
use relis.ListHead.{Links, list_add, list_add_tail, init_list_head}
use relis.ListHead.Ring.{
  has, Distinct, Seg, Ring, Seg-frame, Seg-split, has-append, snoc_cases, append-Distinct,
  Distinct-append,
}

-- INIT_LIST_HEAD leaves an empty list.
pub init_list_head-Ring : (l : Links) (head : ℕ) → Ring (init_list_head head l) head []
unfolding init_list_head
init_list_head-Ring l head = record {
  seg = (ground arith, ground arith);
  head_out = refl;
  distinct = tt;
}

list_add-Seg :
    (l : Links) (new head : ℕ) (xs : List ℕ)
    → Seg l head xs head
    → has head xs ≡ false
    → Distinct xs
    → has new (head ∷ xs) ≡ false
    → Seg (list_add new head l) head (new ∷ xs) head
unfolding list_add
list_add-Seg l new head [] s out d fresh = ground arith
list_add-Seg l new head (x ∷ xs) s out d fresh = (
  ground arith,
  ground arith,
  (
    ground arith,
    ground arith,
    Seg-frame l _ x xs head (λ a h. ground arith) (λ a h. ground arith) s.2,
  ),
)

-- An element that is neither in a well-formed list nor its head goes in front, and every other element stays in its order.
pub list_add-cons :
    (l : Links) (new head : ℕ) (xs : List ℕ)
    → Ring l head xs
    → has new (head ∷ xs) ≡ false
    → Ring (list_add new head l) head (new ∷ xs)
list_add-cons l new head xs r fresh = record {
  seg = list_add-Seg l new head xs r.seg r.head_out r.distinct fresh;
  head_out = ground (arith, r.head_out);
  distinct = (ground arith, r.distinct);
}

-- the end of the list, whose last element is `u` (the head itself if there is none)
add_tail_end :
    (l : Links) (new head u : ℕ)
    → l.next u ≡ head
    → l.prev head ≡ u
    → u ≢ new
    → head ≢ new
    → Seg (list_add_tail new head l) u (new ∷ []) head
unfolding list_add_tail
add_tail_end l new head u n v ne ne' = ground arith

add_tail_snoc :
    (l : Links) (new head : ℕ) (ys : List ℕ) (u : ℕ)
    → Ring l head (ys ++ u ∷ [])
    → has new (head ∷ (ys ++ u ∷ [])) ≡ false
    → Seg (list_add_tail new head l) head ((ys ++ u ∷ []) ++ new ∷ []) head
unfolding list_add_tail
add_tail_snoc l new head ys u r fresh =
    let (front, back) = (Seg-split l head ys u [] head).0 r.seg in
    let (_, _, apart) = Distinct-append ys (u ∷ []) r.distinct in
    let out = has-append head ys (u ∷ []) in
    let new_out = has-append new ys (u ∷ []) in
    rw append_assoc (
      (Seg-split (list_add_tail new head l) head ys u (new ∷ []) head).1 (
        Seg-frame l _ head ys u (λ a h. ground (arith, apart a, r.head_out))
            (λ a h. ground (arith, r.head_out, apart a)) front,
        add_tail_end l new head u back.0 back.1 (ground arith) (ground arith),
      ))

list_add_tail-Seg :
    (l : Links) (new head : ℕ) (xs : List ℕ)
    → Ring l head xs
    → has new (head ∷ xs) ≡ false
    → Seg (list_add_tail new head l) head (xs ++ new ∷ []) head
list_add_tail-Seg l new head [] r fresh =
    add_tail_end l new head head r.seg.0 r.seg.1 (ground arith) (ground arith)
list_add_tail-Seg l new head (x ∷ xs) r fresh = elim (snoc_cases (x ∷ xs)) [
  | inl e ↦ absurd (cc)
  | inr (ys, u, e) ↦
      subst (λ (zs : List ℕ). Seg (list_add_tail new head l) head (zs ++ new ∷ []) head) (sym e)
        (add_tail_snoc l new head ys u (subst (Ring l head) e r)
          (subst (λ (zs : List ℕ). has new (head ∷ zs) ≡ false) e fresh))
]

fresh_elsewhere :
    (new a : ℕ) (xs : List ℕ) → has a xs ≡ true → has new xs ≡ false → (a == new) || false ≡ false
fresh_elsewhere new a xs h f = elim (Bool-cases (a == new)) [
  | inl e ↦ let eq : a ≡ new = ground arith in cc (h, f, ap (λ (n : ℕ). has n xs) eq)
  | inr ne ↦ ground arith
]

-- An element that is neither in a well-formed list nor its head goes to the end, and every other element stays in its order.
pub list_add_tail-append :
    (l : Links) (new head : ℕ) (xs : List ℕ)
    → Ring l head xs
    → has new (head ∷ xs) ≡ false
    → Ring (list_add_tail new head l) head (xs ++ new ∷ [])
list_add_tail-append l new head xs r fresh = record {
  seg = list_add_tail-Seg l new head xs r fresh;
  head_out = ground (arith, has-append head xs (new ∷ []), r.head_out);
  distinct =
      append-Distinct xs (new ∷ []) r.distinct (refl, tt)
        (λ a h. fresh_elsewhere new a xs h (ground arith));
}
