-- ===== src/ListHead/Frame.antt =====
-- An operation of include/relis/list.h on one list leaves a list that shares no node with it.
use relis.Prelude.{ℕ, ◌≡◌, ap, ◌≢◌, true, false, List, [], ◌∷◌, arith}
use relis.ListHead.{Links, list_add, list_add_tail, list_del}
use relis.ListHead.Ring.{has, Seg, Ring, Seg-frame}

abbrev pub Apart : List ℕ → List ℕ → Type 0
Apart xs ys = (a : ℕ) → has a xs ≡ true → has a ys ≡ false

-- the links differ at most at the nodes of `xs`
abbrev pub SameOutside : List ℕ → Links → Links → Type 0
SameOutside xs l m = (a : ℕ) → has a xs ≡ false → (m.next a ≡ l.next a) × (m.prev a ≡ l.prev a)

pub Ring-frame :
    (l m : Links) (xs : List ℕ) (head : ℕ) (ys : List ℕ)
    → SameOutside xs l m
    → Apart (head ∷ ys) xs
    → Ring l head ys
    → Ring m head ys
Ring-frame l m xs head ys same apart r = record {
  seg =
      Seg-frame l m head ys head (λ a h. (same a (apart a h)).0) (λ a h. (same a (apart a h)).1)
        r.seg;
  head_out = r.head_out;
  distinct = r.distinct;
}

next_in : (l : Links) (p : ℕ) (ys : List ℕ) (q : ℕ) → Seg l p ys q → has (l.next p) (q ∷ ys) ≡ true
next_in l p [] q s = ground arith
next_in l p (y ∷ ys) q s = ground arith

prev_in : (l : Links) (p : ℕ) (ys : List ℕ) (q : ℕ) → Seg l p ys q → has (l.prev q) (p ∷ ys) ≡ true
prev_in l p [] q s = ground arith
prev_in l p (y ∷ ys) q s = ground (arith, prev_in l y ys q s.2)

outside_ne : (a b : ℕ) (xs : List ℕ) → has b xs ≡ true → has a xs ≡ false → a ≢ b
outside_ne a b xs h o e = cc (h, o, ap (λ (n : ℕ). has n xs) e)

pub list_add-SameOutside :
    (l : Links) (new head : ℕ) (xs : List ℕ)
    → Ring l head xs
    → SameOutside (new ∷ head ∷ xs) l (list_add new head l)
unfolding list_add
list_add-SameOutside l new head xs r a o =
    ground (arith, outside_ne a (l.next head) (head ∷ xs) (next_in l head xs head r.seg))

pub list_add_tail-SameOutside :
    (l : Links) (new head : ℕ) (xs : List ℕ)
    → Ring l head xs
    → SameOutside (new ∷ head ∷ xs) l (list_add_tail new head l)
unfolding list_add_tail
list_add_tail-SameOutside l new head xs r a o =
    ground (arith, outside_ne a (l.prev head) (head ∷ xs) (prev_in l head xs head r.seg))

-- taking out the first element
pub list_del-SameOutside :
    (l : Links) (x head : ℕ) (xs : List ℕ)
    → Ring l head (x ∷ xs)
    → SameOutside (head ∷ x ∷ xs) l (list_del x l)
unfolding list_del
list_del-SameOutside l x head xs r a o =
    ground (arith, r.seg, outside_ne a (l.next x) (head ∷ xs) (next_in l x xs head r.seg.2))
