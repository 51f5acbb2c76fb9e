-- ===== src/ListHead/Walk.antt =====
-- list_for_each and list_empty of include/relis/list.h against the sequence of elements.
use relis.Prelude.{ℕ, zero, suc, ◌<◌, ◌≡◌, ◌↔◌, true, false, some, List, [], ◌∷◌, arith, length}
use relis.ListHead.{Links, list_empty, list_for_each, for_each_from}
use relis.ListHead.Ring.{has, Seg, Ring, Ring-first}

-- list_empty says whether the list has no element.
pub list_empty_iff :
    (l : Links) (head : ℕ) (xs : List ℕ) → Ring l head xs → (list_empty head l ≡ true) ↔ (xs ≡ [])
unfolding list_empty
list_empty_iff l head xs r =
    let f = Ring-first l head xs r in (λ h. f.0 (ground arith), λ e. ground (arith, f.1 e))

for_each_from-Seg :
    (l : Links) (fuel p : ℕ) (xs : List ℕ) (head : ℕ)
    → Seg l p xs head
    → has head xs ≡ false
    → length xs < fuel
    → for_each_from fuel (l.next p) head l ≡ some xs
unfolding for_each_from
for_each_from-Seg l zero p xs head s out f = absurd (omega arith)
for_each_from-Seg l (suc fuel) p [] head s out f = ground arith
for_each_from-Seg l (suc fuel) p (x ∷ xs) head s out f =
    let rest = for_each_from-Seg l fuel x xs head s.2 (ground arith) (omega arith) in
    rw (s.0, rest) (ground arith)

-- On a well-formed list, with fuel for one round more than the elements, the loop ends and visits them in order.
pub list_for_each_lem :
    (l : Links) (head : ℕ) (xs : List ℕ) (fuel : ℕ)
    → Ring l head xs
    → length xs < fuel
    → list_for_each fuel head l ≡ some xs
unfolding list_for_each
list_for_each_lem l head xs fuel r = for_each_from-Seg l fuel head xs head r.seg r.head_out
