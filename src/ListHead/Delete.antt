-- ===== src/ListHead/Delete.antt =====
-- list_del of include/relis/list.h against the sequence of elements.
use relis.Prelude.{
  ℕ, ◌≡◌, refl, sym, subst, inl, inr, true, false, List, [], ◌∷◌, ◌++◌, append_assoc, arith,
}
use relis.ListHead.{Links, list_del}
use relis.ListHead.Ring.{
  has, Distinct, Seg, Ring, Seg-frame, Seg-split, has-append, snoc_cases, append-Distinct,
  Distinct-append,
}

-- `x` stands between `p` and what follows.
unlink_here :
    (l : Links) (x p : ℕ) (ys : List ℕ) (q : ℕ)
    → l.next p ≡ x
    → l.prev x ≡ p
    → Seg l x ys q
    → (has x (p ∷ q ∷ ys) ≡ false)
    → has p ys ≡ false
    → has q ys ≡ false
    → Distinct ys
    → Seg (list_del x l) p ys q
unfolding list_del
unlink_here l x p [] q n v s xo po qo d = ground arith
unlink_here l x p (y ∷ ys) q n v s xo po qo d = (
  ground arith,
  ground arith,
  Seg-frame l _ y ys q (λ a h. ground arith) (λ a h. ground arith) s.2,
)

-- the front of the list, up to the element before `x`
unlink_front :
    (l : Links) (x u head : ℕ) (zs : List ℕ) (v : ℕ)
    → l.prev x ≡ u
    → l.next x ≡ v
    → has x (head ∷ u ∷ zs) ≡ false
    → has u (head ∷ zs) ≡ false
    → has v (u ∷ zs) ≡ false
    → Seg l head zs u
    → Seg (list_del x l) head zs u
unfolding list_del
unlink_front l x u head zs v pu nv xo uo vo s =
    Seg-frame l _ head zs u (λ a h. ground arith) (λ a h. ground arith) s

-- what follows `x` is not among elements that meet neither the rest nor the end
next_out :
    (l : Links) (x : ℕ) (ys : List ℕ) (q : ℕ) (zs : List ℕ)
    → Seg l x ys q
    → has q zs ≡ false
    → ((a : ℕ) → has a zs ≡ true → has a ys ≡ false)
    → has (l.next x) zs ≡ false
next_out l x [] q zs s o apart = rw s.0 o
next_out l x (y ∷ ys) q zs s o apart = rw s.0 (ground (arith, apart y))

del_snoc :
    (l : Links) (x u head : ℕ) (zs ys : List ℕ)
    → Ring l head ((zs ++ u ∷ []) ++ x ∷ ys)
    → Seg (list_del x l) head ((zs ++ u ∷ []) ++ ys) head
del_snoc l x u head zs ys r =
    let (front, back) = (Seg-split l head (zs ++ u ∷ []) x ys head).0 r.seg in
    let (first, link) = (Seg-split l head zs u [] x).0 front in
    let (d, d', apart) = Distinct-append (zs ++ u ∷ []) (x ∷ ys) r.distinct in
    let (_, _, apart') = Distinct-append zs (u ∷ []) d in
    let out = has-append head (zs ++ u ∷ []) (x ∷ ys) in
    let out' = has-append head zs (u ∷ []) in
    let xin = has-append x zs (u ∷ []) in
    let uin = has-append u zs (u ∷ []) in
    let v_out : has (l.next x) (u ∷ zs) ≡ false =
      next_out l x ys head (u ∷ zs) back (ground (arith, r.head_out))
        (λ a h. ground (arith, apart a, has-append a zs (u ∷ []))) in
    rw append_assoc (
      (Seg-split (list_del x l) head zs u ys head).1 (
        unlink_front l x u head zs (l.next x) link.1 refl (ground (arith, r.head_out, apart x))
            (ground (arith, r.head_out, apart' u)) v_out first,
        unlink_here l x u ys head link.0 link.1 back (ground (arith, r.head_out, apart x, d'.0))
            (ground (arith, apart u)) (ground (arith, r.head_out)) d'.1,
      ))

del-Seg :
    (l : Links) (x head : ℕ) (xs ys : List ℕ)
    → Ring l head (xs ++ x ∷ ys)
    → Seg (list_del x l) head (xs ++ ys) head
del-Seg l x head [] ys r =
    unlink_here l x head ys head r.seg.0 r.seg.1 r.seg.2 (ground (arith, r.head_out, r.distinct))
      (ground (arith, r.head_out)) (ground (arith, r.head_out)) r.distinct.1
del-Seg l x head (z ∷ xs) ys r = elim (snoc_cases (z ∷ xs)) [
  | inl e ↦ absurd (cc)
  | inr (zs, u, e) ↦
      subst (λ (w : List ℕ). Seg (list_del x l) head (w ++ ys) head) (sym e)
        (del_snoc l x u head zs ys (subst (λ (w : List ℕ). Ring l head (w ++ x ∷ ys)) e r))
]

-- From a well-formed list that has it, list_del takes the element out, and every other element stays in its order. The element's own
-- links become null.
pub list_del-Ring :
    (l : Links) (x head : ℕ) (xs ys : List ℕ)
    → Ring l head (xs ++ x ∷ ys)
    → Ring (list_del x l) head (xs ++ ys)
      × ((list_del x l).next x ≡ 0)
      × ((list_del x l).prev x ≡ 0)
list_del-Ring l x head xs ys r =
    let (d, d', apart) = Distinct-append xs (x ∷ ys) r.distinct in
    (
      record {
        seg = del-Seg l x head xs ys r;
        head_out = ground (arith, has-append head xs (x ∷ ys), has-append head xs ys, r.head_out);
        distinct = append-Distinct xs ys d d'.1 (λ a h. ground (arith, apart a));
      },
      (unfold list_del in ground arith),
      (unfold list_del in ground arith),
    )
