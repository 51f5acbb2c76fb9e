-- ===== src/Mm/PageAlloc/Free.antt =====
-- What free_page of mm/page_alloc.c does, and how it undoes alloc_page.
use relis.Prelude.{
  ℕ, ◌+◌, ◌*◌, ◌/◌, ◌%◌, ◌^◌, ◌≤◌, ◌<◌, ◌≡◌, refl, subst, true, false, not, ◌&&◌, some, arith, ◌==◌,
}
use relis.Mm.PageAlloc.{give_page}
use relis.Mm.PageAlloc.{Pmm, page_size, clear_page, alloc_page, free_page}
use relis.Mm.PageAlloc.Alloc.{IsValid, Taken, alloc_page-Taken}
use relis.Mm.PageAlloc.Bitmap.{
  used, mask_test, used-clear_page, clear_page-IsWords, count_clear, count_clear-take,
  count_clear-le,
}

-- What a call that gives page `i` back leaves.
record Freed (p : Pmm) (i : ℕ) (q : Pmm) : Type 0 where
  pub now_used : (j : ℕ) → used q.bitmap j ≡ (not (i == j) && used p.bitmap j)
  pub one_more : q.pages_free ≡ p.pages_free + 1
  pub same_mem : q.mem ≡ p.mem
  pub total : q.pages_total ≡ p.pages_total
  pub valid : IsValid q

give_page-Freed :
    (p : Pmm) (i : ℕ)
    → IsValid p
    → i < p.pages_total
    → used p.bitmap i ≡ true
    → Freed p i (give_page i p)
unfolding give_page
give_page-Freed p i v r u = record {
  now_used = marks;
  one_more = more;
  same_mem = refl;
  total = refl;
  valid = record {
    total = v.total;
    hint = ground (arith, v.hint);
    free = omega (arith, counted, more, v.free);
    below = λ j h. ground (arith, marks j, v.below j);
    words = clear_page-IsWords p.bitmap i v.words;
  };
}
  where
    marks : (j : ℕ) → used (clear_page p.bitmap i) j ≡ (not (i == j) && used p.bitmap j)
    marks j = used-clear_page p.bitmap i j v.words

    counted :
        count_clear (used p.bitmap) p.pages_total + 1
        ≡ count_clear (used (clear_page p.bitmap i)) p.pages_total
    counted =
        count_clear-take (used (clear_page p.bitmap i)) (used p.bitmap) i p.pages_total r
          (ground (arith, marks i)) (λ j. ground (arith, marks j, u))

    more : (p.pages_free + 1) % 2 ^ 32 ≡ p.pages_free + 1
    more = omega (arith, v.free, v.total, count_clear-le (used p.bitmap) p.pages_total)

-- the page that free_page takes an address for: the quotient is cut to 32 bits
abbrev page_of : ℕ → ℕ
page_of phys = phys / page_size % 2 ^ 32

-- On a valid allocator, free_page of an address inside a page that is in use clears that page's
-- bit and no other, counts it back and leaves a valid allocator. An address past the memory or in
-- a clear page, so a second free too, changes nothing.
free_page-Freed :
    (p : Pmm) (phys : ℕ)
    → IsValid p
    → (page_of phys < p.pages_total
        → used p.bitmap (page_of phys) ≡ true
        → Freed p (page_of phys) (free_page phys p))
      × (p.pages_total ≤ page_of phys → free_page phys p ≡ p)
      × (used p.bitmap (page_of phys) ≡ false → free_page phys p ≡ p)
unfolding free_page
free_page-Freed p phys v = (
  λ r u.
      subst (Freed p (page_of phys)) (ground (arith, mask_test p.bitmap (page_of phys)))
        (give_page-Freed p (page_of phys) v r u),
  λ h. ground arith,
  λ h. ground (arith, mask_test p.bitmap (page_of phys)),
)

-- Two valid allocators with the same pages in use hand out the same page.
alloc_page_again :
    (p r : Pmm) (i : ℕ)
    → IsValid r
    → 0 < r.pages_free
    → used p.bitmap i ≡ false
    → ((j : ℕ) → j < i → used p.bitmap j ≡ true)
    → ((j : ℕ) → used r.bitmap j ≡ used p.bitmap j)
    → (s : Pmm) × (alloc_page r ≡ some (i * page_size, s))
alloc_page_again p r i v f c l same =
    let (k, s, e, t) = alloc_page-Taken r v f in
    let eq : k ≡ i = ground (arith, t.lowest i, t.was_clear, same i, same k, l k) in
    (s, subst (λ (n : ℕ). alloc_page r ≡ some (n * page_size, s)) eq e)

-- Giving back the page that alloc_page has just handed out restores the counter and the state of
-- every page, and the allocator would hand out the same page again.
pub free_page-alloc_page :
    (p : Pmm)
    → IsValid p
    → 0 < p.pages_free
    → (phys : ℕ) (q : Pmm) → alloc_page p ≡ some (phys, q)
    → ((j : ℕ) → used (free_page phys q).bitmap j ≡ used p.bitmap j)
      × ((free_page phys q).pages_free ≡ p.pages_free)
      × ((r : Pmm) × (alloc_page (free_page phys q) ≡ some (phys, r)))
free_page-alloc_page p v f phys q e =
    let (i, q', e', t) = alloc_page-Taken p v f in
    let same : (phys ≡ i * page_size) × (q ≡ q') = ground (arith, e, e') in
    rw (same.0, same.1) (round_trip i q' t)
  where
    round_trip :
        (i : ℕ) (q : Pmm)
        → Taken p i q
        → ((j : ℕ) → used (free_page (i * page_size) q).bitmap j ≡ used p.bitmap j)
          × ((free_page (i * page_size) q).pages_free ≡ p.pages_free)
          × ((r : Pmm) × (alloc_page (free_page (i * page_size) q) ≡ some (i * page_size, r)))
    round_trip i q t =
        let page : page_of (i * page_size) ≡ i = omega (arith, t.in_range, v.total) in
        let freed : Freed q i (free_page (i * page_size) q) =
          subst (λ (n : ℕ). Freed q n (free_page (i * page_size) q)) page
            ((free_page-Freed q (i * page_size) t.valid).0
              (omega (arith, page, t.in_range, t.total))
              (rw page (ground (arith, t.now_used i)))) in
        let marks : (j : ℕ) → used (free_page (i * page_size) q).bitmap j ≡ used p.bitmap j =
          λ j. ground (arith, freed.now_used j, t.now_used j, t.was_clear) in
        let count : (free_page (i * page_size) q).pages_free ≡ p.pages_free =
          omega (arith, freed.one_more, t.one_less) in
        (
          marks,
          count,
          alloc_page_again p _ i freed.valid (omega (arith, count)) t.was_clear t.lowest marks,
        )
