-- ===== src/Mm/Paging/Space.antt =====
-- A new address space shares the kernel's half of the current one and has an empty user half.
use relis.Prelude.{
  ℕ, zero, suc, ◌+◌, ◌-◌, ◌*◌, ◌/◌, ◌≤◌, ◌<◌, ◌≡◌, refl, sym, ap, ◌∙◌, ◌≢◌, ◌⊎◌, true, false, ◌&&◌,
  some, arith, ltb, leb, if◌then◌else◌,
}
use relis.Mm.PageAlloc.{Pmm}
use relis.Mm.PageAlloc.Alloc.{IsValid, Taken, alloc_page-Taken}
use relis.Mm.PageAlloc.Bitmap.{used}
use relis.Mm.Paging.{Mmu, read, write, slot, address, alloc, copy_words, create_new_address_space}

-- The words `old + i` to `old + i + n` stand at `new + i` on, if none of them is among those written.
copy_words_lem :
    (n old new i : ℕ) (m : Mmu) (k : ℕ)
    → (old + i + n ≤ new + i) ⊎ (new + i + n ≤ old + i)
    → read k (copy_words n old new i m)
      ≡ (if leb (new + i) k && ltb k (new + i + n) then read (old + (k - new)) m else read k m)
unfolding copy_words
copy_words_lem zero old new i m k h = ground arith
copy_words_lem (suc n) old new i m k h =
    let m' = write (new + i) (read (old + i) m) m in
    let first : new + i ≡ k → old + (k - new) ≡ old + i = λ e. omega arith in
    let apart : new + i < k → k < new + i + suc n → old + (k - new) ≢ new + i =
      λ a b e. omega arith in
    ground (arith, copy_words_lem n old new (i + 1) m' k (omega arith))

-- what a new address space is, from the one whose table is at `address m.cr3`
pub record Fresh (m : Mmu) (phys : ℕ) (m' : Mmu) : Type 0 where
  pub user : (i : ℕ) → i < 256 → read (slot phys i) m' ≡ 0
  pub kernel : (i : ℕ) → 256 ≤ i → i < 512 → read (slot phys i) m' ≡ read (slot (address m.cr3) i) m
  pub others : (k : ℕ) → k / 512 ≢ phys / 4096 → read k m' ≡ read k m
  pub valid : IsValid m'.pmm
  pub same_cr3 : m'.cr3 ≡ m.cr3

copy_words-IsValid :
    (n old new i : ℕ) (m : Mmu) → IsValid m.pmm → IsValid (copy_words n old new i m).pmm
unfolding copy_words
copy_words-IsValid zero old new i m v = v
copy_words-IsValid (suc n) old new i m v =
    copy_words-IsValid n old new (i + 1) (write (new + i) (read (old + i) m) m)
      (record { total = v.total; hint = v.hint; free = v.free; below = v.below; words = v.words })

copy_words-cr3 : (n old new i : ℕ) (m : Mmu) → (copy_words n old new i m).cr3 ≡ m.cr3
unfolding copy_words
copy_words-cr3 zero old new i m = refl
copy_words-cr3 (suc n) old new i m =
    copy_words-cr3 n old new (i + 1) (write (new + i) (read (old + i) m) m)

distinct : true ≡ false → ⊥
distinct e = ground arith

copied :
    (m : Mmu) (t i : ℕ) (q : Pmm)
    → address m.cr3 ≡ t * 4096
    → used m.pmm.bitmap t ≡ true
    → Taken m.pmm i q
    → Fresh m
        (i * 4096)
        (copy_words 256 (slot (address m.cr3) 0) (slot (i * 4096) 0) 256 (record m { pmm = q }))
copied m t i q a u k =
    let apart : t ≢ i = λ e. distinct (sym u ∙ ap (used m.pmm.bitmap) e ∙ k.was_clear) in
    let m₁ : Mmu = record m { pmm = q } in
    let old = slot (address m.cr3) 0 in
    let new = slot (i * 4096) 0 in
    let old_at : old ≡ t * 512 = omega arith in
    let new_at : new ≡ i * 512 = omega arith in
    let all = λ (w : ℕ). copy_words_lem 256 old new 256 m₁ w (omega arith) in
    record {
      user = λ j h.
          ground (arith, all (slot (i * 4096) j), k.zeroed (slot (i * 4096) j) (omega arith));
      kernel = λ j l h.
          let from : old + (slot (i * 4096) j - new) ≡ slot (address m.cr3) j = omega arith in
          let there : slot (address m.cr3) j / 512 ≢ i = λ e. apart (omega arith) in
          ground (
            arith,
            all (slot (i * 4096) j),
            ap m₁.pmm.mem from,
            k.others (slot (address m.cr3) j) there,
          );
      others = λ w h.
          let there : w / 512 ≢ i = λ e. h (omega arith) in ground (arith, all w, k.others w there);
      valid = copy_words-IsValid 256 old new 256 m₁ k.valid;
      same_cr3 = copy_words-cr3 256 old new 256 m₁;
    }

-- While a page is free and the current top-level table is in a page that is in use, create_new_address_space returns a
-- table whose 256 user entries are 0 and whose 256 kernel entries are those of the current table; it
-- writes no other memory and keeps the allocator valid.
pub create_new_address_space-Fresh :
    (m : Mmu) (t : ℕ)
    → IsValid m.pmm
    → 0 < m.pmm.pages_free
    → address m.cr3 ≡ t * 4096
    → used m.pmm.bitmap t ≡ true
    → (phys : ℕ) × (m' : Mmu) × (create_new_address_space m ≡ some (phys, m') × Fresh m phys m')
unfolding create_new_address_space alloc
create_new_address_space-Fresh m t v f a u =
    let (i, q, e, k) = alloc_page-Taken m.pmm v f in
    let m₁ : Mmu = record m { pmm = q } in
    (
      i * 4096,
      copy_words 256 (slot (address m.cr3) 0) (slot (i * 4096) 0) 256 m₁,
      (rw (e, create_new_address_space, alloc) refl, copied m t i q a u k),
    )
