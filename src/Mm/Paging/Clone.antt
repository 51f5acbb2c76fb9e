-- ===== src/Mm/Paging/Clone.antt =====
-- clone_address_space of arch/mm/init.c: the loops over the four levels of the tables, which copy the
-- user half page by page. `none` is the halt of the page allocator.
use relis.Prelude.{ℕ, zero, suc, ◌+◌, bit_and, bit_or, true, false, Option, some, ◌==◌}
use relis.Mm.Paging.{
  Mmu, alloc, present, address, read, write, slot, copy_words, pte_huge, pte_flags_mask, ◌>>=◌,
}

-- the address of a new table or page with the flags of the entry `e`
unfoldable pub with_flags : ℕ → ℕ → ℕ
with_flags phys e = bit_or phys (bit_and e pte_flags_mask)

-- The innermost loop from entry `i` on, for `n` entries of the table at word `old`: each page that is
-- present is copied.
unfoldable pub clone_pages : ℕ → ℕ → ℕ → ℕ → Mmu → Option Mmu
unfolding with_flags
clone_pages zero old new i m = some m
clone_pages (suc n) old new i m = elim (present (read (old + i) m)) [
  | false ↦ clone_pages n old new (i + 1) m
  | true ↦ alloc m >>= λ r.
      let m₂ = copy_words 512 (slot (address (read (old + i) r.1)) 0) (slot r.0 0) 0 r.1 in
      clone_pages n old new (i + 1) (write (new + i) (with_flags r.0 (read (old + i) m₂)) m₂)
]

-- the loop around it, where an entry may be a huge page, which is shared
unfoldable pub clone_tables : ℕ → ℕ → ℕ → ℕ → Mmu → Option Mmu
unfolding with_flags clone_pages
clone_tables zero old new i m = some m
clone_tables (suc n) old new i m = elim (present (read (old + i) m)) [
  | false ↦ clone_tables n old new (i + 1) m
  | true ↦ elim (bit_and (read (old + i) m) pte_huge == 0) [
    | false ↦ clone_tables n old new (i + 1) (write (new + i) (read (old + i) m) m)
    | true ↦ alloc m >>= λ r.
        let m₂ = write (new + i) (with_flags r.0 (read (old + i) r.1)) r.1 in
        clone_pages 512 (slot (address (read (old + i) m)) 0) (slot r.0 0) 0 m₂ >>= λ m₃.
        clone_tables n old new (i + 1) m₃
  ]
]

unfoldable pub clone_directories : ℕ → ℕ → ℕ → ℕ → Mmu → Option Mmu
unfolding with_flags clone_tables
clone_directories zero old new i m = some m
clone_directories (suc n) old new i m = elim (present (read (old + i) m)) [
  | false ↦ clone_directories n old new (i + 1) m
  | true ↦ alloc m >>= λ r.
      let m₂ = write (new + i) (with_flags r.0 (read (old + i) r.1)) r.1 in
      clone_tables 512 (slot (address (read (old + i) m)) 0) (slot r.0 0) 0 m₂ >>= λ m₃.
      clone_directories n old new (i + 1) m₃
]

-- the outer loop, over the user half
unfoldable pub clone_user : ℕ → ℕ → ℕ → ℕ → Mmu → Option Mmu
unfolding with_flags clone_directories
clone_user zero old new i m = some m
clone_user (suc n) old new i m = elim (present (read (old + i) m)) [
  | false ↦ clone_user n old new (i + 1) m
  | true ↦ alloc m >>= λ r.
      let m₂ = write (new + i) (with_flags r.0 (read (old + i) r.1)) r.1 in
      clone_directories 512 (slot (address (read (old + i) m)) 0) (slot r.0 0) 0 m₂ >>= λ m₃.
      clone_user n old new (i + 1) m₃
]

unfoldable pub clone_address_space : Mmu → Option (ℕ × Mmu)
unfolding clone_user
clone_address_space m = alloc m >>= λ r.
    let old = slot (address r.1.cr3) 0 in
    let new = slot r.0 0 in
    clone_user 256 old new 0 (copy_words 256 old new 256 r.1) >>= λ m₂. some (r.0, m₂)
