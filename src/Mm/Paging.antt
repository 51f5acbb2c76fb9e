-- ===== src/Mm/Paging.antt =====
-- arch/mm/init.c, include/asm/pgtable.h, mm/mprotect.c and the page fault handler's part of
-- mm/memory.c: the 4-level page tables, kept in physical memory.
pub mod Space
pub mod Clone
mod Tests
use relis.Prelude.{
  ℕ, zero, suc, ◌+◌, ◌-◌, ◌*◌, ◌/◌, ◌%◌, ◌^◌, ◌≤◌, ◌<◌, min, bit_and, bit_or, bit_xor, ◌≡◌, refl,
  sym, ap, ◌∙◌, subst, ◌≢◌, ◌↔◌, ◌⊎◌, inl, inr, Bool, true, false, not, ◌&&◌, ◌||◌, Option, none,
  some, List, [], ◌∷◌, ◌++◌, map, append_assoc, append-nil, arith, ltb, leb, ◌==◌, if◌then◌else◌,
  ltb→lt, lt→ltb, leb→le, ==_iff, tests, Bool-cases, Option-cases, if_lem, length, get_elem?,
  get_or, set, take, drop, replicate, length-append, length-set, get_or-set_self, get_or-set_ne,
  length-take, length-drop, take-append-drop, length-replicate, get_or-replicate, update,
  update_self, update_ne, test_bit, not64, bit_and_step, bit_or_step, test_bit-and, test_bit-or,
  test_bit-pow, test_bit-not64, bit_and-zero, bit_and-pow, bit_or-lt, bit_and-le, pow-lt,
  bit_and-ones, test_bit-zero, bit_and_align, bit_and_high, bit_and_mask, bit_or_field,
  bit_or-zero_left, bit_or-zero_right, ℤ, pos, negsuc, minus_one, sub_ℕ,
}
use relis.Mm.PageAlloc.{Pmm, page_size, alloc_page}

-- The allocator with its memory, the register cr3, and `current_pgd`: the physical address of the
-- table that the pointer names through the direct map, `none` for the null pointer.
pub record Mmu : Type 0 where
  pub pmm : Pmm
  pub cr3 : ℕ
  pub current_pgd : Option ℕ

abbrev pub pte_present : ℕ
pte_present = 2 ^ 0

abbrev pub pte_writable : ℕ
pte_writable = 2 ^ 1

abbrev pub pte_user : ℕ
pte_user = 2 ^ 2

abbrev pub pte_pcd : ℕ
pte_pcd = 2 ^ 4

abbrev pub pte_huge : ℕ
pte_huge = 2 ^ 7

abbrev pub pte_global : ℕ
pte_global = 2 ^ 8

abbrev pub pte_cow : ℕ
pte_cow = 2 ^ 9

abbrev pub pte_flags_mask : ℕ
pte_flags_mask = 0xfff0000000000fff

abbrev pub pte_addr_mask : ℕ
pte_addr_mask = 0x000ffffffffff000

-- the four index functions of pgtable.h
abbrev pub pgd_index : ℕ → ℕ
pgd_index va = va / 2 ^ 39 % 512

abbrev pub pud_index : ℕ → ℕ
pud_index va = va / 2 ^ 30 % 512

abbrev pub pmd_index : ℕ → ℕ
pmd_index va = va / 2 ^ 21 % 512

abbrev pub pte_index : ℕ → ℕ
pte_index va = va / 2 ^ 12 % 512

-- where entry `i` of the table at physical address `table` lies, as an index of 64-bit words
abbrev pub slot : ℕ → ℕ → ℕ
slot table i = table / 8 + i

abbrev pub read : ℕ → Mmu → ℕ
read k m = m.pmm.mem k

abbrev pub write : ℕ → ℕ → Mmu → Mmu
write k v m = record m { pmm = record m.pmm { mem = update m.pmm.mem k v } }

-- `*p & PTE_PRESENT`
abbrev pub present : ℕ → Bool
present e = not (bit_and e pte_present == 0)

-- `*p & PTE_ADDR_MASK`
abbrev pub address : ℕ → ℕ
address e = bit_and e pte_addr_mask

unfoldable pub alloc : Mmu → Option (ℕ × Mmu)
alloc m = elim (alloc_page m.pmm) [
  | none ↦ none
  | some (phys, p) ↦ some (phys, record m { pmm = p })
]

unfoldable pub switch_address_space : ℕ → Mmu → Mmu
switch_address_space cr3 m = record m { cr3 = cr3; current_pgd = some (address cr3) }

-- One level of the walk of `arch_map_page`, which the source writes out three times: the entry at
-- word `k` gets a new table if it has none, and the user flag. The result is the address of the
-- table that the entry names; `none` is the halt of the allocator.
unfoldable pub ensure_table : ℕ → ℕ → Mmu → Option (ℕ × Mmu)
unfolding alloc
ensure_table k user_flag m =
    if present (read k m)
    then (let m' = write k (bit_or (read k m) user_flag) m in some (address (read k m'), m'))
    else elim (alloc m) [
      | none ↦ none
      | some (new_table, m₁) ↦
          let e = bit_or (bit_or (bit_or (address new_table) pte_present) pte_writable) user_flag in
          let m₂ = write k e m₁ in some (address (read k m₂), m₂)
    ]

-- The last level: the entry at word `k`.
unfoldable pub set_entry : ℕ → ℕ → ℕ → Mmu → Mmu
set_entry k phys flags m = write k (bit_or (bit_or (address phys) flags) pte_present) m

infixl 5 ◌>>=◌
abbrev pub ◌>>=◌ {ℓ} : {A B : Type ℓ} → Option A → (A → Option B) → Option B
none >>= f = none
some a >>= f = f a

unfoldable pub arch_map_page : ℕ → ℕ → ℕ → Mmu → Option Mmu
unfolding ensure_table set_entry
arch_map_page virt phys flags m = elim m.current_pgd [
  | none ↦ some m
  | some pgd ↦
      let user_flag = if bit_and flags pte_user == 0 then 0 else pte_user in
      do
        (pud, m₁) ← ensure_table (slot pgd (pgd_index virt)) user_flag m
        (pmd, m₂) ← ensure_table (slot pud (pud_index virt)) user_flag m₁
        (pte, m₃) ← ensure_table (slot pmd (pmd_index virt)) user_flag m₂
        some (set_entry (slot pte (pte_index virt)) phys flags m₃)
]

-- The word of the entry for `virt`, as the index of the word; `none` is the null pointer.
unfoldable pub walk_page_table : ℕ → Mmu → Option ℕ
walk_page_table virt m = elim m.current_pgd [
  | none ↦ none
  | some pgd ↦
      let e₄ = read (slot pgd (pgd_index virt)) m in
      if not (present e₄)
      then none
      else let e₃ = read (slot (address e₄) (pud_index virt)) m in
        if not (present e₃)
        then none
        else let e₂ = read (slot (address e₃) (pmd_index virt)) m in
          if not (present e₂) then none else some (slot (address e₂) (pte_index virt))
]

unfoldable pub paging_unmap_page : ℕ → Mmu → Mmu
unfolding walk_page_table
paging_unmap_page virt m = elim (walk_page_table virt m) [
  | none ↦ m
  | some k ↦ if present (read k m) then write k 0 m else m
]

-- copies `n` words from word `i` on: `new[i] = old[i]`
unfoldable pub copy_words : ℕ → ℕ → ℕ → ℕ → Mmu → Mmu
copy_words zero old new i m = m
copy_words (suc n) old new i m = copy_words n old new (i + 1) (write (new + i) (read (old + i) m) m)

unfoldable pub create_new_address_space : Mmu → Option (ℕ × Mmu)
unfolding copy_words
create_new_address_space m = do
  (new_pml4, m₁) ← alloc m
  some (new_pml4, copy_words 256 (slot (address m₁.cr3) 0) (slot new_pml4 0) 256 m₁)

-- The entry that sys_mprotect writes over `e`, for the flags `new_flags`.
unfoldable pub protected : ℕ → ℕ → ℕ
protected new_flags e =
    bit_or (bit_or (bit_and e (not64 pte_flags_mask)) (bit_and new_flags pte_flags_mask))
      pte_present

-- The loop of sys_mprotect from `vaddr` on, for `n` pages.
unfoldable pub protect_pages : ℕ → ℕ → ℕ → Mmu → Mmu
unfolding walk_page_table protected
protect_pages zero vaddr new_flags m = m
protect_pages (suc n) vaddr new_flags m =
    let m' : Mmu = elim (walk_page_table vaddr m) [
      | none ↦ m
      | some k ↦ if present (read k m) then write k (protected new_flags (read k m)) m else m
    ] in
    protect_pages n (vaddr + page_size) new_flags m'

-- For a range that does not wrap: the loop takes one round for each started page.
unfoldable pub sys_mprotect : ℕ → ℕ → ℕ → Mmu → Mmu
unfolding protect_pages
sys_mprotect addr len new_flags m =
    protect_pages ((len + page_size - 1) / page_size) addr new_flags m

-- what the page fault handler ends with; `panic` is the halt behind the messages
pub data Fault : Type 0 where
  resolved : Mmu → Fault
  panic : Fault

-- The part of handle_page_fault on a copy-on-write page; the kmemcpy copies 512 words.
unfoldable pub copy_on_write : ℕ → Mmu → Fault
unfolding walk_page_table alloc copy_words
copy_on_write faulting_address m = elim (walk_page_table faulting_address m) [
  | none ↦ panic
  | some k ↦
      if not (present (read k m)) || (bit_and (read k m) pte_cow == 0)
      then panic
      else elim (alloc m) [
        | none ↦ panic
        | some (new_phys, m₁) ↦
            let m₂ = copy_words 512 (slot (address (read k m)) 0) (slot new_phys 0) 0 m₁ in
            let e = bit_or (bit_or (bit_or new_phys pte_writable) pte_user) pte_present in
            resolved (write k e m₂)
      ]
]

-- handle_page_fault for a current task with the user stack from `stack_start` to `stack_end`.
-- PAGE_MASK clears the offset in the page.
unfoldable pub handle_page_fault : ℕ → ℕ → ℕ → ℕ → Mmu → Fault
unfolding alloc arch_map_page copy_on_write
handle_page_fault stack_start stack_end faulting_address error_code m =
    if not (test_bit error_code 0)
      && leb stack_start faulting_address
      && ltb faulting_address stack_end
    then elim (alloc m) [
      | none ↦ panic
      | some (phys, m₁) ↦
          elim (arch_map_page (faulting_address / page_size * page_size) phys
            (bit_or pte_writable pte_user) m₁) [ none ↦ panic | some m₂ ↦ resolved m₂ ]
    ]
    else if test_bit error_code 1
    then copy_on_write faulting_address m
    else panic
