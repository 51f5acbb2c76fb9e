-- ===== src/Mm/Vmalloc.antt =====
-- mm/vmalloc.c: areas of kernel addresses, page by page.
mod Tests
use relis.Prelude.{
  ℕ, zero, suc, ◌+◌, ◌-◌, ◌*◌, ◌/◌, ◌%◌, ◌^◌, ◌≤◌, ◌<◌, min, bit_and, bit_or, bit_xor, ◌≡◌, refl,
  sym, ap, ◌∙◌, subst, ◌≢◌, ◌↔◌, ◌⊎◌, inl, inr, Bool, true, false, not, ◌&&◌, ◌||◌, Option, none,
  some, List, [], ◌∷◌, ◌++◌, map, append_assoc, append-nil, arith, ltb, leb, ◌==◌, if◌then◌else◌,
  ltb→lt, lt→ltb, leb→le, ==_iff, tests, Bool-cases, Option-cases, if_lem, length, get_elem?,
  get_or, set, take, drop, replicate, length-append, length-set, get_or-set_self, get_or-set_ne,
  length-take, length-drop, take-append-drop, length-replicate, get_or-replicate, update,
  update_self, update_ne, test_bit, not64, bit_and_step, bit_or_step, test_bit-and, test_bit-or,
  test_bit-pow, test_bit-not64, bit_and-zero, bit_and-pow, bit_or-lt, bit_and-le, pow-lt,
  bit_and-ones, test_bit-zero, bit_and_align, bit_and_high, ℤ, pos, negsuc, minus_one, sub_ℕ,
}
use relis.Mm.PageAlloc.{page_size, free_page}
use relis.Mm.Slab.{Slab, kmalloc, kfree}
use relis.Mm.Paging.{
  Mmu, alloc, arch_map_page, walk_page_table, present, address, read, write, pte_writable,
}

abbrev pub vmalloc_start : ℕ
vmalloc_start = 0xffffc90000000000

-- `struct vm_struct`, without its list node
pub record Area : Type 0 where
  pub addr : ℕ
  pub size : ℕ

-- The page tables, the heap and the statics of the file; the list of areas has the newest first.
pub record Vm : Type 0 where
  pub mmu : Mmu
  pub heap : Slab
  pub vmalloc_ptr : ℕ
  pub areas : List Area

-- The loop of vmalloc; `none` is the halt of the page allocator.
unfoldable pub map_pages : ℕ → Vm → Option Vm
map_pages zero v = some v
map_pages (suc n) v = elim (alloc v.mmu) [
  | none ↦ none
  | some (phys, m) ↦ elim (arch_map_page v.vmalloc_ptr phys pte_writable m) [
    | none ↦ none
    | some m' ↦
        map_pages n (record v { mmu = m'; vmalloc_ptr = (v.vmalloc_ptr + page_size) % 2 ^ 64 })
  ]
]

-- the size of `struct vm_struct`
abbrev sizeof_vm_struct : ℕ
sizeof_vm_struct = 32

-- The area is written down only if the heap has room for that.
unfoldable pub note_area : ℕ → ℕ → Vm → Vm
note_area addr size v =
    let (block, heap) = kmalloc sizeof_vm_struct v.heap in
    elim block [
      | none ↦ record v { heap = heap }
      | some p ↦ record v { heap = heap; areas = (record { addr = addr; size = size }) ∷ v.areas }
    ]

-- The address, which is the null pointer for a size of 0; the number of pages has 32 bits.
unfoldable pub vmalloc : ℕ → Vm → Option (ℕ × Vm)
unfolding map_pages note_area
vmalloc zero v = some (0, v)
vmalloc (suc size) v =
    let pages_needed = (suc size + page_size - 1) % 2 ^ 64 / page_size % 2 ^ 32 in
    elim (map_pages pages_needed v) [
      | none ↦ none
      | some v' ↦ some (v.vmalloc_ptr, note_area v.vmalloc_ptr (pages_needed * page_size) v')
    ]

-- The loop of vfree over `n` pages from `virt` on.
unfoldable pub unmap_pages : ℕ → ℕ → Mmu → Mmu
unmap_pages zero virt m = m
unmap_pages (suc n) virt m =
    let m' : Mmu = elim (walk_page_table virt m) [
      | none ↦ m
      | some k ↦
          if present (read k m)
          then write k 0 (record m { pmm = free_page (address (read k m)) m.pmm })
          else m
    ] in
    unmap_pages n (virt + page_size) m'

-- the first area at the address, and the others in their order
unfoldable pub find_area : ℕ → List Area → Option (Area × List Area)
find_area ptr [] = none
find_area ptr (a ∷ areas) =
    let rest = find_area ptr areas in
    if a.addr == ptr
    then some (a, areas)
    else elim rest [ none ↦ none | some (b, others) ↦ some (b, a ∷ others) ]

unfoldable pub vfree : ℕ → Vm → Vm
unfolding unmap_pages find_area
vfree zero v = v
vfree (suc p) v = elim (find_area (suc p) v.areas) [
  | none ↦ v
  | some (entry, others) ↦ record v {
    mmu = unmap_pages (entry.size / page_size) (suc p) v.mmu;
    areas = others;
  }
]
