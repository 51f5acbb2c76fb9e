-- ===== src/Mm/Paging/Tests.antt =====
-- A run of the page tables, and their theorem at a concrete memory.
use relis.Prelude.{ℕ, ◌<◌, ◌≡◌, refl, true, some, arith}
use relis.Mm.PageAlloc.{pmm_init}
use relis.Mm.PageAlloc.Alloc.{IsValid, pmm_init-IsValid}
use relis.Mm.PageAlloc.Bitmap.{used}
use relis.Mm.Paging.{Mmu, create_new_address_space}
use relis.Mm.Paging.Space.{Fresh, create_new_address_space-Fresh}

-- four pages, of which the kernel has the first two, with the top-level table in the second
abbrev boot : Mmu
boot = record {
  pmm = pmm_init 16 8192 (record {
    bitmap = λ _. 0;
    pages_total = 0;
    pages_free = 0;
    next_free_page = 0;
    mem = λ _. 7;
  });
  cr3 = 4096;
  current_pgd = some 4096;
}

boot-IsValid : IsValid boot.pmm
boot-IsValid = (pmm_init-IsValid 16 8192 _ refl (omega arith)).0

boot_free : 0 < boot.pmm.pages_free
unfolding pmm_init
boot_free = omega arith

table_used : used boot.pmm.bitmap 1 ≡ true
table_used = (pmm_init-IsValid 16 8192 _ refl (omega arith)).1 1

create_new_address_space-Fresh_example :
    (phys : ℕ) × (m' : Mmu) × (create_new_address_space boot ≡ some (phys, m') × Fresh boot phys m')
create_new_address_space-Fresh_example =
    create_new_address_space-Fresh boot 1 boot-IsValid boot_free refl table_used
