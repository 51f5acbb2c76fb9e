-- ===== src/Mm/Vmalloc/Tests.antt =====
-- Runs of mm/vmalloc.c.
use relis.Prelude.{◌+◌, ◌≡◌, refl, some, List, [], ◌∷◌}
use relis.Mm.Vmalloc.{Vm, Area, vmalloc_start, vmalloc, vfree, find_area}

nothing_asked : (v : Vm) → vmalloc 0 v ≡ some (0, v)
unfolding vmalloc
nothing_asked v = refl

no_pointer : (v : Vm) → vfree 0 v ≡ v
unfolding vfree
no_pointer v = refl

abbrev areas : List Area
areas =
    record { addr = vmalloc_start + 4096; size = 8192 }
    ∷ record { addr = vmalloc_start; size = 4096 }
    ∷ []

second :
    find_area vmalloc_start areas
    ≡ some (
      record { addr = vmalloc_start; size = 4096 },
      record { addr = vmalloc_start + 4096; size = 8192 } ∷ [],
    )
unfolding find_area
second = refl
