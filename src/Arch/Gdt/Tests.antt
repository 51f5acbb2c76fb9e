-- ===== src/Arch/Gdt/Tests.antt =====
-- The descriptor of a task state segment in the upper half.
use relis.Prelude.{ℕ, ◌≡◌, ◌≢◌, arith}
use relis.Arch.Gdt.{Segments, gdt_init}
use relis.Arch.Gdt.Descriptor.{field, base_of, limit_of, gdt_init-descriptor}

abbrev bare : Segments
bare = record { gdt = λ i. i; gdtr_limit = 0; gdtr_base = 0; rsp0 = 0; tss_rsp0 = 0 }

abbrev tss_at : ℕ
tss_at = 0xffffffff80123450

gdt_init-descriptor_example :
    base_of ((gdt_init 4096 tss_at 8192 bare).gdt 5) ((gdt_init 4096 tss_at 8192 bare).gdt 6)
      ≡ tss_at
    × limit_of ((gdt_init 4096 tss_at 8192 bare).gdt 5) ≡ 103
    × field 40 8 ((gdt_init 4096 tss_at 8192 bare).gdt 5) ≡ 0x89
    × ((gdt_init 4096 tss_at 8192 bare).rsp0 ≡ 8192)
    × ((gdt_init 4096 tss_at 8192 bare).tss_rsp0 ≡ 8192)
    × ((i : ℕ) → i ≢ 5 → i ≢ 6 → (gdt_init 4096 tss_at 8192 bare).gdt i ≡ i)
gdt_init-descriptor_example = gdt_init-descriptor 4096 tss_at 8192 bare (omega arith)
