-- ===== src/Arch/Idt/Tests.antt =====
-- A table of interrupt gates on concrete stubs.
use relis.Prelude.{ℕ, ◌+◌, ◌*◌, ◌^◌, ◌≤◌, ◌<◌, ◌≡◌, arith, ltb, if◌then◌else◌}
use relis.Arch.Idt.{Idt, no_gate, idt_init}
use relis.Arch.Idt.Gates.{idt_init-gates, gate_of, target}

-- stubs of 16 bytes each
abbrev stub : ℕ → ℕ → ℕ
stub base n = if ltb n 256 then base + 16 * n else base

stub-fits : (n : ℕ) → stub 0xffffffff80200000 n < 2 ^ 64
stub-fits n = ground arith

-- a table that holds something else
abbrev rubbish : Idt
rubbish v = record no_gate { selector = v }

abbrev isr : ℕ → ℕ
isr = stub 0xffffffff80200000

idt_init-gates_example :
    (idt_init isr isr 0 0 rubbish).1 33 ≡ gate_of isr isr 33
    × (33 < 32 → target ((idt_init isr isr 0 0 rubbish).1 33) ≡ isr 33)
    × (32 ≤ 33 → 33 < 48 → target ((idt_init isr isr 0 0 rubbish).1 33) ≡ isr 1)
    × target ((idt_init isr isr 0 0 rubbish).1 128) ≡ isr 128
idt_init-gates_example = idt_init-gates isr isr 0 0 rubbish 33 stub-fits stub-fits (omega arith)
