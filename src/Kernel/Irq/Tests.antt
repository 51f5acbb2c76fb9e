-- ===== src/Kernel/Irq/Tests.antt =====
-- The timer and the keyboard ask for their interrupts, the keyboard twice.
use relis.Prelude.{ℕ, ◌≡◌, refl, List, [], ◌∷◌, arith, ltb, if◌then◌else◌}
use relis.Arch.Idt.{idt_entries}
use relis.Kernel.Irq.{request_all, dispatch_irq, lapic_eoi, request_irq, run_handler}
use relis.Kernel.Irq.Handlers.{last_for, steps_of, dispatch_irq-last}

abbrev calls : List (ℕ × ℕ)
calls = (32, 7000) ∷ (33, 8000) ∷ (300, 1) ∷ (33, 9000) ∷ []

keyboard : dispatch_irq 33 (request_all calls (λ _. 0)) ≡ lapic_eoi ∷ run_handler 9000 ∷ []
unfolding dispatch_irq request_all request_irq
keyboard = refl

dispatch_irq-last_example :
    dispatch_irq 33 (request_all calls (λ _. 0))
    ≡ (if ltb 33 idt_entries then steps_of (last_for 33 calls 0) else lapic_eoi ∷ [])
dispatch_irq-last_example = dispatch_irq-last calls 33 (omega arith)
