-- ===== src/Kernel/Irq/Handlers.antt =====
-- Which handler kernel/irq/manage.c calls for an interrupt.
use relis.Prelude.{
  ℕ, ◌%◌, ◌^◌, ◌<◌, ◌≡◌, refl, ap, ◌∙◌, inl, inr, not, List, [], ◌∷◌, arith, ltb, ◌==◌,
  if◌then◌else◌, ltb→lt, Bool-cases,
}
use relis.Arch.Idt.{idt_entries}
use relis.Kernel.Irq.{
  IrqHandlers, request_irq, request_all, IrqStep, lapic_eoi, run_handler, dispatch_irq,
}

-- the handler that the last call for `irq` named, `old` if there is none
unfoldable pub last_for : ℕ → List (ℕ × ℕ) → ℕ → ℕ
last_for irq [] old = old
last_for irq ((i, handler) ∷ calls) old = last_for irq calls (if i == irq then handler else old)

request_all_lem :
    (calls : List (ℕ × ℕ)) (handlers : IrqHandlers) (irq : ℕ)
    → irq < idt_entries
    → request_all calls handlers irq ≡ last_for irq calls (handlers irq)
unfolding request_all last_for request_irq
request_all_lem [] handlers irq h = refl
request_all_lem ((i, handler) ∷ calls) handlers irq h =
    request_all_lem calls (request_irq i handler handlers) irq h
    ∙ ap (last_for irq calls) (ground (arith, h))

-- what an interrupt does for the handler `h`
abbrev pub steps_of : ℕ → List IrqStep
steps_of h = lapic_eoi ∷ (if h == 0 then [] else run_handler h ∷ [])

called :
    (h : ℕ)
    → ◌≡◌ {A = List IrqStep}
        (lapic_eoi ∷ (if not (h == 0) then run_handler h ∷ [] else []))
        (steps_of h)
called h = elim (Bool-cases (h == 0)) [ inl e ↦ rw e refl | inr e ↦ rw e refl ]

-- After any calls of request_irq, on a table without handlers, an interrupt is acknowledged first, and
-- then the handler runs that the last call for its number named, if there is one; a number of 256 or
-- more is acknowledged only.
pub dispatch_irq-last :
    (calls : List (ℕ × ℕ)) (irq : ℕ)
    → irq < 2 ^ 32
    → dispatch_irq irq (request_all calls (λ _. 0))
      ≡ (if ltb irq idt_entries then steps_of (last_for irq calls 0) else lapic_eoi ∷ [])
unfolding dispatch_irq
dispatch_irq-last calls irq h =
    let e : irq % 2 ^ 32 ≡ irq = omega arith in
    elim (Bool-cases (ltb irq idt_entries)) [
      | inl b ↦
          let r = request_all_lem calls (λ _. 0) irq (ltb→lt irq idt_entries b) in
          rw (e, b, r) (called (last_for irq calls 0))
      | inr b ↦ rw (e, b) refl
    ]
