-- ===== src/Kernel/Irq.antt =====
-- kernel/irq/manage.c: the handlers of interrupts, and what an exception leads to.
pub mod Handlers
mod Tests
use relis.Prelude.{
  ℕ, zero, suc, ◌+◌, ◌-◌, ◌*◌, ◌/◌, ◌%◌, ◌^◌, ◌≤◌, ◌<◌, min, bit_and, bit_or, bit_xor, ◌≡◌, refl,
  sym, ap, ◌∙◌, subst, ◌≢◌, ◌↔◌, ◌⊎◌, inl, inr, Bool, true, false, not, ◌&&◌, ◌||◌, Option, none,
  some, List, [], ◌∷◌, ◌++◌, map, append_assoc, append-nil, arith, ltb, leb, ◌==◌, if◌then◌else◌,
  ltb→lt, lt→ltb, leb→le, ==_iff, tests, Bool-cases, Option-cases, if_lem, length, get_elem?,
  get_or, set, take, drop, replicate, length-append, length-set, get_or-set_self, get_or-set_ne,
  length-take, length-drop, take-append-drop, length-replicate, get_or-replicate, update,
  update_self, update_ne, test_bit, not64, bit_and_step, bit_or_step, test_bit-and, test_bit-or,
  test_bit-pow, test_bit-not64, bit_and-zero, bit_and-pow, bit_or-lt, bit_and-le, pow-lt,
  bit_and-ones, test_bit-zero, bit_and_align, bit_and_high, bit_and_mask, bit_or_field,
  bit_or-zero_left, bit_or-zero_right, ℤ, pos, negsuc, minus_one, sub_ℕ,
}
use relis.Arch.Idt.{idt_entries}
use relis.Mm.Paging.{Fault, handle_page_fault}
use relis.Kernel.State.{Kernel, current}

-- `irq_handlers`: addresses of functions, 0 for none
abbrev pub IrqHandlers : Type 0
IrqHandlers = ℕ → ℕ

unfoldable pub request_irq : ℕ → ℕ → IrqHandlers → IrqHandlers
request_irq irq handler handlers =
    if ltb irq idt_entries then update handlers irq handler else handlers

-- what dispatch_irq does, in its order
pub data IrqStep : Type 0 where
  lapic_eoi : IrqStep
  run_handler : ℕ → IrqStep

unfoldable pub dispatch_irq : ℕ → IrqHandlers → List IrqStep
dispatch_irq int_no handlers =
    let irq = int_no % 2 ^ 32 in
    lapic_eoi
    ∷ (if ltb irq idt_entries && not (handlers irq == 0)
        then run_handler (handlers irq) ∷ []
        else [])

-- Where dispatch_isr hands over: how the page fault handler ends, a system call, or the halt behind
-- the message.
pub data Isr : Type 0 where
  page_fault : Fault → Isr
  system_call : Isr
  kernel_panic : ℕ → ℕ → Isr

-- `cr2` is the register with the address of a page fault.
unfoldable pub dispatch_isr : ℕ → ℕ → ℕ → Kernel → Isr
dispatch_isr int_no err_code cr2 k =
    let t = current k in
    if int_no == 14
    then page_fault (handle_page_fault t.stack_start t.stack_end cr2 err_code k.mmu)
    else if int_no == 128
    then system_call
    else kernel_panic int_no err_code

-- the calls of request_irq that some code makes, in their order
unfoldable pub request_all : List (ℕ × ℕ) → IrqHandlers → IrqHandlers
unfolding request_irq
request_all [] handlers = handlers
request_all ((irq, handler) ∷ calls) handlers = request_all calls (request_irq irq handler handlers)
