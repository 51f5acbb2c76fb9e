-- ===== src/Arch/Idt.antt =====
-- arch/idt.c: the table of interrupt gates.
pub mod Gates
mod Tests
use relis.Prelude.{
  ℕ, zero, suc, ◌+◌, ◌-◌, ◌*◌, ◌/◌, ◌%◌, ◌^◌, ◌≤◌, ◌<◌, min, bit_and, bit_or, bit_xor, ◌≡◌, refl,
  sym, ap, ◌∙◌, subst, ◌≢◌, ◌↔◌, ◌⊎◌, inl, inr, Bool, true, false, not, ◌&&◌, ◌||◌, Option, none,
  some, List, [], ◌∷◌, ◌++◌, map, append_assoc, append-nil, arith, ltb, leb, ◌==◌, if◌then◌else◌,
  ltb→lt, lt→ltb, leb→le, ==_iff, tests, Bool-cases, Option-cases, if_lem, length, get_elem?,
  get_or, set, take, drop, replicate, length-append, length-set, get_or-set_self, get_or-set_ne,
  length-take, length-drop, take-append-drop, length-replicate, get_or-replicate, update,
  update_self, update_ne, test_bit, not64, bit_and_step, bit_or_step, test_bit-and, test_bit-or,
  test_bit-pow, test_bit-not64, bit_and-zero, bit_and-pow, bit_or-lt, bit_and-le, pow-lt,
  bit_and-ones, test_bit-zero, bit_and_align, bit_and_high, bit_and_mask, ℤ, pos, negsuc, minus_one,
  sub_ℕ,
}

-- `idt_entry_t`
pub record Gate : Type 0 where
  pub offset_low : ℕ
  pub selector : ℕ
  pub ist : ℕ
  pub type_attr : ℕ
  pub offset_mid : ℕ
  pub offset_high : ℕ
  pub zero_word : ℕ

abbrev pub idt_entries : ℕ
idt_entries = 256

abbrev pub interrupt_gate : ℕ
interrupt_gate = 0x8e

abbrev pub no_gate : Gate
no_gate = record {
  offset_low = 0;
  selector = 0;
  ist = 0;
  type_attr = 0;
  offset_mid = 0;
  offset_high = 0;
  zero_word = 0;
}

abbrev pub Idt : Type 0
Idt = ℕ → Gate

unfoldable pub idt_set_gate : ℕ → ℕ → ℕ → ℕ → Idt → Idt
idt_set_gate idx handler sel flags idt = update idt idx (record {
  offset_low = handler % 2 ^ 16;
  selector = sel;
  ist = 0;
  type_attr = flags;
  offset_mid = handler / 2 ^ 16 % 2 ^ 16;
  offset_high = handler / 2 ^ 32 % 2 ^ 32;
  zero_word = 0;
})

-- the first loop of idt_init, from entry `i` on
unfoldable pub clear_gates : ℕ → ℕ → Idt → Idt
clear_gates zero i idt = idt
clear_gates (suc n) i idt = clear_gates n (i + 1) (update idt i no_gate)

-- Calls of idt_set_gate in a row, which the source writes out: entry `idx` on gets the handlers
-- `stub first` on.
unfoldable pub set_gates : ℕ → ℕ → (ℕ → ℕ) → ℕ → Idt → Idt
unfolding idt_set_gate
set_gates zero idx stub first idt = idt
set_gates (suc n) idx stub first idt =
    set_gates n (idx + 1) stub (first + 1) (idt_set_gate idx (stub first) 0x08 interrupt_gate idt)

-- The bytes that pic_remap writes, with their ports, for the masks that it reads first.
unfoldable pub pic_remap : ℕ → ℕ → List (ℕ × ℕ)
pic_remap m1 m2 =
    (0x20, 0x11)
    ∷ (0xa0, 0x11)
    ∷ (0x21, 0x20)
    ∷ (0xa1, 0x28)
    ∷ (0x21, 0x04)
    ∷ (0xa1, 0x02)
    ∷ (0x21, 0x01)
    ∷ (0xa1, 0x01)
    ∷ (0x21, m1)
    ∷ (0xa1, m2)
    ∷ []

-- The writes to ports, and the table. `isr` and `irq` are the addresses of the stubs in the assembly
-- code, `m1` and `m2` the masks that the PICs have.
unfoldable pub idt_init : (ℕ → ℕ) → (ℕ → ℕ) → ℕ → ℕ → Idt → List (ℕ × ℕ) × Idt
unfolding clear_gates set_gates idt_set_gate pic_remap
idt_init isr irq m1 m2 idt =
    let cleared = clear_gates idt_entries 0 idt in
    let exceptions = set_gates 32 0 isr 0 cleared in
    let lines = set_gates 16 32 irq 0 exceptions in
    (pic_remap m1 m2, idt_set_gate 128 (isr 128) 0x08 0xee lines)
