-- ===== src/Arch/Idt/Gates.antt =====
-- What idt_init of arch/idt.c leaves in the table.
use relis.Prelude.{
  ℕ, zero, suc, ◌+◌, ◌-◌, ◌*◌, ◌/◌, ◌%◌, ◌^◌, ◌≤◌, ◌<◌, ◌≡◌, ap, ◌∙◌, ◌&&◌, arith, ltb, leb, ◌==◌,
  if◌then◌else◌, update,
}
use relis.Arch.Idt.{
  Gate, Idt, idt_entries, interrupt_gate, no_gate, idt_set_gate, clear_gates, set_gates, idt_init,
}

-- the address that the processor puts together from a gate
abbrev pub target : Gate → ℕ
target g = g.offset_low + g.offset_mid * 2 ^ 16 + g.offset_high * 2 ^ 32

-- the gate that sends to `handler` with the attributes `flags`
abbrev pub gate : ℕ → ℕ → Gate
gate handler flags = record {
  offset_low = handler % 2 ^ 16;
  selector = 0x08;
  ist = 0;
  type_attr = flags;
  offset_mid = handler / 2 ^ 16 % 2 ^ 16;
  offset_high = handler / 2 ^ 32 % 2 ^ 32;
  zero_word = 0;
}

-- The processor finds the handler again.
target-gate : (handler flags : ℕ) → handler < 2 ^ 64 → target (gate handler flags) ≡ handler
target-gate handler flags h = omega arith

clear_gates_lem :
    (n i : ℕ) (idt : Idt) (v : ℕ)
    → clear_gates n i idt v ≡ (if leb i v && ltb v (i + n) then no_gate else idt v)
unfolding clear_gates
clear_gates_lem zero i idt v = ground arith
clear_gates_lem (suc n) i idt v =
    let r = clear_gates_lem n (i + 1) (update idt i no_gate) v in r ∙ ground arith

set_gates_lem :
    (n idx : ℕ) (stub : ℕ → ℕ) (first : ℕ) (idt : Idt) (v : ℕ)
    → set_gates n idx stub first idt v ≡ (
        if leb idx v && ltb v (idx + n)
        then gate (stub (first + (v - idx))) interrupt_gate
        else idt v)
unfolding set_gates idt_set_gate
set_gates_lem zero idx stub first idt v = ground arith
set_gates_lem (suc n) idx stub first idt v =
    let r =
      set_gates_lem n (idx + 1) stub (first + 1) (update idt idx (gate (stub first) interrupt_gate))
        v in
    let shift : idx < v → first + 1 + (v - (idx + 1)) ≡ first + (v - idx) = λ h. omega arith in
    let here : idx ≡ v → first + (v - idx) ≡ first = λ h. omega arith in
    r ∙ ground (arith, shift, here)

-- What a vector must get: the exceptions' stubs, then those of the 16 lines of the two PICs, and
-- at 128 the system call's, which user code may raise.
abbrev pub gate_of : (ℕ → ℕ) → (ℕ → ℕ) → ℕ → Gate
gate_of isr irq v =
    if v == 128
    then gate (isr 128) 0xee
    else if ltb v 32
    then gate (isr v) interrupt_gate
    else if ltb v 48
    then gate (irq (v - 32)) interrupt_gate
    else no_gate

-- the layers of the table, the last on top
cleared : (idt : Idt) (v : ℕ) → v < 256 → clear_gates idt_entries 0 idt v ≡ no_gate
cleared idt v h = let r = clear_gates_lem idt_entries 0 idt v in r ∙ pick (idt v) v h
  where
    pick : (g : Gate) (v : ℕ) → v < 256 → (if leb 0 v && ltb v 256 then no_gate else g) ≡ no_gate
    pick g v h = ground arith

exceptions :
    (isr : ℕ → ℕ) (idt : Idt) (v : ℕ)
    → set_gates 32 0 isr 0 idt v ≡ (if ltb v 32 then gate (isr v) interrupt_gate else idt v)
exceptions isr idt v =
    let same : 0 + (v - 0) ≡ v = omega arith in
    set_gates_lem 32 0 isr 0 idt v
    ∙ ap (λ w. if leb 0 v && ltb v 32 then gate (isr w) interrupt_gate else idt v) same
    ∙ pick (gate (isr v) interrupt_gate) (idt v) v
  where
    pick :
        (f g : Gate) (v : ℕ) → (if leb 0 v && ltb v 32 then f else g) ≡ (if ltb v 32 then f else g)
    pick f g v = ground arith

lines :
    (irq : ℕ → ℕ) (idt : Idt) (v : ℕ)
    → set_gates 16 32 irq 0 idt v
      ≡ (if leb 32 v && ltb v 48 then gate (irq (v - 32)) interrupt_gate else idt v)
lines irq idt v =
    let same : 0 + (v - 32) ≡ v - 32 = omega arith in
    set_gates_lem 16 32 irq 0 idt v
    ∙ ap (λ w. if leb 32 v && ltb v 48 then gate (irq w) interrupt_gate else idt v) same

layers :
    {A : Type 0} (v : ℕ) (call f g empty : A)
    → (if 128 == v
        then call
        else (if leb 32 v && ltb v 48 then g else (if ltb v 32 then f else empty)))
      ≡ (if v == 128 then call else (if ltb v 32 then f else (if ltb v 48 then g else empty)))
layers v call f g empty = ground arith

idt_init_lem :
    (isr irq : ℕ → ℕ) (m1 m2 : ℕ) (idt : Idt) (v : ℕ)
    → v < 256
    → (idt_init isr irq m1 m2 idt).1 v ≡ gate_of isr irq v
unfolding idt_init idt_set_gate
idt_init_lem isr irq m1 m2 idt v h =
    let call = gate (isr 128) 0xee in
    let f = gate (isr v) interrupt_gate in
    let g = gate (irq (v - 32)) interrupt_gate in
    let c = clear_gates idt_entries 0 idt in
    ap (λ x. if 128 == v then call else x) (lines irq (set_gates 32 0 isr 0 c) v)
    ∙ ap (λ x. if 128 == v then call else (if leb 32 v && ltb v 48 then g else x))
        (exceptions isr c v)
    ∙ ap
        (λ x.
          if 128 == v
          then call
          else (if leb 32 v && ltb v 48 then g else (if ltb v 32 then f else x)))
        (cleared idt v h)
    ∙ layers v call f g no_gate

pick_exception :
    {A : Type 0} (v : ℕ) (call f g empty : A)
    → v < 32
    → (if v == 128 then call else (if ltb v 32 then f else (if ltb v 48 then g else empty))) ≡ f
pick_exception v call f g empty h = ground arith

pick_line :
    {A : Type 0} (v : ℕ) (call f g empty : A)
    → 32 ≤ v
    → v < 48
    → (if v == 128 then call else (if ltb v 32 then f else (if ltb v 48 then g else empty))) ≡ g
pick_line v call f g empty h k = ground arith

-- For stubs below 2 ^ 64 and whatever the table held, idt_init leaves in every vector below 256 the
-- gate with the attributes that belong to it: the processor goes to `isr v` for an exception, to
-- `irq (v - 32)` for a line of the PICs, to `isr 128` with 0xee, and has an absent gate elsewhere.
pub idt_init-gates :
    (isr irq : ℕ → ℕ) (m1 m2 : ℕ) (idt : Idt) (v : ℕ)
    → ((n : ℕ) → isr n < 2 ^ 64)
    → ((n : ℕ) → irq n < 2 ^ 64)
    → v < 256
    → (idt_init isr irq m1 m2 idt).1 v ≡ gate_of isr irq v
      × (v < 32 → target ((idt_init isr irq m1 m2 idt).1 v) ≡ isr v)
      × (32 ≤ v → v < 48 → target ((idt_init isr irq m1 m2 idt).1 v) ≡ irq (v - 32))
      × target ((idt_init isr irq m1 m2 idt).1 128) ≡ isr 128
unfolding idt_init idt_set_gate
idt_init-gates isr irq m1 m2 idt v a b h =
    let e = idt_init_lem isr irq m1 m2 idt v h in
    let call = gate (isr 128) 0xee in
    let f = gate (isr v) interrupt_gate in
    let g = gate (irq (v - 32)) interrupt_gate in
    (
      e,
      λ l.
          ap target (e ∙ pick_exception v call f g no_gate l)
          ∙ target-gate (isr v) interrupt_gate (a v),
      λ l u.
          ap target (e ∙ pick_line v call f g no_gate l u)
          ∙ target-gate (irq (v - 32)) interrupt_gate (b (v - 32)),
      target-gate (isr 128) 0xee (a 128),
    )
