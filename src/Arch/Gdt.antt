-- ===== src/Arch/Gdt.antt =====
-- arch/gdt.c: the segment descriptors, in the first of the two versions that the file holds.
pub mod Descriptor
mod Tests
use relis.Prelude.{
  ℕ, zero, suc, ◌+◌, ◌-◌, ◌*◌, ◌/◌, ◌%◌, ◌^◌, ◌≤◌, ◌<◌, min, bit_and, bit_or, bit_xor, ◌≡◌, refl,
  sym, ap, ◌∙◌, subst, ◌≢◌, ◌↔◌, ◌⊎◌, inl, inr, Bool, true, false, not, ◌&&◌, ◌||◌, Option, none,
  some, List, [], ◌∷◌, ◌++◌, map, append_assoc, append-nil, arith, ltb, leb, ◌==◌, if◌then◌else◌,
  ltb→lt, lt→ltb, leb→le, ==_iff, tests, Bool-cases, Option-cases, if_lem, length, get_elem?,
  get_or, set, take, drop, replicate, length-append, length-set, get_or-set_self, get_or-set_ne,
  length-take, length-drop, take-append-drop, length-replicate, get_or-replicate, update,
  update_self, update_ne, test_bit, not64, bit_and_step, bit_or_step, test_bit-and, test_bit-or,
  test_bit-pow, test_bit-not64, bit_and-zero, bit_and-pow, bit_or-lt, bit_and-le, pow-lt,
  bit_and-ones, test_bit-zero, bit_and_align, bit_and_high, bit_and_mask, bit_or_field,
  bit_or-zero_left, bit_or-zero_right, ℤ, pos, negsuc, minus_one, sub_ℕ,
}

-- `gdt` with its 8 entries, `gdtr`, and `rsp0` of the task state segment with its copy `tss_rsp0`.
pub record Segments : Type 0 where
  pub gdt : ℕ → ℕ
  pub gdtr_limit : ℕ
  pub gdtr_base : ℕ
  pub rsp0 : ℕ
  pub tss_rsp0 : ℕ

-- the entry that gdt_set_tss puts together, of a 64-bit base and a 32-bit limit
unfoldable pub tss_entry : ℕ → ℕ → ℕ
tss_entry base limit =
    let e₁ = bit_or 0 (bit_and limit 0xffff) in
    let e₂ = bit_or e₁ (bit_and (limit / 2 ^ 16) 0x0f * 2 ^ 48) in
    let e₃ = bit_or e₂ (bit_and base 0xffffff * 2 ^ 16) in
    let e₄ = bit_or e₃ (bit_and (base / 2 ^ 24) 0xff * 2 ^ 56) in bit_or e₄ (0x89 * 2 ^ 40)

unfoldable pub gdt_set_tss : ℕ → ℕ → Segments → Segments
gdt_set_tss base limit s = record s {
  gdt = update (update s.gdt 5 (tss_entry base limit)) 6 (bit_and (base / 2 ^ 32) 0xffffffff);
}

-- The addresses of `gdt`, `tss` and the end of `intr_stack`; the loads of the registers are assembly.
unfoldable pub gdt_init : ℕ → ℕ → ℕ → Segments → Segments
unfolding gdt_set_tss
gdt_init gdt_at tss_at stack_end s =
    let s₁ = record s { gdtr_limit = 8 * 8 - 1; gdtr_base = gdt_at } in
    let s₂ = gdt_set_tss tss_at (104 - 1) s₁ in record s₂ { rsp0 = stack_end; tss_rsp0 = stack_end }
