-- ===== src/Arch/Gdt/Descriptor.antt =====
-- What the processor reads out of the descriptor that arch/gdt.c makes for the task state segment.
use relis.Prelude.{
  ℕ, ◌+◌, ◌*◌, ◌/◌, ◌%◌, ◌^◌, ◌<◌, bit_or, ◌≡◌, refl, sym, ap, ◌∙◌, ◌≢◌, arith, bit_and_mask,
  bit_or_field, bit_or-zero_left,
}
use relis.Arch.Gdt.{Segments, tss_entry, gdt_set_tss, gdt_init}

-- bits `at` to `at + width - 1` of a word
abbrev pub field : ℕ → ℕ → ℕ → ℕ
field at width word = word / 2 ^ at % 2 ^ width

-- where a 64-bit system descriptor keeps its base and its limit
abbrev pub base_of : ℕ → ℕ → ℕ
base_of low high = field 16 24 low + field 56 8 low * 2 ^ 24 + field 0 32 high * 2 ^ 32

abbrev pub limit_of : ℕ → ℕ
limit_of low = field 0 16 low + field 48 4 low * 2 ^ 16

-- A word `x` that has nothing in the `w` bits from `k` on takes a field there, and is then `y`.
put_field :
    (k w lo hi f x y : ℕ)
    → lo < 2 ^ k
    → f < 2 ^ w
    → hi < 2 ^ 32
    → x ≡ lo + hi * 2 ^ w * 2 ^ k
    → y ≡ lo + (f + hi * 2 ^ w) * 2 ^ k
    → bit_or x (f * 2 ^ k) ≡ y
put_field k w lo hi f x y a b c d e =
    ap (λ (v : ℕ). bit_or v (f * 2 ^ k)) d ∙ bit_or_field k w 32 lo hi f a b c ∙ sym e

-- The numbers side by side, with 0x89 between them.
entry_sum :
    (l h b c : ℕ)
    → l < 2 ^ 16
    → h < 2 ^ 4
    → b < 2 ^ 24
    → c < 2 ^ 8
    → bit_or
        (bit_or (bit_or (bit_or (bit_or 0 l) (h * 2 ^ 48)) (b * 2 ^ 16)) (c * 2 ^ 56))
        (0x89 * 2 ^ 40)
      ≡ l + b * 2 ^ 16 + 0x89 * 2 ^ 40 + h * 2 ^ 48 + c * 2 ^ 56
entry_sum l h b c p q r t =
    ap
      (λ x.
        bit_or (bit_or (bit_or (bit_or x (h * 2 ^ 48)) (b * 2 ^ 16)) (c * 2 ^ 56)) (0x89 * 2 ^ 40))
      (bit_or-zero_left 16 l p)
    ∙ ap (λ x. bit_or (bit_or (bit_or x (b * 2 ^ 16)) (c * 2 ^ 56)) (0x89 * 2 ^ 40))
        (put_field 48 4 l 0 h l (l + h * 2 ^ 48) (omega arith) q (omega arith) (omega arith)
          (omega arith))
    ∙ ap (λ x. bit_or (bit_or x (c * 2 ^ 56)) (0x89 * 2 ^ 40))
        (put_field 16 24 l (h * 2 ^ 8) b (l + h * 2 ^ 48) (l + b * 2 ^ 16 + h * 2 ^ 48) p r
          (omega arith) (omega arith) (omega arith))
    ∙ ap (λ x. bit_or x (0x89 * 2 ^ 40))
        (put_field 56 8 (l + b * 2 ^ 16 + h * 2 ^ 48) 0 c (l + b * 2 ^ 16 + h * 2 ^ 48)
          (l + b * 2 ^ 16 + h * 2 ^ 48 + c * 2 ^ 56) (omega arith) t (omega arith) (omega arith)
          (omega arith))
    ∙ put_field 40 8 (l + b * 2 ^ 16) (h + c * 2 ^ 8) 0x89
        (l + b * 2 ^ 16 + h * 2 ^ 48 + c * 2 ^ 56)
        (l + b * 2 ^ 16 + 0x89 * 2 ^ 40 + h * 2 ^ 48 + c * 2 ^ 56) (omega arith) (omega arith)
        (omega arith) (omega arith) (omega arith)

tss_entry_sum :
    (base limit : ℕ)
    → tss_entry base limit
      ≡ limit % 2 ^ 16
        + base % 2 ^ 24 * 2 ^ 16
        + 0x89 * 2 ^ 40
        + limit / 2 ^ 16 % 2 ^ 4 * 2 ^ 48
        + base / 2 ^ 24 % 2 ^ 8 * 2 ^ 56
unfolding tss_entry
tss_entry_sum base limit =
    rw
      (
        bit_and_mask 16 limit,
        bit_and_mask 4 (limit / 2 ^ 16),
        bit_and_mask 24 base,
        bit_and_mask 8 (base / 2 ^ 24),
      )
      (entry_sum (limit % 2 ^ 16) (limit / 2 ^ 16 % 2 ^ 4) (base % 2 ^ 24) (base / 2 ^ 24 % 2 ^ 8)
        (omega arith) (omega arith) (omega arith) (omega arith))

-- For a task state segment at a 64-bit address, the processor finds in entries 5 and 6 of the table the
-- address and the limit that gdt_init means, with the type of an available task state segment that is
-- present, and the kernel's stack in both of its places; the entries 0 to 4 and 7 stay what they were.
pub gdt_init-descriptor :
    (gdt_at tss_at stack_end : ℕ) (s : Segments)
    → tss_at < 2 ^ 64
    → base_of
          ((gdt_init gdt_at tss_at stack_end s).gdt 5)
          ((gdt_init gdt_at tss_at stack_end s).gdt 6)
        ≡ tss_at
      × limit_of ((gdt_init gdt_at tss_at stack_end s).gdt 5) ≡ 103
      × field 40 8 ((gdt_init gdt_at tss_at stack_end s).gdt 5) ≡ 0x89
      × ((gdt_init gdt_at tss_at stack_end s).rsp0 ≡ stack_end)
      × ((gdt_init gdt_at tss_at stack_end s).tss_rsp0 ≡ stack_end)
      × ((i : ℕ) → i ≢ 5 → i ≢ 6 → (gdt_init gdt_at tss_at stack_end s).gdt i ≡ s.gdt i)
unfolding gdt_init gdt_set_tss
gdt_init-descriptor gdt_at tss_at stack_end s h =
    let e = tss_entry_sum tss_at 103 in
    let m = bit_and_mask 32 (tss_at / 2 ^ 32) in
    (
      rw (e, m) (omega arith),
      rw e (omega arith),
      rw e (omega arith),
      refl,
      refl,
      λ i p q. ground (arith, p, q),
    )
