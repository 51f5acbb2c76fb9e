-- ===== src/Printk.antt =====
-- kernel/printk/printk.c: what printk and its helpers print, as bytes.
pub mod Numbers
mod Tests
use relis.Prelude.{
  ℕ, zero, suc, ◌+◌, ◌-◌, ◌*◌, ◌/◌, ◌%◌, ◌^◌, ◌≤◌, ◌<◌, min, bit_and, bit_or, bit_xor, ◌≡◌, refl,
  sym, ap, ◌∙◌, subst, ◌≢◌, ◌↔◌, ◌⊎◌, inl, inr, Bool, true, false, not, ◌&&◌, ◌||◌, Option, none,
  some, List, [], ◌∷◌, ◌++◌, map, append_assoc, append-nil, arith, ltb, leb, ◌==◌, if◌then◌else◌,
  ltb→lt, lt→ltb, leb→le, ==_iff, tests, Bool-cases, Option-cases, if_lem, length, get_elem?,
  get_or, set, take, drop, replicate, length-append, length-set, get_or-set_self, get_or-set_ne,
  length-take, length-drop, take-append-drop, length-replicate, get_or-replicate, update,
  update_self, update_ne, test_bit, not64, bit_and_step, bit_or_step, test_bit-and, test_bit-or,
  test_bit-pow, test_bit-not64, bit_and-zero, bit_and-pow, bit_or-lt, bit_and-le, pow-lt,
  bit_and-ones, test_bit-zero, bit_and_align, bit_and_high, ℤ, pos, negsuc, minus_one, sub_ℕ,
}

-- The digits of `n` that a loop `while (n > 0)` stores in `buf`, in the order in which the loop
-- behind it prints them, in front of `acc`; at most `fuel` digits.
unfoldable pub digits : ℕ → (ℕ → ℕ) → ℕ → ℕ → List ℕ → List ℕ
digits base digit zero n acc = acc
digits base digit (suc fuel) n acc =
    let rest = digits base digit fuel (n / base) (digit (n % base) ∷ acc) in
    if n == 0 then acc else rest

abbrev pub decimal : ℕ → ℕ
decimal d = d + b'0'

abbrev pub hex : ℕ → ℕ
hex d = if ltb d 10 then d + b'0' else d - 10 + b'a'

-- An `int`. The negation of the least one gives itself, and the loop prints no digit. Ten digits are
-- enough for the others.
unfoldable pub print_int : ℤ → List ℕ
unfolding digits
print_int (pos zero) = b'0' ∷ []
print_int (pos (suc n)) = digits 10 decimal 10 (suc n) []
print_int (negsuc n) = if n + 1 == 2 ^ 31 then b'-' ∷ [] else b'-' ∷ digits 10 decimal 10 (n + 1) []

-- Eight digits are enough for a `uint32_t`.
unfoldable pub print_hex : ℕ → List ℕ
unfolding digits
print_hex zero = b'0' ∷ b'x' ∷ b'0' ∷ []
print_hex (suc n) = b'0' ∷ b'x' ∷ digits 16 hex 8 (suc n) []

-- an argument, as the type that va_arg reads it at
pub data Arg : Type 0 where
  int_arg : ℤ → Arg
  string_arg : List ℕ → Arg
  hex_arg : ℕ → Arg

-- `(char)` of an `int`, as its byte
abbrev to_char : ℤ → ℕ
to_char (pos n) = n % 2 ^ 8
to_char (negsuc n) = 255 - n % 2 ^ 8

-- The text for the conversion `c` and the arguments left; `none` where va_arg reads an argument that
-- is missing or has another type.
unfoldable pub convert : ℕ → List Arg → Option (List ℕ × List Arg)
unfolding print_int print_hex
convert c args =
    if c == b'd'
    then elim args [ (int_arg n ∷ rest) ↦ some (print_int n, rest) | _ ↦ none ]
    else if c == b's'
    then elim args [ (string_arg s ∷ rest) ↦ some (s, rest) | _ ↦ none ]
    else if c == b'x'
    then elim args [ (hex_arg n ∷ rest) ↦ some (print_hex (n % 2 ^ 32), rest) | _ ↦ none ]
    else if c == b'c'
    then elim args [ (int_arg n ∷ rest) ↦ some (to_char n ∷ [], rest) | _ ↦ none ]
    else if c == b'%'
    then some (b'%' ∷ [], args)
    else some (b'%' ∷ c ∷ [], args)

-- the loop over the format; `none` also where a last `%` makes it go past the end
unfoldable pub format : List ℕ → List Arg → Option (List ℕ)
unfolding convert
format [] args = some []
format (c ∷ []) args = if c == b'%' then none else some (c ∷ [])
format (c ∷ d ∷ fmt) args =
    let plain = format (d ∷ fmt) args in
    if not (c == b'%')
    then elim plain [ none ↦ none | some out ↦ some (c ∷ out) ]
    else elim (convert d args) [
      | none ↦ none
      | some (text, args') ↦ elim (format fmt args') [ none ↦ none | some out ↦ some (text ++ out) ]
    ]

-- "[RELIS] " before and a line break behind
unfoldable pub printk : List ℕ → List Arg → Option (List ℕ)
unfolding format
printk fmt args = elim (format fmt args) [
  | none ↦ none
  | some out ↦ some (b'[' ∷ b'R' ∷ b'E' ∷ b'L' ∷ b'I' ∷ b'S' ∷ b']' ∷ b' ' ∷ (out ++ 10 ∷ []))
]
