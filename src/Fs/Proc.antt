-- ===== src/Fs/Proc.antt =====
-- fs/proc/proc.c: one directory with one file, whose text is fixed.
pub mod Stream
mod Tests
use relis.Prelude.{
  ℕ, zero, suc, ◌+◌, ◌-◌, ◌*◌, ◌/◌, ◌%◌, ◌^◌, ◌≤◌, ◌<◌, min, bit_and, bit_or, bit_xor, ◌≡◌, refl,
  sym, ap, ◌∙◌, subst, ◌≢◌, ◌↔◌, ◌⊎◌, inl, inr, Bool, true, false, not, ◌&&◌, ◌||◌, Option, none,
  some, List, [], ◌∷◌, ◌++◌, map, append_assoc, append-nil, arith, ltb, leb, ◌==◌, if◌then◌else◌,
  ltb→lt, lt→ltb, leb→le, ==_iff, tests, Bool-cases, Option-cases, if_lem, length, get_elem?,
  get_or, set, take, drop, replicate, length-append, length-set, get_or-set_self, get_or-set_ne,
  length-take, length-drop, take-append-drop, length-replicate, get_or-replicate, update,
  update_self, update_ne, test_bit, not64, bit_and_step, bit_or_step, test_bit-and, test_bit-or,
  test_bit-pow, test_bit-not64, bit_and-zero, bit_and-pow, bit_or-lt, bit_and-le, pow-lt,
  bit_and-ones, test_bit-zero, bit_and_align, bit_and_high, bit_and_mask, bit_or_field,
  bit_or-zero_left, bit_or-zero_right, ℤ, pos, negsuc, minus_one, sub_ℕ,
}

-- `info`: three lines
abbrev pub info : List ℕ
info =
    b'p' ∷ b'r' ∷ b'o' ∷ b'c' ∷ b'e' ∷ b's' ∷ b's' ∷ b'o' ∷ b'r' ∷ b' ' ∷ b':' ∷ b' ' ∷ b'0' ∷ 10
    ∷ b'v' ∷ b'e' ∷ b'n' ∷ b'd' ∷ b'o' ∷ b'r' ∷ b'_' ∷ b'i' ∷ b'd' ∷ b' ' ∷ b':' ∷ b' ' ∷ b'R'
    ∷ b'E' ∷ b'L' ∷ b'I' ∷ b'S' ∷ 10 ∷ b'c' ∷ b'p' ∷ b'u' ∷ b' ' ∷ b'M' ∷ b'H' ∷ b'z' ∷ b' ' ∷ b':'
    ∷ b' ' ∷ b'3' ∷ b'0' ∷ b'0' ∷ b'0' ∷ 10 ∷ []

-- The result, the bytes for the caller and the new `f_pos`.
unfoldable pub proc_cpuinfo_read : ℕ → ℕ → ℕ × List ℕ × ℕ
proc_cpuinfo_read count f_pos =
    let len = length info in
    let left = len - f_pos in
    let to_copy = if ltb count left then count else left in
    if leb len f_pos
    then (0, [], f_pos)
    else (to_copy, take to_copy (drop f_pos info), f_pos + to_copy)
