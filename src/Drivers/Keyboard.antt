-- ===== src/Drivers/Keyboard.antt =====
-- kernel/drivers/keyboard.c: scan codes to characters, and the ring of characters.
pub mod Ring
pub mod Decode
pub mod Typing
mod Tests
use relis.Prelude.{
  ℕ, zero, suc, ◌+◌, ◌-◌, ◌*◌, ◌/◌, ◌%◌, ◌^◌, ◌≤◌, ◌<◌, min, bit_and, bit_or, bit_xor, ◌≡◌, refl,
  sym, ap, ◌∙◌, subst, ◌≢◌, ◌↔◌, ◌⊎◌, inl, inr, Bool, true, false, not, ◌&&◌, ◌||◌, Option, none,
  some, List, [], ◌∷◌, ◌++◌, map, append_assoc, append-nil, arith, ltb, leb, ◌==◌, if◌then◌else◌,
  ltb→lt, lt→ltb, leb→le, ==_iff, tests, Bool-cases, Option-cases, if_lem, length, get_elem?,
  get_or, set, take, drop, replicate, length-append, length-set, get_or-set_self, get_or-set_ne,
  length-take, length-drop, take-append-drop, length-replicate, get_or-replicate, update,
  update_self, update_ne, test_bit, not64, bit_and_step, bit_or_step, test_bit-and, test_bit-or,
  test_bit-pow, test_bit-not64, bit_and-zero, bit_and-pow, bit_or-lt, bit_and-le, pow-lt,
  bit_and-ones, test_bit-zero, bit_and_align, bit_and_high, bit_and_mask, bit_or_field,
  bit_or-zero_left, bit_or-zero_right, ℤ, pos, negsuc, minus_one, sub_ℕ,
}

abbrev pub kb_buf_size : ℕ
kb_buf_size = 256

-- The statics of the file. A character is its byte. The lights, which update_leds writes to a port,
-- are not part of the state.
pub record Keyboard : Type 0 where
  pub buf : List ℕ
  pub rp : ℕ
  pub wp : ℕ
  pub shift : ℕ
  pub ctrl : ℕ
  pub alt : ℕ
  pub caps : ℕ
  pub num : ℕ
  pub scroll : ℕ
  pub extended : ℕ

-- The table `normal`, up to its last entry that is not zero.
abbrev pub normal : List ℕ
normal =
    0 ∷ 0 ∷ b'1' ∷ b'2' ∷ b'3' ∷ b'4' ∷ b'5' ∷ b'6' ∷ b'7' ∷ b'8' ∷ b'9' ∷ b'0' ∷ b'-' ∷ b'=' ∷ 8
    ∷ 9 ∷ b'q' ∷ b'w' ∷ b'e' ∷ b'r' ∷ b't' ∷ b'y' ∷ b'u' ∷ b'i' ∷ b'o' ∷ b'p' ∷ b'[' ∷ b']' ∷ 10 ∷ 0
    ∷ b'a' ∷ b's' ∷ b'd' ∷ b'f' ∷ b'g' ∷ b'h' ∷ b'j' ∷ b'k' ∷ b'l' ∷ b';' ∷ 39 ∷ b'`' ∷ 0 ∷ 92
    ∷ b'z' ∷ b'x' ∷ b'c' ∷ b'v' ∷ b'b' ∷ b'n' ∷ b'm' ∷ b',' ∷ b'.' ∷ b'/' ∷ 0 ∷ b'*' ∷ 0 ∷ b' ' ∷ 0
    ∷ 0 ∷ 0 ∷ 0 ∷ 0 ∷ 0 ∷ 0 ∷ 0 ∷ 0 ∷ 0 ∷ 0 ∷ 0 ∷ 0 ∷ b'7' ∷ b'8' ∷ b'9' ∷ b'-' ∷ b'4' ∷ b'5' ∷ b'6'
    ∷ b'+' ∷ b'1' ∷ b'2' ∷ b'3' ∷ b'0' ∷ b'.' ∷ []

-- The table `shifted`, likewise.
abbrev pub shifted : List ℕ
shifted =
    0 ∷ 0 ∷ b'!' ∷ b'@' ∷ b'#' ∷ b'$' ∷ b'%' ∷ b'^' ∷ b'&' ∷ b'*' ∷ b'(' ∷ b')' ∷ b'_' ∷ b'+' ∷ 8
    ∷ 9 ∷ b'Q' ∷ b'W' ∷ b'E' ∷ b'R' ∷ b'T' ∷ b'Y' ∷ b'U' ∷ b'I' ∷ b'O' ∷ b'P' ∷ 123 ∷ 125 ∷ 10 ∷ 0
    ∷ b'A' ∷ b'S' ∷ b'D' ∷ b'F' ∷ b'G' ∷ b'H' ∷ b'J' ∷ b'K' ∷ b'L' ∷ b':' ∷ 34 ∷ b'~' ∷ 0 ∷ 124
    ∷ b'Z' ∷ b'X' ∷ b'C' ∷ b'V' ∷ b'B' ∷ b'N' ∷ b'M' ∷ b'<' ∷ b'>' ∷ b'?' ∷ 0 ∷ b'*' ∷ 0 ∷ b' ' ∷ 0
    ∷ 0 ∷ 0 ∷ 0 ∷ 0 ∷ 0 ∷ 0 ∷ 0 ∷ 0 ∷ 0 ∷ 0 ∷ 0 ∷ 0 ∷ b'7' ∷ b'8' ∷ b'9' ∷ b'-' ∷ b'4' ∷ b'5' ∷ b'6'
    ∷ b'+' ∷ b'1' ∷ b'2' ∷ b'3' ∷ b'0' ∷ b'.' ∷ []

unfoldable pub push : ℕ → Keyboard → Keyboard
push c k =
    let next = (k.wp + 1) % kb_buf_size in
    if next == k.rp then k else record k { buf = set k.buf k.wp c; wp = next }

unfoldable pub is_letter : ℕ → Bool
is_letter c = (leb b'a' c && leb c b'z') || (leb b'A' c && leb c b'Z')

-- the character of a key press, with Caps Lock applied to letters
unfoldable pub decode : ℕ → Keyboard → ℕ
unfolding is_letter
decode sc k =
    let c = if k.shift == 0 then get_or normal sc 0 else get_or shifted sc 0 in
    if not (k.caps == 0) && is_letter c
    then (if k.shift == 0
        then (if leb b'a' c && leb c b'z' then c - 32 else c)
        else (if leb b'A' c && leb c b'Z' then c + 32 else c))
    else c

-- The switch on a key press: the state if the key is a modifier or a lock. `x ^= 1` is
-- bit_xor.
unfoldable pub modifier : ℕ → Keyboard → Option Keyboard
modifier sc k =
    if sc == 0x2a || sc == 0x36
    then some (record k { shift = 1 })
    else if sc == 0x1d
    then some (record k { ctrl = 1 })
    else if sc == 0x38
    then some (record k { alt = 1 })
    else if sc == 0x3a
    then some (record k { caps = bit_xor k.caps 1 })
    else if sc == 0x45
    then some (record k { num = bit_xor k.num 1 })
    else if sc == 0x46
    then some (record k { scroll = bit_xor k.scroll 1 })
    else none

-- `sc & 0x7F` of a release
unfoldable pub release : ℕ → Keyboard → Keyboard
release r k = record k {
  shift = if r == 0x2a || r == 0x36 then 0 else k.shift;
  ctrl = if r == 0x1d then 0 else k.ctrl;
  alt = if r == 0x38 then 0 else k.alt;
}

-- a key press that is no modifier
unfoldable pub press : ℕ → Keyboard → Keyboard
unfolding decode push
press sc k =
    if not (k.ctrl == 0) && (sc == 0x2e)
    then push 0x03 k
    else if not (k.ctrl == 0) && (sc == 0x26)
    then push 0x0c k
    else if leb 128 sc
    then k
    else if (if k.shift == 0 then get_or normal sc 0 else get_or shifted sc 0) == 0
    then k
    else push (decode sc k) k

-- The interrupt handler, for the byte that it reads from the port.
unfoldable pub kb_irq : ℕ → Keyboard → Keyboard
kb_irq sc k =
    if sc == 0xe0
    then record k { extended = 1 }
    else if not (k.extended == 0)
    then (let k₁ = record k { extended = 0 } in
        if not (bit_and sc 0x80 == 0) then k₁ else push sc (push 0xe0 k₁))
    else if not (bit_and sc 0x80 == 0)
    then release (bit_and sc 0x7f) k
    else elim (modifier sc k) [ some k' ↦ k' | none ↦ press sc k ]

unfoldable pub keyboard_init : Keyboard → Keyboard
keyboard_init k = record k {
  rp = 0;
  wp = 0;
  shift = 0;
  ctrl = 0;
  alt = 0;
  caps = 0;
  num = 0;
  scroll = 0;
}

-- The character 0 stands for an empty ring.
unfoldable pub keyboard_poll : Keyboard → ℕ × Keyboard
keyboard_poll k =
    if k.rp == k.wp
    then (0, k)
    else (get_or k.buf k.rp 0, record k { rp = (k.rp + 1) % kb_buf_size })
