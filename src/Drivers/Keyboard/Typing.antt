-- ===== src/Drivers/Keyboard/Typing.antt =====
-- What the interrupt handler of kernel/drivers/keyboard.c puts into the ring for sequences of keys.
use relis.Prelude.{
  ℕ, zero, suc, ◌+◌, ◌-◌, ◌<◌, bit_and, bit_xor, ◌≡◌, refl, sym, ap, ◌∙◌, ◌⊎◌, inl, inr, Bool, true,
  false, not, ◌&&◌, ◌||◌, List, [], ◌∷◌, ◌++◌, append_assoc, arith, ltb, leb, ◌==◌, if◌then◌else◌,
  length, get_or, length-append,
}
use relis.Drivers.Keyboard.{
  Keyboard, push, kb_irq, release, modifier, press, decode, is_letter, normal, shifted,
}
use relis.Drivers.Keyboard.Ring.{IsValid, count, contents, length-window, push-contents}
use relis.Drivers.Keyboard.Decode.{decode_lem, keep}

-- keys side by side, with their scan codes
abbrev row : ℕ → List ℕ → List (ℕ × ℕ)
row code [] = []
row code (c ∷ cs) = (code, c) ∷ row (code + 1) cs

-- the letter keys of the keyboard, row by row
abbrev pub letter_keys : List (ℕ × ℕ)
letter_keys =
    row 0x10 (b'q' ∷ b'w' ∷ b'e' ∷ b'r' ∷ b't' ∷ b'y' ∷ b'u' ∷ b'i' ∷ b'o' ∷ b'p' ∷ [])
    ++ row 0x1e (b'a' ∷ b's' ∷ b'd' ∷ b'f' ∷ b'g' ∷ b'h' ∷ b'j' ∷ b'k' ∷ b'l' ∷ [])
    ++ row 0x2c (b'z' ∷ b'x' ∷ b'c' ∷ b'v' ∷ b'b' ∷ b'n' ∷ b'm' ∷ [])

-- the `i`th of them, counted from 0; the key A behind the last
abbrev pub letter_key : ℕ → ℕ × ℕ
letter_key i = get_or letter_keys i (0x1e, b'a')

-- what the handler must know of a key with the characters `n` and `s` in the two tables, as a test
abbrev plain : ℕ → ℕ → ℕ → ℕ → Bool
unfolding is_letter
plain code c n s =
    ltb code 128
    && (bit_and code 0x80 == 0)
    && not (code == 0x2a || code == 0x36)
    && not (code == 0x1d)
    && not (code == 0x38)
    && not (code == 0x3a)
    && not (code == 0x45)
    && not (code == 0x46)
    && (n == c)
    && not (s == 0)
    && not (c == 0)
    && is_letter c

abbrev key_ok : ℕ × ℕ → Bool
unfolding is_letter
key_ok p = plain p.0 p.1 (get_or normal p.0 0) (get_or shifted p.0 0)

abbrev all_ok : List (ℕ × ℕ) → Bool
all_ok [] = true
all_ok (p ∷ ps) = key_ok p && all_ok ps

both_true : (a b : Bool) → (a && b) ≡ true → (a ≡ true) × (b ≡ true)
both_true true true h = (refl, refl)
both_true true false h = absurd (ground (arith, h))
both_true false b h = absurd (ground (arith, h))

ok_at :
    (ps : List (ℕ × ℕ)) (i : ℕ) (d : ℕ × ℕ)
    → all_ok ps ≡ true
    → key_ok d ≡ true
    → key_ok (get_or ps i d) ≡ true
ok_at [] i d h e = e
ok_at (p ∷ ps) zero d h e = (both_true (key_ok p) (all_ok ps) h).0
ok_at (p ∷ ps) (suc i) d h e = ok_at ps i d (both_true (key_ok p) (all_ok ps) h).1 e

keys_ok : all_ok letter_keys ≡ true
unfolding is_letter
keys_ok = refl

key_ok_at : (i : ℕ) → key_ok (letter_key i) ≡ true
unfolding is_letter
key_ok_at i = ok_at letter_keys i (0x1e, b'a') keys_ok refl

-- what the test says
record Plain (code c n s : ℕ) : Type 0 where
  low : leb 128 code ≡ false
  press_bit : not (bit_and code 0x80 == 0) ≡ false
  no_prefix : (code == 0xe0) ≡ false
  no_shift : (code == 0x2a || code == 0x36) ≡ false
  no_ctrl : (code == 0x1d) ≡ false
  no_alt : (code == 0x38) ≡ false
  no_caps : (code == 0x3a) ≡ false
  no_num : (code == 0x45) ≡ false
  no_scroll : (code == 0x46) ≡ false
  char : n ≡ c
  some_char : (b : Bool) → ((if b then n else s) == 0) ≡ false
  letter : is_letter n ≡ true

plain-Plain : (code c n s : ℕ) → plain code c n s ≡ true → Plain code c n s
unfolding is_letter
plain-Plain code c n s h = record {
  low = ground (arith, h);
  press_bit = ground (arith, h);
  no_prefix = ground (arith, h);
  no_shift = ground (arith, h);
  no_ctrl = ground (arith, h);
  no_alt = ground (arith, h);
  no_caps = ground (arith, h);
  no_num = ground (arith, h);
  no_scroll = ground (arith, h);
  char = ground (arith, h);
  some_char = λ b. ground (arith, h);
  letter = ground (arith, h);
}

pressed :
    (code c : ℕ) (k : Keyboard)
    → Plain code c (get_or normal code 0) (get_or shifted code 0)
    → k.extended ≡ 0
    → k.ctrl ≡ 0
    → kb_irq code k ≡ push (decode code k) k
unfolding kb_irq modifier press
pressed code c k p e f =
    let ext : not (k.extended == 0) ≡ false = ground (arith, e) in
    let free : not (k.ctrl == 0) ≡ false = ground (arith, f) in
    rw
      (
        p.no_prefix,
        ext,
        p.press_bit,
        p.no_shift,
        p.no_ctrl,
        p.no_alt,
        p.no_caps,
        p.no_num,
        p.no_scroll,
        free,
        p.low,
        p.some_char (k.shift == 0),
      )
      refl

-- the character of a letter key, with Shift and Caps Lock as they are
abbrev cased : ℕ → Keyboard → ℕ
cased c k =
    if k.shift == 0
    then (if k.caps == 0 then c else c - 32)
    else (if k.caps == 0 then c - 32 else c)

types :
    (code c : ℕ) (k : Keyboard)
    → Plain code c (get_or normal code 0) (get_or shifted code 0)
    → IsValid k
    → k.extended ≡ 0
    → k.ctrl ≡ 0
    → count k < 255
    → contents (kb_irq code k) ≡ contents k ++ cased c k ∷ []
types code c k p v e f room =
    let char : decode code k ≡ cased c k =
      (decode_lem code k).0 p.letter ∙ ap (λ (n : ℕ). cased n k) p.char in
    ap contents (pressed code c k p e f)
    ∙ (push-contents k (decode code k) v).0 room
    ∙ ap (λ (n : ℕ). contents k ++ n ∷ []) char

shift_down :
    (s : ℕ) (k : Keyboard)
    → (s ≡ 0x2a) ⊎ (s ≡ 0x36)
    → k.extended ≡ 0
    → kb_irq s k ≡ record k { shift = 1 }
unfolding kb_irq modifier
shift_down s k (inl h) e = rw h (ground (arith, e))
shift_down s k (inr h) e = rw h (ground (arith, e))

shift_up :
    (s : ℕ) (k : Keyboard)
    → (s ≡ 0x2a) ⊎ (s ≡ 0x36)
    → k.extended ≡ 0
    → kb_irq (s + 128) k ≡ record k { shift = 0 }
unfolding kb_irq release
shift_up s k (inl h) e = rw h (ground (arith, e))
shift_up s k (inr h) e = rw h (ground (arith, e))

caps_lock : (k : Keyboard) → k.extended ≡ 0 → kb_irq 0x3a k ≡ record k { caps = bit_xor k.caps 1 }
unfolding kb_irq modifier
caps_lock k e = ground (arith, e)

-- What a letter key adds to the ring for the letter `c`, with the shift key `s`.
pub record Types (code c s : ℕ) (k : Keyboard) : Type 0 where
  pub alone : contents (kb_irq code k) ≡ contents k ++ c ∷ []
  pub held : contents (kb_irq code (kb_irq s k)) ≡ contents k ++ (c - 32) ∷ []
  pub let_go : contents (kb_irq code (kb_irq (s + 128) (kb_irq s k))) ≡ contents k ++ c ∷ []
  pub locked : contents (kb_irq code (kb_irq 0x3a k)) ≡ contents k ++ (c - 32) ∷ []
  pub both : contents (kb_irq code (kb_irq s (kb_irq 0x3a k))) ≡ contents k ++ c ∷ []
  pub prefixed :
      count k < 254 → contents (kb_irq code (kb_irq 0xe0 k)) ≡ contents k ++ 0xe0 ∷ code ∷ []

length-contents : (k : Keyboard) → length (contents k) ≡ count k
length-contents k = length-window k.buf k.rp (count k)

-- a byte that is no prefix, behind a prefix
prefixed_lem :
    (code : ℕ) (k : Keyboard)
    → (code == 0xe0) ≡ false
    → not (bit_and code 0x80 == 0) ≡ false
    → k.extended ≡ 0
    → kb_irq code (kb_irq 0xe0 k) ≡ push code (push 0xe0 k)
unfolding kb_irq
prefixed_lem code k a b e =
    rw (a, b) (ap (λ (n : ℕ). push code (push 0xe0 (record k { extended = n }))) (sym e))

two_bytes :
    (code : ℕ) (k : Keyboard)
    → (code == 0xe0) ≡ false
    → not (bit_and code 0x80 == 0) ≡ false
    → IsValid k
    → k.extended ≡ 0
    → count k < 254
    → contents (kb_irq code (kb_irq 0xe0 k)) ≡ contents k ++ 0xe0 ∷ code ∷ []
two_bytes code k a b v e h =
    let first = push-contents k 0xe0 v in
    let one = first.0 (omega arith) in
    let long : count (push 0xe0 k) ≡ count k + 1 =
      sym (length-contents (push 0xe0 k))
      ∙ ap length one
      ∙ length-append (contents k) (0xe0 ∷ [])
      ∙ ap (λ (n : ℕ). n + 1) (length-contents k) in
    ap contents (prefixed_lem code k a b e)
    ∙ (push-contents (push 0xe0 k) code first.2).0 (omega (arith, long))
    ∙ ap (λ (xs : List ℕ). xs ++ code ∷ []) one
    ∙ append_assoc (contents k) (0xe0 ∷ []) (code ∷ [])

-- On a valid ring with room and with no modifier on, a letter key adds its small letter; its capital while
-- either Shift is held, and the small one again behind the release; the capital with Caps Lock on, and the
-- small one with both. Behind the prefix 0xe0 the two bytes are added as they are.
pub kb_irq-Types :
    (i s : ℕ) (k : Keyboard)
    → (s ≡ 0x2a) ⊎ (s ≡ 0x36)
    → IsValid k
    → (k.extended ≡ 0) × (k.ctrl ≡ 0) × (k.shift ≡ 0) × (k.caps ≡ 0)
    → count k < 255
    → Types (letter_key i).0 (letter_key i).1 s k
unfolding plain key_ok
kb_irq-Types i s k shift v (ext, ctrl, up, caps) room =
    let code = (letter_key i).0 in
    let c = (letter_key i).1 in
    let p = plain-Plain code c (get_or normal code 0) (get_or shifted code 0) (key_ok_at i) in
    let down = shift_down s k shift ext in
    let on = caps_lock k ext in
    let k_on : Keyboard = record k { caps = bit_xor k.caps 1 } in
    let lit : bit_xor k.caps 1 ≡ 1 = ap (λ (n : ℕ). bit_xor n 1) caps in
    let add = λ (n : ℕ). contents k ++ n ∷ [] in
    record {
      alone = types code c k p v ext ctrl room ∙ ap add (ground (arith, up, caps));
      held =
          ap (λ (q : Keyboard). contents (kb_irq code q)) down
          ∙ types code c (record k { shift = 1 }) p
              (keep k (record k { shift = 1 }) refl refl refl v) ext ctrl room
          ∙ ap add (ground (arith, caps));
      let_go =
          ap (λ (q : Keyboard). contents (kb_irq code (kb_irq (s + 128) q))) down
          ∙ ap (λ (q : Keyboard). contents (kb_irq code q))
              (shift_up s (record k { shift = 1 }) shift ext)
          ∙ types code c (record k { shift = 0 }) p
              (keep k (record k { shift = 0 }) refl refl refl v) ext ctrl room
          ∙ ap add (ground (arith, caps));
      locked =
          ap (λ (q : Keyboard). contents (kb_irq code q)) on
          ∙ types code c k_on p (keep k k_on refl refl refl v) ext ctrl room
          ∙ ap add (ground (arith, up, lit));
      both =
          ap (λ (q : Keyboard). contents (kb_irq code (kb_irq s q))) on
          ∙ ap (λ (q : Keyboard). contents (kb_irq code q)) (shift_down s k_on shift ext)
          ∙ types code c (record k_on { shift = 1 }) p
              (keep k (record k_on { shift = 1 }) refl refl refl v) ext ctrl room
          ∙ ap add (ground (arith, lit));
      prefixed = λ h. two_bytes code k p.no_prefix p.press_bit v ext h;
    }
