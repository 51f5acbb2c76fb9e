-- ===== src/Drivers/Keyboard/Decode.antt =====
-- What kernel/drivers/keyboard.c makes of a key: characters of letter keys, and the state kept.
use relis.Prelude.{
  ℕ, zero, suc, ◌+◌, ◌-◌, ◌<◌, bit_and, bit_xor, ◌≡◌, refl, sym, ap, ◌∙◌, subst, ◌⊎◌, inl, inr,
  Bool, true, false, not, ◌&&◌, ◌||◌, none, some, List, [], ◌∷◌, arith, leb, ◌==◌, if◌then◌else◌,
  Bool-cases, if_lem, length, get_or,
}
use relis.Drivers.Keyboard.{
  kb_buf_size, Keyboard, push, kb_irq, release, modifier, press, decode, is_letter, normal, shifted,
}
use relis.Drivers.Keyboard.Ring.{IsValid, push-contents}

-- the upper case of a small letter
abbrev pub upper : ℕ → ℕ
upper c = if leb b'a' c && leb c b'z' then c - 32 else c

abbrev small : ℕ → Bool
small c = leb b'a' c && leb c b'z'

-- The two tables, at every key: a key that is a small letter is the capital of it when shifted, and no other key has
-- a letter in either table.
abbrev agree : List ℕ → List ℕ → Bool
agree [] [] = true
agree [] (s ∷ ss) = false
agree (n ∷ ns) [] = false
agree (n ∷ ns) (s ∷ ss) =
    (if small n then (s + 32 == n) else not (is_letter n) && not (is_letter s)) && agree ns ss

agree_at :
    (ns ss : List ℕ) (sc : ℕ)
    → agree ns ss ≡ true
    → (small (get_or ns sc 0) ≡ true × get_or ss sc 0 + 32 ≡ get_or ns sc 0)
      ⊎ (is_letter (get_or ns sc 0) ≡ false × is_letter (get_or ss sc 0) ≡ false)
unfolding is_letter
agree_at [] [] sc h = inr (refl, refl)
agree_at [] (s ∷ ss) sc h = absurd (ground arith)
agree_at (n ∷ ns) [] sc h = absurd (ground arith)
agree_at (n ∷ ns) (s ∷ ss) zero h = ground arith
agree_at (n ∷ ns) (s ∷ ss) (suc sc) h = agree_at ns ss sc (ground arith)

-- the choice of `decode` between the characters of the two tables
abbrev cased : ℕ → ℕ → Keyboard → ℕ
unfolding is_letter
cased n s k =
    let c = if k.shift == 0 then n else s in
    if not (k.caps == 0) && is_letter c
    then (if k.shift == 0
        then (if leb b'a' c && leb c b'z' then c - 32 else c)
        else (if leb b'A' c && leb c b'Z' then c + 32 else c))
    else c

tables_agree : agree normal shifted ≡ true
unfolding is_letter
tables_agree = refl

cased_lem :
    (n s : ℕ) (k : Keyboard)
    → (small n ≡ true × s + 32 ≡ n) ⊎ (is_letter n ≡ false × is_letter s ≡ false)
    → (is_letter n ≡ true
        → cased n s k ≡ (
            if k.shift == 0
            then (if k.caps == 0 then n else n - 32)
            else (if k.caps == 0 then n - 32 else n)))
      × (is_letter n ≡ false → cased n s k ≡ (if k.shift == 0 then n else s))
unfolding is_letter
cased_lem n s k (inl e) = ground arith
cased_lem n s k (inr e) = ground arith

-- A letter key gives its capital exactly if one of Shift and Caps Lock is on and not both; for any other key Caps
-- Lock makes no difference.
pub decode_lem :
    (sc : ℕ) (k : Keyboard)
    → (is_letter (get_or normal sc 0) ≡ true
        → decode sc k ≡ (
            if k.shift == 0
            then (if k.caps == 0 then get_or normal sc 0 else get_or normal sc 0 - 32)
            else (if k.caps == 0 then get_or normal sc 0 - 32 else get_or normal sc 0)))
      × (is_letter (get_or normal sc 0) ≡ false
          → decode sc k ≡ (if k.shift == 0 then get_or normal sc 0 else get_or shifted sc 0))
unfolding decode is_letter
decode_lem sc k =
    cased_lem (get_or normal sc 0) (get_or shifted sc 0) k (agree_at normal shifted sc tables_agree)

press-IsValid : (sc : ℕ) (k : Keyboard) → IsValid k → IsValid (press sc k)
unfolding press
press-IsValid sc k v = if_lem IsValid _ (push-contents k 0x03 v).2 (
    if_lem IsValid _ (push-contents k 0x0c v).2
      (if_lem IsValid _ v (if_lem IsValid _ v (push-contents k (decode sc k) v).2)))

-- the parts of a keyboard that a key press without a character leaves alone
pub keep : (k k' : Keyboard) → k'.buf ≡ k.buf → k'.rp ≡ k.rp → k'.wp ≡ k.wp → IsValid k → IsValid k'
keep k k' b r w v = record {
  size = ap length b ∙ v.size;
  read = subst (λ (i : ℕ). i < kb_buf_size) (sym r) v.read;
  write = subst (λ (i : ℕ). i < kb_buf_size) (sym w) v.write;
}

modifier-IsValid :
    (sc : ℕ) (k p : Keyboard)
    → IsValid k
    → IsValid p
    → IsValid (elim (modifier sc k) [ some k' ↦ k' | none ↦ p ])
unfolding modifier
modifier-IsValid sc k p v w = elim (Bool-cases (sc == 0x2a || sc == 0x36)) [
  | inl e ↦ rw e (keep k (record k { shift = 1 }) refl refl refl v)
  | inr e ↦ rw e (elim (Bool-cases (sc == 0x1d)) [
    | inl e ↦ rw e (keep k (record k { ctrl = 1 }) refl refl refl v)
    | inr e ↦ rw e (elim (Bool-cases (sc == 0x38)) [
      | inl e ↦ rw e (keep k (record k { alt = 1 }) refl refl refl v)
      | inr e ↦ rw e (elim (Bool-cases (sc == 0x3a)) [
        | inl e ↦ rw e (keep k (record k { caps = bit_xor k.caps 1 }) refl refl refl v)
        | inr e ↦ rw e (elim (Bool-cases (sc == 0x45)) [
          | inl e ↦ rw e (keep k (record k { num = bit_xor k.num 1 }) refl refl refl v)
          | inr e ↦ rw e (elim (Bool-cases (sc == 0x46)) [
            | inl e ↦ rw e (keep k (record k { scroll = bit_xor k.scroll 1 }) refl refl refl v)
            | inr e ↦ rw e w
          ])
        ])
      ])
    ])
  ])
]

-- Whatever byte the controller sends, a valid ring stays valid.
kb_irq-IsValid : (sc : ℕ) (k : Keyboard) → IsValid k → IsValid (kb_irq sc k)
unfolding kb_irq release
kb_irq-IsValid sc k v =
    let k₁ : Keyboard = record k { extended = 0 } in
    let v₁ : IsValid k₁ = keep k k₁ refl refl refl v in
    let two = (push-contents (push 0xe0 k₁) sc (push-contents k₁ 0xe0 v₁).2).2 in
    if_lem IsValid (sc == 0xe0) {x = record k { extended = 1 }}
      (keep k (record k { extended = 1 }) refl refl refl v)
      (if_lem IsValid (not (k.extended == 0)) (if_lem IsValid (not (bit_and sc 0x80 == 0)) v₁ two) (
        if_lem IsValid (not (bit_and sc 0x80 == 0)) {x = release (bit_and sc 0x7f) k}
          (keep k (release (bit_and sc 0x7f) k) refl refl refl v)
          (modifier-IsValid sc k (press sc k) v (press-IsValid sc k v))))
