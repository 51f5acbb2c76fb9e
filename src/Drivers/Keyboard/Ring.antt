-- ===== src/Drivers/Keyboard/Ring.antt =====
-- The ring of kernel/drivers/keyboard.c is a queue of at most 255 characters.
use relis.Prelude.{
  ℕ, zero, suc, ◌+◌, ◌-◌, ◌%◌, ◌≤◌, ◌<◌, ◌≡◌, refl, sym, ap, ◌∙◌, ◌≢◌, inl, inr, List, [], ◌∷◌,
  ◌++◌, arith, ◌==◌, Bool-cases, length, get_or, set, length-set, get_or-set_self, get_or-set_ne,
}
use relis.Drivers.Keyboard.{Keyboard, kb_buf_size, push, keyboard_poll}

pub record IsValid (k : Keyboard) : Type 0 where
  pub size : length k.buf ≡ kb_buf_size
  pub read : k.rp < kb_buf_size
  pub write : k.wp < kb_buf_size

-- how many characters wait
abbrev pub count : Keyboard → ℕ
count k = (k.wp + kb_buf_size - k.rp) % kb_buf_size

-- the `n` characters from index `i` on, round the end of the buffer
abbrev pub window : List ℕ → ℕ → ℕ → List ℕ
window buf i zero = []
window buf i (suc n) = get_or buf i 0 ∷ window buf ((i + 1) % kb_buf_size) n

abbrev pub contents : Keyboard → List ℕ
contents k = window k.buf k.rp (count k)

pub length-window : (buf : List ℕ) (i n : ℕ) → length (window buf i n) ≡ n
length-window buf i zero = refl
length-window buf i (suc n) = ap suc (length-window buf ((i + 1) % kb_buf_size) n)

-- A write just behind a window makes it longer by that character.
window-set :
    (buf : List ℕ) (i n w c : ℕ)
    → length buf ≡ kb_buf_size
    → i < kb_buf_size
    → n < kb_buf_size
    → w ≡ (i + n) % kb_buf_size
    → window (set buf w c) i (suc n) ≡ window buf i n ++ c ∷ []
window-set buf i zero w c s h hn e =
    let same : w ≡ i = omega arith in
    rw same (ap (λ (x : ℕ). x ∷ []) (get_or-set_self buf i c 0 (omega arith)))
window-set buf i (suc n) w c s h hn e = cc (
  get_or-set_ne buf w i c 0 (omega arith),
  window-set buf ((i + 1) % kb_buf_size) n w c s (omega arith) (omega arith) (omega arith),
)

-- A window that is not empty starts with the character at its index.
window-cons :
    (buf : List ℕ) (i n : ℕ)
    → n ≢ 0
    → window buf i n ≡ get_or buf i 0 ∷ window buf ((i + 1) % kb_buf_size) (n - 1)
window-cons buf i zero h = absurd (h refl)
window-cons buf i (suc n) h =
    ap (λ (m : ℕ). get_or buf i 0 ∷ window buf ((i + 1) % kb_buf_size) m) (omega arith)

-- On a valid ring, which stays valid, a character goes behind those that wait if fewer than 255 do; otherwise it is dropped and nothing
-- changes.
pub push-contents :
    (k : Keyboard) (c : ℕ)
    → IsValid k
    → (count k < 255 → contents (push c k) ≡ contents k ++ c ∷ [])
      × (255 ≤ count k → push c k ≡ k)
      × IsValid (push c k)
unfolding push
push-contents k c v = elim (Bool-cases ((k.wp + 1) % kb_buf_size == k.rp)) [
  | inl e ↦ let hr = v.read in let hw = v.write in rw e (λ h. absurd (ground arith), λ h. refl, v)
  | inr e ↦
      let hr = v.read in
      let hw = v.write in
      let one_more : ((k.wp + 1) % kb_buf_size + kb_buf_size - k.rp) % kb_buf_size ≡ suc (count k) =
        ground arith in
      rw e (
        λ h.
            ap (window (set k.buf k.wp c) k.rp) one_more
            ∙ window-set k.buf k.rp (count k) k.wp c v.size v.read (omega arith) (omega arith),
        λ h. absurd (ground arith),
        record { size = length-set k.buf k.wp c ∙ v.size; read = v.read; write = omega arith },
      )
]

-- A valid ring stays valid. A poll of an empty one gives 0 and changes nothing; otherwise it gives the oldest character and
-- leaves the others in their order.
pub keyboard_poll-contents :
    (k : Keyboard)
    → IsValid k
    → (contents k ≡ [] → keyboard_poll k ≡ (0, k))
      × (contents k ≢ [] → contents k ≡ (keyboard_poll k).0 ∷ contents (keyboard_poll k).1)
      × IsValid (keyboard_poll k).1
unfolding keyboard_poll
keyboard_poll-contents k v = elim (Bool-cases (k.rp == k.wp)) [
  | inl e ↦
      let none_waits : count k ≡ 0 = ground arith in
      rw e (λ h. refl, λ h. absurd (h (ap (window k.buf k.rp) none_waits)), v)
  | inr e ↦
      let hr = v.read in
      let hw = v.write in
      let waits : count k ≢ 0 = λ h. ground arith in
      let one_less : (k.wp + kb_buf_size - (k.rp + 1) % kb_buf_size) % kb_buf_size ≡ count k - 1 =
        ground arith in
      rw e (
        λ h. absurd (waits (sym (length-window k.buf k.rp (count k)) ∙ ap length h)),
        λ h.
            window-cons k.buf k.rp (count k) waits
            ∙ ap (λ (n : ℕ). get_or k.buf k.rp 0 ∷ window k.buf ((k.rp + 1) % kb_buf_size) n)
                (sym one_less),
        record { size = v.size; read = omega arith; write = v.write },
      )
]
