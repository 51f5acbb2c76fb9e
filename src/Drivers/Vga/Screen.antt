-- ===== src/Drivers/Vga/Screen.antt =====
-- The screen of kernel/drivers/vga.c: the cursor stays on it, writes stay in it, text is shown.
use relis.Prelude.{
  ℕ, zero, suc, ◌+◌, ◌*◌, ◌≤◌, ◌<◌, bit_and, ◌≡◌, refl, ap, ◌∙◌, ◌⊎◌, inl, inr, Bool, true, false,
  not, ◌&&◌, List, [], ◌∷◌, arith, ltb, leb, ◌==◌, if◌then◌else◌, Bool-cases, length, get_or,
  update, update_self, update_ne,
}
use relis.Drivers.Vga.{
  Terminal, vga_width, vga_height, mkentry, fill_cells, move_cells, vga_scroll, next_line,
  terminal_putchar, terminal_write,
}

pub record OnScreen (t : Terminal) : Type 0 where
  pub in_height : t.row < vga_height
  pub in_width : t.col < vga_width

fill_cells_lem :
    (n i e : ℕ) (cells : ℕ → ℕ) (a : ℕ)
    → fill_cells n i e cells a ≡ (if leb i a && ltb a (i + n) then e else cells a)
unfolding fill_cells
fill_cells_lem zero i e cells a = ground arith
fill_cells_lem (suc n) i e cells a = ground (arith, fill_cells_lem n (i + 1) e (update cells i e) a)

move_cells_lem :
    (n i : ℕ) (cells : ℕ → ℕ) (a : ℕ)
    → move_cells n i cells a ≡ (if leb i a && ltb a (i + n) then cells (a + vga_width) else cells a)
unfolding move_cells
move_cells_lem zero i cells a = ground arith
move_cells_lem (suc n) i cells a =
    ground (arith, move_cells_lem n (i + 1) (update cells i (cells (i + vga_width))) a)

-- the cells after a scroll
abbrev pub scrolled : ℕ → (ℕ → ℕ) → ℕ → ℕ
scrolled color cells a =
    if ltb a 1920 then cells (a + 80) else if ltb a 2000 then mkentry b' ' color else cells a

scrolled_lem :
    (a e x y : ℕ)
    → (if leb 1920 a && ltb a 2000 then e else (if leb 0 a && ltb a 1920 then x else y))
      ≡ (if ltb a 1920 then x else if ltb a 2000 then e else y)
scrolled_lem a e x y = ground arith

-- A scroll moves every line up by one, clears the last line with the current colour and leaves the
-- cursor on the last line; no other memory is written.
pub vga_scroll_lem :
    (t : Terminal)
    → ((a : ℕ) → (vga_scroll t).cells a ≡ scrolled t.color t.cells a)
      × (vga_scroll t).row ≡ 24
      × (vga_scroll t).col ≡ t.col
unfolding vga_scroll
vga_scroll_lem t = (
  λ a.
      let e = mkentry b' ' t.color in
      let moved = move_cells 1920 0 t.cells in
      fill_cells_lem 80 1920 e moved a
      ∙ ap (λ (v : ℕ). if leb 1920 a && ltb a 2000 then e else v) (move_cells_lem 1920 0 t.cells a)
      ∙ scrolled_lem a e (t.cells (a + 80)) (t.cells a),
  refl,
  refl,
)

next_line-OnScreen : (t : Terminal) → t.row < vga_height → OnScreen (next_line t)
unfolding next_line
next_line-OnScreen t h = elim (Bool-cases (t.row + 1 == vga_height)) [
  | inl e ↦
      let s = vga_scroll_lem (record t { col = 0; row = t.row + 1 }) in
      rw e (record { in_height = omega (arith, s.1); in_width = omega (arith, s.2) })
  | inr e ↦ rw e (record { in_height = ground arith; in_width = omega arith })
]

-- A cursor within the 25 lines of 80 characters stays there, whatever is written.
terminal_putchar-OnScreen : (c : ℕ) (t : Terminal) → OnScreen t → OnScreen (terminal_putchar c t)
unfolding terminal_putchar
terminal_putchar-OnScreen c t o =
    let h = o.in_height in
    let w = o.in_width in
    elim (Bool-cases (c == 10)) [
      | inl e ↦ rw e (next_line-OnScreen t h)
      | inr e ↦ rw e (elim (Bool-cases (c == 13)) [
        | inl e ↦ rw e (record { in_height = h; in_width = omega arith })
        | inr e ↦ rw e (elim (Bool-cases (c == 9)) [
          | inl e ↦ rw e (elim (Bool-cases (leb vga_width (bit_and (t.col + 8) 0xfffffff8))) [
            | inl e ↦ rw e (next_line-OnScreen t h)
            | inr e ↦ rw e (record { in_height = h; in_width = ground arith })
          ])
          | inr e ↦ rw e (elim (Bool-cases (c == 8)) [
            | inl e ↦ rw e (elim (Bool-cases (ltb 0 t.col)) [
              | inl e ↦ rw e (record { in_height = h; in_width = omega arith })
              | inr e ↦ rw e o
            ])
            | inr e ↦ rw e (elim (Bool-cases (t.col + 1 == vga_width)) [
              | inl e ↦ rw e (next_line-OnScreen _ h)
              | inr e ↦ rw e (record { in_height = h; in_width = ground arith })
            ])
          ])
        ])
      ])
    ]

-- a character that is shown as it is
abbrev pub plain : ℕ → Bool
plain c = not (c == 10) && not (c == 13) && not (c == 9) && not (c == 8)

-- the index of the cell under the cursor
abbrev pub cursor : Terminal → ℕ
cursor t = t.row * 80 + t.col

-- the screen after the text `s` was put at cell `p`
pub record Shown (t t' : Terminal) (s : List ℕ) : Type 0 where
  pub text : (i : ℕ) → i < length s → t'.cells (cursor t + i) ≡ mkentry (get_or s i 0) t.color
  pub others : (a : ℕ) → (a < cursor t) ⊎ (cursor t + length s ≤ a) → t'.cells a ≡ t.cells a
  pub moved : cursor t' ≡ cursor t + length s
  pub same_color : t'.color ≡ t.color

put_plain :
    (c : ℕ) (t : Terminal)
    → OnScreen t
    → plain c ≡ true
    → cursor t + 1 < 2000
    → (terminal_putchar c t).cells ≡ update t.cells (cursor t) (mkentry c t.color)
      × cursor (terminal_putchar c t) ≡ cursor t + 1
      × (terminal_putchar c t).color ≡ t.color
unfolding terminal_putchar next_line
put_plain c t o p room =
    let h = o.in_height in
    let w = o.in_width in
    let e₁ : (c == 10) ≡ false = ground arith in
    let e₂ : (c == 13) ≡ false = ground arith in
    let e₃ : (c == 9) ≡ false = ground arith in
    let e₄ : (c == 8) ≡ false = ground arith in
    rw (e₁, e₂, e₃, e₄)
      (elim (Bool-cases (t.col + 1 == vga_width)) [
        | inl e ↦
            let last : t.col + 1 ≡ 80 = ground arith in
            let more : (t.row + 1 == vga_height) ≡ false = ground arith in
            rw (e, more) (refl, omega arith, refl)
        | inr e ↦ rw e (refl, omega arith, refl)
      ])

abbrev pub all_plain : List ℕ → Bool
all_plain [] = true
all_plain (c ∷ cs) = plain c && all_plain cs

text_cons :
    (c : ℕ) (cs : List ℕ) (t t₁ t' : Terminal)
    → t₁.cells ≡ update t.cells (cursor t) (mkentry c t.color)
    → cursor t₁ ≡ cursor t + 1
    → t₁.color ≡ t.color
    → Shown t₁ t' cs
    → (i : ℕ) → i < length (c ∷ cs)
    → t'.cells (cursor t + i) ≡ mkentry (get_or (c ∷ cs) i 0) t.color
text_cons c cs t t₁ t' cells at color s zero h =
    ap t'.cells (omega arith)
    ∙ s.others (cursor t) (omega arith)
    ∙ ap (λ (f : ℕ → ℕ). f (cursor t)) cells
    ∙ update_self t.cells (cursor t) (mkentry c t.color)
text_cons c cs t t₁ t' cells at color s (suc i) h =
    ap t'.cells (omega arith)
    ∙ s.text i (omega arith)
    ∙ ap (λ (k : ℕ). mkentry (get_or cs i 0) k) color

Shown-cons :
    (c : ℕ) (cs : List ℕ) (t t₁ t' : Terminal)
    → t₁.cells ≡ update t.cells (cursor t) (mkentry c t.color)
    → cursor t₁ ≡ cursor t + 1
    → t₁.color ≡ t.color
    → Shown t₁ t' cs
    → Shown t t' (c ∷ cs)
Shown-cons c cs t t₁ t' cells at color s = record {
  text = λ i h. text_cons c cs t t₁ t' cells at color s i h;
  others = λ a h.
      s.others a (omega arith)
      ∙ ap (λ (f : ℕ → ℕ). f a) cells
      ∙ update_ne t.cells (cursor t) a (mkentry c t.color) (omega arith);
  moved = s.moved ∙ omega arith;
  same_color = s.same_color ∙ color;
}

-- With the cursor on the screen, text without control characters that ends before the last cell of the screen is shown from the cursor on,
-- in the current colour and across the ends of the lines; the cursor is behind it and no other cell changes.
pub terminal_write-Shown :
    (s : List ℕ) (t : Terminal)
    → OnScreen t
    → all_plain s ≡ true
    → cursor t + length s < 2000
    → Shown t (terminal_write s t) s
unfolding terminal_write
terminal_write-Shown [] t o p room = record {
  text = λ i h. absurd (omega arith);
  others = λ a h. refl;
  moved = omega arith;
  same_color = refl;
}
terminal_write-Shown (c ∷ cs) t o p room =
    let one = put_plain c t o (ground arith) (omega arith) in
    Shown-cons c cs t (terminal_putchar c t) (terminal_write cs (terminal_putchar c t)) one.0 one.1
      one.2
      (terminal_write-Shown cs (terminal_putchar c t) (terminal_putchar-OnScreen c t o)
        (ground arith) (omega (arith, one.1)))
