-- ===== src/Drivers/Vga.antt =====
-- kernel/drivers/vga.c: the text screen. `fbterm_active` gives 0, so the branches on it are not
-- taken; the cursor's ports are not part of the state.
pub mod Screen
mod Tests
use relis.Prelude.{
  ℕ, zero, suc, ◌+◌, ◌-◌, ◌*◌, ◌/◌, ◌%◌, ◌^◌, ◌≤◌, ◌<◌, min, bit_and, bit_or, bit_xor, ◌≡◌, refl,
  sym, ap, ◌∙◌, subst, ◌≢◌, ◌↔◌, ◌⊎◌, inl, inr, Bool, true, false, not, ◌&&◌, ◌||◌, Option, none,
  some, List, [], ◌∷◌, ◌++◌, map, append_assoc, append-nil, arith, ltb, leb, ◌==◌, if◌then◌else◌,
  ltb→lt, lt→ltb, leb→le, ==_iff, tests, Bool-cases, Option-cases, if_lem, length, get_elem?,
  get_or, set, take, drop, replicate, length-append, length-set, get_or-set_self, get_or-set_ne,
  length-take, length-drop, take-append-drop, length-replicate, get_or-replicate, update,
  update_self, update_ne, test_bit, not64, bit_and_step, bit_or_step, test_bit-and, test_bit-or,
  test_bit-pow, test_bit-not64, bit_and-zero, bit_and-pow, bit_or-lt, bit_and-le, pow-lt,
  bit_and-ones, test_bit-zero, bit_and_align, bit_and_high, ℤ, pos, negsuc, minus_one, sub_ℕ,
}

abbrev pub vga_width : ℕ
vga_width = 80

abbrev pub vga_height : ℕ
vga_height = 25

-- The statics of the file and the cells at VGA_MEM, a 16-bit entry for each index.
pub record Terminal : Type 0 where
  pub cells : ℕ → ℕ
  pub row : ℕ
  pub col : ℕ
  pub color : ℕ

abbrev pub mkcolor : ℕ → ℕ → ℕ
mkcolor fg bg = bit_or fg (bg * 2 ^ 4) % 2 ^ 8

abbrev pub mkentry : ℕ → ℕ → ℕ
mkentry c col = bit_or (c % 2 ^ 8) (col * 2 ^ 8) % 2 ^ 16

-- `n` entries of index `i` on become `e`: a loop over a row, or the two of terminal_clear
unfoldable pub fill_cells : ℕ → ℕ → ℕ → (ℕ → ℕ) → (ℕ → ℕ)
fill_cells zero i e cells = cells
fill_cells (suc n) i e cells = fill_cells n (i + 1) e (update cells i e)

-- The two loops that move the rows up: the cell of index y * 80 + x, for `n` indices from `i` on.
unfoldable pub move_cells : ℕ → ℕ → (ℕ → ℕ) → (ℕ → ℕ)
move_cells zero i cells = cells
move_cells (suc n) i cells = move_cells n (i + 1) (update cells i (cells (i + vga_width)))

unfoldable pub terminal_clear : Terminal → Terminal
unfolding fill_cells
terminal_clear t = record t {
  cells = fill_cells (vga_height * vga_width) 0 (mkentry b' ' t.color) t.cells;
  row = 0;
  col = 0;
}

-- with VGA_COLOR_WHITE on VGA_COLOR_BLACK
unfoldable pub terminal_init : Terminal → Terminal
unfolding terminal_clear
terminal_init t = terminal_clear (record t { row = 0; col = 0; color = mkcolor 15 0 })

unfoldable pub vga_scroll : Terminal → Terminal
unfolding move_cells fill_cells
vga_scroll t = record t {
  cells =
      fill_cells vga_width ((vga_height - 1) * vga_width) (mkentry b' ' t.color)
        (move_cells ((vga_height - 1) * vga_width) 0 t.cells);
  row = vga_height - 1;
}

-- `col = 0; if (++row == VGA_HEIGHT) vga_scroll();`
unfoldable pub next_line : Terminal → Terminal
next_line t =
    let t' = record t { col = 0; row = t.row + 1 } in
    if t'.row == vga_height then vga_scroll t' else t'

-- `~7u` has 32 bits.
unfoldable pub terminal_putchar : ℕ → Terminal → Terminal
terminal_putchar c t =
    if c == 10
    then next_line t
    else if c == 13
    then record t { col = 0 }
    else if c == 9
    then (let to = bit_and (t.col + 8) 0xfffffff8 in
        if leb vga_width to then next_line t else record t { col = to })
    else if c == 8
    then (if ltb 0 t.col
        then record t {
          col = t.col - 1;
          cells = update t.cells (t.row * vga_width + (t.col - 1)) (mkentry b' ' t.color);
        }
        else t)
    else (let t' = record t {
      cells = update t.cells (t.row * vga_width + t.col) (mkentry c t.color);
      col = t.col + 1;
    } in
        if t'.col == vga_width then next_line t' else t')

-- a string, up to the byte 0 that ends it
unfoldable pub terminal_write : List ℕ → Terminal → Terminal
terminal_write [] t = t
terminal_write (c ∷ cs) t = terminal_write cs (terminal_putchar c t)

unfoldable pub terminal_writeline : List ℕ → Terminal → Terminal
unfolding terminal_write terminal_putchar
terminal_writeline s t = terminal_putchar 10 (terminal_write s t)
