-- ===== src/Drivers/Vga/Tests.antt =====
-- Runs of kernel/drivers/vga.c, and its theorems at a concrete screen.
use relis.Prelude.{◌≡◌, refl, [], ◌∷◌, arith}
use relis.Drivers.Vga.{
  Terminal, terminal_init, terminal_clear, terminal_putchar, terminal_write, terminal_writeline,
  next_line,
}
use relis.Drivers.Vga.Screen.{OnScreen, Shown, terminal_write-Shown}

-- the last cell but one of the first line
abbrev screen : Terminal
screen = record { cells = λ _. 0; row = 0; col = 79; color = 15 }

screen-OnScreen : OnScreen screen
screen-OnScreen = record { in_height = omega arith; in_width = omega arith }

wraps : (terminal_writeline (b'x' ∷ b'y' ∷ []) screen).row ≡ 2
unfolding terminal_writeline terminal_write terminal_putchar next_line
wraps = refl

cleared : (terminal_init screen).col ≡ 0
unfolding terminal_init terminal_clear
cleared = refl

terminal_write-Shown_example :
    Shown screen (terminal_write (b'x' ∷ b'y' ∷ []) screen) (b'x' ∷ b'y' ∷ [])
terminal_write-Shown_example =
    terminal_write-Shown (b'x' ∷ b'y' ∷ []) screen screen-OnScreen refl (omega arith)
