-- ===== src/Printk/Tests.antt =====
-- Runs of kernel/printk/printk.c, and its theorem at a concrete number.
use relis.Prelude.{◌-◌, ◌^◌, ◌≡◌, refl, none, some, [], ◌∷◌, pos, negsuc}
use relis.Printk.{digits, print_int, printk, format, convert, int_arg}

formatted :
    format (b'a' ∷ b'%' ∷ b'd' ∷ []) (int_arg (pos 42) ∷ []) ≡ some (b'a' ∷ b'4' ∷ b'2' ∷ [])
unfolding format convert print_int digits
formatted = refl

-- a percent sign at the end of the format
past_the_end : printk (b'%' ∷ []) [] ≡ none
unfolding printk format
past_the_end = refl

least_int : print_int (negsuc (2 ^ 31 - 1)) ≡ b'-' ∷ []
unfolding print_int
least_int = refl
