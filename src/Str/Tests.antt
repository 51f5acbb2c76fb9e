-- ===== src/Str/Tests.antt =====
-- Runs of lib/string.c, and its theorems at a concrete memory.
use relis.Prelude.{ℕ, zero, suc, ◌+◌, ◌<◌, ◌≡◌, refl, ◌≢◌, none, some, arith, update, pos, negsuc}
use relis.Str.{
  Memory, kmemset, kmemmove, copy_backwards, kstrnlen, kstrcmp, kstrncmp, kstrncpy, kstrchr,
  kstrrchr, kstrstr, kstrsep,
}
use relis.Str.Memory.{moved, kmemmove_lem}
use relis.Str.Text.{IsString}

-- "ab" at the addresses 10 and 20, and "ad" at 30
abbrev strings : Memory
strings =
    update
      (update (update (update (update (update (λ _. 0) 10 b'a') 11 b'b') 20 b'a') 21 b'b') 30 b'a')
      31 b'd'

measured : kstrnlen 10 8 strings ≡ 2
unfolding kstrnlen
measured = refl

compared : kstrcmp 8 10 20 strings ≡ some (pos 0) × kstrcmp 8 10 30 strings ≡ some (negsuc 1)
unfolding kstrcmp
compared = (refl, refl)

bounded : kstrncmp 10 30 1 strings ≡ pos 0
unfolding kstrncmp
bounded = refl

padded :
    kstrncpy 40 10 4 (kmemset 40 7 5 strings) 43 ≡ 0
    × kstrncpy 40 10 4 (kmemset 40 7 5 strings) 44 ≡ 7
unfolding kstrncpy kmemset
padded = (refl, refl)

found : kstrchr 8 10 b'b' strings ≡ some (some 11) × kstrchr 8 10 b'x' strings ≡ some none
unfolding kstrchr
found = (refl, refl)

-- three bytes one to the right, over themselves
overlap : kmemmove 11 10 3 strings 12 ≡ b'b'
unfolding kmemmove copy_backwards
overlap = refl

ab-IsString : IsString strings 10 2
ab-IsString = record { inside = inside_ab; end = refl }
  where
    inside_ab : (i : ℕ) → i < 2 → strings (10 + i) ≢ 0
    inside_ab zero h = λ e. ground arith
    inside_ab (suc zero) h = λ e. ground arith
    inside_ab (suc (suc i)) h = absurd (omega arith)

kmemmove_lem_example : kmemmove 11 10 3 strings 12 ≡ moved 11 10 3 strings 12
kmemmove_lem_example = kmemmove_lem 11 10 3 strings 12

searched : kstrrchr 8 10 b'b' strings ≡ some (some 11) × kstrstr 8 10 21 strings ≡ some (some 11)
unfolding kstrrchr kstrstr
searched = (refl, refl)

split : kstrsep 8 none 21 strings ≡ some (none, none, strings)
unfolding kstrsep
split = refl
