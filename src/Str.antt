-- ===== src/Str.antt =====
-- lib/string.c: the memory and string routines, over the bytes of memory.
pub mod Memory
pub mod Text
pub mod Scan
mod Tests
use relis.Prelude.{
  ℕ, zero, suc, ◌+◌, ◌-◌, ◌*◌, ◌/◌, ◌%◌, ◌^◌, ◌≤◌, ◌<◌, min, bit_and, bit_or, bit_xor, ◌≡◌, refl,
  sym, ap, ◌∙◌, subst, ◌≢◌, ◌↔◌, ◌⊎◌, inl, inr, Bool, true, false, not, ◌&&◌, ◌||◌, Option, none,
  some, List, [], ◌∷◌, ◌++◌, map, append_assoc, append-nil, arith, ltb, leb, ◌==◌, if◌then◌else◌,
  ltb→lt, lt→ltb, leb→le, ==_iff, tests, Bool-cases, Option-cases, if_lem, length, get_elem?,
  get_or, set, take, drop, replicate, length-append, length-set, get_or-set_self, get_or-set_ne,
  length-take, length-drop, take-append-drop, length-replicate, get_or-replicate, update,
  update_self, update_ne, test_bit, not64, bit_and_step, bit_or_step, test_bit-and, test_bit-or,
  test_bit-pow, test_bit-not64, bit_and-zero, bit_and-pow, bit_or-lt, bit_and-le, pow-lt,
  bit_and-ones, test_bit-zero, bit_and_align, bit_and_high, ℤ, pos, negsuc, minus_one, sub_ℕ,
}

-- Memory is a function from addresses to bytes. The routines that return their first argument return
-- nothing here; a string ends at the first byte that is 0.
abbrev pub Memory : Type 0
Memory = ℕ → ℕ

unfoldable pub kmemset : ℕ → ℕ → ℕ → Memory → Memory
kmemset s c zero m = m
kmemset s c (suc n) m = kmemset (s + 1) c n (update m s (c % 2 ^ 8))

unfoldable pub kmemcpy : ℕ → ℕ → ℕ → Memory → Memory
kmemcpy dest src zero m = m
kmemcpy dest src (suc n) m = kmemcpy (dest + 1) (src + 1) n (update m dest (m src))

-- the loop that copies from the end: `*--d = *--s`, the last byte first
unfoldable pub copy_backwards : ℕ → ℕ → ℕ → Memory → Memory
copy_backwards dest src zero m = m
copy_backwards dest src (suc n) m = copy_backwards dest src n (update m (dest + n) (m (src + n)))

unfoldable pub kmemmove : ℕ → ℕ → ℕ → Memory → Memory
unfolding kmemcpy copy_backwards
kmemmove dest src n m =
    if ltb src dest && ltb dest (src + n) then copy_backwards dest src n m else kmemcpy dest src n m

-- The difference of two bytes, as an int.
unfoldable pub kmemcmp : ℕ → ℕ → ℕ → Memory → ℤ
kmemcmp s1 s2 zero m = pos 0
kmemcmp s1 s2 (suc n) m =
    if m s1 == m s2 then kmemcmp (s1 + 1) (s2 + 1) n m else sub_ℕ (m s1) (m s2)

unfoldable pub kstrnlen : ℕ → ℕ → Memory → ℕ
kstrnlen s zero m = 0
kstrnlen s (suc maxlen) m = let rest = kstrnlen (s + 1) maxlen m in if m s == 0 then 0 else suc rest

-- The two strings of a comparison, on fuel: at most `fuel` bytes are compared, `none` if no
-- difference and no end is found among them.
unfoldable pub kstrcmp : ℕ → ℕ → ℕ → Memory → Option ℤ
kstrcmp zero a b m = none
kstrcmp (suc fuel) a b m =
    let rest = kstrcmp fuel (a + 1) (b + 1) m in
    if not (m a == 0) && (m a == m b) then rest else some (sub_ℕ (m a) (m b))

unfoldable pub kstrncmp : ℕ → ℕ → ℕ → Memory → ℤ
kstrncmp a b zero m = pos 0
kstrncmp a b (suc n) m =
    let rest = kstrncmp (a + 1) (b + 1) n m in
    if not (m a == 0) && (m a == m b) then rest else sub_ℕ (m a) (m b)

-- the loop that fills the destination with zeros is kmemset
unfoldable pub kstrncpy : ℕ → ℕ → ℕ → Memory → Memory
unfolding kmemset
kstrncpy dest src zero m = m
kstrncpy dest src (suc n) m =
    let rest = kstrncpy (dest + 1) (src + 1) n (update m dest (m src)) in
    if m src == 0 then kmemset dest 0 (suc n) m else rest

-- the loop of `kstrscpy` and its last write, for `count` at least 1; with it, the bytes copied
unfoldable pub copy_bounded : ℕ → ℕ → ℕ → Memory → ℕ × Memory
copy_bounded dest src zero m = (0, update m dest 0)
copy_bounded dest src (suc room) m =
    let rest = copy_bounded (dest + 1) (src + 1) room (update m dest (m src)) in
    if m src == 0 then (0, update m dest 0) else (suc rest.0, rest.1)

unfoldable pub kstrscpy : ℕ → ℕ → ℕ → Memory → ℕ × Memory
unfolding copy_bounded
kstrscpy dest src zero m = (0, m)
kstrscpy dest src (suc room) m = copy_bounded dest src room m

-- The address found, `some none` for the null pointer, `none` if the fuel is used up.
unfoldable pub kstrchr : ℕ → ℕ → ℕ → Memory → Option (Option ℕ)
kstrchr zero s c m = none
kstrchr (suc fuel) s c m =
    let rest = kstrchr fuel (s + 1) c m in
    if m s == 0
    then some (if c == 0 then some s else none)
    else if m s == c % 2 ^ 8
    then some (some s)
    else rest

-- The routines below go to the end of a string without a bound: `none` if the fuel is used up first.
unfoldable pub kstrlen : ℕ → ℕ → Memory → Option ℕ
kstrlen zero s m = none
kstrlen (suc fuel) s m =
    let rest = kstrlen fuel (s + 1) m in
    if m s == 0 then some 0 else elim rest [ none ↦ none | some n ↦ some (suc n) ]

unfoldable pub kstrcpy : ℕ → ℕ → ℕ → Memory → Option Memory
kstrcpy zero dest src m = none
kstrcpy (suc fuel) dest src m =
    let m' = update m dest (m src) in
    let rest = kstrcpy fuel (dest + 1) (src + 1) m' in if m src == 0 then some m' else rest

-- `while (*d) d++`
unfoldable pub find_end : ℕ → ℕ → Memory → Option ℕ
find_end zero d m = none
find_end (suc fuel) d m = let rest = find_end fuel (d + 1) m in if m d == 0 then some d else rest

unfoldable pub kstrcat : ℕ → ℕ → ℕ → Memory → Option Memory
unfolding find_end kstrcpy
kstrcat fuel dest src m = elim (find_end fuel dest m) [
  | none ↦ none
  | some d ↦ kstrcpy fuel d src m
]

unfoldable pub append_bounded : ℕ → ℕ → ℕ → Memory → Memory
append_bounded zero d src m = update m d 0
append_bounded (suc n) d src m =
    let rest = append_bounded n (d + 1) (src + 1) (update m d (m src)) in
    if m src == 0 then update m d 0 else rest

unfoldable pub kstrncat : ℕ → ℕ → ℕ → ℕ → Memory → Option Memory
unfolding find_end append_bounded
kstrncat fuel dest src n m = elim (find_end fuel dest m) [
  | none ↦ none
  | some d ↦ some (append_bounded n d src m)
]

-- `last` is the last place found so far.
unfoldable pub last_from : ℕ → ℕ → ℕ → Option ℕ → Memory → Option (Option ℕ)
last_from zero s c last m = none
last_from (suc fuel) s c last m =
    let here = if m s == c % 2 ^ 8 then some s else last in
    let rest = last_from fuel (s + 1) c here m in
    if m s == 0 then some (if c == 0 then some s else last) else rest

unfoldable pub kstrrchr : ℕ → ℕ → ℕ → Memory → Option (Option ℕ)
unfolding last_from
kstrrchr fuel s c m = last_from fuel s c none m

-- the inner loop of kstrstr: whether the string at `n` is all found at `h`
unfoldable pub starts_with : ℕ → ℕ → ℕ → Memory → Option Bool
starts_with zero h n m = none
starts_with (suc fuel) h n m =
    let rest = starts_with fuel (h + 1) (n + 1) m in
    if not (m h == 0) && not (m n == 0) && (m h == m n) then rest else some (m n == 0)

unfoldable pub search_from : ℕ → ℕ → ℕ → Memory → Option (Option ℕ)
unfolding starts_with
search_from zero haystack needle m = none
search_from (suc fuel) haystack needle m =
    let rest = search_from fuel (haystack + 1) needle m in
    if m haystack == 0 then some none else elim (starts_with (suc fuel) haystack needle m) [
      | none ↦ none
      | some true ↦ some (some haystack)
      | some false ↦ rest
    ]

unfoldable pub kstrstr : ℕ → ℕ → ℕ → Memory → Option (Option ℕ)
unfolding search_from
kstrstr fuel haystack needle m =
    if m needle == 0 then some (some haystack) else search_from fuel haystack needle m

-- the loop of kstrsep from `end` on: what `*stringp` becomes, and memory
unfoldable pub split_from : ℕ → ℕ → ℕ → Memory → Option (Option ℕ × Memory)
unfolding kstrchr
split_from zero end delim m = none
split_from (suc fuel) end delim m =
    let rest = split_from fuel (end + 1) delim m in
    if m end == 0 then some (none, m) else elim (kstrchr (suc fuel) delim (m end) m) [
      | none ↦ none
      | some none ↦ rest
      | some (some p) ↦ some (some (end + 1), update m end 0)
    ]

-- The token, the new value of `*stringp`, and memory.
unfoldable pub kstrsep : ℕ → Option ℕ → ℕ → Memory → Option (Option ℕ × Option ℕ × Memory)
unfolding split_from
kstrsep fuel none delim m = some (none, none, m)
kstrsep fuel (some s) delim m = elim (split_from fuel s delim m) [
  | none ↦ none
  | some (next, m') ↦ some (some s, next, m')
]
