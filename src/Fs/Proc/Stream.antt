-- ===== src/Fs/Proc/Stream.antt =====
-- fs/proc/proc.c: reads in a row give the text piece by piece.
use relis.Prelude.{
  ℕ, ◌+◌, ◌-◌, min, ◌≡◌, List, [], ◌∷◌, ◌++◌, ltb, leb, if◌then◌else◌, length, take, drop,
}
use relis.Fs.Proc.{proc_cpuinfo_read}

-- reads of the given sizes, one after the other: all their bytes, and the last `f_pos`
unfoldable pub read_all : List ℕ → ℕ → List ℕ × ℕ
read_all [] f_pos = ([], f_pos)
read_all (count ∷ counts) f_pos =
    let (n, bytes, next) = proc_cpuinfo_read count f_pos in
    let (more, last) = read_all counts next in (bytes ++ more, last)

unfoldable pub total : List ℕ → ℕ
total [] = 0
total (count ∷ counts) = count + total counts

-- proc_cpuinfo_read of any text
abbrev text_read : List ℕ → ℕ → ℕ → ℕ × List ℕ × ℕ
text_read text count f_pos =
    let left = length text - f_pos in
    let to_copy = if ltb count left then count else left in
    if leb (length text) f_pos
    then (0, [], f_pos)
    else (to_copy, take to_copy (drop f_pos text), f_pos + to_copy)

-- what one read must be: as much of the text as there is
record Read (text : List ℕ) (count f_pos : ℕ) (r : ℕ × List ℕ × ℕ) : Type 0 where
  bytes : r.1 ≡ take count (drop f_pos text)
  next : r.2 ≡ f_pos + min count (length text - f_pos)
