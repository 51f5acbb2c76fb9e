-- ===== src/Str/Text.antt =====
-- The string routines of lib/string.c: comparison, and copies that stop at a bound.
use relis.Prelude.{
  ℕ, zero, suc, ◌+◌, ◌-◌, ◌≤◌, ◌<◌, min, ◌≡◌, refl, sym, ap, ◌∙◌, ◌≢◌, ◌⊎◌, true, false, arith,
  ◌==◌, update, update_self, update_ne,
}
use relis.Str.{Memory, kstrscpy, copy_bounded}

-- the string of `n` bytes at `s`: no byte of it is 0, and the byte behind it is
pub record IsString (m : Memory) (s n : ℕ) : Type 0 where
  pub inside : (i : ℕ) → i < n → m (s + i) ≢ 0
  pub end : m (s + n) ≡ 0

-- a string without its first byte
pub behind : (m : Memory) (s n : ℕ) → IsString m s (suc n) → IsString m (s + 1) n
behind m s n h = record {
  inside = λ i b q. h.inside (suc i) (omega arith) (ap m (omega arith) ∙ q);
  end = ap m (omega arith) ∙ h.end;
}

-- a string that a write does not touch
untouched :
    (m : Memory) (s n a v : ℕ)
    → (a < s) ⊎ (s + n < a)
    → IsString m s n
    → IsString (update m a v) s n
untouched m s n a v apart h = record {
  inside = λ i b q. h.inside i b (sym (update_ne m a (s + i) v (omega arith)) ∙ q);
  end = update_ne m a (s + n) v (omega arith) ∙ h.end;
}

-- what the memory `m'` is after the first `k` bytes at `src` were copied to `dest`, and a 0 behind them
pub record Copied (m m' : Memory) (dest src k : ℕ) : Type 0 where
  pub bytes : (i : ℕ) → i < k → m' (dest + i) ≡ m (src + i)
  pub end : m' (dest + k) ≡ 0
  pub others : (a : ℕ) → (a < dest) ⊎ (dest + k < a) → m' a ≡ m a

ended : (m : Memory) (dest src : ℕ) → Copied m (update m dest 0) dest src 0
ended m dest src = record {
  bytes = λ i h. absurd (omega arith);
  end = ap (update m dest 0) (omega arith) ∙ update_self m dest 0;
  others = λ a h. update_ne m dest a 0 (omega arith);
}

more_bytes :
    (m m' : Memory) (dest src k : ℕ)
    → (src + suc k < dest) ⊎ (dest < src)
    → Copied (update m dest (m src)) m' (dest + 1) (src + 1) k
    → (i : ℕ) → i < suc k
    → m' (dest + i) ≡ m (src + i)
more_bytes m m' dest src k apart c zero h =
    ap m' (omega arith)
    ∙ c.others dest (omega arith)
    ∙ update_self m dest (m src)
    ∙ ap m (omega arith)
more_bytes m m' dest src k apart c (suc i) h =
    ap m' (omega arith)
    ∙ c.bytes i (omega arith)
    ∙ update_ne m dest (src + 1 + i) (m src) (omega arith)
    ∙ ap m (omega arith)

-- One more byte in front.
more :
    (m m' : Memory) (dest src k : ℕ)
    → (src + suc k < dest) ⊎ (dest < src)
    → Copied (update m dest (m src)) m' (dest + 1) (src + 1) k
    → Copied m m' dest src (suc k)
more m m' dest src k apart c = record {
  bytes = more_bytes m m' dest src k apart c;
  end = ap m' (omega arith) ∙ c.end;
  others = λ a h. c.others a (omega arith) ∙ update_ne m dest a (m src) (omega arith);
}

copy_bounded-Copied :
    (dest src room n : ℕ) (m : Memory)
    → IsString m src n
    → (src + n < dest) ⊎ (dest + room < src)
    → (copy_bounded dest src room m).0 ≡ min n room
      × Copied m (copy_bounded dest src room m).1 dest src (min n room)
unfolding copy_bounded
copy_bounded-Copied dest src zero n m s apart =
    let none_left : min n 0 ≡ 0 = omega arith in rw none_left (refl, ended m dest src)
copy_bounded-Copied dest src (suc room) zero m s apart =
    let none_left : min 0 (suc room) ≡ 0 = omega arith in
    let zero_more : src + 0 ≡ src = omega arith in
    let stop : (m src == 0) ≡ true = ground (arith, s.end, ap m zero_more) in
    rw (none_left, stop) (refl, ended m dest src)
copy_bounded-Copied dest src (suc room) (suc n) m s apart =
    let one_more : min (suc n) (suc room) ≡ suc (min n room) = omega arith in
    let zero_more : src + 0 ≡ src = omega arith in
    let go_on : (m src == 0) ≡ false = ground (arith, s.inside 0 (omega arith), ap m zero_more) in
    let m' = update m dest (m src) in
    let rest =
      copy_bounded-Copied (dest + 1) (src + 1) room n m'
        (untouched m (src + 1) n dest (m src) (omega arith) (behind m src n s)) (omega arith) in
    rw (one_more, go_on)
      (
        ap suc rest.0,
        more m (copy_bounded (dest + 1) (src + 1) room m').1 dest src (min n room) (omega arith)
            rest.1,
      )

-- kstrscpy, for a destination of `count` > 0 bytes apart from the string at `src`: the result is the
-- number of bytes copied, the whole string or its first `count - 1` bytes; a 0 ends the copy; and no other byte
-- of memory is changed.
kstrscpy-Copied :
    (dest src count n : ℕ) (m : Memory)
    → 0 < count
    → IsString m src n
    → (src + n < dest) ⊎ (dest + count ≤ src)
    → (kstrscpy dest src count m).0 ≡ min n (count - 1)
      × Copied m (kstrscpy dest src count m).1 dest src (min n (count - 1))
unfolding kstrscpy
kstrscpy-Copied dest src zero n m h s apart = absurd (omega arith)
kstrscpy-Copied dest src (suc room) n m h s apart =
    let r : suc room - 1 ≡ room = omega arith in
    rw r (copy_bounded-Copied dest src room n m s (omega arith))
