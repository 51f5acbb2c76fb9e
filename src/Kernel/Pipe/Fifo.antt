-- ===== src/Kernel/Pipe/Fifo.antt =====
-- A pipe of kernel/ipc.c hands over the bytes that it accepted, in their order.
use relis.Prelude.{
  ℕ, zero, suc, ◌+◌, ◌-◌, ◌%◌, ◌^◌, ◌≤◌, ◌<◌, min, ◌≡◌, refl, sym, ap, ◌∙◌, subst, ◌≢◌, ◌⊎◌, inl,
  inr, none, some, List, [], ◌∷◌, ◌++◌, append_assoc, append-nil, arith, ltb, ◌==◌, if◌then◌else◌,
  Bool-cases, length, get_or, set, take, length-append, length-set, get_or-set_self, get_or-set_ne,
  length-take,
}
use relis.Kernel.State.{Pipe}
use relis.Kernel.Pipe.{
  pipe_size, store_bytes, load_bytes, pipe_read_round, pipe_write, PipeOp, writes, reads, run_pipe,
}

pub record IsValid (p : Pipe) : Type 0 where
  pub size : length p.buffer ≡ pipe_size
  pub order : p.read_pos ≤ p.write_pos
  pub bound : p.write_pos ≤ pipe_size

-- the bytes that wait in the pipe
abbrev pub contents : Pipe → List ℕ
contents p = load_bytes p.buffer p.read_pos (p.write_pos - p.read_pos)

length-store_bytes :
    (buffer : List ℕ) (offset : ℕ) (bytes : List ℕ)
    → length (store_bytes buffer offset bytes) ≡ length buffer
unfolding store_bytes
length-store_bytes buffer offset [] = refl
length-store_bytes buffer offset (b ∷ bytes) =
    length-store_bytes (set buffer offset b) (offset + 1) bytes ∙ length-set buffer offset b

store_bytes-before :
    (buffer : List ℕ) (offset : ℕ) (bytes : List ℕ) (i : ℕ)
    → i < offset
    → get_or (store_bytes buffer offset bytes) i 0 ≡ get_or buffer i 0
unfolding store_bytes
store_bytes-before buffer offset [] i h = refl
store_bytes-before buffer offset (b ∷ bytes) i h =
    store_bytes-before (set buffer offset b) (offset + 1) bytes i (omega arith)
    ∙ get_or-set_ne buffer offset i b 0 (omega arith)

load-store_before :
    (buffer : List ℕ) (offset : ℕ) (bytes : List ℕ) (i n : ℕ)
    → i + n ≤ offset
    → load_bytes (store_bytes buffer offset bytes) i n ≡ load_bytes buffer i n
unfolding load_bytes
load-store_before buffer offset bytes i zero h = refl
load-store_before buffer offset bytes i (suc n) h = cc (
  store_bytes-before buffer offset bytes i (omega arith),
  load-store_before buffer offset bytes (i + 1) n (omega arith),
)

load-store :
    (buffer : List ℕ) (offset : ℕ) (bytes : List ℕ)
    → offset + length bytes ≤ length buffer
    → load_bytes (store_bytes buffer offset bytes) offset (length bytes) ≡ bytes
unfolding load_bytes store_bytes
load-store buffer offset [] h = refl
load-store buffer offset (b ∷ bytes) h =
    let first =
      store_bytes-before (set buffer offset b) (offset + 1) bytes offset (omega arith)
      ∙ get_or-set_self buffer offset b 0 (omega arith) in
    let rest =
      load-store (set buffer offset b) (offset + 1) bytes
        (omega (arith, length-set buffer offset b)) in
    cc (first, rest)

load_bytes-append :
    (buffer : List ℕ) (offset m n : ℕ)
    → load_bytes buffer offset (m + n)
      ≡ load_bytes buffer offset m ++ load_bytes buffer (offset + m) n
unfolding load_bytes
load_bytes-append buffer offset zero n =
    let e : 0 + n ≡ n = omega arith in let f : offset + 0 ≡ offset = omega arith in rw (e, f)
load_bytes-append buffer offset (suc m) n =
    let e : suc m + n ≡ suc (m + n) = omega arith in
    let f : offset + suc m ≡ offset + 1 + m = omega arith in
    rw (e, f)
      (ap (λ (l : List ℕ). get_or buffer offset 0 ∷ l) (load_bytes-append buffer (offset + 1) m n))

length-load_bytes : (buffer : List ℕ) (offset n : ℕ) → length (load_bytes buffer offset n) ≡ n
unfolding load_bytes
length-load_bytes buffer offset zero = refl
length-load_bytes buffer offset (suc n) = ap suc (length-load_bytes buffer (offset + 1) n)

-- A write to a valid pipe accepts the bytes that fit between the write position and the end of the buffer, puts
-- them behind those that wait, and leaves a valid pipe.
pub pipe_write-contents :
    (p : Pipe) (buf : List ℕ)
    → IsValid p
    → let (n, q) = pipe_write buf p in
      (n ≡ min (length buf) (pipe_size - p.write_pos))
      × (contents q ≡ contents p ++ take n buf)
      × (q.write_pos ≡ p.write_pos + n)
      × IsValid q
unfolding pipe_write
pipe_write-contents p buf v =
    let n = (pipe_write buf p).0 in
    let bytes = take n buf in
    let count : n ≡ min (length buf) (pipe_size - p.write_pos) = ground (arith, v.bound) in
    let len : length bytes ≡ n = omega (arith, length-take n buf, count) in
    let next : (p.write_pos + n) % 2 ^ 32 ≡ p.write_pos + n = omega (arith, count, v.bound) in
    let wait = p.write_pos - p.read_pos in
    let total : p.write_pos + n - p.read_pos ≡ wait + n = omega (arith, v.order) in
    let place : p.read_pos + wait ≡ p.write_pos = omega (arith, v.order) in
    let stored = store_bytes p.buffer p.write_pos bytes in
    let old = load-store_before p.buffer p.write_pos bytes p.read_pos wait (omega (arith, place)) in
    let new : load_bytes stored p.write_pos n ≡ bytes =
      subst (λ (m : ℕ). load_bytes stored p.write_pos m ≡ bytes) len
        (load-store p.buffer p.write_pos bytes (omega (arith, len, count, v.size, v.bound))) in
    (
      count,
      ap (λ (k : ℕ). load_bytes stored p.read_pos k) (omega (arith, next, total))
          ∙ load_bytes-append stored p.read_pos wait n
          ∙ cc (old, ap (λ (k : ℕ). load_bytes stored k n) place ∙ new),
      next,
      record {
        size = length-store_bytes p.buffer p.write_pos bytes ∙ v.size;
        order = omega (arith, next, v.order);
        bound = omega (arith, next, count, v.bound);
      },
    )

wrapped_difference :
    (p : Pipe) → IsValid p → (p.write_pos + 2 ^ 32 - p.read_pos) % 2 ^ 32 ≡ p.write_pos - p.read_pos
wrapped_difference p v = omega (arith, v.order, v.bound)

-- the bytes of a read and the pipe that it leaves
abbrev taken : Pipe → ℕ → Pipe
taken p n = record p { read_pos = (p.read_pos + n) % 2 ^ 32 }

taken-contents :
    (p : Pipe) (n : ℕ)
    → IsValid p
    → n ≤ p.write_pos - p.read_pos
    → (contents p ≡ load_bytes p.buffer p.read_pos n ++ contents (taken p n)) × IsValid (taken p n)
taken-contents p n v h =
    let next : (p.read_pos + n) % 2 ^ 32 ≡ p.read_pos + n = omega (arith, v.order, v.bound) in
    let rest : p.write_pos - (p.read_pos + n) % 2 ^ 32 ≡ p.write_pos - p.read_pos - n =
      omega (arith, next) in
    let split : p.write_pos - p.read_pos ≡ n + (p.write_pos - p.read_pos - n) = omega arith in
    (
      ap (λ (k : ℕ). load_bytes p.buffer p.read_pos k) split
          ∙ load_bytes-append p.buffer p.read_pos n (p.write_pos - p.read_pos - n)
          ∙ cc (next, rest),
      record { size = v.size; order = omega (arith, next, v.order); bound = v.bound },
    )

-- A read of a valid pipe finds no byte exactly if none waits; else it takes the first of those that wait, as many
-- as are asked for and there are, and leaves the rest and a valid pipe.
pub pipe_read_round-contents :
    (p : Pipe) (count : ℕ)
    → IsValid p
    → ((contents p ≡ []) → pipe_read_round count p ≡ none)
      × (contents p ≢ []
          → (bytes : List ℕ) × (q : Pipe) × (pipe_read_round count p ≡ some (bytes, q))
            × (contents p ≡ bytes ++ contents q)
            × (length bytes ≡ min count (length (contents p)))
            × (q.write_pos ≡ p.write_pos)
            × IsValid q)
unfolding pipe_read_round
pipe_read_round-contents p count v = elim (Bool-cases (p.read_pos == p.write_pos)) [
  | inl none_left ↦
      let zero : p.write_pos - p.read_pos ≡ 0 = ground arith in
      let empty : contents p ≡ [] = ap (λ (k : ℕ). load_bytes p.buffer p.read_pos k) zero in
      (λ _. rw none_left, λ ne. absurd (ne empty))
  | inr waiting ↦
      let have = wrapped_difference p v in
      let len = length-load_bytes p.buffer p.read_pos (p.write_pos - p.read_pos) in
      let n = if ltb count (p.write_pos - p.read_pos) then count else p.write_pos - p.read_pos in
      let got = length-load_bytes p.buffer p.read_pos n in
      let (split, valid) = taken-contents p n v (ground arith) in
      (
        λ e. absurd (ground (arith, v.order, len, ap (λ (l : List ℕ). length l) e)),
        λ ne. (
          load_bytes p.buffer p.read_pos n,
          taken p n,
          rw (waiting, have),
          split,
          ground (arith, got, len),
          refl,
          valid,
        ),
      )
]

nil_or_not : (xs : List ℕ) → (xs ≡ []) ⊎ (xs ≢ [])
nil_or_not [] = inl refl
nil_or_not (x ∷ xs) = inr (λ e. cc)

-- Over any sequence of reads and writes of a valid pipe, whichever processes make them, the bytes that were waiting
-- and those accepted come out in their order, none lost and none twice: what the reads returned
-- and what waits at the end is what waited at the start and what the writes accepted. All writes
-- together accept no more than the end of the buffer leaves, for reads make no room.
pub run_pipe-fifo :
    (ops : List PipeOp) (p : Pipe)
    → IsValid p
    → let (got, put, q) = run_pipe ops p in
      (contents p ++ put ≡ got ++ contents q)
      × (p.write_pos + length put ≡ q.write_pos)
      × (q.write_pos ≤ pipe_size)
      × IsValid q
unfolding run_pipe
run_pipe-fifo [] p v = (append-nil (contents p), omega arith, v.bound, v)
run_pipe-fifo (writes buf ∷ ops) p v =
    let (count, stored, moved, valid) = pipe_write-contents p buf v in
    let n = (pipe_write buf p).0 in
    let (fifo, total, bound, valid') = run_pipe-fifo ops (pipe_write buf p).1 valid in
    let put = (run_pipe ops (pipe_write buf p).1).1 in
    (
      sym (append_assoc (contents p) (take n buf) put)
          ∙ ap (λ (l : List ℕ). l ++ put) (sym stored)
          ∙ fifo,
      omega (arith, total, moved, length-append (take n buf) put, length-take n buf, count),
      bound,
      valid',
    )
run_pipe-fifo (reads count ∷ ops) p v =
    let round = pipe_read_round-contents p count v in
    elim (nil_or_not (contents p)) [
      | inl e ↦ rw (round.0 e, run_pipe) (run_pipe-fifo ops p v)
      | inr e ↦
          let (bytes, p', got, split, _, same, valid) = round.1 e in
          let (fifo, total, bound, valid') = run_pipe-fifo ops p' valid in
          let out = (run_pipe ops p').0 in
          let put = (run_pipe ops p').1 in
          rw (got, run_pipe)
            (
              ap (λ (l : List ℕ). l ++ put) split
                  ∙ append_assoc bytes (contents p') put
                  ∙ ap (λ (l : List ℕ). bytes ++ l) fifo
                  ∙ sym (append_assoc bytes out _),
              omega (arith, total, same),
              bound,
              valid',
            )
    ]
