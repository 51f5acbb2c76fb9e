-- ===== src/Kernel/Pipe.antt =====
-- kernel/ipc.c: pipes and shared memory.
pub mod Fifo
mod Tests
use relis.Prelude.{
  ℕ, zero, suc, ◌+◌, ◌-◌, ◌*◌, ◌/◌, ◌%◌, ◌^◌, ◌≤◌, ◌<◌, min, bit_and, bit_or, bit_xor, ◌≡◌, refl,
  sym, ap, ◌∙◌, subst, ◌≢◌, ◌↔◌, ◌⊎◌, inl, inr, Bool, true, false, not, ◌&&◌, ◌||◌, Option, none,
  some, List, [], ◌∷◌, ◌++◌, map, append_assoc, append-nil, arith, ltb, leb, ◌==◌, if◌then◌else◌,
  ltb→lt, lt→ltb, leb→le, ==_iff, tests, Bool-cases, Option-cases, length, get_elem?, get_or, set,
  take, drop, replicate, length-append, length-set, get_or-set_self, get_or-set_ne, length-take,
  length-drop, take-append-drop, length-replicate, get_or-replicate, update, update_self, update_ne,
  test_bit, not64, bit_and_step, bit_or_step, test_bit-and, test_bit-or, test_bit-pow,
  test_bit-not64, bit_and-zero, bit_and-pow, bit_or-lt, bit_and-le, pow-lt, bit_and-ones,
  test_bit-zero, bit_and_align, bit_and_high, ℤ, pos, negsuc, minus_one, sub_ℕ,
}
use relis.Kernel.State.{Pipe}

abbrev pub pipe_size : ℕ
pipe_size = 4096

-- the pipe that kmemset clears
abbrev pub empty_pipe : Pipe
empty_pipe = record { buffer = replicate pipe_size 0; read_pos = 0; write_pos = 0 }

-- The bytes `bytes` stored from position `offset` on, as kmemcpy does.
unfoldable pub store_bytes : List ℕ → ℕ → List ℕ → List ℕ
store_bytes buffer offset [] = buffer
store_bytes buffer offset (b ∷ bytes) = store_bytes (set buffer offset b) (offset + 1) bytes

-- The `n` bytes from position `offset` on.
unfoldable pub load_bytes : List ℕ → ℕ → ℕ → List ℕ
load_bytes buffer offset zero = []
load_bytes buffer offset (suc n) = get_or buffer offset 0 ∷ load_bytes buffer (offset + 1) n

-- One round of the loop of pipe_read with the lock held: the bytes for the caller, or `none` if
-- there are none yet, where the source yields the processor and goes round again.
-- `write_pos - read_pos` is a `uint32_t` subtraction.
unfoldable pub pipe_read_round : ℕ → Pipe → Option (List ℕ × Pipe)
unfolding load_bytes
pipe_read_round count p =
    if p.read_pos == p.write_pos
    then none
    else let have = (p.write_pos + 2 ^ 32 - p.read_pos) % 2 ^ 32 in
      let to_copy = if ltb count have then count else have in
      some (
        load_bytes p.buffer p.read_pos to_copy,
        record p { read_pos = (p.read_pos + to_copy) % 2 ^ 32 },
      )

-- The count written and the pipe. `4096 - write_pos` is computed in `uint32_t`.
unfoldable pub pipe_write : List ℕ → Pipe → ℕ × Pipe
unfolding store_bytes
pipe_write buf p =
    let space = (pipe_size + 2 ^ 32 - p.write_pos) % 2 ^ 32 in
    let count = length buf in
    let to_copy = if ltb count space then count else space in
    (
      to_copy,
      record p {
        buffer = store_bytes p.buffer p.write_pos (take to_copy buf);
        write_pos = (p.write_pos + to_copy) % 2 ^ 32;
      },
    )

-- what processes do with the two ends of a pipe, in the order in which they hold its lock
pub data PipeOp : Type 0 where
  writes : List ℕ → PipeOp
  reads : ℕ → PipeOp

-- The bytes that all reads returned together, and the bytes that all writes accepted together.
unfoldable pub run_pipe : List PipeOp → Pipe → List ℕ × List ℕ × Pipe
run_pipe [] p = ([], [], p)
run_pipe (writes buf ∷ ops) p =
    let (n, p') = pipe_write buf p in
    let (got, put, q) = run_pipe ops p' in (got, take n buf ++ put, q)
run_pipe (reads count ∷ ops) p = elim (pipe_read_round count p) [
  | none ↦ run_pipe ops p
  | some (bytes, p') ↦ let (got, put, q) = run_pipe ops p' in (bytes ++ got, put, q)
]
