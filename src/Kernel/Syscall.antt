-- ===== src/Kernel/Syscall.antt =====
-- kernel/entry/syscall.c and sys_pipe of kernel/ipc.c: the table of open files of a task.
pub mod Files
mod Tests
use relis.Prelude.{
  ℕ, zero, suc, ◌+◌, ◌-◌, ◌*◌, ◌/◌, ◌%◌, ◌^◌, ◌≤◌, ◌<◌, min, bit_and, bit_or, bit_xor, ◌≡◌, refl,
  sym, ap, ◌∙◌, subst, ◌≢◌, ◌↔◌, ◌⊎◌, inl, inr, Bool, true, false, not, ◌&&◌, ◌||◌, Option, none,
  some, List, [], ◌∷◌, ◌++◌, map, append_assoc, append-nil, arith, ltb, leb, ◌==◌, if◌then◌else◌,
  ltb→lt, lt→ltb, leb→le, ==_iff, tests, Bool-cases, Option-cases, if_lem, length, get_elem?,
  get_or, set, take, drop, replicate, length-append, length-set, get_or-set_self, get_or-set_ne,
  length-take, length-drop, take-append-drop, length-replicate, get_or-replicate, update,
  update_self, update_ne, test_bit, not64, bit_and_step, bit_or_step, test_bit-and, test_bit-or,
  test_bit-pow, test_bit-not64, bit_and-zero, bit_and-pow, bit_or-lt, bit_and-le, pow-lt,
  bit_and-ones, test_bit-zero, bit_and_align, bit_and_high, ℤ, pos, negsuc, minus_one, sub_ℕ,
}
use relis.Kernel.State.{Kernel, Task, set_task, current, max_fds, Fop}
use relis.Kernel.Thread.{set_fd}

-- The loop of alloc_fd over the descriptors from `i` on, `n` of them: the first one that is free.
unfoldable pub first_free : ℕ → ℕ → (ℕ → ℕ) → Option ℕ
first_free zero i files = none
first_free (suc n) i files =
    let rest = first_free n (i + 1) files in if files i == 0 then some i else rest

-- The result of alloc_fd for the task at `t` and the file at `f`.
unfoldable pub alloc_fd : ℕ → ℕ → Kernel → ℤ × Kernel
unfolding first_free
alloc_fd t f k = elim (first_free max_fds 0 (k.tasks t).files) [
  | none ↦ (minus_one, k)
  | some i ↦ (pos i, set_fd t i f k)
]

-- whether the descriptor names an open file of the task
unfoldable pub is_open : ℤ → ℕ → Kernel → Bool
is_open (pos fd) t k = ltb fd max_fds && not ((k.tasks t).files fd == 0)
is_open (negsuc n) t k = false

-- SYS_CLOSE; kfree is empty.
unfoldable pub sys_close : ℤ → Kernel → ℤ × Kernel
unfolding is_open
sys_close (negsuc n) k = (minus_one, k)
sys_close (pos fd) k =
    if is_open (pos fd) k.current_task k
    then (pos 0, set_fd k.current_task fd 0 k)
    else (minus_one, k)

-- The loop of sys_pipe over the descriptors, once its two files exist at `read_end` and `write_end`:
-- the files of the task, and `rfd` and `wfd` where they were found.
unfoldable pub place_ends : ℕ → ℕ → (ℕ → ℕ) → (ℕ → ℕ) × Option (ℕ × ℕ)
place_ends read_end write_end files = elim (first_free max_fds 0 files) [
  | none ↦ (files, none)
  | some rfd ↦
      let files₁ = update files rfd read_end in
      elim (first_free (max_fds - (rfd + 1)) (rfd + 1) files₁) [
        | none ↦ (files₁, none)
        | some wfd ↦ (update files₁ wfd write_end, some (rfd, wfd))
      ]
]
