-- ===== src/Kernel/Signal.antt =====
-- kernel/signal.c: signals sent, handlers set, and delivery.
pub mod Stops
pub mod Deliver
mod Tests
use relis.Prelude.{
  ℕ, zero, suc, ◌+◌, ◌-◌, ◌*◌, ◌/◌, ◌%◌, ◌^◌, ◌≤◌, ◌<◌, min, bit_and, bit_or, bit_xor, ◌≡◌, refl,
  sym, ap, ◌∙◌, subst, ◌≢◌, ◌↔◌, ◌⊎◌, inl, inr, Bool, true, false, not, ◌&&◌, ◌||◌, Option, none,
  some, List, [], ◌∷◌, ◌++◌, map, append_assoc, append-nil, arith, ltb, leb, ◌==◌, if◌then◌else◌,
  ltb→lt, lt→ltb, leb→le, ==_iff, tests, Bool-cases, Option-cases, if_lem, length, get_elem?,
  get_or, set, take, drop, replicate, length-append, length-set, get_or-set_self, get_or-set_ne,
  length-take, length-drop, take-append-drop, length-replicate, get_or-replicate, update,
  update_self, update_ne, test_bit, not64, bit_and_step, bit_or_step, test_bit-and, test_bit-or,
  test_bit-pow, test_bit-not64, bit_and-zero, bit_and-pow, bit_or-lt, bit_and-le, pow-lt,
  bit_and-ones, test_bit-zero, bit_and_align, bit_and_high, bit_and_mask, bit_or_field,
  bit_or-zero_left, bit_or-zero_right, ℤ, pos, negsuc, minus_one, sub_ℕ,
}
use relis.ListHead.{list_for_each}
use relis.Kernel.State.{Kernel, Task, set_task, current, task_zombie, task_interruptible}
use relis.Kernel.Sched.{wake_up_process, schedule}

abbrev pub max_signals : ℕ
max_signals = 32

abbrev pub sighup : ℕ
sighup = 1

abbrev pub sigint : ℕ
sigint = 2

abbrev pub sigkill : ℕ
sigkill = 9

-- `tasks_node` is 144 bytes into the task: `list_entry` of a node of the global list.
abbrev pub list_entry : ℕ → ℕ
list_entry node = node - 144

-- the first of the nodes whose task has the number
unfoldable pub find_task : ℕ → List ℕ → Kernel → Option ℕ
find_task pid [] k = none
find_task pid (node ∷ nodes) k =
    let rest = find_task pid nodes k in
    if (k.tasks (list_entry node)).pid == pid then some (list_entry node) else rest

-- the part of sys_kill behind the search
unfoldable pub send_signal : ℕ → ℕ → Kernel → Kernel
send_signal target sig k =
    let t = k.tasks target in
    let k' =
      set_task target (record t { pending_signals = bit_or t.pending_signals (2 ^ sig) }) k in
    if t.state == task_interruptible then wake_up_process target k' else k'

-- whether the number is a signal's
unfoldable pub is_signal : ℤ → Bool
is_signal (pos sig) = leb 1 sig && ltb sig max_signals
is_signal (negsuc n) = false

abbrev pub signal_number : ℤ → ℕ
signal_number (pos sig) = sig
signal_number (negsuc n) = 0

-- `none` if the walk of the global list does not end within the fuel.
unfoldable pub sys_kill : ℕ → ℕ → ℤ → Kernel → Option (ℤ × Kernel)
unfolding find_task send_signal is_signal
sys_kill fuel pid sig k =
    if not (is_signal sig)
    then some (minus_one, k)
    else elim (list_for_each fuel k.at.global_tasks k.links) [
      | none ↦ none
      | some nodes ↦ elim (find_task pid nodes k) [
        | none ↦ some (minus_one, k)
        | some target ↦ some (pos 0, send_signal target (signal_number sig) k)
      ]
    ]

unfoldable pub sys_sigaction : ℤ → ℕ → Kernel → ℤ × Kernel
unfolding is_signal
sys_sigaction sig handler k = if not (is_signal sig) then (minus_one, k) else (
  pos 0,
  set_task k.current_task
      (record (current k) {
        signal_handlers = update (current k).signal_handlers (signal_number sig) handler;
      })
      k,
)

-- What the other tasks and interrupts do while a task has given up the processor: `away t k` is the
-- kernel when task `t` runs again, where `k` is what schedule left. It is `k` if schedule found no
-- other task.
abbrev pub Away : Type 0
Away = ℕ → Kernel → Kernel

-- `current_task->state = TASK_ZOMBIE; schedule();` up to the return from the call
unfoldable pub end_task : Away → Kernel → Kernel
end_task away k =
    away k.current_task
      (schedule (set_task k.current_task (record (current k) { state = task_zombie }) k))

-- One round of the loop of deliver_signals, for a signal that is pending: the new `regs->rip` if the
-- loop returns.
unfoldable pub deliver_one : Away → ℕ → Kernel → Option ℕ × Kernel
unfolding end_task
deliver_one away sig k =
    let t = current k in
    let cleared = record t { pending_signals = bit_and t.pending_signals (not64 (2 ^ sig)) } in
    let k₁ = set_task k.current_task cleared k in
    let k₂ = if sig == sigkill then end_task away k₁ else k₁ in
    let handler = (current k₂).signal_handlers sig in
    if handler == 0
    then (none, if (sig == sigint) || (sig == sighup) then end_task away k₂ else k₂)
    else (some handler, k₂)

-- the loop from signal `sig` on, for `n` signals
unfoldable pub deliver_from : Away → ℕ → ℕ → Kernel → Option ℕ × Kernel
unfolding deliver_one
deliver_from away zero sig k = (none, k)
deliver_from away (suc n) sig k =
    let round =
      if bit_and (current k).pending_signals (2 ^ sig) == 0
      then (none, k)
      else deliver_one away sig k in
    let rest = deliver_from away n (sig + 1) round.1 in
    elim (round.0) [ none ↦ rest | some handler ↦ (some handler, round.1) ]

-- the new `regs->rip` if there is one
unfoldable pub deliver_signals : Away → Kernel → Option ℕ × Kernel
unfolding deliver_from
deliver_signals away k =
    if (current k).pending_signals == 0 then (none, k) else deliver_from away 31 1 k
