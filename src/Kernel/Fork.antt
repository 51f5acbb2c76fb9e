-- ===== src/Kernel/Fork.antt =====
-- kernel/fork.c: a task that is a copy of the current one.
pub mod Create
mod Tests
use relis.Prelude.{
  ℕ, zero, suc, ◌+◌, ◌-◌, ◌*◌, ◌/◌, ◌%◌, ◌^◌, ◌≤◌, ◌<◌, min, bit_and, bit_or, bit_xor, ◌≡◌, refl,
  sym, ap, ◌∙◌, subst, ◌≢◌, ◌↔◌, ◌⊎◌, inl, inr, Bool, true, false, not, ◌&&◌, ◌||◌, Option, none,
  some, List, [], ◌∷◌, ◌++◌, map, append_assoc, append-nil, arith, ltb, leb, ◌==◌, if◌then◌else◌,
  ltb→lt, lt→ltb, leb→le, ==_iff, tests, Bool-cases, Option-cases, if_lem, length, get_elem?,
  get_or, set, take, drop, replicate, length-append, length-set, get_or-set_self, get_or-set_ne,
  length-take, length-drop, take-append-drop, length-replicate, get_or-replicate, update,
  update_self, update_ne, test_bit, not64, bit_and_step, bit_or_step, test_bit-and, test_bit-or,
  test_bit-pow, test_bit-not64, bit_and-zero, bit_and-pow, bit_or-lt, bit_and-le, pow-lt,
  bit_and-ones, test_bit-zero, bit_and_align, bit_and_high, bit_and_mask, bit_or_field,
  bit_or-zero_left, bit_or-zero_right, ℤ, pos, negsuc, minus_one, sub_ℕ,
}
use relis.ListHead.{init_list_head}
use relis.Mm.Paging.{Mmu}
use relis.Mm.Paging.Clone.{clone_address_space}
use relis.Kernel.State.{Kernel, Task, se_run_node, sizeof_task, task_running, set_task, current}
use relis.Kernel.Thread.{new_block, list_task, stack_end_offset, ◌>>=◌}

abbrev pub sigchld : ℕ
sigchld = 17

-- The fields of the child at `c`: what kmemcpy brings over from the parent, and the stores behind it.
unfoldable pub child_of : Task → ℕ → ℕ → ℕ → Task
child_of parent c pid cr3 = record parent {
  pid = pid;
  ppid = parent.pid;
  state = task_running;
  pending_signals = 0;
  cr3 = cr3;
  kernel_stack_top = c + stack_end_offset;
}

-- `parent->pending_signals |= 1 << RELIS_SIGCHLD`
unfoldable pub tell_parent : Kernel → Kernel
tell_parent k =
    let parent = current k in
    set_task k.current_task
      (record parent { pending_signals = bit_or parent.pending_signals (2 ^ sigchld) }) k

-- The part behind the copy of the address space `cr3`.
unfoldable pub adopt : ℕ → ℕ → Mmu → Kernel → Kernel
unfolding child_of tell_parent
adopt c cr3 m k =
    let child = child_of (current k) c k.next_pid cr3 in
    let k₁ = set_task c child (record k { mmu = m; next_pid = (k.next_pid + 1) % 2 ^ 32 }) in
    let k₂ = record k₁ { links = init_list_head (se_run_node c) k₁.links } in
    tell_parent (list_task c k₂)

-- The result is the child's number, or -1 if there is no memory for the task; `none` is the halt of the
-- page allocator. The registers on the child's stack are a copy of the parent's but for `rax`, which is
-- 0; the stacks are not part of the state. The list nodes that kmemcpy copies with the task are written
-- before anything reads them, and are left out.
unfoldable pub sys_fork : Kernel → Option (ℤ × Kernel)
unfolding adopt
sys_fork k =
    let (block, k₁) = new_block sizeof_task k in
    elim block [
      | none ↦ some (minus_one, k₁)
      | some c ↦ elim (clone_address_space k₁.mmu) [
        | none ↦ none
        | some (cr3, m) ↦ some (pos k₁.next_pid, adopt c cr3 m k₁)
      ]
    ]
