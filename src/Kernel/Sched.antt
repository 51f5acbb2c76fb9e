-- ===== src/Kernel/Sched.antt =====
-- kernel/sched/: the run queues, the three scheduling classes, and the functions of core.c.
-- Each runs with sched_lock held or before there is a second processor, so it is one step.
pub mod Queues
pub mod Enqueue
pub mod Pick
pub mod Tick
use relis.Prelude.{
  ℕ, zero, suc, ◌+◌, ◌-◌, ◌*◌, ◌/◌, ◌%◌, ◌^◌, ◌≤◌, ◌<◌, min, bit_and, bit_or, bit_xor, ◌≡◌, refl,
  sym, ap, ◌∙◌, subst, ◌≢◌, ◌↔◌, ◌⊎◌, inl, inr, Bool, true, false, not, ◌&&◌, ◌||◌, Option, none,
  some, List, [], ◌∷◌, ◌++◌, map, append_assoc, append-nil, arith, ltb, leb, ◌==◌, if◌then◌else◌,
  ltb→lt, lt→ltb, leb→le, ==_iff, tests, Bool-cases, Option-cases, if_lem, length, get_elem?,
  get_or, set, take, drop, replicate, length-append, length-set, get_or-set_self, get_or-set_ne,
  length-take, length-drop, take-append-drop, length-replicate, get_or-replicate, update,
  update_self, update_ne, test_bit, not64, bit_and_step, bit_or_step, test_bit-and, test_bit-or,
  test_bit-pow, test_bit-not64, bit_and-zero, bit_and-pow, bit_or-lt, bit_and-le, pow-lt,
  bit_and-ones, test_bit-zero, bit_and_align, bit_and_high, bit_and_mask, bit_or_field,
  bit_or-zero_left, bit_or-zero_right, ℤ, pos, negsuc, minus_one, sub_ℕ,
}
use relis.ListHead.{Links, list_add, list_add_tail, list_del, list_empty}
use relis.Mm.Paging.{Mmu, switch_address_space}
use relis.Mm.Slab.{kmalloc}
use relis.Kernel.State.{
  Kernel, Task, SchedClass, fair, rt, idle, Policy, sched_normal, sched_fifo, sched_rr, se_run_node,
  rt_run_node, tasks_node, sizeof_task, task_running, task_interruptible, tif_need_resched,
  set_task, current,
}

-- fair.c

unfoldable pub enqueue_task_fair : ℕ → Kernel → Kernel
enqueue_task_fair p k = record k {
  links = list_add_tail (se_run_node p) k.at.cfs_queue k.links;
  nr_running = (k.nr_running + 1) % 2 ^ 64;
}

unfoldable pub dequeue_task_fair : ℕ → Kernel → Kernel
dequeue_task_fair p k = record k {
  links = list_del (se_run_node p) k.links;
  nr_running = (k.nr_running + 2 ^ 64 - 1) % 2 ^ 64;
}

-- `none` is the null pointer; `- 120` is list_entry
unfoldable pub pick_next_task_fair : Kernel → Option ℕ × Kernel
pick_next_task_fair k =
    if list_empty k.at.cfs_queue k.links
    then (none, k)
    else (let node = k.links.next k.at.cfs_queue in
        (
          some (node - 120),
          record k { links = list_add_tail node k.at.cfs_queue (list_del node k.links) },
        ))

-- `none` is the fault of a division by a weight of 0; kernel_thread sets the weight to 1024.
unfoldable pub task_tick_fair : ℕ → Kernel → Option Kernel
task_tick_fair p k =
    let t = k.tasks p in
    if t.weight == 0
    then none
    else some (
        set_task p
          (record t {
            sum_exec_runtime = (t.sum_exec_runtime + 1) % 2 ^ 64;
            vruntime = (t.vruntime + 1024 / t.weight) % 2 ^ 64;
            flags = bit_or t.flags tif_need_resched;
          })
          k)

-- rt.c

unfoldable pub enqueue_task_rt : ℕ → Kernel → Kernel
enqueue_task_rt p k = record k {
  links = list_add (rt_run_node p) k.at.rt_queue k.links;
  nr_running = (k.nr_running + 1) % 2 ^ 64;
}

unfoldable pub dequeue_task_rt : ℕ → Kernel → Kernel
dequeue_task_rt p k = record k {
  links = list_del (rt_run_node p) k.links;
  nr_running = (k.nr_running + 2 ^ 64 - 1) % 2 ^ 64;
}

unfoldable pub pick_next_task_rt : Kernel → Option ℕ
pick_next_task_rt k =
    if list_empty k.at.rt_queue k.links then none else some (k.links.next k.at.rt_queue - 96)

unfoldable pub task_tick_rt : ℕ → Kernel → Kernel
task_tick_rt p k =
    let t = k.tasks p in
    elim t.policy [
      | sched_rr ↦ set_task p (record t { flags = bit_or t.flags tif_need_resched }) k
      | _ ↦ k
    ]

-- idle.c

unfoldable pub task_tick_idle : ℕ → Kernel → Kernel
task_tick_idle p k =
    let t = k.tasks p in set_task p (record t { flags = bit_or t.flags tif_need_resched }) k

-- core.c: the calls through `sched_class`, where the idle class has no `enqueue_task`

unfoldable pub enqueue_task : ℕ → Kernel → Kernel
unfolding enqueue_task_fair enqueue_task_rt
enqueue_task p k = elim (k.tasks p).sched_class [
  | fair ↦ enqueue_task_fair p k
  | rt ↦ enqueue_task_rt p k
  | idle ↦ k
]

unfoldable pub task_tick : ℕ → Kernel → Option Kernel
unfolding task_tick_fair task_tick_rt task_tick_idle
task_tick p k = elim (k.tasks p).sched_class [
  | fair ↦ task_tick_fair p k
  | rt ↦ some (task_tick_rt p k)
  | idle ↦ some (task_tick_idle p k)
]

unfoldable pub scheduler_tick : Kernel → Option Kernel
scheduler_tick k = task_tick k.current_task (record k { clock = (k.clock + 1) % 2 ^ 64 })

-- timer.c: the interrupt handler
unfoldable pub timer_callback : Kernel → Option Kernel
unfolding scheduler_tick
timer_callback k = scheduler_tick (record k { jiffies = (k.jiffies + 1) % 2 ^ 64 })

-- The null pointer is the address 0, which is no task.
unfoldable pub wake_up_process : ℕ → Kernel → Kernel
unfolding enqueue_task
wake_up_process p k =
    if not (p == 0) && ((k.tasks p).state == task_interruptible)
    then enqueue_task p (set_task p (record (k.tasks p) { state = task_running }) k)
    else k

-- the choice that `__schedule` makes, and the rotation that it leaves in the fair queue
unfoldable pub pick_next : Kernel → ℕ × Kernel
pick_next k = elim (pick_next_task_rt k) [
  | some p ↦ (p, k)
  | none ↦
      let (next, k') = pick_next_task_fair k in
      elim next [ some p ↦ (p, k') | none ↦ (k'.current_task, k') ]
]

-- `~TIF_NEED_RESCHED` on a 32-bit field
abbrev pub clear_need_resched : Task → Task
clear_need_resched t = record t { flags = bit_and t.flags (2 ^ 32 - 1 - tif_need_resched) }

unfoldable pub set_tss_rsp0 : ℕ → Kernel → Kernel
set_tss_rsp0 rsp k = record k { tss_rsp0 = rsp; rsp0 = rsp }

-- The state once the processor has switched to the task that was chosen.
unfoldable pub schedule : Kernel → Kernel
unfolding set_tss_rsp0
schedule k =
    let (next, k₁) = pick_next k in
    if next == k.current_task
    then set_task next (clear_need_resched (k₁.tasks next)) k₁
    else let k₂ =
        set_tss_rsp0 (k₁.tasks next).kernel_stack_top (record k₁ { current_task = next }) in
      if (k₂.tasks next).cr3 == k₂.mmu.cr3
      then k₂
      else record k₂ { mmu = switch_address_space (k₂.tasks next).cr3 k₂.mmu }
