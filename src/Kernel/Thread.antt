-- ===== src/Kernel/Thread.antt =====
-- sched_init and kernel_thread of kernel/sched/core.c, and task_setup_stdio of
-- kernel/entry/syscall.c. A result `none` is a halt or a write through a null pointer.
pub mod Blocks
pub mod Create
pub mod Init
pub mod Tests
use relis.Prelude.{
  ℕ, zero, suc, ◌+◌, ◌-◌, ◌*◌, ◌/◌, ◌%◌, ◌^◌, ◌≤◌, ◌<◌, min, bit_and, bit_or, bit_xor, ◌≡◌, refl,
  sym, ap, ◌∙◌, subst, ◌≢◌, ◌↔◌, ◌⊎◌, inl, inr, Bool, true, false, not, ◌&&◌, ◌||◌, Option, none,
  some, List, [], ◌∷◌, ◌++◌, map, append_assoc, append-nil, arith, ltb, leb, ◌==◌, if◌then◌else◌,
  ltb→lt, lt→ltb, leb→le, ==_iff, tests, Bool-cases, Option-cases, if_lem, length, get_elem?,
  get_or, set, take, drop, replicate, length-append, length-set, get_or-set_self, get_or-set_ne,
  length-take, length-drop, take-append-drop, length-replicate, get_or-replicate, update,
  update_self, update_ne, test_bit, not64, bit_and_step, bit_or_step, test_bit-and, test_bit-or,
  test_bit-pow, test_bit-not64, bit_and-zero, bit_and-pow, bit_or-lt, bit_and-le, pow-lt,
  bit_and-ones, test_bit-zero, bit_and_align, bit_and_high, bit_and_mask, bit_or_field,
  bit_or-zero_left, bit_or-zero_right, ℤ, pos, negsuc, minus_one, sub_ℕ,
}
use relis.ListHead.{init_list_head, list_add}
use relis.Mm.Slab.{kmalloc}
use relis.Kernel.State.{
  Kernel, Task, File, Inode, Fop, Policy, sched_normal, sched_fifo, sched_rr, SchedClass, fair, rt,
  idle, tasks_node, sizeof_task, task_running, set_task,
}
use relis.Kernel.Sched.{enqueue_task}

-- kmalloc as the rest of the kernel sees it: an address, or the null pointer
unfoldable pub new_block : ℕ → Kernel → Option ℕ × Kernel
new_block size k =
    let (ptr, heap) = kmalloc size k.heap in
    elim ptr [
      | none ↦ (none, record k { heap = heap })
      | some p ↦ (some (k.at.heap_base + p), record k { heap = heap })
    ]

-- kmalloc and a store through its result: `none` is the store through a null pointer
unfoldable pub zeroed_block : ℕ → Kernel → Option (ℕ × Kernel)
zeroed_block size k =
    let (ptr, k₁) = new_block size k in elim ptr [ none ↦ none | some p ↦ some (p, k₁) ]

abbrev pub sizeof_file : ℕ
sizeof_file = 24

abbrev pub sizeof_inode : ℕ
sizeof_inode = 32

-- the stores through the two pointers
unfoldable pub store_file : ℕ → ℕ → Fop → Kernel → Kernel
store_file f i fop k = record k {
  files = update k.files f (record { f_inode = i; f_pos = 0 });
  inodes = update k.inodes i (record (k.inodes i) { i_fop = fop });
}

-- A file with an inode of its own, whose operations and position are set. The rest of the two
-- blocks keeps what was there.
unfoldable pub new_file : Fop → Kernel → Option (ℕ × Kernel)
new_file fop k =
    let (file, k₁) = new_block sizeof_file k in
    elim file [
      | none ↦ none
      | some f ↦
          let (inode, k₂) = new_block sizeof_inode k₁ in
          elim inode [ none ↦ none | some i ↦ some (f, store_file f i fop k₂) ]
    ]

-- `t->files[fd] = f`
abbrev pub set_fd : ℕ → ℕ → ℕ → Kernel → Kernel
set_fd t fd f k = set_task t (record (k.tasks t) { files = update (k.tasks t).files fd f }) k

infixl 5 ◌>>=◌
abbrev pub ◌>>=◌ {ℓ} : {A B : Type ℓ} → Option A → (A → Option B) → Option B
none >>= f = none
some a >>= f = f a

unfoldable pub task_setup_stdio : ℕ → Kernel → Option Kernel
task_setup_stdio t k = do
  (in_file, k₁) ← new_file Fop.stdin k
  let k₂ = set_fd t 0 in_file k₁
  (out_file, k₃) ← new_file Fop.stdout k₂
  let k₄ = set_fd t 1 out_file k₃
  (err_file, k₅) ← new_file Fop.stdout k₄
  some (set_fd t 2 err_file k₅)

-- a task once kmemset has cleared it, with the fields that both creators set
unfoldable pub fresh_task : ℕ → List ℕ → ℕ → SchedClass → ℕ → Task
fresh_task pid name cr3 sched_class stack_top = record {
  pid = pid;
  ppid = 0;
  name = name;
  state = task_running;
  flags = 0;
  policy = sched_normal;
  prio = 0;
  cr3 = cr3;
  stack_start = 0;
  stack_end = 0;
  sum_exec_runtime = 0;
  vruntime = 0;
  weight = 0;
  sched_class = sched_class;
  kernel_stack_top = stack_top;
  files = λ _. 0;
  pending_signals = 0;
  signal_handlers = λ _. 0;
  shm_pages = λ _. 0;
  shm_count = 0;
}

-- the part of sched_init behind the allocation; the name is "swapper"
unfoldable pub start_swapper : ℕ → ℕ → Kernel → Kernel
unfolding fresh_task
start_swapper t stack_top k =
    let name = b's' ∷ b'w' ∷ b'a' ∷ b'p' ∷ b'p' ∷ b'e' ∷ b'r' ∷ [] in
    let k' = set_task t (fresh_task 0 name k.mmu.cr3 idle stack_top) k in
    record k' { current_task = t; links = list_add (tasks_node t) k'.at.global_tasks k'.links }

-- `stack_top` is the boot stack of the assembly code.
unfoldable pub sched_init : ℕ → Kernel → Option Kernel
sched_init stack_top k =
    let l₁ = init_list_head k.at.cfs_queue k.links in
    let l₂ = init_list_head k.at.rt_queue l₁ in
    let l₃ = init_list_head k.at.global_tasks l₂ in
    let (block, k₁) = new_block sizeof_task (record k { links = l₃; nr_running = 0; clock = 0 }) in
    elim block [ none ↦ none | some t ↦ some (start_swapper t stack_top k₁) ]

-- the offset of the end of `kernel_stack`, where `kernel_stack_top` points
abbrev pub stack_end_offset : ℕ
stack_end_offset = 160 + 16384

-- the branch of kernel_thread on the policy
unfoldable pub set_class : Policy → Task → Task
set_class sched_normal t = record t {
  policy = sched_normal;
  prio = 120;
  weight = 1024;
  sched_class = fair;
}
set_class sched_fifo t = record t { policy = sched_fifo; prio = 50; sched_class = rt }
set_class sched_rr t = record t { policy = sched_rr; prio = 50; sched_class = rt }

-- the end of both functions that create a task: it joins its queue and the global list
unfoldable pub list_task : ℕ → Kernel → Kernel
list_task p k =
    let k' = enqueue_task p k in
    record k' { links = list_add (tasks_node p) k'.at.global_tasks k'.links }

-- The result is the task's number, or -1 if there is no memory for the task.
unfoldable pub kernel_thread : List ℕ → Policy → Kernel → Option (ℤ × Kernel)
kernel_thread name policy k =
    let (block, k₁) = new_block sizeof_task k in
    elim block [
      | none ↦ some (minus_one, k₁)
      | some p ↦
          let pid = k.next_pid in
          let t = set_class policy (fresh_task pid name k.mmu.cr3 fair (p + stack_end_offset)) in
          let k₂ = set_task p t (record k₁ { next_pid = (pid + 1) % 2 ^ 32 }) in
          task_setup_stdio p k₂ >>= λ k₃. some (pos pid, list_task p k₃)
    ]
