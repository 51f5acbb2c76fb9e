-- ===== src/Kernel/Thread/Tests.antt =====
-- The scheduler started on an empty heap, two kernel threads and their turns, and the theorems
-- there.
use relis.Prelude.{
  ℕ, ◌+◌, ◌%◌, ◌^◌, ◌≡◌, refl, ap, subst, ◌≢◌, ◌⊎◌, Option, none, some, List, [], ◌∷◌, arith,
  update, ℤ, pos,
}
use relis.ListHead.{Links, init_list_head}
use relis.Mm.Slab.{kmalloc, align16}
use relis.Kernel.State.{
  current, Kernel, Task, Layout, SchedClass, Fop, sched_normal, sched_fifo, fair, idle,
  task_running, task_interruptible, sizeof_task,
}
use relis.Kernel.Sched.{schedule, enqueue_task, wake_up_process, timer_callback}
use relis.Kernel.Sched.Queues.{Queues}
use relis.Kernel.Sched.Enqueue.{joined, run_node, Unlisted, wake_up_process-Queues}
use relis.Kernel.Sched.Pick.{
  Chosen, Switched, schedule_all, schedule-Chosen, schedule_all-round, schedule_all-real_time,
}
use relis.Kernel.Sched.Tick.{Ticked, timer_callback-Ticked}
use relis.Kernel.Thread.{
  sched_init, start_swapper, kernel_thread, list_task, new_block, new_file, store_file,
  task_setup_stdio, set_class, fresh_task,
}
use relis.Kernel.Thread.Init.{Separate, sched_init-IsValid}
use relis.Kernel.Thread.Create.{IsValid, class_of, kernel_thread-IsValid}

abbrev no_task : Task
no_task = record {
  pid = 0;
  ppid = 0;
  name = [];
  state = 0;
  flags = 0;
  policy = sched_normal;
  prio = 0;
  cr3 = 0;
  stack_start = 0;
  stack_end = 0;
  sum_exec_runtime = 0;
  vruntime = 0;
  weight = 0;
  sched_class = idle;
  kernel_stack_top = 0;
  files = λ _. 0;
  pending_signals = 0;
  signal_handlers = λ _. 0;
  shm_pages = λ _. 0;
  shm_count = 0;
}

abbrev boot : Kernel
boot = record {
  at = record { cfs_queue = 16; rt_queue = 32; global_tasks = 48; heap_base = 4096 };
  links = record { next = λ _. 0; prev = λ _. 0 };
  tasks = λ _. no_task;
  files = λ _. record { f_inode = 0; f_pos = 0 };
  inodes = λ _. record { i_private = 0; i_fop = Fop.null };
  pipes = λ _. record { buffer = []; read_pos = 0; write_pos = 0 };
  heap = record { heap_ptr = 0; region = λ _. 0 };
  mmu = record {
    pmm = record {
      bitmap = λ _. 0;
      pages_total = 0;
      pages_free = 0;
      next_free_page = 0;
      mem = λ _. 0;
    };
    cr3 = 8192;
    current_pgd = none;
  };
  current_task = 0;
  nr_running = 0;
  clock = 0;
  next_pid = 1;
  jiffies = 0;
  tss_rsp0 = 0;
  rsp0 = 0;
}

boot-Separate : Separate boot.at
boot-Separate = record {
  cfs_rt = omega arith;
  cfs_all = omega arith;
  rt_all = omega arith;
  outside = λ a lo hi. ground arith;
}

-- the kernel that a step leaves, where it leaves one
abbrev result : Option Kernel → Kernel
result none = boot
result (some k) = k

abbrev result_of : Option (ℤ × Kernel) → Kernel
result_of none = boot
result_of (some (r, k)) = k

-- the swapper, at 4096
started : Kernel
started =
    start_swapper 4096 1000
      (new_block sizeof_task (record boot {
        links = init_list_head 48 (init_list_head 32 (init_list_head 16 boot.links));
      })).1

started_lem : sched_init 1000 boot ≡ some started
unfolding started sched_init new_block kmalloc align16
started_lem = refl

sched_init-IsValid_example :
    (m : Kernel) × (sched_init 1000 boot ≡ some m)
    × IsValid m [] [] (m.current_task ∷ [])
    × ((m.tasks m.current_task).pid ≡ 0)
    × ((m.tasks m.current_task).state ≡ task_running)
    × ((m.tasks m.current_task).sched_class ≡ idle)
sched_init-IsValid_example = sched_init-IsValid 1000 boot boot-Separate (omega arith) (omega arith)

started-IsValid : IsValid started [] [] (4096 ∷ [])
unfolding started start_swapper
started-IsValid =
    let (m, e, v, _, _, _) =
      sched_init-IsValid 1000 boot boot-Separate (omega arith) (omega arith) in
    let eq : m ≡ started = cc (e, started_lem) in
    subst (λ (k : Kernel). IsValid k [] [] (k.current_task ∷ [])) eq v

-- "init", at the next free address, and then "kworker"
abbrev init_name : List ℕ
init_name = b'i' ∷ b'n' ∷ b'i' ∷ b't' ∷ []

pub one : Kernel
one = result_of (kernel_thread init_name sched_normal started)

heap-started : started.heap.heap_ptr ≡ 17136
unfolding started start_swapper new_block kmalloc align16
heap-started = refl

kernel_thread-IsValid_example :
    let p = started.at.heap_base + started.heap.heap_ptr in
    let (cs', rs') = joined (class_of sched_normal) p [] [] in
    (m : Kernel) × (kernel_thread init_name sched_normal started ≡ some (pos started.next_pid, m))
    × IsValid m cs' rs' (p ∷ 4096 ∷ [])
    × ((m.tasks p).state ≡ task_running)
    × ((m.tasks p).pid ≡ started.next_pid)
    × ((m.tasks p).sched_class ≡ class_of sched_normal)
kernel_thread-IsValid_example =
    kernel_thread-IsValid init_name sched_normal started [] [] (4096 ∷ []) started-IsValid
      (omega (arith, heap-started))

-- where the task lies
abbrev pub init_task : ℕ
init_task = 21232

pub one-IsValid : IsValid one (init_task ∷ []) [] (init_task ∷ 4096 ∷ [])
unfolding one started start_swapper new_block kmalloc align16
one-IsValid =
    let (m, e, v, _, _, _) =
      kernel_thread-IsValid init_name sched_normal started [] [] (4096 ∷ []) started-IsValid
        (omega arith) in
    let eq : m ≡ one = ground (arith, e) in
    subst (λ (k : Kernel). IsValid k (init_task ∷ []) [] (init_task ∷ 4096 ∷ [])) eq v

two : Kernel
two = result_of (kernel_thread init_name sched_normal one)

pub heap-one : one.heap.heap_ptr ≡ 34464
unfolding one started start_swapper kernel_thread task_setup_stdio new_file store_file new_block
    list_task enqueue_task kmalloc align16 set_class fresh_task
heap-one = refl

pub class-one : (one.tasks init_task).sched_class ≡ fair
unfolding one started start_swapper kernel_thread task_setup_stdio new_file store_file new_block
    list_task enqueue_task kmalloc align16 set_class fresh_task
class-one = refl

-- at 4096 + 34464
abbrev worker_task : ℕ
worker_task = 38560

one-next_pid : (one.next_pid ≡ 2) × (one.at ≡ boot.at)
unfolding one started start_swapper kernel_thread task_setup_stdio new_file store_file new_block
    list_task enqueue_task kmalloc align16 set_class fresh_task
one-next_pid = (refl, refl)

two-IsValid : IsValid two (init_task ∷ worker_task ∷ []) [] (worker_task ∷ init_task ∷ 4096 ∷ [])
unfolding two
two-IsValid =
    let (m, e, v, _, _, _) =
      kernel_thread-IsValid init_name sched_normal one (init_task ∷ []) [] (init_task ∷ 4096 ∷ [])
        one-IsValid (omega (arith, heap-one)) in
    let place : one.at.heap_base + one.heap.heap_ptr ≡ worker_task =
      omega (arith, heap-one, ap (λ (l : Layout). l.heap_base) one-next_pid.1) in
    let eq : m ≡ two = ground (arith, e) in
    subst (λ (p : ℕ). IsValid two (init_task ∷ p ∷ []) [] (p ∷ init_task ∷ 4096 ∷ [])) place
      (subst
        (λ (k : Kernel).
          IsValid k (init_task ∷ (one.at.heap_base + one.heap.heap_ptr) ∷ []) []
            ((one.at.heap_base + one.heap.heap_ptr) ∷ init_task ∷ 4096 ∷ []))
        eq v)

schedule-Chosen_example :
    (x : ℕ) × (l : Links) × (cs' : List ℕ) × Chosen two (init_task ∷ worker_task ∷ []) [] x l cs'
    × Switched two x l (schedule two)
    × Queues two.at l cs' [] (worker_task ∷ init_task ∷ 4096 ∷ [])
schedule-Chosen_example =
    schedule-Chosen two (init_task ∷ worker_task ∷ []) [] (worker_task ∷ init_task ∷ 4096 ∷ [])
      two-IsValid.queues

schedule_all-round_example :
    ((schedule_all 2 two).0 ≡ init_task ∷ worker_task ∷ [])
    × (let m = (schedule_all 2 two).1 in
        Queues m.at m.links (init_task ∷ worker_task ∷ []) [] (worker_task ∷ init_task ∷ 4096 ∷ [])
        × ((t : ℕ) → (m.tasks t).state ≡ (two.tasks t).state))
schedule_all-round_example =
    schedule_all-round two (init_task ∷ worker_task ∷ []) (worker_task ∷ init_task ∷ 4096 ∷ [])
      two-IsValid.queues

-- a real-time thread with FIFO in place of "init"
urgent : Kernel
urgent = result_of (kernel_thread init_name sched_fifo started)

urgent-IsValid : IsValid urgent [] (init_task ∷ []) (init_task ∷ 4096 ∷ [])
unfolding urgent started start_swapper new_block kmalloc align16
urgent-IsValid =
    let (m, e, v, _, _, _) =
      kernel_thread-IsValid init_name sched_fifo started [] [] (4096 ∷ []) started-IsValid
        (omega arith) in
    let eq : m ≡ urgent = ground (arith, e) in
    subst (λ (k : Kernel). IsValid k [] (init_task ∷ []) (init_task ∷ 4096 ∷ [])) eq v

schedule_all-real_time_example : (schedule_all 3 urgent).0 ≡ init_task ∷ init_task ∷ init_task ∷ []
schedule_all-real_time_example =
    schedule_all-real_time 3 urgent init_task [] [] (init_task ∷ 4096 ∷ []) urgent-IsValid.queues

-- "init" runs: a fair task of weight 1024
abbrev busy : Kernel
busy = record one { current_task = init_task }

weight-one : ((one.tasks init_task).weight ≡ 1024) × ((one.tasks init_task).policy ≡ sched_normal)
unfolding one started start_swapper kernel_thread task_setup_stdio new_file store_file new_block
    list_task enqueue_task kmalloc align16 set_class fresh_task
weight-one = (refl, refl)

timer_callback-Ticked_example :
    (◌≡◌ {A = SchedClass} fair fair → (current busy).weight ≡ 0 → timer_callback busy ≡ none)
    × ((◌≡◌ {A = SchedClass} fair fair → (current busy).weight ≢ 0)
        → (m : Kernel) × (timer_callback busy ≡ some m)
          × (m.jiffies ≡ (busy.jiffies + 1) % 2 ^ 64)
          × (m.clock ≡ (busy.clock + 1) % 2 ^ 64)
          × Ticked fair sched_normal init_task busy m)
timer_callback-Ticked_example = timer_callback-Ticked fair sched_normal busy class-one weight-one.1

weight-busy : (current busy).weight ≢ 0
weight-busy e = absurd (omega (arith, e, weight-one.0))

started-base : started.at.heap_base ≡ 4096
unfolding started start_swapper new_block kmalloc
started-base = refl

-- a task at 90000 that sleeps
asleep : Kernel
asleep = record started {
  tasks =
      update started.tasks 90000
        (record no_task { state = task_interruptible; sched_class = fair });
}

wake_up_process-Queues_example :
    (◌≢◌ {A = ℕ} 90000 0
      → (asleep.tasks 90000).state ≡ task_interruptible
      → Unlisted asleep.at (run_node fair 90000) [] [] (4096 ∷ [])
      → Queues asleep.at (wake_up_process 90000 asleep).links (90000 ∷ []) [] (4096 ∷ [])
        × (((wake_up_process 90000 asleep).tasks 90000).state ≡ task_running))
    × ((◌≡◌ {A = ℕ} 90000 0) ⊎ ((asleep.tasks 90000).state ≢ task_interruptible)
        → wake_up_process 90000 asleep ≡ asleep)
unfolding asleep
wake_up_process-Queues_example =
    wake_up_process-Queues fair asleep 90000 [] [] (4096 ∷ []) refl started-IsValid.queues
