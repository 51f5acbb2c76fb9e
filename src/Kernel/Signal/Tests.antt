-- ===== src/Kernel/Signal/Tests.antt =====
-- Runs of kernel/signal.c, and its theorem at concrete signals.
use relis.Prelude.{◌+◌, ◌^◌, ◌≡◌, refl, false, none, some, [], arith, ◌==◌, if◌then◌else◌, pos}
use relis.Kernel.State.{Kernel, Task, Fop, sched_normal, idle, current, task_zombie}
use relis.Kernel.Sched.{schedule, pick_next, pick_next_task_fair, pick_next_task_rt}
use relis.ListHead.{list_empty}
use relis.Kernel.Signal.{Away, end_task, deliver_one, deliver_from, is_signal}
use relis.Kernel.Signal.Stops.{Stops}
use relis.Kernel.Signal.Deliver.{Undisturbed, deliver_from-Stops}

-- Signals 2 and 3 are pending and have no handler, 5 has one, and 9 is pending too.
abbrev waiting : Task
waiting = record {
  pid = 0;
  ppid = 0;
  name = [];
  state = 0;
  flags = 0;
  policy = sched_normal;
  prio = 0;
  cr3 = 0;
  stack_start = 0;
  stack_end = 0;
  sum_exec_runtime = 0;
  vruntime = 0;
  weight = 0;
  sched_class = idle;
  kernel_stack_top = 0;
  files = λ _. 0;
  pending_signals = 2 ^ 2 + 2 ^ 3 + 2 ^ 5 + 2 ^ 9;
  signal_handlers = λ sig. if sig == 5 then 0x400000 else 0;
  shm_pages = λ _. 0;
  shm_count = 0;
}

-- the one task of a kernel with empty queues
abbrev alone : Kernel
alone = record {
  at = record { cfs_queue = 16; rt_queue = 32; global_tasks = 48; heap_base = 4096 };
  links = record { next = λ n. n; prev = λ n. n };
  tasks = λ _. waiting;
  files = λ _. record { f_inode = 0; f_pos = 0 };
  inodes = λ _. record { i_private = 0; i_fop = Fop.null };
  pipes = λ _. record { buffer = []; read_pos = 0; write_pos = 0 };
  heap = record { heap_ptr = 0; region = λ _. 0 };
  mmu = record {
    pmm = record {
      bitmap = λ _. 0;
      pages_total = 0;
      pages_free = 0;
      next_free_page = 0;
      mem = λ _. 0;
    };
    cr3 = 8192;
    current_pgd = none;
  };
  current_task = 0;
  nr_running = 0;
  clock = 0;
  next_pid = 1;
  jiffies = 0;
  tss_rsp0 = 0;
  rsp0 = 0;
}

-- The task runs again, and nothing else has changed.
abbrev back : Away
back t k = record k { current_task = t }

back-Undisturbed : Undisturbed back
back-Undisturbed t k = (refl, refl, refl, refl)

handled : (deliver_from back 31 1 alone).0 ≡ some 0x400000
unfolding deliver_from deliver_one end_task schedule pick_next pick_next_task_fair pick_next_task_rt
    list_empty
handled = refl

left : (current (deliver_from back 31 1 alone).1).pending_signals ≡ 2 ^ 9
unfolding deliver_from deliver_one end_task schedule pick_next pick_next_task_fair pick_next_task_rt
    list_empty
left = refl

dead : (current (deliver_from back 31 1 alone).1).state ≡ task_zombie
unfolding deliver_from deliver_one end_task schedule pick_next pick_next_task_fair pick_next_task_rt
    list_empty
dead = refl

refused : is_signal (pos 32) ≡ false
unfolding is_signal
refused = refl

deliver_from-Stops_example :
    Stops 31 1 waiting.pending_signals waiting.signal_handlers waiting.state
      (deliver_from back 31 1 alone).0
      (current (deliver_from back 31 1 alone).1).pending_signals
      (current (deliver_from back 31 1 alone).1).state
deliver_from-Stops_example = deliver_from-Stops back 31 1 alone back-Undisturbed (omega arith)
