-- ===== src/Kernel/Ipc/Tests.antt =====
-- sys_pipe in a task without open files.
use relis.Kernel.State.{Kernel, Task, Fop, sched_normal, idle}
use relis.Kernel.Ipc.{sys_pipe}
use relis.Kernel.Ipc.Ends.{TwoFree, Connected, sys_pipe-Connected}
use relis.Prelude.{◌≡◌, refl, none, some, [], arith, pos}

abbrev no_task : Task
no_task = record {
  pid = 0;
  ppid = 0;
  name = [];
  state = 0;
  flags = 0;
  policy = sched_normal;
  prio = 0;
  cr3 = 0;
  stack_start = 0;
  stack_end = 0;
  sum_exec_runtime = 0;
  vruntime = 0;
  weight = 0;
  sched_class = idle;
  kernel_stack_top = 0;
  files = λ _. 0;
  pending_signals = 0;
  signal_handlers = λ _. 0;
  shm_pages = λ _. 0;
  shm_count = 0;
}

abbrev boot : Kernel
boot = record {
  at = record { cfs_queue = 16; rt_queue = 32; global_tasks = 48; heap_base = 4096 };
  links = record { next = λ _. 0; prev = λ _. 0 };
  tasks = λ _. no_task;
  files = λ _. record { f_inode = 0; f_pos = 0 };
  inodes = λ _. record { i_private = 0; i_fop = Fop.null };
  pipes = λ _. record { buffer = []; read_pos = 0; write_pos = 0 };
  heap = record { heap_ptr = 0; region = λ _. 0 };
  mmu = record {
    pmm = record {
      bitmap = λ _. 0;
      pages_total = 0;
      pages_free = 0;
      next_free_page = 0;
      mem = λ _. 0;
    };
    cr3 = 8192;
    current_pgd = none;
  };
  current_task = 0;
  nr_running = 0;
  clock = 0;
  next_pid = 1;
  jiffies = 0;
  tss_rsp0 = 0;
  rsp0 = 0;
}

boot-TwoFree : TwoFree 0 1 no_task.files
boot-TwoFree = record {
  order = omega arith;
  bound = omega arith;
  first = refl;
  second = refl;
  taken = λ m l n. absurd (omega (arith, l, n));
}

sys_pipe-Connected_example :
    (k' : Kernel) × (sys_pipe boot ≡ some (pos 0, some (0, 1), k')) × Connected 0 1 boot k'
sys_pipe-Connected_example = sys_pipe-Connected 0 1 boot boot-TwoFree (omega arith)
