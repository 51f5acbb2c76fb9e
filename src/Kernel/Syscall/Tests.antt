-- ===== src/Kernel/Syscall/Tests.antt =====
-- Runs of the table of open files, and its theorem at a concrete kernel.
use relis.Prelude.{ℕ, ◌≡◌, refl, Option, none, some, [], ltb, if◌then◌else◌, update, pos, minus_one}
use relis.Kernel.State.{Kernel, Task, Fop, sched_normal, idle, max_fds}
use relis.Kernel.Syscall.{first_free, alloc_fd, place_ends, sys_close, is_open}
use relis.Kernel.Syscall.Files.{Searched, Given, alloc_fd-lowest}

-- the descriptors below 31 are in use
abbrev one_left : ℕ → ℕ
one_left fd = if ltb fd 31 then 500 else 0

last_one : first_free max_fds 0 one_left ≡ some 31
unfolding first_free
last_one = refl

-- The pipe is refused, and the reading end stays in the table.
leaks : place_ends 600 700 one_left ≡ (update one_left 31 600, none)
unfolding place_ends first_free
leaks = refl

abbrev no_task : Task
no_task = record {
  pid = 0;
  ppid = 0;
  name = [];
  state = 0;
  flags = 0;
  policy = sched_normal;
  prio = 0;
  cr3 = 0;
  stack_start = 0;
  stack_end = 0;
  sum_exec_runtime = 0;
  vruntime = 0;
  weight = 0;
  sched_class = idle;
  kernel_stack_top = 0;
  files = one_left;
  pending_signals = 0;
  signal_handlers = λ _. 0;
  shm_pages = λ _. 0;
  shm_count = 0;
}

abbrev boot : Kernel
boot = record {
  at = record { cfs_queue = 16; rt_queue = 32; global_tasks = 48; heap_base = 4096 };
  links = record { next = λ _. 0; prev = λ _. 0 };
  tasks = λ _. no_task;
  files = λ _. record { f_inode = 0; f_pos = 0 };
  inodes = λ _. record { i_private = 0; i_fop = Fop.null };
  pipes = λ _. record { buffer = []; read_pos = 0; write_pos = 0 };
  heap = record { heap_ptr = 0; region = λ _. 0 };
  mmu = record {
    pmm = record {
      bitmap = λ _. 0;
      pages_total = 0;
      pages_free = 0;
      next_free_page = 0;
      mem = λ _. 0;
    };
    cr3 = 8192;
    current_pgd = none;
  };
  current_task = 0;
  nr_running = 0;
  clock = 0;
  next_pid = 1;
  jiffies = 0;
  tss_rsp0 = 0;
  rsp0 = 0;
}

full : sys_close (pos 31) boot ≡ (minus_one, boot)
unfolding sys_close is_open
full = refl

alloc_fd-lowest_example :
    (fd : Option ℕ) × (Searched max_fds 0 one_left fd × Given 0 500 boot fd (alloc_fd 0 500 boot))
alloc_fd-lowest_example = alloc_fd-lowest 0 500 boot
