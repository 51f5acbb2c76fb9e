-- ===== src/Kernel/State.antt =====
-- The state that the parts of kernel/ share: include/relis/sched.h, include/relis/fs.h,
-- kernel/sched/sched.h and the globals of kernel/sched/core.c.
use relis.Prelude.{ℕ, ◌+◌, List, update}
use relis.ListHead.{Links}
use relis.Mm.Slab.{Slab}
use relis.Mm.Paging.{Mmu}

abbrev pub task_running : ℕ
task_running = 0

abbrev pub task_interruptible : ℕ
task_interruptible = 1

abbrev pub task_zombie : ℕ
task_zombie = 2

abbrev pub tif_need_resched : ℕ
tif_need_resched = 1

-- what `sched_class` points to
pub data SchedClass : Type 0 where
  fair rt idle : SchedClass

pub data Policy : Type 0 where
  sched_normal sched_fifo sched_rr : Policy

-- `struct task_struct` without its list nodes, which are in `Links`, its saved stack, the function
-- that a thread starts with, and `exec_start` and `rt.prio`, which nothing reads. Null pointers in `files` are 0.
pub record Task : Type 0 where
  pub pid : ℕ
  pub ppid : ℕ
  pub name : List ℕ
  pub state : ℕ
  pub flags : ℕ
  pub policy : Policy
  pub prio : ℕ
  pub cr3 : ℕ
  pub stack_start : ℕ
  pub stack_end : ℕ
  pub sum_exec_runtime : ℕ
  pub vruntime : ℕ
  pub weight : ℕ
  pub sched_class : SchedClass
  pub kernel_stack_top : ℕ
  pub files : ℕ → ℕ
  pub pending_signals : ℕ
  pub signal_handlers : ℕ → ℕ
  pub shm_pages : ℕ → ℕ
  pub shm_count : ℕ

-- The offsets of the three list nodes in `struct task_struct`, as x86-64 lays it out, and its
-- size. `se` and `rt` share their bytes, and a task is in the queue of its own class alone.
abbrev pub se_run_node : ℕ → ℕ
se_run_node t = t + 120

abbrev pub rt_run_node : ℕ → ℕ
rt_run_node t = t + 96

abbrev pub tasks_node : ℕ → ℕ
tasks_node t = t + 144

abbrev pub sizeof_task : ℕ
sizeof_task = 17128

abbrev pub max_fds : ℕ
max_fds = 32

-- the tables of operations that `i_fop` points to
pub data Fop : Type 0 where
  null stdin stdout pipe_read_end pipe_write_end relisfs cpuinfo : Fop

pub record Inode : Type 0 where
  pub i_private : ℕ
  pub i_fop : Fop

pub record File : Type 0 where
  pub f_inode : ℕ
  pub f_pos : ℕ

-- `relis_pipe_t` of kernel/ipc.c
pub record Pipe : Type 0 where
  pub buffer : List ℕ
  pub read_pos : ℕ
  pub write_pos : ℕ

-- where the linker puts the list heads of the scheduler and the heap
pub record Layout : Type 0 where
  pub cfs_queue : ℕ
  pub rt_queue : ℕ
  pub global_tasks : ℕ
  pub heap_base : ℕ

-- The objects on the heap, by address, and the global variables.
pub record Kernel : Type 0 where
  pub at : Layout
  pub links : Links
  pub tasks : ℕ → Task
  pub files : ℕ → File
  pub inodes : ℕ → Inode
  pub pipes : ℕ → Pipe
  pub heap : Slab
  pub mmu : Mmu
  pub current_task : ℕ
  pub nr_running : ℕ
  pub clock : ℕ
  pub next_pid : ℕ
  pub jiffies : ℕ
  pub tss_rsp0 : ℕ
  pub rsp0 : ℕ

abbrev pub set_task : ℕ → Task → Kernel → Kernel
set_task t v k = record k { tasks = update k.tasks t v }

abbrev pub current : Kernel → Task
current k = k.tasks k.current_task
