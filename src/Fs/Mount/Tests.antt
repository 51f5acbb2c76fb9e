-- ===== src/Fs/Mount/Tests.antt =====
-- The kernel's mounts on a new disk, and the three paths that it opens then.
use relis.Prelude.{
  ℕ, ◌≡◌, refl, sym, subst, inl, inr, true, ◌||◌, none, some, [], ◌∷◌, arith, ◌==◌, if◌then◌else◌,
  replicate, length-replicate,
}
use relis.Drivers.Ata.{drq_answer, wait_bsy, block_size, read_sectors, write_sectors}
use relis.Kernel.State.{Kernel, Task, Fop, sched_normal, idle}
use relis.Fs.Vfs.{Vfs, slash}
use relis.Fs.Relisfs.{Relisfs, relisfs_mount, read32}
use relis.Drivers.Ata.Blocks.{Reply, answer}
use relis.Fs.Relisfs.Blocks.{Prompt}
use relis.Fs.Relisfs.Format.{relisfs_mount-formats}
use relis.Fs.Mount.{mount_all}
use relis.Fs.Mount.Paths.{Opens, path_proc, path_cpuinfo, mount_all-Opens}

abbrev no_task : Task
no_task = record {
  pid = 0;
  ppid = 0;
  name = [];
  state = 0;
  flags = 0;
  policy = sched_normal;
  prio = 0;
  cr3 = 0;
  stack_start = 0;
  stack_end = 0;
  sum_exec_runtime = 0;
  vruntime = 0;
  weight = 0;
  sched_class = idle;
  kernel_stack_top = 0;
  files = λ _. 0;
  pending_signals = 0;
  signal_handlers = λ _. 0;
  shm_pages = λ _. 0;
  shm_count = 0;
}

abbrev boot : Kernel
boot = record {
  at = record { cfs_queue = 16; rt_queue = 32; global_tasks = 48; heap_base = 4096 };
  links = record { next = λ _. 0; prev = λ _. 0 };
  tasks = λ _. no_task;
  files = λ _. record { f_inode = 0; f_pos = 0 };
  inodes = λ _. record { i_private = 0; i_fop = Fop.null };
  pipes = λ _. record { buffer = []; read_pos = 0; write_pos = 0 };
  heap = record { heap_ptr = 0; region = λ _. 0 };
  mmu = record {
    pmm = record {
      bitmap = λ _. 0;
      pages_total = 0;
      pages_free = 0;
      next_free_page = 0;
      mem = λ _. 0;
    };
    cr3 = 8192;
    current_pgd = none;
  };
  current_task = 0;
  nr_running = 0;
  clock = 0;
  next_pid = 1;
  jiffies = 0;
  tss_rsp0 = 0;
  rsp0 = 0;
}

-- no entries
abbrev bare : Vfs
bare = record {
  dentries = λ _. record { d_name = []; d_inode = 0; d_children = [] };
  root_dentry = 0;
}

-- The drive is busy at the first read behind a command, and has data from the second on; behind a flush
-- it has none.
abbrev ready_at_1 : ℕ → ℕ
ready_at_1 n = if n == 0 then 0xd0 else 0x58

abbrev status : ℕ → ℕ → ℕ → ℕ
status c i n = if (c == read_sectors) || (c == write_sectors) then ready_at_1 n else 0x50

in_time : Reply ready_at_1 true
unfolding drq_answer wait_bsy
in_time = answer 0 (omega arith) (λ i h. absurd (omega arith)) refl

status-Prompt : Prompt status
status-Prompt c i (inl e) = subst (λ (n : ℕ). Reply (status n i) true) (sym e) in_time
status-Prompt c i (inr e) = subst (λ (n : ℕ). Reply (status n i) true) (sym e) in_time

-- that drive with zeros on it
abbrev zeros : Relisfs
zeros = record {
  drive = record {
    status = status;
    issued = 0;
    polls = 0;
    drv = 0;
    count = 0;
    lba_lo = 0;
    lba_mid = 0;
    lba_hi = 0;
    command = 0;
    left = 0;
    done = 0;
    port = [];
    aborted = 0;
    blocks = λ _. replicate block_size 0;
  };
  block_buf = [];
  inode = record { used = 0; size = 0; direct_block = 0; name = [] };
}

formatted : (m : Relisfs) × (relisfs_mount zeros ≡ some m)
unfolding read32
formatted =
    let r =
      relisfs_mount-formats zeros status-Prompt (λ j. length-replicate {A = ℕ} block_size 0)
        (λ e. absurd (ground (arith, e))) in
    (r.0, r.1)

mount_all-Opens_example :
    (vfs' : Vfs) × (k' : Kernel) × (root : ℕ) × (cpuinfo : ℕ) × (mount_all zeros bare boot
      ≡ some (vfs', k', formatted.0))
    × ((k'.inodes root).i_fop ≡ Fop.relisfs)
    × ((k'.inodes cpuinfo).i_fop ≡ Fop.cpuinfo)
    × Opens (slash ∷ []) root vfs' k'
    × Opens path_cpuinfo cpuinfo vfs' k'
    × Opens path_proc 0 vfs' k'
mount_all-Opens_example =
    mount_all-Opens zeros formatted.0 bare boot formatted.1 (omega arith) (omega arith)
