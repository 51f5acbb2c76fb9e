-- ===== src/Fs/Vfs/Tests.antt =====
-- Paths in a tree of two entries.
use relis.Prelude.{ℕ, ◌≡◌, refl, ◌≢◌, none, [], ◌∷◌, arith, ◌==◌, if◌then◌else◌, replicate}
use relis.Kernel.State.{Kernel, Task, Fop, sched_normal, idle}
use relis.Fs.Vfs.{
  Walk, Vfs, slash, found, missing, overrun, walk, vfs_open, refused, find_child, enter_child,
  descend, same_name,
}
use relis.Fs.Vfs.Paths.{split}
use relis.Fs.Vfs.Leads.{Leads, Opens, vfs_open-Leads}

abbrev no_task : Task
no_task = record {
  pid = 0;
  ppid = 0;
  name = [];
  state = 0;
  flags = 0;
  policy = sched_normal;
  prio = 0;
  cr3 = 0;
  stack_start = 0;
  stack_end = 0;
  sum_exec_runtime = 0;
  vruntime = 0;
  weight = 0;
  sched_class = idle;
  kernel_stack_top = 0;
  files = λ _. 0;
  pending_signals = 0;
  signal_handlers = λ _. 0;
  shm_pages = λ _. 0;
  shm_count = 0;
}

abbrev boot : Kernel
boot = record {
  at = record { cfs_queue = 16; rt_queue = 32; global_tasks = 48; heap_base = 4096 };
  links = record { next = λ _. 0; prev = λ _. 0 };
  tasks = λ _. no_task;
  files = λ _. record { f_inode = 0; f_pos = 0 };
  inodes = λ _. record { i_private = 0; i_fop = Fop.null };
  pipes = λ _. record { buffer = []; read_pos = 0; write_pos = 0 };
  heap = record { heap_ptr = 0; region = λ _. 0 };
  mmu = record {
    pmm = record {
      bitmap = λ _. 0;
      pages_total = 0;
      pages_free = 0;
      next_free_page = 0;
      mem = λ _. 0;
    };
    cr3 = 8192;
    current_pgd = none;
  };
  current_task = 0;
  nr_running = 0;
  clock = 0;
  next_pid = 1;
  jiffies = 0;
  tss_rsp0 = 0;
  rsp0 = 0;
}

-- the root at 1 with the child "ab" at 2
abbrev tree : Vfs
tree = record {
  dentries = λ d.
      if d == 1
      then record { d_name = slash ∷ []; d_inode = 10; d_children = 2 ∷ [] }
      else record { d_name = 97 ∷ 98 ∷ []; d_inode = 20; d_children = [] };
  root_dentry = 1;
}

-- "ab", "//ab//" and "ab/c"
walk_ab : walk (97 ∷ 98 ∷ []) [] 1 tree.dentries ≡ found 2
unfolding walk enter_child find_child same_name descend
walk_ab = refl

walk_slashes : walk (slash ∷ 97 ∷ 98 ∷ slash ∷ slash ∷ []) [] 1 tree.dentries ≡ found 2
unfolding walk enter_child find_child same_name descend
walk_slashes = refl

walk_none : walk (97 ∷ 98 ∷ slash ∷ 99 ∷ []) [] 1 tree.dentries ≡ missing
unfolding walk enter_child find_child same_name descend
walk_none = refl

-- 64 bytes without a slash
walk_long : walk (replicate 64 97) [] 1 tree.dentries ≡ overrun
unfolding walk enter_child find_child same_name descend
walk_long = refl

vfs_open-Leads_example :
    (vfs_open [] tree boot ≡ refused)
    × ((c : ℕ) → c ≢ slash → vfs_open (c ∷ 97 ∷ 98 ∷ []) tree boot ≡ refused)
    × (tree.root_dentry ≡ 0 → vfs_open (97 ∷ 98 ∷ []) tree boot ≡ refused)
    × (tree.root_dentry ≢ 0
        → (w : Walk) × Leads tree.dentries (split (97 ∷ 98 ∷ [])) 1 w
          × Opens tree boot w (vfs_open (slash ∷ 97 ∷ 98 ∷ []) tree boot))
vfs_open-Leads_example = vfs_open-Leads (97 ∷ 98 ∷ []) tree boot (omega arith)
