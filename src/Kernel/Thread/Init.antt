-- ===== src/Kernel/Thread/Init.antt =====
-- What sched_init of kernel/sched/core.c leaves: two empty run queues and the idle task.
use relis.Prelude.{ℕ, ◌+◌, ◌≤◌, ◌<◌, ◌≡◌, ap, ◌≢◌, some, [], ◌∷◌, arith}
use relis.ListHead.{Links, init_list_head}
use relis.ListHead.Insert.{init_list_head-Ring}
use relis.ListHead.Frame.{SameOutside, Ring-frame}
use relis.Mm.Slab.{kernel_heap_size}
use relis.Mm.Slab.Alloc
use relis.Kernel.State.{Kernel, Layout, idle, sizeof_task, tasks_node, task_running}
use relis.Kernel.Sched.Queues.{Queues}
use relis.Kernel.Sched.Enqueue.{Unlisted, add_global-Queues}
use relis.Kernel.Thread.{start_swapper, sched_init}
use relis.Kernel.Thread.Create.{IsValid, new_block-Grown, has_behind}

-- The linker puts the three list heads at different places outside the heap.
pub record Separate (at : Layout) : Type 0 where
  pub cfs_rt : at.cfs_queue ≢ at.rt_queue
  pub cfs_all : at.cfs_queue ≢ at.global_tasks
  pub rt_all : at.rt_queue ≢ at.global_tasks
  pub outside :
      (a : ℕ) → at.heap_base ≤ a → a < at.heap_base + kernel_heap_size → Unlisted at a [] [] []

init-SameOutside : (h : ℕ) (l : Links) → SameOutside (h ∷ []) l (init_list_head h l)
unfolding init_list_head
init-SameOutside h l a o = ground arith

heads-Queues :
    (at : Layout) (l : Links)
    → Separate at
    → Queues at
        (init_list_head at.global_tasks
          (init_list_head at.rt_queue (init_list_head at.cfs_queue l)))
        []
        []
        []
heads-Queues at l s =
    let l₁ = init_list_head at.cfs_queue l in
    let l₂ = init_list_head at.rt_queue l₁ in
    let l₃ = init_list_head at.global_tasks l₂ in
    record {
      cfs =
          Ring-frame l₂ l₃ (at.global_tasks ∷ []) at.cfs_queue []
            (init-SameOutside at.global_tasks l₂) (λ a h. ground (arith, s.cfs_all))
            (Ring-frame l₁ l₂ (at.rt_queue ∷ []) at.cfs_queue [] (init-SameOutside at.rt_queue l₁)
              (λ a h. ground (arith, s.cfs_rt)) (init_list_head-Ring l at.cfs_queue));
      rtq =
          Ring-frame l₂ l₃ (at.global_tasks ∷ []) at.rt_queue []
            (init-SameOutside at.global_tasks l₂) (λ a h. ground (arith, s.rt_all))
            (init_list_head-Ring l₁ at.rt_queue);
      all = init_list_head-Ring l₂ at.global_tasks;
      cfs_rt = λ a h. ground (arith, s.cfs_rt);
      cfs_all = λ a h. ground (arith, s.cfs_all);
      rt_all = λ a h. ground (arith, s.rt_all);
    }

-- With the list heads apart and room for a task, sched_init succeeds. It leaves empty run queues
-- and the running task alone in the global list: number 0, runnable, of the idle class.
pub sched_init-IsValid :
    (stack_top : ℕ) (k : Kernel)
    → Separate k.at
    → Alloc.IsValid k.heap
    → k.heap.heap_ptr + sizeof_task ≤ kernel_heap_size
    → (m : Kernel) × (sched_init stack_top k ≡ some m)
      × IsValid m [] [] (m.current_task ∷ [])
      × ((m.tasks m.current_task).pid ≡ 0)
      × ((m.tasks m.current_task).state ≡ task_running)
      × ((m.tasks m.current_task).sched_class ≡ idle)
unfolding sched_init start_swapper
sched_init-IsValid stack_top k s v room =
    let l =
      init_list_head k.at.global_tasks
        (init_list_head k.at.rt_queue (init_list_head k.at.cfs_queue k.links)) in
    let k' = record k { links = l; nr_running = 0; clock = 0 } in
    let (k₁, e, g, past, _) = new_block-Grown sizeof_task k' v (omega arith) room in
    let t = k.at.heap_base + k.heap.heap_ptr in
    let base = ap (λ (x : Layout). x.heap_base) g.at in
    let free = λ (a : ℕ) (lo : t ≤ a) (hi : a < k.at.heap_base + kernel_heap_size).
      s.outside a (omega arith) hi in
    let node = free (tasks_node t) (omega arith) (omega arith) in
    (
      start_swapper t stack_top k₁,
      ground (arith, e),
      record {
        queues =
            rw (g.at, g.links)
              (add_global-Queues k.at l t [] [] [] (heads-Queues k.at k.links s) node);
        heap = g.heap;
        unused = λ a lo hi.
            let w = free a (omega (arith, base, past, lo)) (omega (arith, base, hi)) in
            rw g.at (
              w.0,
              w.1,
              has_behind a (tasks_node t) k.at.global_tasks [] (ground (arith, base, past, lo)) w.2,
            );
      },
      ground arith,
      ground arith,
      ground arith,
    )
