-- ===== src/Kernel/Fork/Create.antt =====
-- sys_fork of kernel/fork.c keeps the kernel state valid.
use relis.Prelude.{
  ℕ, ◌+◌, ◌%◌, ◌^◌, ◌≤◌, ◌<◌, bit_or, ◌≡◌, refl, sym, ap, ◌∙◌, subst, ◌≢◌, true, false, Option,
  some, List, [], ◌∷◌, map, arith, update, update_self, update_ne, pos,
}
use relis.ListHead.{Links, init_list_head}
use relis.ListHead.Ring.{has}
use relis.ListHead.Frame.{SameOutside, Apart, Ring-frame}
use relis.Mm.Slab.{kernel_heap_size}
use relis.Mm.Slab.Alloc
use relis.Mm.Paging.{Mmu}
use relis.Kernel.State.{
  Kernel, Task, Layout, SchedClass, idle, se_run_node, rt_run_node, tasks_node, sizeof_task,
  current, task_running,
}
use relis.Kernel.Sched.Queues.{Queues, cfs_nodes, rt_nodes, all_nodes}
use relis.Kernel.Sched.Enqueue.{Unlisted, joined, ne_of_has}
use relis.Kernel.Thread.{new_block, list_task}
use relis.Kernel.Thread.Create.{IsValid, new_block-Grown, list_task-IsValid}
use relis.Kernel.Fork.{child_of, tell_parent, adopt, sys_fork, sigchld}
use relis.Kernel.Sched.{enqueue_task}
use relis.Mm.Paging.Clone.{clone_address_space}

init-SameOutside : (l : Links) (n : ℕ) → SameOutside (n ∷ []) l (init_list_head n l)
unfolding init_list_head
init-SameOutside l n a o = ground (arith, o)

alone : (n : ℕ) (xs : List ℕ) → has n xs ≡ false → Apart xs (n ∷ [])
alone n xs o a h = ground (arith, ne_of_has a n xs o h)

-- A node of no list may be written.
init-Queues :
    (at : Layout) (l : Links) (n : ℕ) (cs rs gs : List ℕ)
    → Unlisted at n cs rs gs
    → Queues at l cs rs gs
    → Queues at (init_list_head n l) cs rs gs
init-Queues at l n cs rs gs u q =
    let m = init_list_head n l in
    let same = init-SameOutside l n in
    record {
      cfs =
          Ring-frame l m (n ∷ []) at.cfs_queue (map se_run_node cs) same
            (alone n (cfs_nodes at cs) u.0) q.cfs;
      rtq =
          Ring-frame l m (n ∷ []) at.rt_queue (map rt_run_node rs) same
            (alone n (rt_nodes at rs) u.1) q.rtq;
      all =
          Ring-frame l m (n ∷ []) at.global_tasks (map tasks_node gs) same
            (alone n (all_nodes at gs) u.2) q.all;
      cfs_rt = q.cfs_rt;
      cfs_all = q.cfs_all;
      rt_all = q.rt_all;
    }

new_block-same :
    (size : ℕ) (k : Kernel)
    → ((new_block size k).1.mmu ≡ k.mmu)
      × ((new_block size k).1.next_pid ≡ k.next_pid)
      × ((new_block size k).1.current_task ≡ k.current_task)
unfolding new_block
new_block-same size k = ground arith

list_task-current : (p : ℕ) (k : Kernel) → (list_task p k).current_task ≡ k.current_task
unfolding list_task enqueue_task
list_task-current p k = ground arith

tell_parent-IsValid :
    (k : Kernel) (cs rs gs : List ℕ) → IsValid k cs rs gs → IsValid (tell_parent k) cs rs gs
unfolding tell_parent
tell_parent-IsValid k cs rs gs v = record { queues = v.queues; heap = v.heap; unused = v.unused }

-- a task with the signal for the end of a child
abbrev pub told : Task → Task
told t = record t { pending_signals = bit_or t.pending_signals (2 ^ sigchld) }

tell_parent-tasks :
    (k : Kernel) (a : ℕ)
    → ((tell_parent k).tasks k.current_task ≡ told (current k))
      × (k.current_task ≢ a → (tell_parent k).tasks a ≡ k.tasks a)
unfolding tell_parent
tell_parent-tasks k a = (
  update_self k.tasks k.current_task (told (current k)),
  λ h. update_ne k.tasks k.current_task a (told (current k)) h,
)

-- the state in front of list_task
abbrev stored : ℕ → ℕ → Mmu → Kernel → Kernel
stored p cr3 m k = record k {
  links = init_list_head (se_run_node p) k.links;
  tasks = update k.tasks p (child_of (current k) p k.next_pid cr3);
  mmu = m;
  next_pid = (k.next_pid + 1) % 2 ^ 32;
}

adopt_lem :
    (p cr3 : ℕ) (m : Mmu) (k : Kernel)
    → adopt p cr3 m k ≡ tell_parent (list_task p (stored p cr3 m k))
unfolding adopt
adopt_lem p cr3 m k = refl

child-class : (t : Task) (p pid cr3 : ℕ) → (child_of t p pid cr3).sched_class ≡ t.sched_class
unfolding child_of
child-class t p pid cr3 = refl

-- The part behind the allocations, for a child at `p` that lies behind all list nodes.
adopt-IsValid :
    (c : SchedClass) (p cr3 : ℕ) (m : Mmu) (k : Kernel) (cs rs gs : List ℕ)
    → (current k).sched_class ≡ c
    → c ≢ idle
    → k.current_task ≢ p
    → Queues k.at k.links cs rs gs
    → Alloc.IsValid k.heap
    → p + sizeof_task ≤ k.at.heap_base + k.heap.heap_ptr
    → ((a : ℕ) → p ≤ a → a < k.at.heap_base + kernel_heap_size → Unlisted k.at a cs rs gs)
    → IsValid (adopt p cr3 m k) (joined c p cs rs).0 (joined c p cs rs).1 (p ∷ gs)
      × ((adopt p cr3 m k).tasks p ≡ child_of (current k) p k.next_pid cr3)
      × ((adopt p cr3 m k).tasks k.current_task ≡ record (current k) {
        pending_signals = bit_or (current k).pending_signals (2 ^ sigchld);
      })
adopt-IsValid c p cr3 m k cs rs gs e ni apart q h past u =
    let k' = stored p cr3 m k in
    let child = child_of (current k) p k.next_pid cr3 in
    let own : k'.tasks p ≡ child = update_self k.tasks p child in
    let node = u (se_run_node p) (omega arith) (omega (arith, past, h.bound)) in
    let (w, kept) =
      list_task-IsValid c k' p cs rs gs
        (ap (λ (t : Task). t.sched_class) own ∙ child-class (current k) p k.next_pid cr3 ∙ e) ni
        (init-Queues k.at k.links (se_run_node p) cs rs gs node q) h past u in
    let l = list_task p k' in
    let cur : l.current_task ≡ k.current_task = list_task-current p k' in
    let t = tell_parent-tasks l p in
    let parent : current l ≡ current k =
      ap (λ (f : ℕ → Task). f l.current_task) kept
      ∙ ap k'.tasks cur
      ∙ update_ne k.tasks p k.current_task child (λ x. apart (sym x)) in
    (
      subst (λ (n : Kernel). IsValid n (joined c p cs rs).0 (joined c p cs rs).1 (p ∷ gs))
          (sym (adopt_lem p cr3 m k))
          (tell_parent-IsValid l (joined c p cs rs).0 (joined c p cs rs).1 (p ∷ gs) w),
      ap (λ (n : Kernel). n.tasks p) (adopt_lem p cr3 m k)
          ∙ t.1 (λ x. apart (sym cur ∙ x))
          ∙ ap (λ (f : ℕ → Task). f p) kept
          ∙ own,
      ap (λ (n : Kernel). n.tasks k.current_task) (adopt_lem p cr3 m k)
          ∙ ap (tell_parent l).tasks (sym cur)
          ∙ t.0
          ∙ ap told parent,
    )

-- What a child at `p` has from its parent, and what it has of its own.
pub record IsChild (parent : Task) (p pid cr3 : ℕ) (child : Task) : Type 0 where
  pub number : child.pid ≡ pid
  pub parents : child.ppid ≡ parent.pid
  pub runnable : child.state ≡ task_running
  pub quiet : child.pending_signals ≡ 0
  pub space : child.cr3 ≡ cr3
  pub stack : (child.kernel_stack_top ≤ p + sizeof_task) × (p < child.kernel_stack_top)
  pub files : child.files ≡ parent.files
  pub handlers : child.signal_handlers ≡ parent.signal_handlers
  pub class : child.sched_class ≡ parent.sched_class
  pub policy : child.policy ≡ parent.policy
  pub shared : (child.shm_count ≡ parent.shm_count) × (child.shm_pages ≡ parent.shm_pages)

child_of-IsChild :
    (parent : Task) (p pid cr3 : ℕ) → IsChild parent p pid cr3 (child_of parent p pid cr3)
unfolding child_of
child_of-IsChild parent p pid cr3 = record {
  number = refl;
  parents = refl;
  runnable = refl;
  quiet = refl;
  space = refl;
  stack = (omega arith, omega arith);
  files = refl;
  handlers = refl;
  class = refl;
  policy = refl;
  shared = (refl, refl);
}

unlisted : (n h : ℕ) (xs : List ℕ) → has n (h ∷ xs) ≡ false → has n xs ≢ true
unlisted n h xs o e = ground (arith, o, e)

-- The task at the address is in the global list.
abbrev pub Listed : ℕ → List ℕ → Type 0
Listed t gs = has (tasks_node t) (map tasks_node gs) ≡ true

-- On a valid kernel whose current task is listed and not of the idle class, with room on the heap for a
-- task, and where clone_address_space gives the copy `cr3`, sys_fork returns the next number. The
-- child lies where the heap was unused; it has the files, the handlers, the class and the shared pages of
-- its parent, its own number, address space and stack, is runnable and has no signal pending; it has joined the queue of the parent's class and
-- stands first in the global list, all three lists are well-formed, and the parent has the
-- signal of a child pending.
pub sys_fork-IsValid :
    (cr3 : ℕ) (m : Mmu) (k : Kernel) (cs rs gs : List ℕ)
    → IsValid k cs rs gs
    → Listed k.current_task gs
    → (current k).sched_class ≢ idle
    → k.heap.heap_ptr + sizeof_task ≤ kernel_heap_size
    → clone_address_space k.mmu ≡ some (cr3, m)
    → let p = k.at.heap_base + k.heap.heap_ptr in
      let (cs', rs') = joined (current k).sched_class p cs rs in
      (k' : Kernel) × (sys_fork k ≡ some (pos k.next_pid, k'))
      × IsValid k' cs' rs' (p ∷ gs)
      × IsChild (current k) p k.next_pid cr3 (k'.tasks p)
      × (k'.tasks k.current_task ≡ told (current k))
unfolding sys_fork
sys_fork-IsValid cr3 m k cs rs gs v listed ni room cl =
    let p = k.at.heap_base + k.heap.heap_ptr in
    let c = (current k).sched_class in
    let (k₁, e₁, g₁, past, kept) = new_block-Grown sizeof_task k v.heap (omega arith) room in
    let same = new_block-same sizeof_task k in
    let mmu : k₁.mmu ≡ k.mmu = ap (λ (r : Option ℕ × Kernel). r.1.mmu) (sym e₁) ∙ same.0 in
    let cur : k₁.current_task ≡ k.current_task =
      ap (λ (r : Option ℕ × Kernel). r.1.current_task) (sym e₁) ∙ same.2 in
    let parent : current k₁ ≡ current k =
      ap (λ (f : ℕ → Task). f k₁.current_task) kept ∙ ap k.tasks cur in
    let copied : clone_address_space k₁.mmu ≡ some (cr3, m) = ap clone_address_space mmu ∙ cl in
    let base = ap (λ (l : Layout). l.heap_base) g₁.at in
    let node = v.unused (tasks_node p) (omega arith) (omega (arith, room)) in
    let apart : k₁.current_task ≢ p = λ x.
      unlisted (tasks_node p) k.at.global_tasks (map tasks_node gs) node.2
        (subst (λ (t : ℕ). has (tasks_node t) (map tasks_node gs) ≡ true) (sym cur ∙ x) listed) in
    let (w, child, informed) =
      adopt-IsValid c p cr3 m k₁ cs rs gs (ap (λ (t : Task). t.sched_class) parent) ni apart
        (rw (g₁.at, g₁.links) v.queues) g₁.heap (omega (arith, base, past))
        (λ a lo hi. rw g₁.at (v.unused a lo (omega (arith, base, hi)))) in
    (
      adopt p cr3 m k₁,
      ground (arith, e₁, copied, g₁.next_pid),
      w,
      subst (IsChild (current k) p k.next_pid cr3)
          (sym (
            child
            ∙ ap (λ (t : Task). child_of t p k₁.next_pid cr3) parent
            ∙ ap (λ (n : ℕ). child_of (current k) p n cr3) g₁.next_pid))
          (child_of-IsChild (current k) p k.next_pid cr3),
      ap (adopt p cr3 m k₁).tasks (sym cur) ∙ informed ∙ ap told parent,
    )
