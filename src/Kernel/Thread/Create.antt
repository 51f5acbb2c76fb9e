-- ===== src/Kernel/Thread/Create.antt =====
-- What kernel_thread leaves in the run queues and the global list.
use relis.Prelude.{
  ℕ, ◌+◌, ◌%◌, ◌^◌, ◌≤◌, ◌<◌, ◌≡◌, refl, ap, ◌∙◌, ◌≢◌, false, some, List, [], ◌∷◌, ◌++◌, arith,
  ◌==◌, pos,
}
use relis.ListHead.Ring.{has, has-append}
use relis.Mm.Slab.{Slab, Slab, kmalloc, kernel_heap_size}
use relis.Mm.Slab.Alloc
use relis.Mm.Slab.Alloc.{kmalloc-fits, Sane}
use relis.Kernel.State.{
  Kernel, Task, Fop, Policy, sched_normal, sched_fifo, sched_rr, SchedClass, fair, rt, idle,
  tasks_node, se_run_node, sizeof_task, task_running, set_task,
}
use relis.Kernel.State.{Layout}
use relis.Kernel.Sched.{enqueue_task}
use relis.Kernel.Sched.Queues.{Queues, map-snoc}
use relis.Kernel.Sched.Enqueue.{
  Unlisted, joined, run_node, enqueue_task-Queues, add_global-Queues, tasks-enqueue_task,
}
use relis.Kernel.Thread.{
  list_task, store_file, new_block, new_file, task_setup_stdio, kernel_thread, set_class,
  fresh_task, set_fd, sizeof_file, sizeof_inode, stack_end_offset,
}

-- What a few allocations and stores of files leave: `n` bytes at most are gone from a valid heap.
pub record Grown (n : ℕ) (k m : Kernel) : Type 0 where
  pub at : m.at ≡ k.at
  pub links : m.links ≡ k.links
  pub classes : (t : ℕ) → (m.tasks t).sched_class ≡ (k.tasks t).sched_class
  pub states : (t : ℕ) → (m.tasks t).state ≡ (k.tasks t).state
  pub pids : (t : ℕ) → (m.tasks t).pid ≡ (k.tasks t).pid
  pub next_pid : m.next_pid ≡ k.next_pid
  pub heap : Alloc.IsValid m.heap
  pub lower : k.heap.heap_ptr ≤ m.heap.heap_ptr
  pub upper : m.heap.heap_ptr ≤ k.heap.heap_ptr + n

Grown-trans : (a b : ℕ) (k l m : Kernel) → Grown a k l → Grown b l m → Grown (a + b) k m
Grown-trans a b k l m g h = record {
  at = h.at ∙ g.at;
  links = h.links ∙ g.links;
  classes = λ t. h.classes t ∙ g.classes t;
  states = λ t. h.states t ∙ g.states t;
  pids = λ t. h.pids t ∙ g.pids t;
  next_pid = h.next_pid ∙ g.next_pid;
  heap = h.heap;
  lower = omega (arith, g.lower, h.lower);
  upper = omega (arith, g.upper, h.upper);
}

-- a store that leaves all that `Grown` speaks of
Grown-set_fd : (a : ℕ) (k m : Kernel) (t fd f : ℕ) → Grown a k m → Grown a k (set_fd t fd f m)
Grown-set_fd a k m t fd f g = record {
  at = g.at;
  links = g.links;
  classes = λ u. ground (arith, g.classes u);
  states = λ u. ground (arith, g.states u);
  pids = λ u. ground (arith, g.pids u);
  next_pid = g.next_pid;
  heap = g.heap;
  lower = g.lower;
  upper = g.upper;
}

pub new_block-Grown :
    (size : ℕ) (k : Kernel)
    → Alloc.IsValid k.heap
    → size ≤ sizeof_task
    → k.heap.heap_ptr + size ≤ kernel_heap_size
    → (m : Kernel) × (new_block size k ≡ (some (k.at.heap_base + k.heap.heap_ptr), m))
      × Grown (size + 16) k m
      × (k.heap.heap_ptr + size ≤ m.heap.heap_ptr)
      × (m.tasks ≡ k.tasks)
unfolding new_block
new_block-Grown size k v small room =
    let (got, _, past, bound, valid) = (kmalloc-fits k.heap size v (omega arith)).0 room in
    (
      record k { heap = (kmalloc size k.heap).1 },
      ground (arith, got),
      record {
        at = refl;
        links = refl;
        classes = λ t. refl;
        states = λ t. refl;
        pids = λ t. refl;
        next_pid = refl;
        heap = valid;
        lower = omega arith;
        upper = omega arith;
      },
      past,
      refl,
    )

Grown-store_file :
    (a : ℕ) (k m : Kernel) (f i : ℕ) (fop : Fop) → Grown a k m → Grown a k (store_file f i fop m)
unfolding store_file
Grown-store_file a k m f i fop g = record {
  at = g.at;
  links = g.links;
  classes = g.classes;
  states = g.states;
  pids = g.pids;
  next_pid = g.next_pid;
  heap = g.heap;
  lower = g.lower;
  upper = g.upper;
}

pub new_file-Grown :
    (fop : Fop) (k : Kernel)
    → Alloc.IsValid k.heap
    → k.heap.heap_ptr + 100 ≤ kernel_heap_size
    → (f : ℕ) × (m : Kernel) × (new_file fop k ≡ some (f, m)) × Grown 88 k m
unfolding new_file
new_file-Grown fop k v room =
    let (k₁, e₁, g₁, _, _) = new_block-Grown sizeof_file k v (omega arith) (omega arith) in
    let (k₂, e₂, g₂, _, _) =
      new_block-Grown sizeof_inode k₁ g₁.heap (omega arith) (omega (arith, g₁.upper)) in
    let f = k.at.heap_base + k.heap.heap_ptr in
    let i = k₁.at.heap_base + k₁.heap.heap_ptr in
    (
      f,
      store_file f i fop k₂,
      ground (arith, e₁, e₂),
      Grown-store_file 88 k k₂ f i fop (Grown-trans 40 48 k k₁ k₂ g₁ g₂),
    )

-- With room for its three files, task_setup_stdio does not fail.
pub task_setup_stdio-Grown :
    (t : ℕ) (k : Kernel)
    → Alloc.IsValid k.heap
    → k.heap.heap_ptr + 300 ≤ kernel_heap_size
    → (m : Kernel) × (task_setup_stdio t k ≡ some m) × Grown 264 k m
unfolding task_setup_stdio
task_setup_stdio-Grown t k v room =
    let (f₀, k₁, e₁, g₁) = new_file-Grown Fop.stdin k v (omega arith) in
    let h₁ = Grown-set_fd 88 k k₁ t 0 f₀ g₁ in
    let k₂ = set_fd t 0 f₀ k₁ in
    let (f₁, k₃, e₃, g₃) = new_file-Grown Fop.stdout k₂ g₁.heap (omega (arith, g₁.upper)) in
    let h₃ = Grown-set_fd 176 k k₃ t 1 f₁ (Grown-trans 88 88 k k₂ k₃ h₁ g₃) in
    let k₄ = set_fd t 1 f₁ k₃ in
    let (f₂, k₅, e₅, g₅) = new_file-Grown Fop.stdout k₄ h₃.heap (omega (arith, h₃.upper)) in
    (
      set_fd t 2 f₂ k₅,
      ground (arith, e₁, e₃, e₅),
      Grown-set_fd 264 k k₅ t 2 f₂ (Grown-trans 176 88 k k₄ k₅ h₃ g₅),
    )

-- The queues hold `cs`, `rs` and `gs`, and what the heap has not given out yet is in none of them.
pub record IsValid (k : Kernel) (cs rs gs : List ℕ) : Type 0 where
  pub queues : Queues k.at k.links cs rs gs
  pub heap : Alloc.IsValid k.heap
  pub unused :
      (a : ℕ)
      → k.at.heap_base + k.heap.heap_ptr ≤ a
      → a < k.at.heap_base + kernel_heap_size
      → Unlisted k.at a cs rs gs

abbrev pub class_of : Policy → SchedClass
class_of sched_normal = fair
class_of sched_fifo = rt
class_of sched_rr = rt

pub has_behind :
    (a n h : ℕ) (ys : List ℕ)
    → (a == n) ≡ false
    → has a (h ∷ ys) ≡ false
    → has a (h ∷ n ∷ ys) ≡ false
has_behind a n h ys ne o = ground arith

has-snoc :
    (a n : ℕ) (h : ℕ) (ys : List ℕ)
    → (a == n) ≡ false
    → has a (h ∷ ys) ≡ false
    → has a (h ∷ (ys ++ n ∷ [])) ≡ false
has-snoc a n h ys ne o = ground (arith, has-append a ys (n ∷ []))

-- An address that is not the node by which a task joins stays unlisted.
Unlisted-joined :
    (c : SchedClass) (k : Kernel) (a p : ℕ) (cs rs gs : List ℕ)
    → (a == run_node c p) ≡ false
    → Unlisted k.at a cs rs gs
    → Unlisted k.at a (joined c p cs rs).0 (joined c p cs rs).1 gs
Unlisted-joined fair k a p cs rs gs ne u =
    (rw (map-snoc se_run_node cs p) (has-snoc a _ _ _ ne u.0), u.1, u.2)
Unlisted-joined rt k a p cs rs gs ne u = (u.0, ground arith, u.2)
Unlisted-joined idle k a p cs rs gs ne u = u

fresh_task-fields :
    (policy : Policy) (pid : ℕ) (name : List ℕ) (cr3 stack : ℕ)
    → let t = set_class policy (fresh_task pid name cr3 fair stack) in
      (t.sched_class ≡ class_of policy) × (t.state ≡ task_running) × (t.pid ≡ pid)
unfolding set_class fresh_task
fresh_task-fields sched_normal pid name cr3 stack = (refl, refl, refl)
fresh_task-fields sched_fifo pid name cr3 stack = (refl, refl, refl)
fresh_task-fields sched_rr pid name cr3 stack = (refl, refl, refl)

class_of-ne-idle : (p : Policy) → class_of p ≢ idle
class_of-ne-idle sched_normal = λ e. cc
class_of-ne-idle sched_fifo = λ e. cc
class_of-ne-idle sched_rr = λ e. cc

run_node_range : (c : SchedClass) (p : ℕ) → c ≢ idle → (p ≤ run_node c p) × (run_node c p < p + 144)
run_node_range fair p ni = omega arith
run_node_range rt p ni = omega arith
run_node_range idle p ni = absurd (ni refl)

enqueue_task-same :
    (p : ℕ) (k : Kernel) → ((enqueue_task p k).at ≡ k.at) × ((enqueue_task p k).heap ≡ k.heap)
unfolding enqueue_task
enqueue_task-same p k = ground arith

-- The last steps of creating a task: no address from `p` on is in a list yet.
pub list_task-IsValid :
    (c : SchedClass) (k : Kernel) (p : ℕ) (cs rs gs : List ℕ)
    → (k.tasks p).sched_class ≡ c
    → c ≢ idle
    → Queues k.at k.links cs rs gs
    → Alloc.IsValid k.heap
    → p + sizeof_task ≤ k.at.heap_base + k.heap.heap_ptr
    → ((a : ℕ) → p ≤ a → a < k.at.heap_base + kernel_heap_size → Unlisted k.at a cs rs gs)
    → IsValid (list_task p k) (joined c p cs rs).0 (joined c p cs rs).1 (p ∷ gs)
      × ((list_task p k).tasks ≡ k.tasks)
unfolding list_task
list_task-IsValid c k p cs rs gs e ni q v past u =
    let range = run_node_range c p ni in
    let node = u (run_node c p) range.0 (omega (arith, v.bound)) in
    let q' = enqueue_task-Queues c k p cs rs gs e q node in
    let same = enqueue_task-same p k in
    let still = λ (a : ℕ) (lo : p + 144 ≤ a) (hi : a < k.at.heap_base + kernel_heap_size).
      Unlisted-joined c k a p cs rs gs (ground (arith, range)) (u a (omega arith) hi) in
    let own = still (tasks_node p) (omega arith) (omega (arith, v.bound)) in
    (
      record {
        queues = rw same.0 (
            add_global-Queues k.at (enqueue_task p k).links p (joined c p cs rs).0
              (joined c p cs rs).1 gs q' own);
        heap = rw same.1 v;
        unused = λ a lo hi.
            let lo' : k.at.heap_base + k.heap.heap_ptr ≤ a = omega (
              arith,
              lo,
              ap (λ (x : Layout). x.heap_base) same.0,
              ap (λ (x : Slab). x.heap_ptr) same.1,
            ) in
            let hi' : a < k.at.heap_base + kernel_heap_size =
              omega (arith, hi, ap (λ (x : Layout). x.heap_base) same.0) in
            let w = still a (omega arith) hi' in
            rw same.0 (w.0, w.1, has_behind a (tasks_node p) _ _ (ground arith) w.2);
      },
      tasks-enqueue_task p k,
    )

-- On a valid kernel with room on the heap for a task and its three files, kernel_thread returns the next number. The
-- new task lies where the heap was still unused; it is runnable, has that number and the class of
-- its policy, has joined the queue of the class and stands first in the global list, and all
-- three lists are well-formed.
pub kernel_thread-IsValid :
    (name : List ℕ) (policy : Policy) (k : Kernel) (cs rs gs : List ℕ)
    → IsValid k cs rs gs
    → k.heap.heap_ptr + sizeof_task + 400 ≤ kernel_heap_size
    → let p = k.at.heap_base + k.heap.heap_ptr in
      let (cs', rs') = joined (class_of policy) p cs rs in
      (m : Kernel) × (kernel_thread name policy k ≡ some (pos k.next_pid, m))
      × IsValid m cs' rs' (p ∷ gs)
      × ((m.tasks p).state ≡ task_running)
      × ((m.tasks p).pid ≡ k.next_pid)
      × ((m.tasks p).sched_class ≡ class_of policy)
unfolding kernel_thread
kernel_thread-IsValid name policy k cs rs gs v room =
    let p = k.at.heap_base + k.heap.heap_ptr in
    let c = class_of policy in
    let t = set_class policy (fresh_task k.next_pid name k.mmu.cr3 fair (p + stack_end_offset)) in
    let fields = fresh_task-fields policy k.next_pid name k.mmu.cr3 (p + stack_end_offset) in
    let (k₁, e₁, g₁, past, _) = new_block-Grown sizeof_task k v.heap (omega arith) (omega arith) in
    let k' = set_task p t (record k₁ { next_pid = (k.next_pid + 1) % 2 ^ 32 }) in
    let (k₂, e₂, g₂) = task_setup_stdio-Grown p k' g₁.heap (omega (arith, g₁.upper)) in
    let at : k₂.at ≡ k.at = g₂.at ∙ g₁.at in
    let links : k₂.links ≡ k.links = g₂.links ∙ g₁.links in
    let base = ap (λ (l : Layout). l.heap_base) at in
    let (w, kept) =
      list_task-IsValid c k₂ p cs rs gs (g₂.classes p ∙ ground (arith, fields.0))
        (class_of-ne-idle policy) (rw (at, links) v.queues) g₂.heap
        (omega (arith, base, past, g₂.lower))
        (λ a lo hi. rw at (v.unused a lo (omega (arith, base)))) in
    (
      list_task p k₂,
      ground (arith, e₁, e₂),
      w,
      ap (λ (f : ℕ → Task). (f p).state) kept ∙ g₂.states p ∙ ground (arith, fields.1),
      ap (λ (f : ℕ → Task). (f p).pid) kept ∙ g₂.pids p ∙ ground (arith, fields.2),
      ap (λ (f : ℕ → Task). (f p).sched_class) kept ∙ g₂.classes p ∙ ground (arith, fields.0),
    )
