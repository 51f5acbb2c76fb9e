-- ===== src/Kernel/Sched/Enqueue.antt =====
-- The three places of kernel/sched/ where a task joins a list, and wake_up_process.
use relis.Prelude.{
  ℕ, ◌≡◌, ap, ◌∙◌, ◌≢◌, ◌⊎◌, inl, inr, true, false, List, [], ◌∷◌, ◌++◌, map, arith, ◌==◌,
  Bool-cases,
}
use relis.ListHead.{Links, list_add, list_add_tail}
use relis.ListHead.Ring.{has, has-append}
use relis.ListHead.Insert.{list_add-cons, list_add_tail-append}
use relis.ListHead.Frame.{Apart, Ring-frame, list_add_tail-SameOutside, list_add-SameOutside}
use relis.Kernel.State.{
  set_task, task_running, task_interruptible, Task, Kernel, Task, Layout, SchedClass, fair, rt,
  idle, se_run_node, rt_run_node, tasks_node, task_interruptible, task_running, set_task,
}
use relis.Kernel.Sched.{enqueue_task, wake_up_process}
use relis.Kernel.Sched.Queues.{map-snoc, Queues, cfs_nodes, rt_nodes, all_nodes}

-- the node is in none of the three lists
abbrev pub Unlisted : Layout → ℕ → List ℕ → List ℕ → List ℕ → Type 0
Unlisted at n cs rs gs =
    (has n (cfs_nodes at cs) ≡ false)
    × (has n (rt_nodes at rs) ≡ false)
    × (has n (all_nodes at gs) ≡ false)

pub ne_of_has : (a b : ℕ) (xs : List ℕ) → has b xs ≡ false → has a xs ≡ true → (a == b) ≡ false
ne_of_has a b xs o h = elim (Bool-cases (a == b)) [
  | inl e ↦ let eq : a ≡ b = ground arith in absurd (cc (h, o, ap (λ (n : ℕ). has n xs) eq))
  | inr ne ↦ ne
]

-- Lists apart from `ys` stay apart from `ys` with a node that they do not hold.
Apart-snoc :
    (xs : List ℕ) (h : ℕ) (ys : List ℕ) (n : ℕ)
    → Apart xs (h ∷ ys)
    → has n xs ≡ false
    → Apart xs (h ∷ (ys ++ n ∷ []))
Apart-snoc xs h ys n apart o a i =
    ground (arith, apart a i, has-append a ys (n ∷ []), ne_of_has a n xs o i)

Apart-cons :
    (xs : List ℕ) (h : ℕ) (ys : List ℕ) (n : ℕ)
    → Apart xs (h ∷ ys)
    → has n xs ≡ false
    → Apart xs (h ∷ n ∷ ys)
Apart-cons xs h ys n apart o a i = ground (arith, apart a i, ne_of_has a n xs o i)

Apart-sym : (xs ys : List ℕ) → Apart xs ys → Apart ys xs
Apart-sym xs ys apart a i = elim (Bool-cases (has a xs)) [ inl h ↦ cc (apart a h, i) | inr o ↦ o ]

Apart-front :
    (xs : List ℕ) (h : ℕ) (ys : List ℕ) (n : ℕ)
    → Apart xs (h ∷ ys)
    → has n xs ≡ false
    → Apart xs (n ∷ h ∷ ys)
Apart-front xs h ys n apart o a i = ground (arith, apart a i, ne_of_has a n xs o i)

pub enqueue_fair-Queues :
    (at : Layout) (l : Links) (p : ℕ) (cs rs gs : List ℕ)
    → Queues at l cs rs gs
    → Unlisted at (se_run_node p) cs rs gs
    → Queues at (list_add_tail (se_run_node p) at.cfs_queue l) (cs ++ p ∷ []) rs gs
enqueue_fair-Queues at l p cs rs gs q u =
    let same =
      list_add_tail-SameOutside l (se_run_node p) at.cfs_queue (map se_run_node cs) q.cfs in
    let n = se_run_node p in
    let ys = map se_run_node cs in
    record {
      cfs = rw (map-snoc se_run_node cs p) (list_add_tail-append l n at.cfs_queue ys q.cfs u.0);
      rtq =
          Ring-frame l _ (n ∷ at.cfs_queue ∷ ys) _ _ same
            (Apart-front (rt_nodes at rs) at.cfs_queue ys n q.cfs_rt u.1) q.rtq;
      all =
          Ring-frame l _ (n ∷ at.cfs_queue ∷ ys) _ _ same
            (Apart-front (all_nodes at gs) at.cfs_queue ys n q.cfs_all u.2) q.all;
      cfs_rt =
          rw (map-snoc se_run_node cs p)
            (Apart-snoc (rt_nodes at rs) at.cfs_queue ys n q.cfs_rt u.1);
      cfs_all =
          rw (map-snoc se_run_node cs p)
            (Apart-snoc (all_nodes at gs) at.cfs_queue ys n q.cfs_all u.2);
      rt_all = q.rt_all;
    }

pub enqueue_rt-Queues :
    (at : Layout) (l : Links) (p : ℕ) (cs rs gs : List ℕ)
    → Queues at l cs rs gs
    → Unlisted at (rt_run_node p) cs rs gs
    → Queues at (list_add (rt_run_node p) at.rt_queue l) cs (p ∷ rs) gs
enqueue_rt-Queues at l p cs rs gs q u =
    let n = rt_run_node p in
    let ys = map rt_run_node rs in
    let same = list_add-SameOutside l n at.rt_queue ys q.rtq in
    let apart = Apart-sym (rt_nodes at rs) (cfs_nodes at cs) q.cfs_rt in
    record {
      cfs =
          Ring-frame l _ (n ∷ at.rt_queue ∷ ys) _ _ same
            (Apart-front (cfs_nodes at cs) at.rt_queue ys n apart u.0) q.cfs;
      rtq = list_add-cons l n at.rt_queue ys q.rtq u.1;
      all =
          Ring-frame l _ (n ∷ at.rt_queue ∷ ys) _ _ same
            (Apart-front (all_nodes at gs) at.rt_queue ys n q.rt_all u.2) q.all;
      cfs_rt =
          Apart-sym (cfs_nodes at cs) (rt_nodes at (p ∷ rs))
            (Apart-cons (cfs_nodes at cs) at.rt_queue ys n apart u.0);
      cfs_all = q.cfs_all;
      rt_all = Apart-cons (all_nodes at gs) at.rt_queue ys n q.rt_all u.2;
    }

pub add_global-Queues :
    (at : Layout) (l : Links) (p : ℕ) (cs rs gs : List ℕ)
    → Queues at l cs rs gs
    → Unlisted at (tasks_node p) cs rs gs
    → Queues at (list_add (tasks_node p) at.global_tasks l) cs rs (p ∷ gs)
add_global-Queues at l p cs rs gs q u =
    let n = tasks_node p in
    let ys = map tasks_node gs in
    let same = list_add-SameOutside l n at.global_tasks ys q.all in
    let apart_c = Apart-sym (all_nodes at gs) (cfs_nodes at cs) q.cfs_all in
    let apart_r = Apart-sym (all_nodes at gs) (rt_nodes at rs) q.rt_all in
    record {
      cfs =
          Ring-frame l _ (n ∷ at.global_tasks ∷ ys) _ _ same
            (Apart-front (cfs_nodes at cs) at.global_tasks ys n apart_c u.0) q.cfs;
      rtq =
          Ring-frame l _ (n ∷ at.global_tasks ∷ ys) _ _ same
            (Apart-front (rt_nodes at rs) at.global_tasks ys n apart_r u.1) q.rtq;
      all = list_add-cons l n at.global_tasks ys q.all u.2;
      cfs_rt = q.cfs_rt;
      cfs_all =
          Apart-sym (cfs_nodes at cs) (all_nodes at (p ∷ gs))
            (Apart-cons (cfs_nodes at cs) at.global_tasks ys n apart_c u.0);
      rt_all =
          Apart-sym (rt_nodes at rs) (all_nodes at (p ∷ gs))
            (Apart-cons (rt_nodes at rs) at.global_tasks ys n apart_r u.1);
    }

-- the queues once a task of the class has joined, and the node that it joins with
abbrev pub joined : SchedClass → ℕ → List ℕ → List ℕ → List ℕ × List ℕ
joined fair p cs rs = (cs ++ p ∷ [], rs)
joined rt p cs rs = (cs, p ∷ rs)
joined idle p cs rs = (cs, rs)

abbrev pub run_node : SchedClass → ℕ → ℕ
run_node fair p = se_run_node p
run_node rt p = rt_run_node p
run_node idle p = 0

-- On well-formed queues, a task that is in none joins that of its class: the fair queue at the end, the real-time
-- queue in front. A task of the idle class joins none.
pub enqueue_task-Queues :
    (c : SchedClass) (k : Kernel) (p : ℕ) (cs rs gs : List ℕ)
    → (k.tasks p).sched_class ≡ c
    → Queues k.at k.links cs rs gs
    → Unlisted k.at (run_node c p) cs rs gs
    → Queues k.at (enqueue_task p k).links (joined c p cs rs).0 (joined c p cs rs).1 gs
unfolding enqueue_task
enqueue_task-Queues fair k p cs rs gs e q u =
    rw (e, enqueue_task) (enqueue_fair-Queues k.at k.links p cs rs gs q u)
enqueue_task-Queues rt k p cs rs gs e q u =
    rw (e, enqueue_task) (enqueue_rt-Queues k.at k.links p cs rs gs q u)
enqueue_task-Queues idle k p cs rs gs e q u = rw (e, enqueue_task) q

-- Joining a queue changes no task.
pub tasks-enqueue_task : (p : ℕ) (k : Kernel) → (enqueue_task p k).tasks ≡ k.tasks
unfolding enqueue_task
tasks-enqueue_task p k = ground arith

-- On well-formed queues, a task that sleeps interruptibly and is in no queue becomes runnable and joins the queue of its
-- class. A task that does not sleep interruptibly, in a queue or not, and the null pointer change nothing.
pub wake_up_process-Queues :
    (c : SchedClass) (k : Kernel) (p : ℕ) (cs rs gs : List ℕ)
    → (k.tasks p).sched_class ≡ c
    → Queues k.at k.links cs rs gs
    → (p ≢ 0
        → (k.tasks p).state ≡ task_interruptible
        → Unlisted k.at (run_node c p) cs rs gs
        → Queues k.at (wake_up_process p k).links (joined c p cs rs).0 (joined c p cs rs).1 gs
          × (((wake_up_process p k).tasks p).state ≡ task_running))
      × ((p ≡ 0) ⊎ ((k.tasks p).state ≢ task_interruptible) → wake_up_process p k ≡ k)
unfolding wake_up_process
wake_up_process-Queues c k p cs rs gs e q = (
  λ ne i u.
      let k' = set_task p (record (k.tasks p) { state = task_running }) k in
      let woken : wake_up_process p k ≡ enqueue_task p k' = ground arith in
      rw woken (
        enqueue_task-Queues c k' p cs rs gs (ground arith) q u,
        (ap (λ (f : ℕ → Task). (f p).state) (tasks-enqueue_task p k') ∙ ground arith),
      ),
  λ no. ground arith,
)
