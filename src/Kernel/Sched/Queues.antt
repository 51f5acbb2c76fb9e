-- ===== src/Kernel/Sched/Queues.antt =====
-- What the run queues of kernel/sched/ hold, and the rotation of the fair queue.
use relis.Prelude.{ℕ, ◌≡◌, refl, ap, ◌∙◌, false, none, some, List, [], ◌∷◌, ◌++◌, map, arith}
use relis.ListHead.{Links, list_add_tail, list_del, list_empty}
use relis.ListHead.Ring.{has, Ring}
use relis.ListHead.Insert.{list_add_tail-append}
use relis.ListHead.Delete.{list_del-Ring}
use relis.ListHead.Walk.{list_empty_iff}
use relis.ListHead.Frame.{
  Apart, SameOutside, Ring-frame, list_add_tail-SameOutside, list_del-SameOutside,
}
use relis.Kernel.State.{Layout, Kernel, se_run_node, rt_run_node, tasks_node}
use relis.Kernel.Sched.{pick_next_task_fair}

-- the nodes of a queue, its head in front
abbrev pub cfs_nodes : Layout → List ℕ → List ℕ
cfs_nodes at cs = at.cfs_queue ∷ map se_run_node cs

abbrev pub rt_nodes : Layout → List ℕ → List ℕ
rt_nodes at rs = at.rt_queue ∷ map rt_run_node rs

abbrev pub all_nodes : Layout → List ℕ → List ℕ
all_nodes at gs = at.global_tasks ∷ map tasks_node gs

-- The fair queue holds the tasks `cs`, the real-time queue `rs` and the global list `gs`, each in
-- order, and no two of them share a node.
pub record Queues (at : Layout) (l : Links) (cs rs gs : List ℕ) : Type 0 where
  pub cfs : Ring l at.cfs_queue (map se_run_node cs)
  pub rtq : Ring l at.rt_queue (map rt_run_node rs)
  pub all : Ring l at.global_tasks (map tasks_node gs)
  pub cfs_rt : Apart (rt_nodes at rs) (cfs_nodes at cs)
  pub cfs_all : Apart (all_nodes at gs) (cfs_nodes at cs)
  pub rt_all : Apart (all_nodes at gs) (rt_nodes at rs)

has-rotate : (a head x : ℕ) (ys : List ℕ) → has a (head ∷ (ys ++ x ∷ [])) ≡ has a (head ∷ x ∷ ys)
has-rotate a head x [] = refl
has-rotate a head x (y ∷ ys) = ground (arith, has-rotate a head x ys)

pub map-snoc : (f : ℕ → ℕ) (xs : List ℕ) (x : ℕ) → map f (xs ++ x ∷ []) ≡ map f xs ++ f x ∷ []
map-snoc f [] x = refl
map-snoc f (y ∷ xs) x = ap (λ (l : List ℕ). f y ∷ l) (map-snoc f xs x)

-- the links after the rotation
abbrev rotated : ℕ → ℕ → Links → Links
rotated x head l = list_add_tail x head (list_del x l)

rotated-Ring :
    (l : Links) (x head : ℕ) (ys : List ℕ)
    → Ring l head (x ∷ ys)
    → Ring (rotated x head l) head (ys ++ x ∷ [])
rotated-Ring l x head ys r =
    list_add_tail-append (list_del x l) x head ys (list_del-Ring l x head [] ys r).0
      (ground (arith, r.head_out, r.distinct))

rotated-SameOutside :
    (l : Links) (x head : ℕ) (ys : List ℕ)
    → Ring l head (x ∷ ys)
    → SameOutside (head ∷ x ∷ ys) l (rotated x head l)
rotated-SameOutside l x head ys r a o =
    let del = list_del-SameOutside l x head ys r a o in
    let tail =
      list_add_tail-SameOutside (list_del x l) x head ys (list_del-Ring l x head [] ys r).0 a
        (ground arith) in
    (tail.0 ∙ del.0, tail.1 ∙ del.1)

-- An empty fair queue gives no task.
pub pick_next_task_fair-nil :
    (k : Kernel) (rs gs : List ℕ) → Queues k.at k.links [] rs gs → pick_next_task_fair k ≡ (none, k)
unfolding pick_next_task_fair
pick_next_task_fair-nil k rs gs q = rw ((list_empty_iff k.links k.at.cfs_queue [] q.cfs).1 refl)

-- On well-formed queues, from a fair queue with a task, the first is picked and goes to the end; the other two lists and
-- all else stay.
pub pick_next_task_fair-cons :
    (k : Kernel) (x : ℕ) (cs rs gs : List ℕ)
    → Queues k.at k.links (x ∷ cs) rs gs
    → (l : Links) × (pick_next_task_fair k ≡ (some x, record k { links = l }))
      × Queues k.at l (cs ++ x ∷ []) rs gs
unfolding pick_next_task_fair list_empty
pick_next_task_fair-cons k x cs rs gs q =
    let node = se_run_node x in
    let ys = map se_run_node cs in
    let full : list_empty k.at.cfs_queue k.links ≡ false =
      ground (arith, q.cfs.seg, q.cfs.head_out) in
    let same = rotated-SameOutside k.links node k.at.cfs_queue ys q.cfs in
    (
      rotated node k.at.cfs_queue k.links,
      ground (arith, full, q.cfs.seg.0),
      record {
        cfs = rw (map-snoc se_run_node cs x) (rotated-Ring k.links node k.at.cfs_queue ys q.cfs);
        rtq = Ring-frame k.links _ (cfs_nodes k.at (x ∷ cs)) _ _ same q.cfs_rt q.rtq;
        all = Ring-frame k.links _ (cfs_nodes k.at (x ∷ cs)) _ _ same q.cfs_all q.all;
        cfs_rt = λ a h. rw (rotate_map a) (q.cfs_rt a h);
        cfs_all = λ a h. rw (rotate_map a) (q.cfs_all a h);
        rt_all = q.rt_all;
      },
    )
  where
    rotate_map :
        (a : ℕ)
        → has a (k.at.cfs_queue ∷ map se_run_node (cs ++ x ∷ []))
          ≡ has a (k.at.cfs_queue ∷ map se_run_node (x ∷ cs))
    rotate_map a =
        rw (map-snoc se_run_node cs x)
          (has-rotate a k.at.cfs_queue (se_run_node x) (map se_run_node cs))
