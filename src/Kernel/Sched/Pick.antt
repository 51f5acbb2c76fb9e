-- ===== src/Kernel/Sched/Pick.antt =====
-- Which task schedule of kernel/sched/core.c switches to, and for how long another waits.
use relis.Prelude.{
  ℕ, zero, suc, ◌≡◌, refl, ◌∙◌, inl, inr, none, some, List, [], ◌∷◌, ◌++◌, append_assoc, append-nil,
  arith, ◌==◌, Bool-cases, length, replicate,
}
use relis.ListHead.{Links, list_empty}
use relis.ListHead.Walk.{list_empty_iff}
use relis.Kernel.State.{Kernel, current}
use relis.Kernel.Sched.{pick_next_task_fair, pick_next, pick_next_task_rt, schedule, set_tss_rsp0}
use relis.Mm.Paging.{switch_address_space}
use relis.Kernel.Sched.Queues.{Queues, pick_next_task_fair-nil, pick_next_task_fair-cons}

pick_next_task_rt-nil :
    (k : Kernel) (cs gs : List ℕ) → Queues k.at k.links cs [] gs → pick_next_task_rt k ≡ none
unfolding pick_next_task_rt
pick_next_task_rt-nil k cs gs q = rw ((list_empty_iff k.links k.at.rt_queue [] q.rtq).1 refl)

pick_next_task_rt-cons :
    (k : Kernel) (x : ℕ) (cs rs gs : List ℕ)
    → Queues k.at k.links cs (x ∷ rs) gs
    → pick_next_task_rt k ≡ some x
unfolding pick_next_task_rt list_empty
pick_next_task_rt-cons k x cs rs gs q = ground (arith, q.rtq.seg, q.rtq.head_out)

pick_next-real_time :
    (k : Kernel) (x : ℕ) (cs rs gs : List ℕ)
    → Queues k.at k.links cs (x ∷ rs) gs
    → pick_next k ≡ (x, k)
unfolding pick_next
pick_next-real_time k x cs rs gs q = rw (pick_next_task_rt-cons k x cs rs gs q, pick_next)

pick_next-fair :
    (k : Kernel) (x : ℕ) (cs gs : List ℕ) (l : Links)
    → Queues k.at k.links (x ∷ cs) [] gs
    → pick_next_task_fair k ≡ (some x, record k { links = l })
    → pick_next k ≡ (x, record k { links = l })
unfolding pick_next
pick_next-fair k x cs gs l q e = ground (arith, pick_next_task_rt-nil k (x ∷ cs) gs q, e)

pick_next-idle :
    (k : Kernel) (gs : List ℕ) → Queues k.at k.links [] [] gs → pick_next k ≡ (k.current_task, k)
unfolding pick_next
pick_next-idle k gs q =
    ground (arith, pick_next_task_rt-nil k [] gs q, pick_next_task_fair-nil k [] gs q)

-- The first real-time task wins; without one the first fair task, which goes to the end of its
-- queue; without either the task that is running.
pub data Chosen (k : Kernel) : List ℕ → List ℕ → ℕ → Links → List ℕ → Type 0 where
  real_time : {cs rs : List ℕ} {x : ℕ} → Chosen k cs (x ∷ rs) x k.links cs
  round_robin : {cs : List ℕ} {x : ℕ} {l : Links} → Chosen k (x ∷ cs) [] x l (cs ++ x ∷ [])
  stay : Chosen k [] [] k.current_task k.links []

pub pick_next-Chosen :
    (k : Kernel) (cs rs gs : List ℕ)
    → Queues k.at k.links cs rs gs
    → (x : ℕ) × (l : Links) × (cs' : List ℕ) × (pick_next k ≡ (x, record k { links = l }))
      × Chosen k cs rs x l cs'
      × Queues k.at l cs' rs gs
pick_next-Chosen k cs (x ∷ rs) gs q =
    (x, k.links, cs, pick_next-real_time k x cs rs gs q, real_time, q)
pick_next-Chosen k [] [] gs q = (k.current_task, k.links, [], pick_next-idle k gs q, stay, q)
pick_next-Chosen k (x ∷ cs) [] gs q =
    let (l, e, q') = pick_next_task_fair-cons k x cs [] gs q in
    (x, l, cs ++ x ∷ [], pick_next-fair k x cs gs l q e, round_robin, q')

-- What schedule leaves behind, given the choice.
pub record Switched (k : Kernel) (x : ℕ) (l : Links) (m : Kernel) : Type 0 where
  pub running : m.current_task ≡ x
  pub at : m.at ≡ k.at
  pub links : m.links ≡ l
  pub states : (t : ℕ) → (m.tasks t).state ≡ (k.tasks t).state
  pub address_space : (current k).cr3 ≡ k.mmu.cr3 → (current m).cr3 ≡ m.mmu.cr3
  pub syscall_stack :
      k.tss_rsp0 ≡ (current k).kernel_stack_top → m.tss_rsp0 ≡ (current m).kernel_stack_top
  pub interrupt_stack :
      k.rsp0 ≡ (current k).kernel_stack_top → m.rsp0 ≡ (current m).kernel_stack_top

schedule-Switched :
    (k : Kernel) (x : ℕ) (l : Links)
    → pick_next k ≡ (x, record k { links = l })
    → Switched k x l (schedule k)
unfolding schedule set_tss_rsp0 switch_address_space
schedule-Switched k x l e = elim (Bool-cases (x == k.current_task)) [
  | inl same ↦
      rw (e, same)
        record {
          running = ground arith;
          at = refl;
          links = refl;
          states = λ t. ground arith;
          address_space = λ h. ground arith;
          syscall_stack = λ h. ground arith;
          interrupt_stack = λ h. ground arith;
        }
  | inr other ↦ elim (Bool-cases ((k.tasks x).cr3 == k.mmu.cr3)) [
    | inl mapped ↦
        rw (e, other, mapped)
          record {
            running = refl;
            at = refl;
            links = refl;
            states = λ t. refl;
            address_space = λ h. ground arith;
            syscall_stack = λ h. refl;
            interrupt_stack = λ h. refl;
          }
    | inr unmapped ↦
        rw (e, other, unmapped)
          record {
            running = refl;
            at = refl;
            links = refl;
            states = λ t. refl;
            address_space = λ h. refl;
            syscall_stack = λ h. refl;
            interrupt_stack = λ h. refl;
          }
  ]
]

-- On well-formed queues, schedule runs the first real-time task, or else the first fair task, which goes to the end of
-- its queue, or else leaves the running task alone. It changes no task's state, keeps the queues
-- in order, and keeps the page tables, the stack for system calls and the one that the processor takes
-- for interrupts those of the running task.
pub schedule-Chosen :
    (k : Kernel) (cs rs gs : List ℕ)
    → Queues k.at k.links cs rs gs
    → (x : ℕ) × (l : Links) × (cs' : List ℕ) × Chosen k cs rs x l cs'
      × Switched k x l (schedule k)
      × Queues k.at l cs' rs gs
schedule-Chosen k cs rs gs q =
    let (x, l, cs', e, chosen, q') = pick_next-Chosen k cs rs gs q in
    (x, l, cs', chosen, schedule-Switched k x l e, q')

-- `n` calls of schedule, with the task that each switches to
unfoldable pub schedule_all : ℕ → Kernel → List ℕ × Kernel
schedule_all zero k = ([], k)
schedule_all (suc n) k =
    let k' = schedule k in let (ran, last) = schedule_all n k' in (k'.current_task ∷ ran, last)

schedule-cons :
    (k : Kernel) (x : ℕ) (cs gs : List ℕ)
    → Queues k.at k.links (x ∷ cs) [] gs
    → ((schedule k).current_task ≡ x)
      × Queues (schedule k).at (schedule k).links (cs ++ x ∷ []) [] gs
      × ((t : ℕ) → ((schedule k).tasks t).state ≡ (k.tasks t).state)
schedule-cons k x cs gs q =
    let (l, e, q') = pick_next_task_fair-cons k x cs [] gs q in
    let s = schedule-Switched k x l (pick_next-fair k x cs gs l q e) in
    (s.running, rw (s.at, s.links) q', s.states)

schedule_all-rotates :
    (xs ys gs : List ℕ) (k : Kernel)
    → Queues k.at k.links (xs ++ ys) [] gs
    → ((schedule_all (length xs) k).0 ≡ xs)
      × (let m = (schedule_all (length xs) k).1 in
          Queues m.at m.links (ys ++ xs) [] gs × ((t : ℕ) → (m.tasks t).state ≡ (k.tasks t).state))
unfolding schedule_all
schedule_all-rotates [] ys gs k q = (refl, (rw append-nil q, λ t. refl))
schedule_all-rotates (x ∷ xs) ys gs k q =
    let (ran, q', states) = schedule-cons k x (xs ++ ys) gs q in
    let (ran', (q'', states')) =
      schedule_all-rotates xs (ys ++ x ∷ []) gs (schedule k) (rw (← append_assoc) q') in
    (cc (ran, ran'), (rw append_assoc at q'', λ t. states' t ∙ states t))

-- On well-formed queues without real-time tasks, as many calls of schedule as the fair queue has tasks run each of them
-- once, in the order of the queue, and leave the queue as it was. No call looks at a task's state,
-- and none changes one: a task that has become a zombie is run in its turn like any other.
pub schedule_all-round :
    (k : Kernel) (cs gs : List ℕ)
    → Queues k.at k.links cs [] gs
    → ((schedule_all (length cs) k).0 ≡ cs)
      × (let m = (schedule_all (length cs) k).1 in
          Queues m.at m.links cs [] gs × ((t : ℕ) → (m.tasks t).state ≡ (k.tasks t).state))
schedule_all-round k cs gs q = schedule_all-rotates cs [] gs k (rw append-nil q)

-- On well-formed queues, while the real-time queue has a task, every call of schedule runs its first one: no other task,
-- real-time or fair, runs at all.
pub schedule_all-real_time :
    (n : ℕ) (k : Kernel) (x : ℕ) (cs rs gs : List ℕ)
    → Queues k.at k.links cs (x ∷ rs) gs
    → (schedule_all n k).0 ≡ replicate n x
unfolding schedule_all
schedule_all-real_time zero k x cs rs gs q = refl
schedule_all-real_time (suc n) k x cs rs gs q =
    let s = schedule-Switched k x k.links (pick_next-real_time k x cs rs gs q) in
    let later = schedule_all-real_time n (schedule k) x cs rs gs (rw (s.at, s.links) q) in
    cc (s.running, later)
