-- ===== src/Kernel/Sched/Tick.antt =====
-- What a timer interrupt does to the running task.
use relis.Prelude.{
  ℕ, ◌+◌, ◌/◌, ◌%◌, ◌^◌, bit_or, ◌≡◌, refl, ◌∙◌, ◌≢◌, Bool, true, false, none, some, arith, ◌==◌,
  test_bit, test_bit-or,
}
use relis.Kernel.State.{
  current, Kernel, SchedClass, fair, rt, idle, Policy, sched_rr, tif_need_resched, set_task,
}
use relis.Kernel.Sched.{timer_callback, task_tick}

-- whether a task of the class and policy is asked to yield
abbrev pub yields : SchedClass → Policy → Bool
yields fair p = true
yields idle p = true
yields rt sched_rr = true
yields rt p = false

need_resched : (f : ℕ) → test_bit (bit_or f tif_need_resched) 0 ≡ true
need_resched f = ground (arith, test_bit-or 0 f tif_need_resched)

-- What a tick of `t` leaves, for its class and policy.
pub record Ticked (c : SchedClass) (p : Policy) (t : ℕ) (k m : Kernel) : Type 0 where
  pub asked : yields c p ≡ true → test_bit (m.tasks t).flags 0 ≡ true
  pub left : yields c p ≡ false → m.tasks ≡ k.tasks
  pub runtime :
      c ≡ fair
      → ((m.tasks t).sum_exec_runtime ≡ ((k.tasks t).sum_exec_runtime + 1) % 2 ^ 64)
        × ((m.tasks t).vruntime ≡ ((k.tasks t).vruntime + 1024 / (k.tasks t).weight) % 2 ^ 64)
  pub state : (m.tasks t).state ≡ (k.tasks t).state
  pub others : (u : ℕ) → u ≢ t → m.tasks u ≡ k.tasks u
  pub running : m.current_task ≡ k.current_task
  pub links : m.links ≡ k.links

-- the states behind the tick of a fair task and of one that is only asked to yield
abbrev fair_tick : ℕ → Kernel → Kernel
fair_tick p k =
    let t = k.tasks p in
    set_task p
      (record t {
        sum_exec_runtime = (t.sum_exec_runtime + 1) % 2 ^ 64;
        vruntime = (t.vruntime + 1024 / t.weight) % 2 ^ 64;
        flags = bit_or t.flags tif_need_resched;
      })
      k

abbrev asked_tick : ℕ → Kernel → Kernel
asked_tick p k =
    let t = k.tasks p in set_task p (record t { flags = bit_or t.flags tif_need_resched }) k

task_tick-Ticked :
    (c : SchedClass) (p : Policy) (k : Kernel) (t : ℕ)
    → (k.tasks t).sched_class ≡ c
    → (k.tasks t).policy ≡ p
    → (c ≡ fair → (k.tasks t).weight ≢ 0)
    → (m : Kernel) × (task_tick t k ≡ some m)
      × (m.jiffies ≡ k.jiffies)
      × (m.clock ≡ k.clock)
      × Ticked c p t k m
unfolding task_tick
task_tick-Ticked fair p k t e e' w =
    let n = need_resched (k.tasks t).flags in
    let heavy : ((k.tasks t).weight == 0) ≡ false = ground (arith, w refl) in
    (
      fair_tick t k,
      ground (arith, e, heavy),
      refl,
      refl,
      record {
        asked = λ _. ground (arith, n);
        left = λ x. ground (arith, x);
        runtime = λ _. (ground arith, ground arith);
        state = ground arith;
        others = λ u h. ground (arith, h);
        running = refl;
        links = refl;
      },
    )
task_tick-Ticked idle p k t e e' w =
    let n = need_resched (k.tasks t).flags in
    (
      asked_tick t k,
      ground (arith, e),
      refl,
      refl,
      record {
        asked = λ _. ground (arith, n);
        left = λ x. ground (arith, x);
        runtime = λ x. ground (arith, x);
        state = ground arith;
        others = λ u h. ground (arith, h);
        running = refl;
        links = refl;
      },
    )
task_tick-Ticked rt sched_rr k t e e' w =
    let n = need_resched (k.tasks t).flags in
    (
      asked_tick t k,
      ground (arith, e, e'),
      refl,
      refl,
      record {
        asked = λ _. ground (arith, n);
        left = λ x. ground (arith, x);
        runtime = λ x. ground (arith, x);
        state = ground arith;
        others = λ u h. ground (arith, h);
        running = refl;
        links = refl;
      },
    )
task_tick-Ticked rt p k t e e' w = (
  k,
  ground (arith, e, e'),
  refl,
  refl,
  record {
    asked = λ x. ground (arith, x);
    left = λ _. refl;
    runtime = λ x. ground (arith, x);
    state = refl;
    others = λ u h. refl;
    running = refl;
    links = refl;
  },
)

ticks :
    (c : SchedClass) (p : Policy) (k : Kernel)
    → (current k).sched_class ≡ c
    → (current k).policy ≡ p
    → (c ≡ fair → (current k).weight ≢ 0)
    → (m : Kernel) × (timer_callback k ≡ some m)
      × (m.jiffies ≡ (k.jiffies + 1) % 2 ^ 64)
      × (m.clock ≡ (k.clock + 1) % 2 ^ 64)
      × Ticked c p k.current_task k m
unfolding timer_callback
ticks c p k e e' w =
    let k₁ = record k { jiffies = (k.jiffies + 1) % 2 ^ 64; clock = (k.clock + 1) % 2 ^ 64 } in
    let (m, got, jiffies, clock, t) = task_tick-Ticked c p k₁ k.current_task e e' w in
    (
      m,
      got,
      jiffies,
      clock,
      record {
        asked = t.asked;
        left = t.left;
        runtime = t.runtime;
        state = t.state;
        others = t.others;
        running = t.running;
        links = t.links;
      },
    )

faults :
    (k : Kernel) → (current k).sched_class ≡ fair → (current k).weight ≡ 0 → timer_callback k ≡ none
unfolding timer_callback task_tick
faults k e z = ground (arith, e, z)

-- A timer interrupt in a fair task of weight 0 is a division fault. In any other task it counts jiffies and
-- the run queue's clock, switches to no task and moves no list node. It asks the running task to
-- yield if that is fair, idle or real-time with round robin, and adds to the run times of a fair task;
-- a real-time task with FIFO is not changed, and no other task is in any case.
pub timer_callback-Ticked :
    (c : SchedClass) (p : Policy) (k : Kernel)
    → (current k).sched_class ≡ c
    → (current k).policy ≡ p
    → (c ≡ fair → (current k).weight ≡ 0 → timer_callback k ≡ none)
      × ((c ≡ fair → (current k).weight ≢ 0)
          → (m : Kernel) × (timer_callback k ≡ some m)
            × (m.jiffies ≡ (k.jiffies + 1) % 2 ^ 64)
            × (m.clock ≡ (k.clock + 1) % 2 ^ 64)
            × Ticked c p k.current_task k m)
timer_callback-Ticked c p k e e' = (λ f z. faults k (e ∙ f) z, λ w. ticks c p k e e' w)
