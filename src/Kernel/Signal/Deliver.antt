-- ===== src/Kernel/Signal/Deliver.antt =====
-- What the loop of deliver_signals in kernel/signal.c does for the pending signals of a task.
use relis.Prelude.{
  ℕ, zero, suc, ◌+◌, ◌^◌, ◌≤◌, ◌<◌, bit_and, ◌≡◌, refl, sym, ap, ◌∙◌, subst, inl, inr, Bool, true,
  false, not, ◌&&◌, ◌||◌, Option, none, some, arith, ◌==◌, if◌then◌else◌, ==_iff, Bool-cases,
  update_self, test_bit, not64,
}
use relis.Kernel.State.{Kernel, Task, current, task_zombie, set_task}
use relis.Kernel.Sched.{schedule, pick_next, pick_next_task_fair, set_tss_rsp0}
use relis.Kernel.Signal.{sighup, sigint, sigkill, Away, end_task, deliver_one, deliver_from}
use relis.Kernel.Signal.Stops.{Stops, after, pending-test, clear-test, Stops-later, Stops-here}

-- Nobody touches the task while it is away.
abbrev pub Undisturbed : Away → Type 0
Undisturbed away =
    (t : ℕ) (k : Kernel)
    → ((away t k).current_task ≡ t)
      × (((away t k).tasks t).pending_signals ≡ (k.tasks t).pending_signals)
      × (((away t k).tasks t).signal_handlers ≡ (k.tasks t).signal_handlers)
      × (((away t k).tasks t).state ≡ (k.tasks t).state)

pick_next-tasks : (k : Kernel) → (pick_next k).1.tasks ≡ k.tasks
unfolding pick_next pick_next_task_fair
pick_next-tasks k = ground arith

-- schedule keeps what the loop reads of every task.
schedule-keeps :
    (k : Kernel) (t : ℕ)
    → (((schedule k).tasks t).pending_signals ≡ (k.tasks t).pending_signals)
      × (((schedule k).tasks t).signal_handlers ≡ (k.tasks t).signal_handlers)
      × (((schedule k).tasks t).state ≡ (k.tasks t).state)
unfolding schedule set_tss_rsp0
schedule-keeps k t = let e = pick_next-tasks k in ground (arith, e)

end_task-zombie :
    (away : Away) (k : Kernel)
    → Undisturbed away
    → ((current (end_task away k)).pending_signals ≡ (current k).pending_signals)
      × ((current (end_task away k)).signal_handlers ≡ (current k).signal_handlers)
      × ((current (end_task away k)).state ≡ task_zombie)
unfolding end_task
end_task-zombie away k u =
    let t = k.current_task in
    let dead : Task = record (current k) { state = task_zombie } in
    let z = set_task t dead k in
    let (running, pending, handlers, state) = u t (schedule z) in
    let (pending', handlers', state') = schedule-keeps z t in
    let own : z.tasks t ≡ dead = update_self k.tasks t dead in
    let at : current (end_task away k) ≡ (end_task away k).tasks t =
      ap (end_task away k).tasks running in
    (
      ap (λ (v : Task). v.pending_signals) at
          ∙ pending
          ∙ pending'
          ∙ ap (λ (v : Task). v.pending_signals) own,
      ap (λ (v : Task). v.signal_handlers) at
          ∙ handlers
          ∙ handlers'
          ∙ ap (λ (v : Task). v.signal_handlers) own,
      ap (λ (v : Task). v.state) at ∙ state ∙ state' ∙ ap (λ (v : Task). v.state) own,
    )

-- what the loop reads of the running task
abbrev View : Kernel → ℕ → (ℕ → ℕ) → ℕ → Type 0
View k pending handlers state =
    ((current k).pending_signals ≡ pending)
    × ((current k).signal_handlers ≡ handlers)
    × ((current k).state ≡ state)

end-View :
    (away : Away) (b : Bool) (k : Kernel) (pending : ℕ) (handlers : ℕ → ℕ) (state : ℕ)
    → Undisturbed away
    → View k pending handlers state
    → View (if b then end_task away k else k) pending handlers (if b then task_zombie else state)
end-View away true k pending handlers state u v =
    let e = end_task-zombie away k u in (e.0 ∙ v.0, e.1 ∙ v.1, e.2)
end-View away false k pending handlers state u v = v

-- a round for a pending signal
deliver_one_lem :
    (away : Away) (sig : ℕ) (k : Kernel)
    → Undisturbed away
    → ((deliver_one away sig k).0 ≡ (
        if (current k).signal_handlers sig == 0
        then none
        else some ((current k).signal_handlers sig)))
      × View
          (deliver_one away sig k).1
          (bit_and (current k).pending_signals (not64 (2 ^ sig)))
          (current k).signal_handlers
          (after (current k).signal_handlers sig (current k).state)
unfolding deliver_one
deliver_one_lem away sig k u =
    let t = current k in
    let pending = bit_and t.pending_signals (not64 (2 ^ sig)) in
    let cleared : Task = record t { pending_signals = pending } in
    let k₁ = set_task k.current_task cleared k in
    let own : current k₁ ≡ cleared = update_self k.tasks k.current_task cleared in
    let first : View k₁ pending t.signal_handlers t.state = (
      ap (λ (v : Task). v.pending_signals) own,
      ap (λ (v : Task). v.signal_handlers) own,
      ap (λ (v : Task). v.state) own,
    ) in
    let k₂ = if sig == sigkill then end_task away k₁ else k₁ in
    let killed = end-View away (sig == sigkill) k₁ pending t.signal_handlers t.state u first in
    let same : (current k₂).signal_handlers sig ≡ t.signal_handlers sig =
      ap (λ (h : ℕ → ℕ). h sig) killed.1 in
    let asked = (sig == sigint) || (sig == sighup) in
    let between = if sig == sigkill then task_zombie else t.state in
    let last = end-View away asked k₂ pending t.signal_handlers between u killed in
    elim (Bool-cases (t.signal_handlers sig == 0)) [
      | inl e ↦
          let e₂ : ((current k₂).signal_handlers sig == 0) ≡ true = rw same e in
          let state : (if asked then task_zombie else between)
              ≡ (if (sig == sigkill) || (true && asked) then task_zombie else t.state) =
            ground arith in
          rw (e, e₂) (refl, (last.0, last.1, last.2 ∙ state))
      | inr e ↦
          let e₂ : ((current k₂).signal_handlers sig == 0) ≡ false = rw same e in
          let state : between
              ≡ (if (sig == sigkill) || (false && asked) then task_zombie else t.state) =
            ground arith in
          rw (e, e₂) (ap (λ (h : ℕ). some h) same, (killed.0, killed.1, killed.2 ∙ state))
    ]

-- the loop behind a round
abbrev go_on : Away → ℕ → ℕ → Option ℕ × Kernel → Option ℕ × Kernel
go_on away n sig round = elim (round.0) [
  | none ↦ deliver_from away n (sig + 1) round.1
  | some handler ↦ (some handler, round.1)
]

go_on-none :
    (away : Away) (n sig : ℕ) (r : Option ℕ × Kernel)
    → r.0 ≡ none
    → go_on away n sig r ≡ deliver_from away n (sig + 1) r.1
go_on-none away n sig r e = rw e refl

go_on-some :
    (away : Away) (n sig h : ℕ) (r : Option ℕ × Kernel)
    → r.0 ≡ some h
    → go_on away n sig r ≡ (some h, r.1)
go_on-some away n sig h r e = rw e refl

clear_round :
    (away : Away) (n sig : ℕ) (k : Kernel)
    → (bit_and (current k).pending_signals (2 ^ sig) == 0) ≡ true
    → deliver_from away (suc n) sig k ≡ deliver_from away n (sig + 1) k
unfolding deliver_from
clear_round away n sig k h =
    ap (λ (b : Bool). go_on away n sig (if b then (none, k) else deliver_one away sig k)) h

pending_round :
    (away : Away) (n sig : ℕ) (k : Kernel)
    → (bit_and (current k).pending_signals (2 ^ sig) == 0) ≡ false
    → deliver_from away (suc n) sig k ≡ go_on away n sig (deliver_one away sig k)
unfolding deliver_from
pending_round away n sig k h =
    ap (λ (b : Bool). go_on away n sig (if b then (none, k) else deliver_one away sig k)) h

-- the stop of the loop with the result `r`
abbrev StopsWith : ℕ → ℕ → Kernel → Option ℕ × Kernel → Type 0
StopsWith n sig k r =
    Stops n sig (current k).pending_signals (current k).signal_handlers (current k).state r.0
      (current r.1).pending_signals (current r.1).state

-- Where nobody touches the task while it is away, the loop of deliver_signals, for `n` signals from `sig` on,
-- all below 64, goes past the signals that are not pending or have no handler, and stops at the first
-- pending one with a handler, whose address is the new instruction pointer. Exactly the pending bits up
-- to there are cleared. The task is a zombie behind the first fatal signal, which is SIGKILL, or SIGINT
-- or SIGHUP without a handler; the loop goes on when it runs again, even to a handler.
pub deliver_from-Stops :
    (away : Away) (n sig : ℕ) (k : Kernel)
    → Undisturbed away
    → sig + n ≤ 64
    → Stops n sig
        (current k).pending_signals
        (current k).signal_handlers
        (current k).state
        (deliver_from away n sig k).0
        (current (deliver_from away n sig k).1).pending_signals
        (current (deliver_from away n sig k).1).state
unfolding deliver_from
deliver_from-Stops away zero sig k u b = record {
  stop = sig;
  from = omega arith;
  to = omega arith;
  passed = λ s l h e. absurd (omega arith);
  stopped = λ h. absurd (omega arith);
  result = ground arith;
  cleared = λ j h. ground arith;
  ended = λ s lo hi top e f. absurd (omega arith);
  spared = λ h. refl;
  stays = λ z. z;
}
deliver_from-Stops away (suc n) sig k u b =
    let pending = (current k).pending_signals in
    let handlers = (current k).signal_handlers in
    let state = (current k).state in
    elim (Bool-cases (test_bit pending sig)) [
      | inr t ↦
          let skip : (bit_and pending (2 ^ sig) == 0) ≡ true =
            pending-test sig pending ∙ ap not t in
          subst (StopsWith (suc n) sig k) (sym (clear_round away n sig k skip)) (
            Stops-later n sig pending pending handlers state state _ _ _
              (λ e. absurd (ground (arith, e, t)))
              (λ j h. elim (Bool-cases (sig == j)) [
                | inl w ↦
                    let at : sig ≡ j = ground arith in rw w (ap (test_bit pending) (sym at) ∙ t)
                | inr w ↦ rw w refl
              ])
              (λ e. absurd (ground (arith, e, t))) (λ _. refl)
              (deliver_from-Stops away n (sig + 1) k u (omega arith)) b)
      | inl t ↦
          let take_it : (bit_and pending (2 ^ sig) == 0) ≡ false =
            pending-test sig pending ∙ ap not t in
          let k₁ = (deliver_one away sig k).1 in
          let (got, (left, same, new)) = deliver_one_lem away sig k u in
          let rest = deliver_from-Stops away n (sig + 1) k₁ u (omega arith) in
          elim (Bool-cases (handlers sig == 0)) [
            | inl h ↦
                let none_here : (deliver_one away sig k).0 ≡ none = got ∙ rw h refl in
                let clear : (j : ℕ)
                    → j < 64
                    → test_bit (current k₁).pending_signals j
                      ≡ (if sig == j then false else test_bit pending j) =
                  λ j l.
                    ap (λ (w : ℕ). test_bit w j) left ∙ clear-test sig pending j (omega arith) l in
                subst (StopsWith (suc n) sig k)
                  (sym (
                    pending_round away n sig k take_it
                    ∙ go_on-none away n sig (deliver_one away sig k) none_here))
                  (Stops-later n sig pending (current k₁).pending_signals handlers state
                    (current k₁).state _ _ _ (λ _. (==_iff (handlers sig) 0).0 h) clear (λ _. new)
                    (λ e. absurd (ground (arith, e, t)))
                    (subst
                      (λ (f : ℕ → ℕ).
                        Stops n (sig + 1) (current k₁).pending_signals f (current k₁).state
                          (deliver_from away n (sig + 1) k₁).0
                          (current (deliver_from away n (sig + 1) k₁).1).pending_signals
                          (current (deliver_from away n (sig + 1) k₁).1).state)
                      same rest)
                    b)
            | inr h ↦
                let some_here : (deliver_one away sig k).0 ≡ some (handlers sig) =
                  got ∙ rw h refl in
                let here =
                  Stops-here n sig pending handlers state b t
                    (λ e. absurd (ground (arith, e, h))) in
                subst (StopsWith (suc n) sig k)
                  (sym (
                    pending_round away n sig k take_it
                    ∙ go_on-some away n sig (handlers sig) (deliver_one away sig k) some_here))
                  (subst
                    (λ (p : ℕ).
                      Stops (suc n) sig pending handlers state (some (handlers sig)) p
                        (current k₁).state)
                    (sym left)
                    (subst
                      (λ (s : ℕ).
                        Stops (suc n) sig pending handlers state (some (handlers sig))
                          (bit_and pending (not64 (2 ^ sig))) s)
                      (sym new) here))
          ]
    ]
