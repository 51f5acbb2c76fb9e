-- ===== src/Kernel/Signal/Stops.antt =====
-- Where the loop of deliver_signals in kernel/signal.c stops, and the rounds up to there.
use relis.Prelude.{
  ℕ, zero, suc, ◌+◌, ◌^◌, ◌≤◌, ◌<◌, bit_and, ◌≡◌, refl, sym, ap, ◌∙◌, subst, ◌≢◌, inl, inr, Bool,
  true, false, not, ◌&&◌, ◌||◌, Option, none, some, arith, ltb, leb, ◌==◌, if◌then◌else◌,
  Bool-cases, test_bit, not64, test_bit-and, test_bit-pow, test_bit-not64, bit_and-pow, pow-lt,
}
use relis.Kernel.State.{task_zombie}
use relis.Kernel.Signal.{sighup, sigint, sigkill}

-- whether a pending signal makes the task a zombie
abbrev pub fatal : (ℕ → ℕ) → ℕ → Bool
fatal handlers sig =
    (sig == sigkill) || ((handlers sig == 0) && ((sig == sigint) || (sig == sighup)))

-- For `n` signals from `sig` on, with what a task has pending, its handlers and its state: the loop stops at the
-- first pending signal that has a handler, whose address is the result `rip`, and clears exactly the
-- bits up to there. It goes on behind a fatal signal: the task is a zombie then, at the end too.
pub record Stops (n sig pending : ℕ) (handlers : ℕ → ℕ) (state : ℕ) (rip : Option ℕ)
    (pending' state' : ℕ) : Type 0 where
  pub stop : ℕ
  pub from : sig ≤ stop
  pub to : stop ≤ sig + n
  pub passed : (s : ℕ) → sig ≤ s → s < stop → test_bit pending s ≡ true → handlers s ≡ 0
  pub stopped : stop < sig + n → (test_bit pending stop ≡ true) × (handlers stop ≢ 0)
  pub result : rip ≡ (if stop == sig + n then none else some (handlers stop))
  pub cleared :
      (j : ℕ)
      → j < 64
      → test_bit pending' j
        ≡ (if leb sig j && leb j stop && ltb j (sig + n) then false else test_bit pending j)
  pub ended :
      (s : ℕ)
      → sig ≤ s
      → s ≤ stop
      → s < sig + n
      → test_bit pending s ≡ true
      → fatal handlers s ≡ true
      → state' ≡ task_zombie
  pub spared :
      ((s : ℕ)
        → sig ≤ s
        → s ≤ stop
        → s < sig + n
        → test_bit pending s ≡ true
        → fatal handlers s ≡ false)
      → state' ≡ state
  pub stays : state ≡ task_zombie → state' ≡ task_zombie

pow_pos : (n : ℕ) → 0 < 2 ^ n
pow_pos zero = omega arith
pow_pos (suc n) = omega (arith, pow_pos n)

pub pending-test : (sig w : ℕ) → (bit_and w (2 ^ sig) == 0) ≡ not (test_bit w sig)
pending-test sig w =
    let p = pow_pos sig in
    elim (Bool-cases (test_bit w sig)) [
      | inl e ↦ rw e (ground (arith, bit_and-pow sig w))
      | inr e ↦ rw e (ground (arith, bit_and-pow sig w))
    ]

but : (a b : Bool) → (a && not b) ≡ (if b then false else a)
but true true = refl
but true false = refl
but false true = refl
but false false = refl

-- `pending & ~(1 << sig)` is `pending` without that bit.
pub clear-test :
    (sig w j : ℕ)
    → sig < 64
    → j < 64
    → test_bit (bit_and w (not64 (2 ^ sig))) j ≡ (if sig == j then false else test_bit w j)
clear-test sig w j s h =
    test_bit-and j w (not64 (2 ^ sig))
    ∙ ap (λ (b : Bool). test_bit w j && b)
        (test_bit-not64 j (2 ^ sig) (pow-lt sig 64 s) h ∙ ap not (test_bit-pow sig j))
    ∙ but (test_bit w j) (sig == j)

-- the state behind a round for a pending signal
abbrev pub after : (ℕ → ℕ) → ℕ → ℕ → ℕ
after handlers sig state = if fatal handlers sig then task_zombie else state

-- A signal that the loop goes past, with its bit clear behind it.
pub Stops-later :
    (n sig pending next : ℕ) (handlers : ℕ → ℕ) (state between : ℕ) (rip : Option ℕ)
    (pending' state' : ℕ)
    → (test_bit pending sig ≡ true → handlers sig ≡ 0)
    → ((j : ℕ) → j < 64 → test_bit next j ≡ (if sig == j then false else test_bit pending j))
    → (test_bit pending sig ≡ true → between ≡ after handlers sig state)
    → (test_bit pending sig ≡ false → between ≡ state)
    → Stops n (sig + 1) next handlers between rip pending' state'
    → sig + suc n ≤ 64
    → Stops (suc n) sig pending handlers state rip pending' state'
Stops-later n sig pending next handlers state between rip pending' state' a same hit miss s b =
    let l = s.from in
    let u = s.to in
    let end : sig + 1 + n ≡ sig + suc n = omega arith in
    let kept : (q : ℕ) → sig < q → q < 64 → test_bit next q ≡ test_bit pending q =
      λ q lo hi. ground (arith, same q hi) in
    record {
      stop = s.stop;
      from = omega arith;
      to = omega arith;
      passed = λ q lo hi e. elim (Bool-cases (sig == q)) [
        | inl w ↦
            let at : sig ≡ q = ground arith in
            subst (λ (x : ℕ). handlers x ≡ 0) at (a (ap (test_bit pending) at ∙ e))
        | inr w ↦ s.passed q (ground arith) hi (kept q (ground arith) (omega arith) ∙ e)
      ];
      stopped = λ h.
          let got = s.stopped (omega arith) in
          (sym (kept s.stop (omega arith) (omega arith)) ∙ got.0, got.1);
      result = s.result ∙ ap (λ (x : ℕ). if s.stop == x then none else some (handlers s.stop)) end;
      cleared = λ j h. ground (arith, s.cleared j h, same j h);
      ended = λ q lo hi top e z. elim (Bool-cases (sig == q)) [
        | inl w ↦
            let at : sig ≡ q = ground arith in
            let t : test_bit pending sig ≡ true = ap (test_bit pending) at ∙ e in
            let f : fatal handlers sig ≡ true = ap (fatal handlers) at ∙ z in
            s.stays (hit t ∙ rw f refl)
        | inr w ↦
            s.ended q (ground arith) hi (omega arith) (kept q (ground arith) (omega arith) ∙ e) z
      ];
      spared = λ h.
          s.spared (λ q lo hi top e.
            h q (omega arith) hi (omega arith) (sym (kept q (omega arith) (omega arith)) ∙ e))
          ∙ elim (Bool-cases (test_bit pending sig)) [
            | inl t ↦
                let f : fatal handlers sig ≡ false =
                  h sig (omega arith) (omega arith) (omega arith) t in
                hit t ∙ rw f refl
            | inr t ↦ miss t
          ];
      stays = λ z. s.stays (elim (Bool-cases (test_bit pending sig)) [
        | inl t ↦ hit t ∙ ground (arith, z)
        | inr t ↦ miss t ∙ z
      ]);
    }

-- A signal that it stops at.
pub Stops-here :
    (n sig pending : ℕ) (handlers : ℕ → ℕ) (state : ℕ)
    → sig + suc n ≤ 64
    → test_bit pending sig ≡ true
    → handlers sig ≢ 0
    → Stops
        (suc n)
        sig
        pending
        handlers
        state
        (some (handlers sig))
        (bit_and pending (not64 (2 ^ sig)))
        (after handlers sig state)
Stops-here n sig pending handlers state b t a = record {
  stop = sig;
  from = omega arith;
  to = omega arith;
  passed = λ s l h q. absurd (omega arith);
  stopped = λ h. (t, a);
  result = let not_end : (sig == sig + suc n) ≡ false = ground arith in rw not_end refl;
  cleared = λ j h. ground (arith, clear-test sig pending j (omega arith) h);
  ended = λ s lo hi top e f.
      let at : s ≡ sig = omega arith in
      let g : fatal handlers sig ≡ true = ap (fatal handlers) (sym at) ∙ f in rw g refl;
  spared = λ h.
      let g : fatal handlers sig ≡ false = h sig (omega arith) (omega arith) (omega arith) t in
      rw g refl;
  stays = λ z. ground (arith, z);
}
