-- ===== src/Kernel/Spinlock/Exclusion.antt =====
-- The lock of include/relis/spinlock.h excludes, and is never held by nobody.
use relis.Prelude.{
  ℕ, ◌≡◌, refl, sym, ◌∙◌, subst, ◌≢◌, ◌↔◌, ◌⊎◌, inl, inr, arith, update, update_self, update_ne,
}
use relis.Kernel.Spinlock.{
  Pc, outside, trying, spinning, critical, Access, call, exchange_free, exchange_held, still_held,
  seen_free, unlock, System, turn, Reach, start, onward,
}

-- The word is the count of processors inside, which is one at most.
pub record Inv (s : System) : Type 0 where
  pub exclusive : (i j : ℕ) → s.pc i ≡ critical → s.pc j ≡ critical → i ≡ j
  pub held : (i : ℕ) → s.pc i ≡ critical → s.lock ≡ 1
  pub holder : s.lock ≢ 0 → (i : ℕ) × (s.pc i ≡ critical)

-- Who is inside after a step: the processor that moved, or one that was.
update-critical :
    (pc : ℕ → Pc) (i j : ℕ) (q : Pc)
    → update pc i q j ≡ critical
    → (i ≡ j × q ≡ critical) ⊎ (i ≢ j × pc j ≡ critical)
update-critical pc i j q h = ground arith

remains :
    (pc : ℕ → Pc) (i j : ℕ) (q : Pc)
    → q ≢ critical
    → update pc i q j ≡ critical
    → i ≢ j × pc j ≡ critical
remains pc i j q k h = elim (update-critical pc i j q h) [ inl c ↦ absurd (k c.1) | inr c ↦ c ]

-- A step of a processor that is not inside and does not enter.
keep-Inv :
    {l m : ℕ} (pc : ℕ → Pc) (i : ℕ) (q : Pc)
    → (l ≡ 1 → m ≡ 1)
    → (m ≢ 0 → l ≢ 0)
    → pc i ≢ critical
    → q ≢ critical
    → Inv (record { lock = l; pc = pc })
    → Inv (record { lock = m; pc = update pc i q })
keep-Inv pc i q one free out stay v = record {
  exclusive = λ a b x y. v.exclusive a b (remains pc i a q stay x).1 (remains pc i b q stay y).1;
  held = λ a x. one (v.held a (remains pc i a q stay x).1);
  holder = λ x.
      let w = v.holder (free x) in
      (w.0, update_ne pc i w.0 q (λ e. out (subst (λ j. pc j ≡ critical) (sym e) w.1)) ∙ w.1);
}

only_self :
    (pc : ℕ → Pc) (i j : ℕ) (q : Pc)
    → ((j : ℕ) → pc j ≢ critical)
    → update pc i q j ≡ critical
    → i ≡ j
only_self pc i j q none_in h = elim (update-critical pc i j q h) [
  | inl c ↦ c.0
  | inr c ↦ absurd (none_in j c.1)
]

Access-Inv :
    {l m : ℕ} {p q : Pc} (pc : ℕ → Pc) (i : ℕ)
    → Access l p m q
    → pc i ≡ p
    → Inv (record { lock = l; pc = pc })
    → Inv (record { lock = m; pc = update pc i q })
Access-Inv pc i call e v =
    keep-Inv pc i trying (λ h. h) (λ h. h) (λ h. ground (arith, e, h)) (λ h. ground (arith, h)) v
Access-Inv pc i (exchange_free h k) e v =
    let nobody : (j : ℕ) → pc j ≢ critical = λ j x. ground (arith, h, v.held j x) in
    record {
      exclusive =
          λ a b x y. sym (only_self pc i a critical nobody x) ∙ only_self pc i b critical nobody y;
      held = λ a x. k;
      holder = λ x. (i, update_self pc i critical);
    }
Access-Inv pc i (exchange_held h k) e v =
    keep-Inv pc i spinning (λ a. k) (λ a. h) (λ x. ground (arith, e, x)) (λ x. ground (arith, x)) v
Access-Inv pc i (still_held h) e v =
    keep-Inv pc i spinning (λ a. a) (λ a. a) (λ x. ground (arith, e, x)) (λ x. ground (arith, x)) v
Access-Inv pc i (seen_free h) e v =
    keep-Inv pc i trying (λ a. a) (λ a. a) (λ x. ground (arith, e, x)) (λ x. ground (arith, x)) v
Access-Inv pc i (unlock k) e v =
    let alone : (j : ℕ) → update pc i outside j ≢ critical = λ j x.
      let r = remains pc i j outside (λ y. ground (arith, y)) x in r.0 (v.exclusive i j e r.1) in
    record {
      exclusive = λ a b x y. absurd (alone a x);
      held = λ a x. absurd (alone a x);
      holder = λ x. absurd (x k);
    }

Reach-Inv : (s : System) → Reach s → Inv s
Reach-Inv s start = record {
  exclusive = λ a b x y. absurd (ground (arith, x));
  held = λ a x. absurd (ground (arith, x));
  holder = λ x. absurd (x refl);
}
Reach-Inv _ (onward {s} r (turn i a)) = Access-Inv s.pc i a refl (Reach-Inv s r)

-- However the processors interleave from an unlocked start, two that are both between spin_lock
-- and spin_unlock are one and the same, and the word is not 0 exactly when some processor is there.
pub spin_lock-excludes :
    (s : System)
    → Reach s
    → ((i j : ℕ) → s.pc i ≡ critical → s.pc j ≡ critical → i ≡ j)
      × (s.lock ≢ 0 ↔ ((i : ℕ) × (s.pc i ≡ critical)))
spin_lock-excludes s r =
    let v = Reach-Inv s r in (v.exclusive, (v.holder, λ w h. ground (arith, v.held w.0 w.1, h)))
