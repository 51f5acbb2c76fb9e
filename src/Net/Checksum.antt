-- ===== src/Net/Checksum.antt =====
-- The IP checksum is the one that a receiver checks.
use relis.Prelude.{
  ℕ, suc, ◌+◌, ◌/◌, ◌%◌, ◌^◌, ◌≤◌, ◌<◌, ◌≡◌, refl, ap, ◌∙◌, inl, inr, true, false, Option, none,
  some, arith, ltb, ◌==◌, Bool-cases,
}
use relis.Net.{Iphdr, words, sum, fold, complement, ip_checksum}

-- the fields are as wide as the source declares them
pub record IsHeader (h : Iphdr) : Type 0 where
  pub ihl : h.ihl < 2 ^ 4
  pub version : h.version < 2 ^ 4
  pub tos : h.tos < 2 ^ 8
  pub tot_len : h.tot_len < 2 ^ 16
  pub id : h.id < 2 ^ 16
  pub frag_off : h.frag_off < 2 ^ 16
  pub ttl : h.ttl < 2 ^ 8
  pub protocol : h.protocol < 2 ^ 8
  pub check : h.check < 2 ^ 16
  pub saddr : h.saddr < 2 ^ 32
  pub daddr : h.daddr < 2 ^ 32

fold_small : (fuel s : ℕ) → s < 2 ^ 16 → fold (suc fuel) s ≡ some s
unfolding fold
fold_small fuel s h = let e : (s / 2 ^ 16 == 0) ≡ true = ground arith in rw e refl

fold_big :
    (fuel s : ℕ) → 2 ^ 16 ≤ s → s < 2 ^ 20 → fold (suc fuel) s ≡ fold fuel (s % 2 ^ 16 + s / 2 ^ 16)
unfolding fold
fold_big fuel s h b =
    let e : (s / 2 ^ 16 == 0) ≡ false = ground arith in
    let w : (s % 2 ^ 16 + s / 2 ^ 16) % 2 ^ 32 ≡ s % 2 ^ 16 + s / 2 ^ 16 = omega arith in
    rw e (ap (fold fuel) w)

-- what a sum folds to
record Folds (fuel s : ℕ) : Type 0 where
  pub result : ℕ
  pub ends : fold fuel s ≡ some result
  pub word : result < 2 ^ 16
  pub rest : result % 65535 ≡ s % 65535

Folds-later :
    (fuel s : ℕ)
    → s < 2 ^ 20
    → Folds (suc fuel) (s % 2 ^ 16 + s / 2 ^ 16)
    → Folds (suc (suc fuel)) s
Folds-later fuel s b f = elim (Bool-cases (ltb s (2 ^ 16))) [
  | inl e ↦ record {
    result = s;
    ends = fold_small (suc fuel) s (ground arith);
    word = ground arith;
    rest = refl;
  }
  | inr e ↦ record {
    result = f.result;
    ends = fold_big (suc fuel) s (ground arith) b ∙ f.ends;
    word = f.word;
    rest = f.rest ∙ omega arith;
  }
]

folds : (s : ℕ) → s < 2 ^ 20 → Folds 3 s
folds s h =
    let s₁ = s % 2 ^ 16 + s / 2 ^ 16 in
    let s₂ = s₁ % 2 ^ 16 + s₁ / 2 ^ 16 in
    Folds-later 1 s h (
      Folds-later 0 s₁ (omega arith) (record {
        result = s₂;
        ends = fold_small 0 s₂ (omega arith);
        word = omega arith;
        rest = refl;
      }))

-- For a header whose fields have their widths and whose checksum is still 0, the loop of the checksum ends, and the ten words of a header with its checksum in place add up to
-- a multiple of 2 ^ 16 - 1, which is what a receiver checks.
pub ip_checksum-receiver :
    (h : Iphdr)
    → IsHeader h
    → h.check ≡ 0
    → (c : ℕ) × (ip_checksum 3 h ≡ some c
        × c < 2 ^ 16
        × sum (words (record h { check = c })) % 65535 ≡ 0)
unfolding ip_checksum words
ip_checksum-receiver h v z =
    let total = sum (words h) in
    let a = v.ihl in
    let b = v.version in
    let d = v.tos in
    let e = v.tot_len in
    let f = v.id in
    let g = v.frag_off in
    let a₁ = v.ttl in
    let b₁ = v.protocol in
    let d₁ = v.check in
    let e₁ = v.saddr in
    let f₁ = v.daddr in
    let bound : total < 2 ^ 20 = omega arith in
    let fd = folds total bound in
    let all : total % 2 ^ 32 ≡ total = omega arith in
    let w = fd.word in
    let sent : ip_checksum 3 h ≡ some (complement fd.result) =
      ap (λ (o : Option ℕ). elim o [ none ↦ none | some s ↦ some (complement s) ])
        (ap (fold 3) all ∙ fd.ends) in
    (complement fd.result, (sent, omega arith, omega arith))
