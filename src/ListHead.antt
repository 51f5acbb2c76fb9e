-- ===== src/ListHead.antt =====
-- include/relis/list.h: circular doubly linked lists threaded through their elements.
pub mod Ring
pub mod Insert
pub mod Delete
pub mod Frame
pub mod Walk
mod Tests
use relis.Prelude.{
  ℕ, zero, suc, ◌+◌, ◌-◌, ◌*◌, ◌/◌, ◌%◌, ◌^◌, ◌≤◌, ◌<◌, min, bit_and, bit_or, bit_xor, ◌≡◌, refl,
  sym, ap, ◌∙◌, subst, ◌≢◌, ◌↔◌, ◌⊎◌, inl, inr, Bool, true, false, not, ◌&&◌, ◌||◌, Option, none,
  some, List, [], ◌∷◌, ◌++◌, map, append_assoc, append-nil, arith, ltb, leb, ◌==◌, if◌then◌else◌,
  ltb→lt, lt→ltb, leb→le, ==_iff, tests, Bool-cases, Option-cases, length, get_elem?, get_or, set,
  take, drop, replicate, length-append, length-set, get_or-set_self, get_or-set_ne, length-take,
  length-drop, take-append-drop, length-replicate, get_or-replicate, update, update_self, update_ne,
  test_bit, not64, bit_and_step, bit_or_step, test_bit-and, test_bit-or, test_bit-pow,
  test_bit-not64, bit_and-zero, bit_and-pow, bit_or-lt, bit_and-le, pow-lt, bit_and-ones,
  test_bit-zero, bit_and_align, bit_and_high,
}

-- The `next` and `prev` fields of every `struct list_head`, by its address; 0 is the null pointer.
pub record Links : Type 0 where
  pub next : ℕ → ℕ
  pub prev : ℕ → ℕ

unfoldable pub set_next : ℕ → ℕ → Links → Links
set_next p v l = record l { next = update l.next p v }

unfoldable pub set_prev : ℕ → ℕ → Links → Links
set_prev p v l = record l { prev = update l.prev p v }

unfoldable pub init_list_head : ℕ → Links → Links
unfolding set_next set_prev
init_list_head list l = set_prev list list (set_next list list l)

unfoldable pub list_add : ℕ → ℕ → Links → Links
unfolding set_next set_prev
list_add new head l =
    let l₁ = set_next new (l.next head) l in
    let l₂ = set_prev new head l₁ in let l₃ = set_prev (l₂.next head) new l₂ in set_next head new l₃

unfoldable pub list_add_tail : ℕ → ℕ → Links → Links
unfolding set_next set_prev
list_add_tail new head l =
    let l₁ = set_prev new (l.prev head) l in
    let l₂ = set_next new head l₁ in let l₃ = set_next (l₂.prev head) new l₂ in set_prev head new l₃

unfoldable pub list_del : ℕ → Links → Links
unfolding set_next set_prev
list_del entry l =
    let l₁ = set_next (l.prev entry) (l.next entry) l in
    let l₂ = set_prev (l₁.next entry) (l₁.prev entry) l₁ in
    let l₃ = set_next entry 0 l₂ in set_prev entry 0 l₃

unfoldable pub list_empty : ℕ → Links → Bool
list_empty head l = l.next head == head

-- The positions that `list_for_each` visits from `pos` on; `none` if the fuel runs out first.
unfoldable pub for_each_from : ℕ → ℕ → ℕ → Links → Option (List ℕ)
for_each_from zero pos head l = none
for_each_from (suc fuel) pos head l =
    let rest = for_each_from fuel (l.next pos) head l in
    if pos == head then some [] else elim rest [ none ↦ none | some ps ↦ some (pos ∷ ps) ]

unfoldable pub list_for_each : ℕ → ℕ → Links → Option (List ℕ)
unfolding for_each_from
list_for_each fuel head l = for_each_from fuel (l.next head) head l
