-- ===== src/ListHead/Tests.antt =====
-- Runs of include/relis/list.h, and its theorems at a concrete list.
use relis.Prelude.{ℕ, ◌≡◌, refl, ◌↔◌, true, some, List, [], ◌∷◌}
use relis.ListHead.{
  Links, init_list_head, list_add, list_add_tail, list_del, list_empty, list_for_each,
}
use relis.ListHead.Ring.{Ring}
use relis.ListHead.Insert.{init_list_head-Ring, list_add-cons, list_add_tail-append}
use relis.ListHead.Delete.{list_del-Ring}
use relis.ListHead.Walk.{list_empty_iff}

abbrev blank : Links
blank = record { next = λ _. 0; prev = λ _. 0 }

-- a list at 100 with the elements 1, 2 and 3
abbrev three : Links
unfolding init_list_head list_add list_add_tail
three = list_add 1 100 (list_add_tail 3 100 (list_add 2 100 (init_list_head 100 blank)))

walk : list_for_each 4 100 three ≡ some (1 ∷ 2 ∷ 3 ∷ [])
unfolding list_for_each list_add list_add_tail init_list_head
walk = refl

three-Ring : Ring three 100 (1 ∷ 2 ∷ 3 ∷ [])
unfolding three list_add
three-Ring =
    let empty = init_list_head-Ring blank 100 in
    let one = list_add-cons (init_list_head 100 blank) 2 100 [] empty refl in
    let two = list_add_tail-append _ 3 100 (2 ∷ []) one refl in
    list_add-cons _ 1 100 (2 ∷ 3 ∷ []) two refl

init_list_head-Ring_example : Ring (init_list_head 100 blank) 100 []
init_list_head-Ring_example = init_list_head-Ring blank 100

list_del-Ring_example :
    Ring (list_del 2 three) 100 (1 ∷ 3 ∷ [])
    × ((list_del 2 three).next 2 ≡ 0)
    × ((list_del 2 three).prev 2 ≡ 0)
list_del-Ring_example = list_del-Ring three 2 100 (1 ∷ []) (3 ∷ []) three-Ring

list_empty_iff_example : (list_empty 100 three ≡ true) ↔ (◌≡◌ {A = List ℕ} (1 ∷ 2 ∷ 3 ∷ []) [])
list_empty_iff_example = list_empty_iff three 100 (1 ∷ 2 ∷ 3 ∷ []) three-Ring
