-- ===== src/BoxList/Walks.antt =====
-- `destroy_list` and `print_list` of utils/common.c, and what they do on a chain of boxes.
use projeto_so.Base.{
  ℕ, zero, suc, ◌≤◌, ◌≡◌, refl, Option, none, some, List, [], ◌∷◌, arith, length, get_elem?, set,
  get_elem?-set_self, lt_of_get_elem?,
}
use projeto_so.BoxList.{Box, Cell, live, freed, Outcome, done, fault, endless}
use projeto_so.BoxList.Chain.{Chain}

-- `current` moves on before it is freed; `free(NULL)` does nothing.
unfoldable pub destroy_list : ℕ → Option ℕ → List Cell → Outcome (Unit {0})
destroy_list rounds none heap = done tt heap
destroy_list zero (some p) heap = endless
destroy_list (suc rounds) (some p) heap = elim (get_elem? heap p) [
  | none ↦ fault
  | some freed ↦ fault
  | some (live b) ↦ elim b.next [
    | none ↦ done tt heap
    | some q ↦
        let rest = destroy_list rounds (some q) (set heap q freed) in
        elim (get_elem? heap q) [ none ↦ fault | some freed ↦ fault | some (live c) ↦ rest ]
  ]
]

-- a line of `print_list`; the name is the array that `%s` prints up to its NUL
pub record Printed : Type 0 where
  pub box_name : List ℕ
  pub box_size : ℕ
  pub n_publishers : ℕ
  pub n_subscribers : ℕ

abbrev pub printed_line : Box → Printed
printed_line b = record {
  box_name = b.box_name;
  box_size = b.box_size;
  n_publishers = b.n_publishers;
  n_subscribers = b.n_subscribers;
}

abbrev pub and_print : Printed → Outcome (List Printed) → Outcome (List Printed)
and_print line (done lines heap) = done (line ∷ lines) heap
and_print line fault = fault
and_print line endless = endless

unfoldable pub print_list : ℕ → Option ℕ → List Cell → Outcome (List Printed)
print_list rounds none heap = done [] heap
print_list zero (some p) heap = endless
print_list (suc rounds) (some p) heap = elim (get_elem? heap p) [
  | none ↦ fault
  | some freed ↦ fault
  | some (live b) ↦ let rest = print_list rounds b.next heap in and_print (printed_line b) rest
]

abbrev pub lines_of : List (ℕ × Box) → List Printed
lines_of [] = []
lines_of ((p, b) ∷ xs) = printed_line b ∷ lines_of xs

-- On a chain of boxes, with no fewer rounds than boxes: `print_list` ends, prints one line for each
-- box in the order of the chain, and changes nothing.
pub print_list_lem :
    (rounds : ℕ) (heap : List Cell) (head : Option ℕ) (xs : List (ℕ × Box))
    → Chain heap head xs
    → length xs ≤ rounds
    → print_list rounds head heap ≡ done (lines_of xs) heap
unfolding print_list
print_list_lem zero heap head [] c h = rw c refl
print_list_lem (suc rounds) heap head [] c h = rw c refl
print_list_lem zero heap head (x ∷ xs) c h = absurd (omega (arith, h))
print_list_lem (suc rounds) heap head ((p, b) ∷ xs) c h =
    let rest = print_list_lem rounds heap b.next xs c.2 (omega (arith, h)) in
    rw (c.0, print_list, c.1, rest) refl

-- What `destroy_list` does to a chain.
abbrev pub Destroyed : List Cell → List (ℕ × Box) → Outcome (Unit {0}) → Type 0
Destroyed heap [] r = r ≡ done tt heap
Destroyed heap (x ∷ []) r = r ≡ done tt heap
Destroyed heap (x ∷ y ∷ xs) r = r ≡ fault

-- On a chain of boxes, with no fewer rounds than boxes: `destroy_list` frees nothing where there is
-- one box or none, and runs into undefined behaviour where there are more.
pub destroy_list_lem :
    (rounds : ℕ) (heap : List Cell) (head : Option ℕ) (xs : List (ℕ × Box))
    → Chain heap head xs
    → length xs ≤ rounds
    → Destroyed heap xs (destroy_list rounds head heap)
unfolding destroy_list
destroy_list_lem rounds heap head [] c h = rw c refl
destroy_list_lem zero heap head (x ∷ []) c h = absurd (omega (arith, h))
destroy_list_lem (suc rounds) heap head ((p, b) ∷ []) c h = rw (c.0, destroy_list, c.1, c.2) refl
destroy_list_lem zero heap head (x ∷ y ∷ xs) c h = absurd (omega (arith, h))
destroy_list_lem (suc zero) heap head (x ∷ y ∷ xs) c h = absurd (omega (arith, h))
destroy_list_lem (suc (suc rounds)) heap head ((p, b) ∷ (q, e) ∷ xs) c h =
    let gone = get_elem?-set_self heap q freed (lt_of_get_elem? heap q c.2.1) in
    let again : destroy_list (suc rounds) (some q) (set heap q freed) ≡ fault =
      rw (destroy_list, gone) refl in
    rw (c.0, destroy_list, c.1, c.2.0, c.2.1, again) refl
