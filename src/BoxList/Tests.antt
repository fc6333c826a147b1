-- ===== src/BoxList/Tests.antt =====
-- Runs of utils/common.c on a list of one or two boxes.
use projeto_so.Base.{
  ℕ, ◌≡◌, refl, true, false, none, some, Option, List, [], ◌∷◌, ◌++◌, pos, arith, replicate,
}
use projeto_so.Libc.CString.{strcmp_eq}
use projeto_so.Libc.Memory.{poke}
use projeto_so.BoxList.{
  Box, Cell, live, freed, Name, done, fault, get_box, insert_box, delete_box, delete_loop,
  insertion_sort, sort_loop, strcmp_lt, box_to_string, uint64_bytes,
}
use projeto_so.BoxList.Delete.{without, delete_box_lem}
use projeto_so.BoxList.Sorted.{inserted, sorted_box, Sorted, insertion_sort_lem}
use projeto_so.BoxList.Walks.{print_list, lines_of, destroy_list, destroy_list_lem}
use projeto_so.BoxList.Chain.{
  Chain, appended, made, get_box_misses, delete_box_dangles, insert_box_lem,
}

abbrev box : ℕ → Option ℕ → Box
box letter next = record {
  box_name = letter ∷ replicate 31 0;
  box_size = 5;
  n_publishers = 0;
  last = 0;
  n_subscribers = 0;
  next = next;
}

-- "b", then "d"
abbrev two_boxes : List Cell
two_boxes = live (box 98 (some 1)) ∷ live (box 100 none) ∷ []

abbrev links : List (ℕ × Box)
links = (0, box 98 (some 1)) ∷ (1, box 100 none) ∷ []

links-Chain : Chain two_boxes (some 0) links
links-Chain = (refl, refl, (refl, refl, refl))

abbrev name : ℕ → Name
name letter = record { string = letter ∷ []; inside = none }

get_box_misses_example : get_box 2 (some 0) (name 100) two_boxes ≡ done none two_boxes
get_box_misses_example =
    get_box_misses 2 two_boxes (some 0) links (name 100) links-Chain (omega arith) refl

delete_box_dangles_example :
    (heap' : List Cell) × (delete_box 2 (some 0) (98 ∷ []) two_boxes ≡ done (pos 0) heap')
    × (get_box 2 (some 0) (name 100) heap' ≡ fault)
unfolding strcmp_eq
delete_box_dangles_example =
    delete_box_dangles 2 2 two_boxes 0 (box 98 (some 1)) ((1, box 100 none) ∷ []) (98 ∷ [])
      (name 100) links-Chain (omega arith) (omega arith) refl

insert_box_lem_example :
    (heap' : List Cell) × (insert_box (some (box 0 none)) 2 (some 0) (name 99) 7 two_boxes
      ≡ done (pos 0) heap')
    × Chain heap' (some 0) (appended 2 (made (box 0 none) (99 ∷ []) 7) links)
insert_box_lem_example =
    insert_box_lem (box 0 none) 2 0 (box 98 (some 1)) ((1, box 100 none) ∷ []) (name 99) 7 two_boxes
      (omega arith) links-Chain (((λ e. omega (arith, e)), tt), (tt, tt)) (omega arith) refl

-- "c" goes between the two.
sort_run :
    insertion_sort (some (box 0 none)) 3 (some 0) (99 ∷ []) 7 1 2 two_boxes
    ≡ done (pos 0) (
        live (box 98 (some 2))
        ∷ live (box 100 none)
        ∷ live (record {
          box_name = 99 ∷ replicate 31 0;
          box_size = 7;
          n_publishers = 1;
          last = 0;
          n_subscribers = 2;
          next = some 1;
        })
        ∷ [])
unfolding insertion_sort sort_loop strcmp_lt poke
sort_run = refl

delete_run :
    delete_box 2 (some 0) (100 ∷ []) two_boxes ≡ done (pos 0) (live (box 98 none) ∷ freed ∷ [])
unfolding delete_box delete_loop strcmp_eq
delete_run = refl

string_run :
    box_to_string (box 98 none) (replicate 58 9)
    ≡ some (0 ∷ 98 ∷ replicate 31 0 ++ 5 ∷ replicate 7 0 ++ replicate 16 0 ++ 9 ∷ [])
unfolding box_to_string uint64_bytes poke
string_run = refl

delete_box_lem_example :
    (heap' : List Cell) × (delete_box 2 (some 0) (100 ∷ []) two_boxes ≡ done (pos 0) heap')
    × Chain heap' (some 0) (without (true ∷ []) 0 (box 98 (some 1)) ((1, box 100 none) ∷ []))
unfolding strcmp_eq
delete_box_lem_example =
    delete_box_lem 2 0 (box 98 (some 1)) ((1, box 100 none) ∷ []) (true ∷ []) (100 ∷ []) two_boxes
      (omega arith) links-Chain (((λ e. omega (arith, e)), tt), (tt, tt)) refl (refl, tt)

print_run : print_list 2 (some 0) two_boxes ≡ done (lines_of links) two_boxes
unfolding print_list
print_run = refl

destroy_list_lem_example : destroy_list 2 (some 0) two_boxes ≡ fault
destroy_list_lem_example = destroy_list_lem 2 two_boxes (some 0) links links-Chain (omega arith)

-- "c" into "b" and "d"
insertion_sort_lem_example :
    let ys =
      inserted
        (false ∷ [])
        2
        (sorted_box (box 0 none) (99 ∷ []) 7 1 2)
        0
        (box 98 (some 1))
        ((1, box 100 none) ∷ []) in
    (heap' : List Cell) × (insertion_sort (some (box 0 none)) 3 (some 0) (99 ∷ []) 7 1 2 two_boxes
      ≡ done (pos 0) heap')
    × Chain heap' (some 0) ys
    × Sorted ys
unfolding strcmp_lt
insertion_sort_lem_example =
    insertion_sort_lem (box 0 none) 3 0 (box 98 (some 1)) ((1, box 100 none) ∷ []) (false ∷ [])
      (99 ∷ []) 7 1 2 two_boxes (omega arith) links-Chain (((λ e. omega (arith, e)), tt), (tt, tt))
      (refl, tt) (omega arith, tt) (omega arith) refl refl (refl, tt)
