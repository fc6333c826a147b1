-- ===== src/BoxList.antt =====
-- The linked list of boxes of utils/common.c, on an explicit heap.
pub mod Chain
pub mod Delete
pub mod Walks
pub mod Sorted
mod Tests
use projeto_so.Base.{
  ℕ, zero, suc, ◌+◌, ◌≤◌, Bool, true, false, Option, none, some, List, [], ◌∷◌, ◌++◌, ℤ, pos,
  minus_one, length, get_elem?, set, ltb, leb, ◌==◌, if◌then◌else◌, ◌*◌, ◌/◌, ◌%◌, ◌^◌, not,
}
use projeto_so.Libc.Memory.{poke}
use projeto_so.Libc.CString.{CString, terminated, strcmp_eq}

-- BOX_NAME_LENGTH
abbrev pub box_name_length : ℕ
box_name_length = 32

-- A pointer to a box is the number of its memory; `none` is NULL.
pub record Box : Type 0 where
  pub box_name : List ℕ
  pub box_size : ℕ
  pub n_publishers : ℕ
  pub last : ℕ
  pub n_subscribers : ℕ
  pub next : Option ℕ

pub data Cell : Type 0 where
  live : Box → Cell
  freed : Cell

-- A name that is handed to a call: the string, and the box whose `box_name` it points to, if any.
pub record Name : Type 0 where
  pub string : CString
  pub inside : Option ℕ

-- `fault` is undefined behaviour; `endless` is a loop that has used up its rounds.
pub data Outcome (A : Type 0) : Type 0 where
  done : A → List Cell → Outcome A
  fault : Outcome A
  endless : Outcome A

-- `current->box_name == box_name`, which compares pointers
abbrev pub same_pointer : Name → ℕ → Bool
same_pointer name p = elim name.inside [ none ↦ false | some q ↦ p == q ]

unfoldable pub get_box : ℕ → Option ℕ → Name → List Cell → Outcome (Option ℕ)
get_box rounds none name heap = done none heap
get_box zero (some p) name heap = endless
get_box (suc rounds) (some p) name heap = elim (get_elem? heap p) [
  | none ↦ fault
  | some freed ↦ fault
  | some (live b) ↦
      let rest = get_box rounds b.next name heap in
      if same_pointer name p then done (some p) heap else rest
]

-- The new box, in memory that `malloc` returned with the contents `old`; `strcpy` must fit.
abbrev pub new_box : Box → CString → ℕ → ℕ → ℕ → ℕ → Option Box
new_box old name size publishers subscribers last =
    if ltb (length name) box_name_length
    then some (record {
      box_name = poke old.box_name 0 (terminated name);
      box_size = size;
      n_publishers = publishers;
      n_subscribers = subscribers;
      last = last;
      next = none;
    })
    else none

-- The loop of `insertBox` to the last box, and what follows it. The new box is number `new`.
unfoldable pub insert_loop : ℕ → ℕ → Name → ℕ → List Cell → Outcome ℤ
insert_loop zero current name new heap = endless
insert_loop (suc rounds) current name new heap = elim (get_elem? heap current) [
  | none ↦ fault
  | some freed ↦ fault
  | some (live b) ↦ elim b.next [
    | none ↦ done (pos 0) (set heap current (live (record b { last = 0; next = some new })))
    | some next ↦
        let rest = insert_loop rounds next name new heap in
        if same_pointer name current then done minus_one (set heap new freed) else rest
  ]
]

-- `malloced` is what the memory that malloc returned holds; `none` is NULL. The assignment to the
-- parameter `head` is not seen by the caller.
unfoldable pub insert_box : Option Box → ℕ → Option ℕ → Name → ℕ → List Cell → Outcome ℤ
insert_box none rounds head name size heap = done minus_one heap
insert_box (some old) rounds head name size heap = elim (new_box old name.string size 0 0 1) [
  | none ↦ fault
  | some b ↦ elim head [
    | none ↦ done (pos 0) (heap ++ live b ∷ [])
    | some h ↦ insert_loop rounds h name (length heap) (heap ++ live b ∷ [])
  ]
]

-- The loop of `deleteBox`, and what follows it.
unfoldable pub delete_loop : ℕ → Option ℕ → Option ℕ → CString → List Cell → Outcome ℤ
delete_loop rounds none prev name heap = done minus_one heap
delete_loop zero (some c) prev name heap = endless
delete_loop (suc rounds) (some c) prev name heap = elim (get_elem? heap c) [
  | none ↦ fault
  | some freed ↦ fault
  | some (live b) ↦
      let rest = delete_loop rounds b.next (some c) name heap in
      elim (strcmp_eq b.box_name (terminated name)) [
        | none ↦ fault
        | some false ↦ rest
        | some true ↦ elim prev [
          | none ↦ done (pos 0) (set heap c freed)
          | some q ↦ elim (get_elem? heap q) [
            | none ↦ fault
            | some freed ↦ fault
            | some (live a) ↦
                done (pos 0) (set (set heap q (live (record a { next = b.next }))) c freed)
          ]
        ]
      ]
]

unfoldable pub delete_box : ℕ → Option ℕ → CString → List Cell → Outcome ℤ
delete_box rounds head name heap = delete_loop rounds head none name heap

-- `strcmp(p, q) < 0`
unfoldable pub strcmp_lt : List ℕ → List ℕ → Option Bool
strcmp_lt [] ys = none
strcmp_lt (x ∷ xs) [] = none
strcmp_lt (x ∷ xs) (y ∷ ys) =
    let rest = strcmp_lt xs ys in
    if x == y then (if x == 0 then some false else rest) else some (ltb x y)

-- The loop of `insertionSort` that looks for the place, and the two assignments behind it.
unfoldable pub sort_loop : ℕ → ℕ → CString → ℕ → Box → List Cell → Outcome ℤ
sort_loop zero current name new b heap = endless
sort_loop (suc rounds) current name new b heap = elim (get_elem? heap current) [
  | none ↦ fault
  | some freed ↦ fault
  | some (live c) ↦
      let here = done (pos 0) (
        set (set heap new (live (record b { next = c.next }))) current
          (live (record c { next = some new }))) in
      elim c.next [
        | none ↦ here
        | some next ↦
            let rest = sort_loop rounds next name new b heap in
            elim (get_elem? heap next) [
              | none ↦ fault
              | some freed ↦ fault
              | some (live d) ↦ elim (strcmp_lt d.box_name (terminated name)) [
                | none ↦ fault
                | some true ↦ rest
                | some false ↦ here
              ]
            ]
      ]
]

unfoldable pub insertion_sort :
    Option Box → ℕ → Option ℕ → CString → ℕ → ℕ → ℕ → List Cell → Outcome ℤ
insertion_sort none rounds head name size publishers subscribers heap = done minus_one heap
insertion_sort (some old) rounds head name size publishers subscribers heap =
    elim (new_box old name size publishers subscribers 0) [
      | none ↦ fault
      | some b ↦ elim head [
        | none ↦ done (pos 0) (heap ++ live b ∷ [])
        | some h ↦ elim (get_elem? heap h) [
          | none ↦ fault
          | some freed ↦ fault
          | some (live c) ↦ elim (strcmp_lt (terminated name) c.box_name) [
            | none ↦ fault
            | some true ↦ done (pos 0) (heap ++ live (record b { next = some h }) ∷ [])
            | some false ↦ sort_loop rounds h name (length heap) b (heap ++ live b ∷ [])
          ]
        ]
      ]
    ]

-- the eight bytes of a uint64_t, low byte first
unfoldable pub uint64_bytes : ℕ → List ℕ
uint64_bytes n =
    (n % 256)
    ∷ (n / 2 ^ 8 % 256)
    ∷ (n / 2 ^ 16 % 256)
    ∷ (n / 2 ^ 24 % 256)
    ∷ (n / 2 ^ 32 % 256)
    ∷ (n / 2 ^ 40 % 256)
    ∷ (n / 2 ^ 48 % 256)
    ∷ (n / 2 ^ 56 % 256)
    ∷ []

-- `none` where the box does not fit the buffer
unfoldable pub box_to_string : Box → List ℕ → Option (List ℕ)
box_to_string box buffer =
    let b1 = poke buffer 0 (box.last ∷ []) in
    let b2 = poke b1 1 box.box_name in
    let b3 = poke b2 (1 + box_name_length) (uint64_bytes box.box_size) in
    let b4 = poke b3 (1 + box_name_length + 8) (uint64_bytes box.n_publishers) in
    let b5 = poke b4 (1 + box_name_length + 16) (uint64_bytes box.n_subscribers) in
    if leb (1 + box_name_length + 24) (length buffer) then some b5 else none
