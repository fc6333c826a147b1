-- ===== src/BoxList/Chain.antt =====
-- The boxes that a pointer leads to, and what the loops of utils/common.c do with them.
use projeto_so.Base.{
  ℕ, zero, suc, ◌≤◌, ◌<◌, ◌≡◌, ◌≢◌, refl, sym, ◌∙◌, true, Option, none, some, List, [], ◌∷◌, ◌++◌,
  pos, arith, length, get_elem?, set, get_elem?-set_ne, get_elem?-set_self, lt_of_get_elem?,
  get_elem?-append_one, get_elem?-append_left,
}
use projeto_so.Libc.Memory.{poke}
use projeto_so.Libc.CString.{CString, terminated, strcmp_eq}
use projeto_so.BoxList.{
  Box, Cell, live, freed, Name, done, fault, get_box, insert_loop, insert_box, delete_loop,
  delete_box, box_name_length,
}

-- From `head` on the boxes `xs` are linked, each with its pointer.
abbrev pub Chain : List Cell → Option ℕ → List (ℕ × Box) → Type 0
Chain heap head [] = head ≡ none
Chain heap head ((p, b) ∷ xs) =
    (head ≡ some p) × (get_elem? heap p ≡ some (live b)) × Chain heap b.next xs

abbrev pub NotIn : ℕ → List (ℕ × Box) → Type 0
NotIn a [] = Unit
NotIn a ((p, b) ∷ xs) = (a ≢ p) × NotIn a xs

abbrev pub Distinct : List (ℕ × Box) → Type 0
Distinct [] = Unit
Distinct ((p, b) ∷ xs) = NotIn p xs × Distinct xs

-- On a chain of boxes, with no fewer rounds than boxes and a name that does not point into a box:
-- `getBox` returns NULL, whatever names the boxes carry, and changes nothing.
pub get_box_misses :
    (rounds : ℕ) (heap : List Cell) (head : Option ℕ) (xs : List (ℕ × Box)) (name : Name)
    → Chain heap head xs
    → length xs ≤ rounds
    → name.inside ≡ none
    → get_box rounds head name heap ≡ done none heap
unfolding get_box
get_box_misses zero heap head [] name c h i = rw c refl
get_box_misses (suc rounds) heap head [] name c h i = rw c refl
get_box_misses zero heap head (x ∷ xs) name c h i = absurd (omega (arith, h))
get_box_misses (suc rounds) heap head ((p, b) ∷ xs) name c h i =
    let rest = get_box_misses rounds heap b.next xs name c.2 (omega (arith, h)) i in
    ground (arith, c.0, c.1, i, rest)

-- On a chain of boxes, with at least one round for each call, where the first box carries the name:
-- `deleteBox` returns 0, and a call of `getBox` with the caller's pointer, which still is that of
-- the first box, runs into undefined behaviour.
pub delete_box_dangles :
    (rounds again : ℕ) (heap : List Cell) (h : ℕ) (b : Box) (xs : List (ℕ × Box)) (name : CString)
    (other : Name)
    → Chain heap (some h) ((h, b) ∷ xs)
    → 0 < rounds
    → 0 < again
    → strcmp_eq b.box_name (terminated name) ≡ some true
    → (heap' : List Cell) × (delete_box rounds (some h) name heap ≡ done (pos 0) heap')
      × (get_box again (some h) other heap' ≡ fault)
unfolding delete_box delete_loop get_box
delete_box_dangles zero again heap h b xs name other c r a e = absurd (omega (arith, r))
delete_box_dangles (suc rounds) zero heap h b xs name other c r a e = absurd (omega (arith, a))
delete_box_dangles (suc rounds) (suc again) heap h b xs name other c r a e = (
  set heap h freed,
  ground (arith, c.1, e),
  ground (arith, get_elem?-set_self heap h freed (lt_of_get_elem? heap h c.1)),
)

-- the boxes with a new one at the end, the last so far marked as such no more
abbrev pub appended : ℕ → Box → List (ℕ × Box) → List (ℕ × Box)
appended new b [] = (new, b) ∷ []
appended new b ((p, c) ∷ []) = (p, record c { last = 0; next = some new }) ∷ (new, b) ∷ []
appended new b (x ∷ y ∷ xs) = x ∷ appended new b (y ∷ xs)

module _ (name : Name) (foreign : name.inside ≡ none) (new : ℕ) (b : Box) (heap : List Cell)
    (at_new : get_elem? heap new ≡ some (live b)) (is_end : b.next ≡ none) where
  insert_loop_lem :
      (rounds p : ℕ) (c : Box) (xs : List (ℕ × Box))
      → length xs < rounds
      → Chain heap (some p) ((p, c) ∷ xs)
      → Distinct ((p, c) ∷ xs)
      → NotIn new ((p, c) ∷ xs)
      → (heap' : List Cell) × (insert_loop rounds p name new heap ≡ done (pos 0) heap')
        × Chain heap' (some p) (appended new b ((p, c) ∷ xs))
        × ((a : ℕ) → NotIn a ((p, c) ∷ xs) → get_elem? heap' a ≡ get_elem? heap a)
  unfolding insert_loop
  insert_loop_lem zero p c xs h ch d n = absurd (omega (arith, h))
  insert_loop_lem (suc rounds) p c [] h ch d n =
      let here =
        get_elem?-set_self heap p (live (record c { last = 0; next = some new }))
          (lt_of_get_elem? heap p ch.1) in
      (
        set heap p (live (record c { last = 0; next = some new })),
        ground (arith, ch.1, ch.2),
        (refl, here, (refl, get_elem?-set_ne heap p new _ (λ e. n.0 (sym e)) ∙ at_new, is_end)),
        λ a na. get_elem?-set_ne heap p a _ (λ e. na.0 (sym e)),
      )
  insert_loop_lem (suc rounds) p c ((q, c') ∷ xs) h ch d n =
      let (heap', run, chain, same) =
        insert_loop_lem rounds q c' xs (omega (arith, h)) (refl, ch.2.1, ch.2.2) d.1 n.1 in
      (
        heap',
        ground (arith, ch.1, ch.2.0, foreign, run),
        (
          refl,
          same p d.0 ∙ ch.1,
          coe 1 0 (i. Chain heap' (ch.2.0 i) (appended new b ((q, c') ∷ xs))) chain,
        ),
        λ a na. same a na.1,
      )

pub Chain-NotIn :
    (heap : List Cell) (head : Option ℕ) (xs : List (ℕ × Box))
    → Chain heap head xs
    → NotIn (length heap) xs
Chain-NotIn heap head [] c = tt
Chain-NotIn heap head ((p, b) ∷ xs) c =
    ((λ e. omega (arith, e, lt_of_get_elem? heap p c.1)), Chain-NotIn heap b.next xs c.2)

pub Chain-append :
    (heap cells : List Cell) (head : Option ℕ) (xs : List (ℕ × Box))
    → Chain heap head xs
    → Chain (heap ++ cells) head xs
Chain-append heap cells head [] c = c
Chain-append heap cells head ((p, b) ∷ xs) c =
    (c.0, get_elem?-append_left heap cells p (live b) c.1, Chain-append heap cells b.next xs c.2)

-- the box that `insertBox` makes in memory that held `old`
abbrev pub made : Box → CString → ℕ → Box
made old name size = record {
  box_name = poke old.box_name 0 (terminated name);
  box_size = size;
  n_publishers = 0;
  n_subscribers = 0;
  last = 1;
  next = none;
}

insert_box_fits :
    (old : Box) (rounds p : ℕ) (name : Name) (size : ℕ) (heap : List Cell)
    → length name.string < box_name_length
    → insert_box (some old) rounds (some p) name size heap
      ≡ insert_loop rounds p name (length heap) (heap ++ live (made old name.string size) ∷ [])
unfolding insert_box
insert_box_fits old rounds p name size heap short = ground (arith, short)

pub insert_box_empty :
    (old : Box) (rounds : ℕ) (name : Name) (size : ℕ) (heap : List Cell)
    → length name.string < box_name_length
    → insert_box (some old) rounds none name size heap
      ≡ done (pos 0) (heap ++ live (made old name.string size) ∷ [])
unfolding insert_box
insert_box_empty old rounds name size heap short = ground (arith, short)

-- On a chain of boxes with different pointers that is not empty, with more rounds than boxes
-- behind the first, memory from `malloc`, and a name that is shorter than BOX_NAME_LENGTH and does
-- not point into a box: `insertBox` returns 0 and the new box, marked as the last one, is linked
-- behind the others, whatever names they carry.
pub insert_box_lem :
    (old : Box) (rounds p : ℕ) (c : Box) (xs : List (ℕ × Box)) (name : Name) (size : ℕ)
    (heap : List Cell)
    → length xs < rounds
    → Chain heap (some p) ((p, c) ∷ xs)
    → Distinct ((p, c) ∷ xs)
    → length name.string < box_name_length
    → name.inside ≡ none
    → (heap' : List Cell) × (insert_box (some old) rounds (some p) name size heap
        ≡ done (pos 0) heap')
      × Chain heap' (some p) (appended (length heap) (made old name.string size) ((p, c) ∷ xs))
insert_box_lem old rounds p c xs name size heap h ch d short foreign =
    let b : Box = made old name.string size in
    let (heap', run, chain, _) =
      insert_loop_lem name foreign (length heap) b (heap ++ live b ∷ [])
        (ground (arith, get_elem?-append_one heap (live b) (length heap))) refl rounds p c xs h
        (Chain-append heap (live b ∷ []) (some p) ((p, c) ∷ xs) ch) d
        (Chain-NotIn heap (some p) ((p, c) ∷ xs) ch) in
    (heap', insert_box_fits old rounds p name size heap short ∙ run, chain)
