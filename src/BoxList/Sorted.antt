-- ===== src/BoxList/Sorted.antt =====
-- `insertionSort` of utils/common.c keeps a list of boxes in the order of their names.
pub mod Names
use projeto_so.Base.{
  ℕ, zero, suc, ◌<◌, ◌≡◌, ◌≢◌, refl, sym, ◌∙◌, Bool, true, false, none, some, List, [], ◌∷◌, ◌++◌,
  pos, arith, length, get_elem?, set, ◌==◌, Bool-cases, inl, inr, get_elem?-set_ne,
  get_elem?-set_self, lt_of_get_elem?, length-append,
}
use projeto_so.Libc.Memory.{poke}
use projeto_so.Libc.CString.{CString, IsCString, terminated}
use projeto_so.BoxList.{
  Box, Cell, live, done, box_name_length, strcmp_lt, sort_loop, insertion_sort,
}
use projeto_so.BoxList.Chain.{Chain, NotIn, Distinct, Chain-NotIn, Chain-append}
use projeto_so.BoxList.Delete.{Chain-set}
use projeto_so.BoxList.Sorted.Names.{strcmp_lt-asym, strcmp_lt-poke, poke-strcmp_lt}

-- No box stands behind one whose name is above its own.
abbrev pub IsSorted : Box → List (ℕ × Box) → Type 0
IsSorted b [] = Unit
IsSorted b ((q, c) ∷ xs) = (strcmp_lt c.box_name b.box_name ≡ some false) × IsSorted c xs

-- For each box, whether its name is below the new one.
abbrev pub Below : CString → List (ℕ × Box) → List Bool → Type 0
Below name [] [] = Unit
Below name ((p, b) ∷ xs) (less ∷ ms) =
    (strcmp_lt b.box_name (terminated name) ≡ some less) × Below name xs ms
Below name [] (less ∷ ms) = ⊥
Below name (x ∷ xs) [] = ⊥

-- The boxes from `(p, c)` on with the new one behind those that are below it.
abbrev pub inserted : List Bool → ℕ → Box → ℕ → Box → List (ℕ × Box) → List (ℕ × Box)
inserted ms new b p c [] =
    (p, record c { next = some new }) ∷ (new, record b { next = c.next }) ∷ []
inserted [] new b p c (x ∷ xs) = (p, c) ∷ x ∷ xs
inserted (true ∷ ms) new b p c ((q, d) ∷ xs) = (p, c) ∷ inserted ms new b q d xs
inserted (false ∷ ms) new b p c ((q, d) ∷ xs) =
    (p, record c { next = some new }) ∷ (new, record b { next = c.next }) ∷ (q, d) ∷ xs

module _ (name : CString) (new : ℕ) (b : Box) where
  -- the heap once the new box is linked behind `(p, c)`
  abbrev linked : ℕ → Box → List Cell → List Cell
  linked p c heap =
      set (set heap new (live (record b { next = c.next }))) p (live (record c { next = some new }))

  linked-Chain :
      (p : ℕ) (c : Box) (xs : List (ℕ × Box)) (heap : List Cell)
      → new < length heap
      → get_elem? heap p ≡ some (live c)
      → Chain heap c.next xs
      → NotIn p xs
      → new ≢ p
      → NotIn new xs
      → Chain
          (linked p c heap)
          (some p)
          ((p, record c { next = some new }) ∷ (new, record b { next = c.next }) ∷ xs)
  linked-Chain p c xs heap less at ch n np nn =
      let placed : Cell = live (record b { next = c.next }) in
      let front : Cell = live (record c { next = some new }) in
      let kept = get_elem?-set_ne heap new p placed np ∙ at in
      (
        refl,
        get_elem?-set_self (set heap new placed) p front
            (lt_of_get_elem? (set heap new placed) p kept),
        (
          refl,
          get_elem?-set_ne (set heap new placed) p new front (λ e. np (sym e))
              ∙ get_elem?-set_self heap new placed less,
          Chain-set (set heap new placed) c.next xs p front n
              (Chain-set heap c.next xs new placed nn ch),
        ),
      )

  linked-elsewhere :
      (p : ℕ) (c : Box) (heap : List Cell) (a : ℕ)
      → new ≢ a
      → a ≢ p
      → get_elem? (linked p c heap) a ≡ get_elem? heap a
  linked-elsewhere p c heap a na pa =
      let placed : Cell = live (record b { next = c.next }) in
      get_elem?-set_ne (set heap new placed) p a (live (record c { next = some new }))
        (λ e. pa (sym e))
      ∙ get_elem?-set_ne heap new a placed na

  sort_loop_lem :
      (rounds p : ℕ) (c : Box) (xs : List (ℕ × Box)) (ms : List Bool) (heap : List Cell)
      → length xs < rounds
      → new < length heap
      → get_elem? heap p ≡ some (live c)
      → Chain heap c.next xs
      → NotIn p xs
      → Distinct xs
      → new ≢ p
      → NotIn new xs
      → Below name xs ms
      → (heap' : List Cell) × (sort_loop rounds p name new b heap ≡ done (pos 0) heap')
        × Chain heap' (some p) (inserted ms new b p c xs)
        × ((a : ℕ) → new ≢ a → NotIn a ((p, c) ∷ xs) → get_elem? heap' a ≡ get_elem? heap a)
  unfolding sort_loop
  sort_loop_lem zero p c xs ms heap h less at ch n d np nn bl = absurd (omega (arith, h))
  sort_loop_lem (suc rounds) p c [] [] heap h less at ch n d np nn bl = (
    linked p c heap,
    ground (arith, at, ch),
    linked-Chain p c [] heap less at ch n np nn,
    λ a na pa. linked-elsewhere p c heap a na pa.0,
  )
  sort_loop_lem (suc rounds) p c [] (m ∷ ms) heap h less at ch n d np nn bl = absurd bl
  sort_loop_lem (suc rounds) p c (x ∷ xs) [] heap h less at ch n d np nn bl = absurd bl
  sort_loop_lem (suc rounds) p c ((q, e) ∷ xs) (false ∷ ms) heap h less at ch n d np nn bl = (
    linked p c heap,
    ground (arith, at, ch.0, ch.1, bl.0),
    linked-Chain p c ((q, e) ∷ xs) heap less at ch n np nn,
    λ a na pa. linked-elsewhere p c heap a na pa.0,
  )
  sort_loop_lem (suc rounds) p c ((q, e) ∷ xs) (true ∷ ms) heap h less at ch n d np nn bl =
      let (heap', run, chain, same) =
        sort_loop_lem rounds q e xs ms heap (omega (arith, h)) less ch.1 ch.2 d.0 d.1 nn.0 nn.1
          bl.1 in
      (
        heap',
        rw (sort_loop, at, ch.0, ch.1, bl.0) run,
        (
          refl,
          same p np n ∙ at,
          coe 1 0 (i. Chain heap' (ch.0 i) (inserted ms new b q e xs)) chain,
        ),
        λ a na pa. same a na pa.1,
      )

abbrev pub Sorted : List (ℕ × Box) → Type 0
Sorted [] = Unit
Sorted ((p, c) ∷ xs) = IsSorted c xs

-- One more box in front, whose name is not above that of the first.
IsSorted-inserted :
    (ms : List Bool) (new : ℕ) (b a : Box) (q : ℕ) (d : Box) (xs : List (ℕ × Box))
    → strcmp_lt d.box_name a.box_name ≡ some false
    → Sorted (inserted ms new b q d xs)
    → IsSorted a (inserted ms new b q d xs)
IsSorted-inserted ms new b a q d [] z s = (z, s)
IsSorted-inserted [] new b a q d (x ∷ xs) z s = (z, s)
IsSorted-inserted (true ∷ ms) new b a q d (x ∷ xs) z s = (z, s)
IsSorted-inserted (false ∷ ms) new b a q d (x ∷ xs) z s = (z, s)

-- a box of this name
abbrev Carries : CString → Box → Type 0
Carries name b =
    ((ys : List ℕ) → strcmp_lt b.box_name ys ≡ strcmp_lt (terminated name) ys)
    × ((ys : List ℕ) → strcmp_lt ys b.box_name ≡ strcmp_lt ys (terminated name))

Sorted-inserted :
    (name : CString) (new : ℕ) (b : Box) (p : ℕ) (c : Box) (xs : List (ℕ × Box)) (ms : List Bool)
    → Carries name b
    → strcmp_lt (terminated name) c.box_name ≡ some false
    → IsSorted c xs
    → Below name xs ms
    → Sorted (inserted ms new b p c xs)
Sorted-inserted name new b p c [] ms is z s bl = (is.0 c.box_name ∙ z, tt)
Sorted-inserted name new b p c (x ∷ xs) [] is z s bl = absurd bl
Sorted-inserted name new b p c ((q, d) ∷ xs) (false ∷ ms) is z s bl =
    (is.0 c.box_name ∙ z, (is.1 d.box_name ∙ bl.0, s.1))
Sorted-inserted name new b p c ((q, d) ∷ xs) (true ∷ ms) is z s bl =
    IsSorted-inserted ms new b c q d xs s.0 (
      Sorted-inserted name new b q d xs ms is (strcmp_lt-asym d.box_name (terminated name) bl.0) s.1
        bl.1)

-- the box that `insertionSort` makes in memory that held `old`
abbrev pub sorted_box : Box → CString → ℕ → ℕ → ℕ → Box
sorted_box old name size publishers subscribers = record {
  box_name = poke old.box_name 0 (terminated name);
  box_size = size;
  n_publishers = publishers;
  last = 0;
  n_subscribers = subscribers;
  next = none;
}

insertion_sort_fits :
    (old : Box) (rounds h : ℕ) (c : Box) (name : CString) (size publishers subscribers : ℕ)
    (heap : List Cell)
    → length name < box_name_length
    → get_elem? heap h ≡ some (live c)
    → strcmp_lt (terminated name) c.box_name ≡ some false
    → let b = sorted_box old name size publishers subscribers in
      insertion_sort (some old) rounds (some h) name size publishers subscribers heap
      ≡ sort_loop rounds h name (length heap) b (heap ++ live b ∷ [])
unfolding insertion_sort
insertion_sort_fits old rounds h c name size publishers subscribers heap short at z =
    ground (arith, short, at, z)

-- On a chain of boxes with different pointers whose names are in order, with more rounds than boxes
-- behind the first, memory from `malloc`, and a name that is shorter than BOX_NAME_LENGTH, not below
-- that of the first box and comparable with the others: `insertionSort` returns 0, and the new box
-- is linked behind the boxes whose names are below its own, which leaves the names in order.
pub insertion_sort_lem :
    (old : Box) (rounds h : ℕ) (c : Box) (xs : List (ℕ × Box)) (ms : List Bool) (name : CString)
    (size publishers subscribers : ℕ) (heap : List Cell)
    → length xs < rounds
    → Chain heap (some h) ((h, c) ∷ xs)
    → Distinct ((h, c) ∷ xs)
    → IsSorted c xs
    → IsCString name
    → length name < box_name_length
    → length old.box_name ≡ box_name_length
    → strcmp_lt (terminated name) c.box_name ≡ some false
    → Below name xs ms
    → let ys = inserted ms (length heap) (sorted_box old name size publishers subscribers) h c xs in
      (heap' : List Cell) × (insertion_sort
          (some old)
          rounds
          (some h)
          name
          size
          publishers
          subscribers
          heap
        ≡ done (pos 0) heap')
      × Chain heap' (some h) ys
      × Sorted ys
insertion_sort_lem old rounds h c xs ms name size publishers subscribers heap less ch d s is short
      whole z bl =
    let b : Box = sorted_box old name size publishers subscribers in
    let new = Chain-NotIn heap (some h) ((h, c) ∷ xs) ch in
    let grown = Chain-append heap (live b ∷ []) (some h) ((h, c) ∷ xs) ch in
    let (heap', run, chain, same) =
      sort_loop_lem name (length heap) b rounds h c xs ms (heap ++ live b ∷ []) less
        (omega (arith, length-append heap (live b ∷ []))) grown.1 grown.2 d.0 d.1 new.0 new.1 bl in
    (
      heap',
      insertion_sort_fits old rounds h c name size publishers subscribers heap short ch.1 z ∙ run,
      chain,
      Sorted-inserted name (length heap) b h c xs ms
          (
            (λ ys. strcmp_lt-poke name old.box_name ys is (omega (arith, short, whole))),
            (λ ys. poke-strcmp_lt name old.box_name ys is (omega (arith, short, whole))),
          )
          z s bl,
    )
