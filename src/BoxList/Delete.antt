-- ===== src/BoxList/Delete.antt =====
-- `deleteBox` of utils/common.c behind the first box.
use projeto_so.Base.{
  ℕ, zero, suc, ◌<◌, ◌≤◌, ◌≡◌, refl, sym, ◌∙◌, Bool, true, false, Option, some, List, [], ◌∷◌, ℤ,
  pos, minus_one, arith, length, get_elem?, set, get_elem?-set_ne, get_elem?-set_self,
  lt_of_get_elem?,
}
use projeto_so.Libc.CString.{CString, terminated, strcmp_eq}
use projeto_so.BoxList.{Box, Cell, live, freed, done, delete_loop, delete_box}
use projeto_so.BoxList.Chain.{Chain, NotIn, Distinct}

-- Every box has a name that `strcmp` can compare, and whether it is the name.
abbrev pub Compared : CString → List (ℕ × Box) → List Bool → Type 0
Compared name [] [] = Unit
Compared name ((p, b) ∷ xs) (same ∷ ms) =
    (strcmp_eq b.box_name (terminated name) ≡ some same) × Compared name xs ms
Compared name [] (same ∷ ms) = ⊥
Compared name (x ∷ xs) [] = ⊥

-- the boxes from `(p, b)` on without the first box behind it that carries the name
abbrev pub without : List Bool → ℕ → Box → List (ℕ × Box) → List (ℕ × Box)
without ms p b [] = (p, b) ∷ []
without [] p b (x ∷ xs) = (p, b) ∷ x ∷ xs
without (true ∷ ms) p b ((q, c) ∷ xs) = (p, record b { next = c.next }) ∷ xs
without (false ∷ ms) p b ((q, c) ∷ xs) = (p, b) ∷ without ms q c xs

-- 0 where some box carries the name, and -1 otherwise
abbrev pub code_of : List Bool → ℤ
code_of [] = minus_one
code_of (true ∷ ms) = pos 0
code_of (false ∷ ms) = code_of ms

-- A write elsewhere leaves a chain.
pub Chain-set :
    (heap : List Cell) (head : Option ℕ) (xs : List (ℕ × Box)) (a : ℕ) (v : Cell)
    → NotIn a xs
    → Chain heap head xs
    → Chain (set heap a v) head xs
Chain-set heap head [] a v n c = c
Chain-set heap head ((p, b) ∷ xs) a v n c =
    (c.0, get_elem?-set_ne heap a p v n.0 ∙ c.1, Chain-set heap b.next xs a v n.1 c.2)

module _ (name : CString) where
  delete_loop_lem :
      (rounds p : ℕ) (b : Box) (cur : Option ℕ) (xs : List (ℕ × Box)) (ms : List Bool)
      (heap : List Cell)
      → length xs ≤ rounds
      → get_elem? heap p ≡ some (live b)
      → b.next ≡ cur
      → Chain heap cur xs
      → NotIn p xs
      → Distinct xs
      → Compared name xs ms
      → (heap' : List Cell) × (delete_loop rounds cur (some p) name heap ≡ done (code_of ms) heap')
        × Chain heap' (some p) (without ms p b xs)
        × ((a : ℕ) → NotIn a ((p, b) ∷ xs) → get_elem? heap' a ≡ get_elem? heap a)
  unfolding delete_loop
  delete_loop_lem rounds p b cur [] [] heap h at n c d ds cs =
      (heap, rw c refl, (refl, at, n ∙ c), λ a na. refl)
  delete_loop_lem rounds p b cur [] (m ∷ ms) heap h at n c d ds cs = absurd cs
  delete_loop_lem rounds p b cur (x ∷ xs) [] heap h at n c d ds cs = absurd cs
  delete_loop_lem zero p b cur (x ∷ xs) (m ∷ ms) heap h at n c d ds cs = absurd (omega (arith, h))
  delete_loop_lem (suc rounds) p b cur ((q, e) ∷ xs) (true ∷ ms) heap h at n c d ds cs =
      let linked : Cell = live (record b { next = e.next }) in
      let there =
        get_elem?-set_ne (set heap p linked) q p freed (λ same. d.0 (sym same))
        ∙ get_elem?-set_self heap p linked (lt_of_get_elem? heap p at) in
      (
        set (set heap p linked) q freed,
        rw (c.0, delete_loop, c.1, cs.0, at) refl,
        (
          refl,
          there,
          Chain-set (set heap p linked) e.next xs q freed ds.0
              (Chain-set heap e.next xs p linked d.1 c.2),
        ),
        λ a na.
            get_elem?-set_ne (set heap p linked) q a freed (λ same. na.1.0 (sym same))
            ∙ get_elem?-set_ne heap p a linked (λ same. na.0 (sym same)),
      )
  delete_loop_lem (suc rounds) p b cur ((q, e) ∷ xs) (false ∷ ms) heap h at n c d ds cs =
      let (heap', run, chain, same) =
        delete_loop_lem rounds q e e.next xs ms heap (omega (arith, h)) c.1 refl c.2 ds.0 ds.1
          cs.1 in
      (
        heap',
        rw (c.0, delete_loop, c.1, cs.0) run,
        (refl, same p d ∙ at, coe 1 0 (i. Chain heap' ((n ∙ c.0) i) (without ms q e xs)) chain),
        λ a na. same a na.1,
      )

-- On a chain of boxes with different pointers, the first of which does not carry the name, where
-- `strcmp` can compare the name of each, and with no fewer rounds than boxes: where no box carries
-- the name `deleteBox` returns -1 and links the boxes as they were; otherwise it returns 0 and links
-- them without the first one that does.
pub delete_box_lem :
    (rounds h : ℕ) (b : Box) (xs : List (ℕ × Box)) (ms : List Bool) (name : CString)
    (heap : List Cell)
    → length xs < rounds
    → Chain heap (some h) ((h, b) ∷ xs)
    → Distinct ((h, b) ∷ xs)
    → strcmp_eq b.box_name (terminated name) ≡ some false
    → Compared name xs ms
    → (heap' : List Cell) × (delete_box rounds (some h) name heap ≡ done (code_of ms) heap')
      × Chain heap' (some h) (without ms h b xs)
unfolding delete_box delete_loop
delete_box_lem zero h b xs ms name heap less c d other cs = absurd (omega (arith, less))
delete_box_lem (suc rounds) h b xs ms name heap less c d other cs =
    let (heap', run, chain, same) =
      delete_loop_lem name rounds h b b.next xs ms heap (omega (arith, less)) c.1 refl c.2 d.0 d.1
        cs in
    (heap', rw (delete_box, delete_loop, c.1, other) run, chain)
