-- ===== src/ProducerConsumer/Invariant.antt =====
-- What a queue of producer-consumer/producer-consumer.c holds, and when it is well-formed.
use projeto_so.Base.{
  ℕ, ◌+◌, ◌-◌, ◌%◌, ◌^◌, ◌≤◌, ◌<◌, ◌≡◌, ◌≢◌, ◌⊎◌, ap, sym, refl, ◌∙◌, some, List, length, get_elem?,
  arith, ltb, ltb→lt, if◌then◌else◌, Bool-cases, inl, inr, ◌==◌, set, [], ◌∷◌, ◌++◌,
  lt_of_get_elem?, get_elem?-set, get_elem?-set_self, get_elem?-append_one,
}
use native.Mathlib.Nat.{mod_self, mod-eq_of_lt}
use projeto_so.ProducerConsumer.{Pointer, null, address, Cell, live, freed, World, next_index}

-- the slot that is `k` behind slot `i` in the circle
abbrev pub behind : ℕ → ℕ → ℕ → ℕ
behind capacity i k = if ltb (i + k) capacity then i + k else i + k - capacity

-- The slots that hold a pointer hold live memory, no two the same.
pub record Slots (buffer : List Pointer) (heap : List Cell) : Type 0 where
  pub live_slot :
      (i p : ℕ)
      → get_elem? buffer i ≡ some (address p)
      → (bytes : List ℕ) × (get_elem? heap p ≡ some (live bytes))
  pub distinct :
      (i j p : ℕ)
      → get_elem? buffer i ≡ some (address p)
      → get_elem? buffer j ≡ some (address p)
      → i ≡ j

pub record IsValid (w : World) : Type 0 where
  pub capacity_pos : 0 < w.queue.pcq_capacity
  pub capacity_small : w.queue.pcq_capacity < 2 ^ 63
  pub length_buffer : length w.queue.pcq_buffer ≡ w.queue.pcq_capacity
  pub size_fits : w.queue.pcq_current_size ≤ w.queue.pcq_capacity
  pub tail_in_range : w.queue.pcq_tail < w.queue.pcq_capacity
  pub head_at :
      w.queue.pcq_head ≡ behind w.queue.pcq_capacity w.queue.pcq_tail w.queue.pcq_current_size
  pub slots : Slots w.queue.pcq_buffer w.heap

-- Slot `i` points to memory that holds these bytes.
abbrev pub Element : List Pointer → List Cell → ℕ → List ℕ → Type 0
Element buffer heap i x =
    (p : ℕ) × (get_elem? buffer i ≡ some (address p)) × (get_elem? heap p ≡ some (live x))

-- The elements that the queue holds, the oldest first.
pub record Contents (w : World) (xs : List (List ℕ)) : Type 0 where
  pub count : length xs ≡ w.queue.pcq_current_size
  pub elements :
      (k : ℕ) (x : List ℕ)
      → get_elem? xs k ≡ some x
      → Element w.queue.pcq_buffer w.heap (behind w.queue.pcq_capacity w.queue.pcq_tail k) x

-- The index after `i` wraps at the capacity and nowhere else.
pub next_index-behind :
    (i capacity : ℕ)
    → i < capacity
    → capacity < 2 ^ 63
    → next_index i capacity ≡ behind capacity i 1
next_index-behind i capacity h z = elim (Bool-cases (ltb (i + 1) capacity)) [
  | inl inside ↦
      let small : (i + 1) % 2 ^ 64 ≡ i + 1 = omega arith in
      rw (inside, small) (mod-eq_of_lt (ltb→lt (i + 1) capacity inside))
  | inr at_end ↦
      let last : i + 1 ≡ capacity = ground arith in
      let whole : (i + 1) % 2 ^ 64 ≡ capacity = omega arith in
      let none_left : i + 1 - capacity ≡ 0 = omega arith in
      rw (at_end, whole, none_left) (mod_self capacity)
]

pub behind-lt : (capacity t k : ℕ) → t < capacity → k ≤ capacity → behind capacity t k < capacity
behind-lt capacity t k p q = ground arith

-- One further, from either end.
pub behind-behind_one :
    (capacity t k : ℕ)
    → t < capacity
    → k < capacity
    → behind capacity (behind capacity t 1) k ≡ behind capacity t (k + 1)
behind-behind_one capacity t k p q = ground arith

pub behind_one-behind :
    (capacity t k : ℕ)
    → t < capacity
    → k < capacity
    → behind capacity (behind capacity t k) 1 ≡ behind capacity t (k + 1)
behind_one-behind capacity t k p q = ground arith

pub behind-inj :
    (capacity t k l : ℕ)
    → t < capacity
    → k < capacity
    → l < capacity
    → behind capacity t k ≡ behind capacity t l
    → k ≡ l
behind-inj capacity t k l p q r e = ground arith

-- the heap once the slot's old pointer is freed
abbrev pub released : Pointer → List Cell → List Cell
released null heap = heap
released (address p) heap = set heap p freed

module _ (heap : List Cell) (x : List ℕ) where
  survives :
      (old : Pointer) (p : ℕ) (c : Cell)
      → old ≢ address p
      → get_elem? heap p ≡ some c
      → get_elem? (released old (heap ++ live x ∷ [])) p ≡ some c
  survives null p c ne e =
      ground (arith, get_elem?-append_one heap (live x) p, lt_of_get_elem? heap p e)
  survives (address q) p c ne e =
      let other : p ≢ q = λ same. ne (ap address (sym same)) in
      ground (
        arith,
        get_elem?-append_one heap (live x) p,
        lt_of_get_elem? heap p e,
        get_elem?-set (heap ++ live x ∷ []) q p freed,
      )

  new_there :
      (old : Pointer)
      → ((q : ℕ) → old ≡ address q → q < length heap)
      → get_elem? (released old (heap ++ live x ∷ [])) (length heap) ≡ some (live x)
  new_there null below = ground (arith, get_elem?-append_one heap (live x) (length heap))
  new_there (address q) below =
      let lt = below q refl in
      ground (
        arith,
        get_elem?-append_one heap (live x) (length heap),
        get_elem?-set (heap ++ live x ∷ []) q (length heap) freed,
      )

module _ (buffer : List Pointer) (heap : List Cell) (v : Slots buffer heap) (x : List ℕ) (i : ℕ)
    (old : Pointer) (at : get_elem? buffer i ≡ some old) where
  below : (j q : ℕ) → get_elem? buffer j ≡ some (address q) → q < length heap
  below j q e = lt_of_get_elem? heap q (v.live_slot j q e).1

  other_slot : (j p : ℕ) → j ≢ i → get_elem? buffer j ≡ some (address p) → old ≢ address p
  other_slot j p ne e same = ne (v.distinct j i p e (at ∙ ap some same))

  -- An element elsewhere survives the write of slot `i`.
  pub Element-put :
      (j : ℕ) (y : List ℕ)
      → j ≢ i
      → Element buffer heap j y
      → Element (set buffer i (address (length heap))) (released old (heap ++ live x ∷ [])) j y
  Element-put j y ne (p, e, f) = (
    p,
    ground (arith, get_elem?-set buffer i j (address (length heap))),
    survives heap x old p (live y) (other_slot j p ne e) f,
  )

  here : get_elem? (set buffer i (address (length heap))) i ≡ some (address (length heap))
  here = get_elem?-set_self buffer i (address (length heap)) (lt_of_get_elem? buffer i at)

  new_live : get_elem? (released old (heap ++ live x ∷ [])) (length heap) ≡ some (live x)
  new_live = new_there heap x old λ q same. below i q (at ∙ ap some same)

  -- The slot written holds the new element.
  pub Element-new :
      Element (set buffer i (address (length heap))) (released old (heap ++ live x ∷ [])) i x
  Element-new = (length heap, here, new_live)

  set_slot :
      (j p : ℕ)
      → get_elem? (set buffer i (address (length heap))) j ≡ some (address p)
      → ((j ≡ i) × (p ≡ length heap)) ⊎ ((j ≢ i) × (get_elem? buffer j ≡ some (address p)))
  set_slot j p e = elim (Bool-cases (j == i)) [
    | inl same ↦ inl (ground arith, ground (arith, here))
    | inr differ ↦
        inr (ground arith, ground (arith, get_elem?-set buffer i j (address (length heap))))
  ]

  pub Slots-put : Slots (set buffer i (address (length heap))) (released old (heap ++ live x ∷ []))
  Slots-put = record {
    live_slot = λ j p e. elim (set_slot j p e) [
      | inl (same, new) ↦ (x, rw new new_live)
      | inr (ne, e') ↦
          let (bytes, f) = v.live_slot j p e' in
          (bytes, survives heap x old p (live bytes) (other_slot j p ne e') f)
    ];
    distinct = λ j k p e f. elim (set_slot j p e) [
      | inl (same, new) ↦ elim (set_slot k p f) [
        | inl (same', new') ↦ same ∙ sym same'
        | inr (ne, f') ↦ absurd (omega (arith, below k p f'))
      ]
      | inr (ne, e') ↦ elim (set_slot k p f) [
        | inl (same', new') ↦ absurd (omega (arith, below j p e'))
        | inr (ne', f') ↦ v.distinct j k p e' f'
      ]
    ];
  }
