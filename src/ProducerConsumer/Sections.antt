-- ===== src/ProducerConsumer/Sections.antt =====
-- The sections under one lock each, of the calls of producer-consumer/producer-consumer.c, and what
-- the calls have to come to.
use projeto_so.Base.{
  ℕ, ◌+◌, ◌%◌, ◌^◌, ◌<◌, ◌≡◌, some, List, [], ◌∷◌, ◌++◌, ℤ, pos, is_minus_one, length, get_elem?,
  set, arith, ◌==◌, true, false, get_elem?-append_one, lt_of_get_elem?,
}
use projeto_so.ProducerConsumer.{
  Pointer, null, address, Cell, live, freed, PcQueue, World, Call, done, blocked, fault, Pthread,
  next_index, free_pointer, reserve, put, fetch,
}
use projeto_so.ProducerConsumer.Invariant.{released, Slots, IsValid, Contents}

-- No pthread call of this one reports -1.
pub record Works (t : Pthread) : Type 0 where
  pub lock_size : is_minus_one t.lock_size ≡ false
  pub unlock_size : is_minus_one t.unlock_size ≡ false
  pub lock_end : is_minus_one t.lock_end ≡ false
  pub unlock_end : is_minus_one t.unlock_end ≡ false
  pub signal : is_minus_one t.signal ≡ false

-- `put` into a slot of a well-formed queue: the old pointer can be freed.
pub put_lem :
    (q : PcQueue) (heap : List Cell) (x : List ℕ) (old : Pointer) (p : ℕ)
    → Slots q.pcq_buffer heap
    → get_elem? q.pcq_buffer q.pcq_head ≡ some old
    → 0 < q.pcq_capacity
    → put p (record { queue = q; heap = heap ++ live x ∷ [] })
      ≡ done tt (record {
        heap = released old (heap ++ live x ∷ []);
        queue = record q {
          pcq_buffer = set q.pcq_buffer q.pcq_head (address p);
          pcq_head = next_index q.pcq_head q.pcq_capacity;
        };
      })
unfolding put free_pointer
put_lem q heap x null p v at pos_c = ground (arith, at)
put_lem q heap x (address r) p v at pos_c =
    let (bytes, f) = v.live_slot q.pcq_head r at in
    let still : get_elem? (heap ++ live x ∷ []) r ≡ some (live bytes) =
      ground (arith, get_elem?-append_one heap (live x) r, lt_of_get_elem? heap r f) in
    ground (arith, at, still)

pub differ : (a b : ℕ) → a < b → (a == b) ≡ false
differ a b less = ground arith

pub put_twice :
    (w : World) (p r : ℕ)
    → get_elem? w.queue.pcq_buffer w.queue.pcq_head ≡ some (address r)
    → get_elem? w.heap r ≡ some freed
    → put p w ≡ fault
unfolding put free_pointer
put_twice w p r at gone = ground (arith, at, gone)

pub reserve_full :
    (w : World) → (w.queue.pcq_current_size == w.queue.pcq_capacity) ≡ true → reserve w ≡ blocked
unfolding reserve
reserve_full w full = rw full

pub reserve_room :
    (w : World)
    → (w.queue.pcq_current_size == w.queue.pcq_capacity) ≡ false
    → w.queue.pcq_current_size + 1 < 2 ^ 64
    → reserve w
      ≡ done tt
          (record w { queue = record w.queue { pcq_current_size = w.queue.pcq_current_size + 1 } })
unfolding reserve
reserve_room w room small =
    let wraps : (w.queue.pcq_current_size + 1) % 2 ^ 64 ≡ w.queue.pcq_current_size + 1 =
      omega arith in
    rw (room, wraps)

pub fetch_lem :
    (w : World) (elem : Pointer)
    → 0 < w.queue.pcq_capacity
    → get_elem? w.queue.pcq_buffer w.queue.pcq_tail ≡ some elem
    → fetch w
      ≡ done elem (record w {
        queue = record w.queue { pcq_tail = next_index w.queue.pcq_tail w.queue.pcq_capacity };
      })
unfolding fetch
fetch_lem w elem pos_c at = ground (arith, at)

-- what a call on a queue that holds `xs` has to come to
abbrev pub Dequeued : World → List (List ℕ) → Call Pointer → Type 0
Dequeued w [] c = c ≡ blocked
Dequeued w (x ∷ xs) c =
    (p : ℕ) × (w' : World) × (c ≡ done (address p) w')
    × (get_elem? w'.heap p ≡ some (live x))
    × (w'.heap ≡ w.heap)
    × IsValid w'
    × Contents w' xs

pub data Enqueued (w : World) (xs : List (List ℕ)) (x : List ℕ) (c : Call ℤ) : Type 0 where
  waits : length xs ≡ w.queue.pcq_capacity → c ≡ blocked → Enqueued w xs x c
  entered :
      length xs < w.queue.pcq_capacity
      → (w' : World) → c ≡ done (pos 0) w'
      → w'.queue.pcq_capacity ≡ w.queue.pcq_capacity
      → IsValid w'
      → Contents w' (xs ++ x ∷ [])
      → Enqueued w xs x c
