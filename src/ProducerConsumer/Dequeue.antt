-- ===== src/ProducerConsumer/Dequeue.antt =====
-- `pcq_dequeue` (producer-consumer/producer-consumer.c) against a first-in first-out list.
use projeto_so.Base.{
  ℕ, ◌+◌, ◌-◌, ◌≤◌, ◌<◌, ◌≡◌, refl, sym, ap, ◌∙◌, some, List, [], ◌∷◌, get_elem?, arith, ◌==◌, true,
  false, lt_of_get_elem?,
}
use projeto_so.ProducerConsumer.{
  address, live, done, World, Pthread, next_index, claim, pcq_dequeue,
}
use projeto_so.ProducerConsumer.Invariant.{
  behind, behind-lt, behind-behind_one, IsValid, Contents, next_index-behind,
}
use projeto_so.ProducerConsumer.Sections.{Works, fetch_lem, Dequeued}

module _ (w : World) (v : IsValid w) (t : Pthread) (works : Works t) where
  abbrev capacity : ℕ
  capacity = w.queue.pcq_capacity

  -- the queue after its oldest element was taken
  abbrev pub dequeued : World
  dequeued = record w {
    queue = record w.queue {
      pcq_current_size = w.queue.pcq_current_size - 1;
      pcq_tail = next_index w.queue.pcq_tail w.queue.pcq_capacity;
    };
  }

  tail_step : next_index w.queue.pcq_tail capacity ≡ behind capacity w.queue.pcq_tail 1
  tail_step = next_index-behind w.queue.pcq_tail capacity v.tail_in_range v.capacity_small

  dequeued-IsValid : 0 < w.queue.pcq_current_size → IsValid dequeued
  dequeued-IsValid some_left = record {
    capacity_pos = v.capacity_pos;
    capacity_small = v.capacity_small;
    length_buffer = v.length_buffer;
    size_fits = omega (arith, v.size_fits);
    tail_in_range =
        rw tail_step
          (behind-lt capacity w.queue.pcq_tail 1 v.tail_in_range (omega (arith, v.capacity_pos)));
    head_at = rw tail_step (
        v.head_at
        ∙ ap (behind capacity w.queue.pcq_tail) (omega (arith, some_left))
        ∙ sym (
            behind-behind_one capacity w.queue.pcq_tail (w.queue.pcq_current_size - 1)
              v.tail_in_range (omega (arith, v.size_fits))));
    slots = v.slots;
  }

  dequeued-Contents : (x : List ℕ) (xs : List (List ℕ)) → Contents w (x ∷ xs) → Contents dequeued xs
  dequeued-Contents x xs c = record {
    count = omega (arith, c.count);
    elements = λ k y at.
        let less : k + 1 ≤ w.queue.pcq_current_size =
          omega (arith, c.count, lt_of_get_elem? xs k at) in
        rw
          (
            tail_step,
            behind-behind_one capacity w.queue.pcq_tail k v.tail_in_range
                (omega (arith, v.size_fits)),
          )
          (c.elements (k + 1) y (ground (arith, at)));
  }

  -- The oldest element is in the slot at the tail.
  pub dequeue_run :
      (x : List ℕ) (xs : List (List ℕ))
      → Contents w (x ∷ xs)
      → (p : ℕ) × (get_elem? w.queue.pcq_buffer w.queue.pcq_tail ≡ some (address p))
        × (get_elem? w.heap p ≡ some (live x))
        × (pcq_dequeue t w ≡ done (address p) dequeued)
  unfolding pcq_dequeue claim
  dequeue_run x xs c =
      let (p, e, f) = c.elements 0 x refl in
      let some_left : 0 < w.queue.pcq_current_size = omega (arith, c.count) in
      let at_tail : get_elem? w.queue.pcq_buffer w.queue.pcq_tail ≡ some (address p) =
        ground (arith, e, v.tail_in_range) in
      let not_empty : (w.queue.pcq_current_size == 0) ≡ false = ground arith in
      (
        p,
        at_tail,
        f,
        rw (
          works.lock_size,
          not_empty,
          works.unlock_size,
          works.lock_end,
          fetch_lem
              (record w {
                queue = record w.queue { pcq_current_size = w.queue.pcq_current_size - 1 };
              })
              (address p) v.capacity_pos at_tail,
          works.unlock_end,
          works.signal,
        ),
      )

  dequeue_some :
      (x : List ℕ) (xs : List (List ℕ))
      → Contents w (x ∷ xs)
      → Dequeued w (x ∷ xs) (pcq_dequeue t w)
  dequeue_some x xs c =
      let (p, at_tail, f, run) = dequeue_run x xs c in
      let some_left : 0 < w.queue.pcq_current_size = omega (arith, c.count) in
      (p, dequeued, run, f, refl, dequeued-IsValid some_left, dequeued-Contents x xs c)

  -- On a well-formed queue, with pthread calls that do not report -1: where the queue is empty
  -- `pcq_dequeue` waits; otherwise it returns a pointer to live memory that holds the oldest
  -- element, no memory changes, and the queue stays well-formed and holds the other elements.
  pub pcq_dequeue_lem : (xs : List (List ℕ)) → Contents w xs → Dequeued w xs (pcq_dequeue t w)
  unfolding pcq_dequeue claim
  pcq_dequeue_lem [] c =
      let empty : (w.queue.pcq_current_size == 0) ≡ true = ground (arith, c.count) in
      rw (works.lock_size, empty)
  pcq_dequeue_lem (x ∷ xs) c = dequeue_some x xs c
