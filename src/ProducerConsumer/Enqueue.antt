-- ===== src/ProducerConsumer/Enqueue.antt =====
-- `pcq_enqueue` (producer-consumer/producer-consumer.c) against a first-in first-out list.
use projeto_so.Base.{
  ℕ, ◌+◌, ◌^◌, ◌≤◌, ◌<◌, ◌≡◌, refl, sym, ap, ◌∙◌, some, List, [], ◌∷◌, ◌++◌, length, take,
  get_elem?, set, arith, le→leb, ◌==◌, Bool-cases, inl, inr, true, length-set, length-append,
  get_elem?-append_left, get_elem?-append_one-cases, get_elem?-some,
}
use projeto_so.ProducerConsumer.{
  Pointer, address, live, freed, World, fault, Pthread, request_length, next_index, copy_element,
  pcq_enqueue,
}
use projeto_so.ProducerConsumer.Invariant.{
  behind, behind-lt, behind_one-behind, behind-inj, Element-put, Element-new, Slots-put, released,
  IsValid, Contents, next_index-behind,
}
use projeto_so.ProducerConsumer.Sections.{
  Works, put_lem, put_twice, differ, reserve_full, reserve_room, Enqueued, waits, entered,
}

module _ (w : World) (v : IsValid w) (t : Pthread) (works : Works t) (elem : List ℕ)
    (enough : request_length ≤ length elem) where
  abbrev capacity : ℕ
  capacity = w.queue.pcq_capacity

  abbrev element : List ℕ
  element = take request_length elem

  -- the queue after the element was put where slot `pcq_head` held `old`
  abbrev pub enqueued : Pointer → World
  enqueued old = record {
    heap = released old (w.heap ++ live element ∷ []);
    queue = record w.queue {
      pcq_buffer = set w.queue.pcq_buffer w.queue.pcq_head (address (length w.heap));
      pcq_head = next_index w.queue.pcq_head capacity;
      pcq_current_size = w.queue.pcq_current_size + 1;
    };
  }

  head_in_range : w.queue.pcq_head < capacity
  head_in_range =
      rw v.head_at
        (behind-lt capacity w.queue.pcq_tail w.queue.pcq_current_size v.tail_in_range v.size_fits)

  module _ (old : Pointer) (at : get_elem? w.queue.pcq_buffer w.queue.pcq_head ≡ some old)
      (room : w.queue.pcq_current_size < capacity) where
    enqueued-IsValid : IsValid (enqueued old)
    enqueued-IsValid = record {
      capacity_pos = v.capacity_pos;
      capacity_small = v.capacity_small;
      length_buffer =
          length-set w.queue.pcq_buffer w.queue.pcq_head (address (length w.heap))
          ∙ v.length_buffer;
      size_fits = omega (arith, room);
      tail_in_range = v.tail_in_range;
      head_at =
          next_index-behind w.queue.pcq_head capacity head_in_range v.capacity_small
          ∙ ap (λ h. behind capacity h 1) v.head_at
          ∙ behind_one-behind capacity w.queue.pcq_tail w.queue.pcq_current_size v.tail_in_range
              room;
      slots = Slots-put w.queue.pcq_buffer w.heap v.slots element w.queue.pcq_head old at;
    }

    enqueued-Contents :
        (xs : List (List ℕ)) → Contents w xs → Contents (enqueued old) (xs ++ element ∷ [])
    enqueued-Contents xs c = record {
      count = omega (arith, c.count, length-append xs (element ∷ []));
      elements = λ k x e. elim (get_elem?-append_one-cases xs element k x e) [
        | inl (less, e') ↦
            Element-put w.queue.pcq_buffer w.heap v.slots element w.queue.pcq_head old at
              (behind capacity w.queue.pcq_tail k) x
              (λ same. omega (
                arith,
                less,
                c.count,
                behind-inj capacity w.queue.pcq_tail k w.queue.pcq_current_size v.tail_in_range
                    (omega (arith, less, c.count, room)) room (same ∙ v.head_at),
              ))
              (c.elements k x e')
        | inr (last, new) ↦
            rw (new, last, c.count, sym v.head_at)
              (Element-new w.queue.pcq_buffer w.heap v.slots element w.queue.pcq_head old at)
      ];
    }

  -- On a well-formed queue, with memory from `calloc`, an element of at least REQUEST_LENGTH bytes
  -- and pthread calls that do not report -1: where the queue is full `pcq_enqueue` waits;
  -- otherwise it returns 0, and the queue stays well-formed and holds the first REQUEST_LENGTH
  -- bytes of the element behind what it held.
  pub pcq_enqueue_lem :
      (xs : List (List ℕ)) → Contents w xs → Enqueued w xs element (pcq_enqueue true t elem w)
  unfolding pcq_enqueue copy_element
  pcq_enqueue_lem xs c = elim (Bool-cases (w.queue.pcq_current_size == capacity)) [
    | inl full ↦
        rw (le→leb request_length (length elem) enough, works.lock_size, reserve_full copied full)
          (waits (ground (arith, c.count)) refl)
    | inr room ↦
        let less : w.queue.pcq_current_size < capacity = ground (arith, v.size_fits) in
        let (old, at) =
          get_elem?-some w.queue.pcq_buffer w.queue.pcq_head
            (omega (arith, v.length_buffer, head_in_range)) in
        rw
          (
            le→leb request_length (length elem) enough,
            works.lock_size,
            reserve_room copied room (omega (arith, less, v.capacity_small)),
            works.unlock_size,
            works.lock_end,
            put_lem (record w.queue { pcq_current_size = w.queue.pcq_current_size + 1 }) w.heap
                element old (length w.heap) v.slots at v.capacity_pos,
            works.unlock_end,
            works.signal,
          )
          (entered (omega (arith, less, c.count)) (enqueued old) refl refl
            (enqueued-IsValid old at less) (enqueued-Contents old at less xs c))
  ]
    where
      copied : World
      copied = record w { heap = w.heap ++ live element ∷ [] }

-- On a queue with room whose capacity is below 2 ^ 63, with pthread calls that do not report -1,
-- memory from `calloc` and an element of at least REQUEST_LENGTH bytes, where the slot at the head
-- still points to memory that is already freed: `pcq_enqueue` runs into undefined behaviour.
pub enqueue_frees_twice :
    (w : World) (t : Pthread) (works : Works t) (elem : List ℕ) (p : ℕ)
    → request_length ≤ length elem
    → w.queue.pcq_current_size < w.queue.pcq_capacity
    → w.queue.pcq_capacity < 2 ^ 63
    → get_elem? w.queue.pcq_buffer w.queue.pcq_head ≡ some (address p)
    → get_elem? w.heap p ≡ some freed
    → pcq_enqueue true t elem w ≡ fault
unfolding pcq_enqueue copy_element
enqueue_frees_twice w t works elem p enough less small at gone = rw (
  le→leb request_length (length elem) enough,
  works.lock_size,
  reserve_room copied (differ w.queue.pcq_current_size w.queue.pcq_capacity less)
      (omega (arith, less, small)),
  works.unlock_size,
  works.lock_end,
  put_twice
      (record copied { queue = record w.queue { pcq_current_size = w.queue.pcq_current_size + 1 } })
      (length w.heap) p at
      (get_elem?-append_left w.heap (live (take request_length elem) ∷ []) p freed gone),
)
  where
    copied : World
    copied = record w { heap = w.heap ++ live (take request_length elem) ∷ [] }
