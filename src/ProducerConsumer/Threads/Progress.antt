-- ===== src/ProducerConsumer/Threads/Progress.antt =====
-- What a thread of the queue of producer-consumer/producer-consumer.c can do next, and what the order
-- of the steps can bring about.
use projeto_so.Base.{
  ℕ, ◌+◌, ◌%◌, ◌^◌, ◌<◌, ◌≡◌, refl, ap, sym, ◌∙◌, some, List, get_elem?, length, arith,
  get_elem?-some, get_elem?-set_self, lt_of_get_elem?,
}
use native.Mathlib.Nat.{mod-lt}
use projeto_so.ProducerConsumer.{Pointer, Cell, PcQueue, next_index, Locks}
use projeto_so.ProducerConsumer.Sections.{fetch_lem}
use projeto_so.ProducerConsumer.Threads.{
  claimed, fetched, fetches, System, Step, step, Reach, IsConsistent,
}
use projeto_so.ProducerConsumer.Threads.Returned.{next_index-mod}
use projeto_so.ProducerConsumer.Threads.Interleaved.{created, pcq_create-Reach}

-- The slot that the next fetch reads.
IsConsistent-slot :
    (s : System)
    → IsConsistent s
    → (elem : Pointer) × (get_elem? s.world.queue.pcq_buffer s.world.queue.pcq_tail ≡ some elem)
IsConsistent-slot s v =
    get_elem?-some s.world.queue.pcq_buffer s.world.queue.pcq_tail
      (omega (arith, v.length_buffer, v.tail_at, mod-lt s.fetched_so_far v.capacity_pos))

-- A thread that has taken an element off the count can fetch.
fetch_next :
    (s : System) (i : ℕ)
    → IsConsistent s
    → get_elem? s.threads i ≡ some claimed
    → (elem : Pointer) × (u : System) × Step s u
      × (get_elem? s.world.queue.pcq_buffer (s.fetched_so_far % s.world.queue.pcq_capacity)
          ≡ some elem)
      × (get_elem? u.threads i ≡ some (fetched elem))
      × (u.fetched_so_far ≡ s.fetched_so_far + 1)
      × (u.world.queue.pcq_tail ≡ (s.fetched_so_far + 1) % s.world.queue.pcq_capacity)
fetch_next s i v at =
    let q = s.world.queue in
    let (elem, slot) = IsConsistent-slot s v in
    (
      elem,
      _,
      step i at (fetches (fetch_lem s.world elem v.capacity_pos slot)),
      ap (get_elem? q.pcq_buffer) (sym v.tail_at) ∙ slot,
      get_elem?-set_self s.threads i (fetched elem) (lt_of_get_elem? s.threads i at),
      refl,
      ap (λ j. next_index j q.pcq_capacity) v.tail_at
          ∙ next_index-mod s.fetched_so_far q.pcq_capacity v.capacity_pos v.capacity_small,
    )

-- Threads that share a queue that `pcq_create` has set up with an array of `capacity` slots.
module _ (buffer : List Pointer) (l : Locks) (capacity : ℕ) (queue : PcQueue) (heap : List Cell)
    (k : ℕ) (t : System) (h : 0 < capacity) (small : capacity < 2 ^ 63)
    (whole : length buffer ≡ capacity) (r : Reach (created buffer l capacity queue heap k) t) where
  consistent : IsConsistent t
  consistent = pcq_create-Reach buffer l capacity queue heap k t h small whole r

  -- A queue that `pcq_create` has set up with an array of `capacity` slots, a capacity that is not 0
  -- and below 2 ^ 63, and threads whose steps have interleaved in any way: each thread that has taken
  -- an element off the count has a next step, in which it fetches the pointer in the slot whose index
  -- is the number of fetches so far modulo the capacity; the tail is then at the next number of
  -- fetches modulo the capacity.
  pub claimed-fetches :
      (i : ℕ)
      → get_elem? t.threads i ≡ some claimed
      → (elem : Pointer) × (u : System) × Step t u
        × (get_elem? t.world.queue.pcq_buffer (t.fetched_so_far % t.world.queue.pcq_capacity)
            ≡ some elem)
        × (get_elem? u.threads i ≡ some (fetched elem))
        × (u.fetched_so_far ≡ t.fetched_so_far + 1)
        × (u.world.queue.pcq_tail ≡ (t.fetched_so_far + 1) % t.world.queue.pcq_capacity)
  claimed-fetches i at = fetch_next t i consistent at
