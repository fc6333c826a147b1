-- ===== src/ProducerConsumer/Threads/Returned.antt =====
-- What each step of a thread in the queue of producer-consumer/producer-consumer.c has done.
use projeto_so.Base.{
  ℕ, ◌+◌, ◌-◌, ◌%◌, ◌^◌, ◌<◌, ◌≡◌, ◌≢◌, ap, ◌∙◌, List, get_elem?, set, length, arith, ◌==◌,
  Bool-cases, Option-cases, inl, inr, leb,
}
use native.Mathlib.Nat.{mod-add-mod, mod-lt}
use projeto_so.ProducerConsumer.{
  Pointer, address, World, done, request_length, next_index, free_pointer, copy_element, reserve,
  put, claim, fetch,
}

-- What a section that returns has done.
pub copy_element-done :
    (elem : List ℕ) (w : World) (p : ℕ) (w' : World)
    → copy_element elem w ≡ done p w'
    → w'.queue ≡ w.queue
unfolding copy_element
copy_element-done elem w p w' e = elim (Bool-cases (leb request_length (length elem))) [
  | inl long ↦ ground (arith, e, long)
  | inr short ↦ ground (arith, e, short)
]

pub reserve-done :
    (w w' : World)
    → reserve w ≡ done tt w'
    → (w.queue.pcq_current_size ≢ w.queue.pcq_capacity)
      × (w'.queue ≡ record w.queue { pcq_current_size = (w.queue.pcq_current_size + 1) % 2 ^ 64 })
unfolding reserve
reserve-done w w' e = elim (Bool-cases (w.queue.pcq_current_size == w.queue.pcq_capacity)) [
  | inl full ↦ ground (arith, e, full)
  | inr room ↦ (ground (arith, room), ground (arith, e, room))
]

pub claim-done :
    (w w' : World)
    → claim w ≡ done tt w'
    → (w.queue.pcq_current_size ≢ 0)
      × (w'.queue ≡ record w.queue { pcq_current_size = w.queue.pcq_current_size - 1 })
unfolding claim
claim-done w w' e = elim (Bool-cases (w.queue.pcq_current_size == 0)) [
  | inl empty ↦ ground (arith, e, empty)
  | inr some_left ↦ (ground (arith, some_left), ground (arith, e, some_left))
]

pub put-done :
    (p : ℕ) (w w' : World)
    → put p w ≡ done tt w'
    → w'.queue ≡ record w.queue {
      pcq_buffer = set w.queue.pcq_buffer w.queue.pcq_head (address p);
      pcq_head = next_index w.queue.pcq_head w.queue.pcq_capacity;
    }
unfolding put
put-done p w w' e = elim (Option-cases (get_elem? w.queue.pcq_buffer w.queue.pcq_head)) [
  | inl out ↦ ground (arith, e, out)
  | inr (old, at) ↦ elim (Option-cases (free_pointer old w.heap)) [
    | inl bad ↦ ground (arith, e, at, bad)
    | inr (heap, freed) ↦ elim (Bool-cases (w.queue.pcq_capacity == 0)) [
      | inl zero_slots ↦ ground (arith, e, at, freed, zero_slots)
      | inr good ↦ ground (arith, e, at, freed, good)
    ]
  ]
]

pub fetch-done :
    (elem : Pointer) (w w' : World)
    → fetch w ≡ done elem w'
    → w'.queue ≡ record w.queue { pcq_tail = next_index w.queue.pcq_tail w.queue.pcq_capacity }
unfolding fetch
fetch-done elem w w' e = elim (Option-cases (get_elem? w.queue.pcq_buffer w.queue.pcq_tail)) [
  | inl out ↦ ground (arith, e, out)
  | inr (old, at) ↦ elim (Bool-cases (w.queue.pcq_capacity == 0)) [
    | inl zero_slots ↦ ground (arith, e, at, zero_slots)
    | inr good ↦ ground (arith, e, at, good)
  ]
]

-- The index after `n % capacity`.
pub next_index-mod :
    (n capacity : ℕ)
    → 0 < capacity
    → capacity < 2 ^ 63
    → next_index (n % capacity) capacity ≡ (n + 1) % capacity
next_index-mod n capacity h small =
    let less = mod-lt n h in
    let fits : (n % capacity + 1) % 2 ^ 64 ≡ n % capacity + 1 = omega (arith, less, small) in
    ap (λ j. j % capacity) fits ∙ mod-add-mod n capacity 1
