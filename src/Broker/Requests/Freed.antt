-- ===== src/Broker/Requests/Freed.antt =====
-- Workers of mbroker/mbroker.c free the requests that they take out of the queue, which keeps pointers
-- to them.
use projeto_so.Base.{
  ℕ, ◌<◌, ◌≡◌, refl, ap, ◌∙◌, true, false, none, some, List, [], ◌∷◌, is_minus_one, arith, length,
  get_elem?, set, get_elem?-set_self, lt_of_get_elem?,
}
use projeto_so.ProducerConsumer.{
  Pointer, address, live, freed, World, Cmd, done, fault, Pthread, free_pointer, pcq_enqueue,
  pcq_dequeue,
}
use projeto_so.ProducerConsumer.Invariant.{behind, IsValid, Contents}
use projeto_so.ProducerConsumer.Sections.{Works}
use projeto_so.ProducerConsumer.Dequeue.{dequeued, dequeue_run}
use projeto_so.ProducerConsumer.Enqueue.{enqueue_frees_twice}
use projeto_so.Broker.Requests.{
  Round, waiting, broken, message_of, after_enqueue, serve, AllWork, messages_of, length-message_of,
  serve_run,
}

-- The end of a round of `working_thread`: `free` of the request.
unfoldable pub release : Pointer → Cmd (Unit {0})
release buffer w = elim (free_pointer buffer w.heap) [
  | none ↦ fault
  | some heap ↦ done tt (record w { heap = heap })
]

length-messages_of : (rs : List Round) → length (messages_of rs) ≡ length rs
length-messages_of [] = refl
length-messages_of (r ∷ rs) = omega (arith, length-messages_of rs)

-- In a full queue, the head stands at the tail.
full_head : (capacity tail : ℕ) → tail < capacity → behind capacity tail capacity ≡ tail
full_head capacity tail h = ground arith

release_lem :
    (w : World) (p : ℕ) (bytes : List ℕ)
    → get_elem? w.heap p ≡ some (live bytes)
    → release (address p) w ≡ done tt (record w { heap = set w.heap p freed })
unfolding release free_pointer
release_lem w p bytes at = rw (release, at) refl

serve-broken :
    (r : Round) (rest : List Round) (w : World)
    → is_minus_one r.read.code ≡ false
    → r.has_memory ≡ true
    → pcq_enqueue true r.calls (message_of r) w ≡ fault
    → serve (r ∷ rest) w ≡ broken
unfolding serve after_enqueue
serve-broken r rest w reads memory run = rw (reads, memory, run) refl

-- On a full queue, a worker takes an element and frees it, and the next request is read.
full_queue :
    (w : World) (t : Pthread) (works : Works t) (r : Round) (rest : List Round) (x : List ℕ)
    (xs : List (List ℕ))
    → IsValid w
    → Contents w (x ∷ xs)
    → w.queue.pcq_current_size ≡ w.queue.pcq_capacity
    → is_minus_one r.read.code ≡ false
    → r.has_memory ≡ true
    → Works r.calls
    → (buffer : Pointer) × (w2 : World) × (w3 : World) × (pcq_dequeue t w ≡ done buffer w2)
      × (release buffer w2 ≡ done tt w3)
      × (serve (r ∷ rest) w3 ≡ broken)
full_queue w t works r rest x xs v c full reads memory works_r =
    let (p, at_tail, at, run) = dequeue_run w v t works x xs c in
    let taken : World = dequeued w v t works in
    let gone : World = record taken { heap = set w.heap p freed } in
    let head : w.queue.pcq_head ≡ w.queue.pcq_tail =
      v.head_at
      ∙ ap (behind w.queue.pcq_capacity w.queue.pcq_tail) full
      ∙ full_head w.queue.pcq_capacity w.queue.pcq_tail v.tail_in_range in
    (
      address p,
      taken,
      gone,
      run,
      release_lem taken p x at,
      serve-broken r rest gone reads memory (
          enqueue_frees_twice gone r.calls works_r (message_of r) p
            (omega (arith, length-message_of r)) (omega (arith, full, v.capacity_pos))
            v.capacity_small (ap (get_elem? w.queue.pcq_buffer) head ∙ at_tail)
            (get_elem?-set_self w.heap p freed (lt_of_get_elem? w.heap p at))),
    )

-- From a well-formed empty queue, with as many rounds of the loop as the queue has slots, in which no
-- call fails, and then a worker that takes a request and frees it, with pthread calls that do not
-- report -1: the loop has put each request into the queue and waits for the next one, the worker gets
-- an element and its `free` works, and the next round of the loop, if its read and its calls work,
-- runs into undefined behaviour.
pub serve-frees_twice :
    (rs : List Round) (r : Round) (rest : List Round) (w : World) (t : Pthread)
    → IsValid w
    → Contents w []
    → AllWork rs
    → length rs ≡ w.queue.pcq_capacity
    → Works t
    → is_minus_one r.read.code ≡ false
    → r.has_memory ≡ true
    → Works r.calls
    → (buffer : Pointer) × (w1 : World) × (w2 : World) × (w3 : World) × (serve rs w ≡ waiting w1)
      × (pcq_dequeue t w1 ≡ done buffer w2)
      × (release buffer w2 ≡ done tt w3)
      × (serve (r ∷ rest) w3 ≡ broken)
serve-frees_twice [] r rest w t v c all whole works reads memory works_r =
    absurd (omega (arith, whole, v.capacity_pos))
serve-frees_twice (r0 ∷ rs) r rest w t v c all whole works reads memory works_r =
    let (w1, end, same, v1, c1) = serve_run (r0 ∷ rs) w [] v c all (omega (arith, whole)) in
    let full : w1.queue.pcq_current_size ≡ w1.queue.pcq_capacity =
      omega (arith, c1.count, length-messages_of rs, whole, same) in
    let (buffer, w2, w3, taken, gone, twice) =
      full_queue w1 t works r rest (message_of r0) (messages_of rs) v1 c1 full reads memory
        works_r in
    (buffer, w1, w2, w3, end, taken, gone, twice)
