-- ===== src/ProducerConsumer/Tests.antt =====
-- Runs of producer-consumer/producer-consumer.c on a queue of two slots.
use projeto_so.Base.{
  ℕ, zero, suc, ◌≡◌, ◌≢◌, refl, sym, ap, ◌∙◌, true, some, List, [], ◌∷◌, ◌++◌, ℤ, pos, arith, take,
  get_elem?, replicate,
}
use projeto_so.ProducerConsumer.{
  null, address, live, PcQueue, World, Call, done, blocked, fault, Pthread, Locks, free_pointer,
  copy_element, reserve, put, claim, fetch, pcq_create, pcq_enqueue, pcq_dequeue,
}
use projeto_so.ProducerConsumer.Invariant.{IsValid, Contents}
use projeto_so.ProducerConsumer.Create.{AllWork, pcq_create_lem}
use projeto_so.ProducerConsumer.Sections.{Works, Dequeued, Enqueued, waits, entered}
use projeto_so.ProducerConsumer.Dequeue.{pcq_dequeue_lem}
use projeto_so.ProducerConsumer.Enqueue.{pcq_enqueue_lem}

abbrev locks : Locks
locks = record {
  size_lock = pos 0;
  head_lock = pos 0;
  tail_lock = pos 0;
  pusher_lock = pos 0;
  pusher_condvar = pos 0;
  popper_lock = pos 0;
  popper_condvar = pos 0;
}

abbrev pub calls : Pthread
calls = record {
  lock_size = pos 0;
  unlock_size = pos 0;
  lock_end = pos 0;
  unlock_end = pos 0;
  signal = pos 0;
}

all_work : AllWork locks
all_work = record {
  size_lock = refl;
  head_lock = refl;
  tail_lock = refl;
  pusher_lock = refl;
  pusher_condvar = refl;
  popper_lock = refl;
  popper_condvar = refl;
}

pub works : Works calls
works = record {
  lock_size = refl;
  unlock_size = refl;
  lock_end = refl;
  unlock_end = refl;
  signal = refl;
}

abbrev pub empty_queue : PcQueue
empty_queue = record {
  pcq_buffer = null ∷ null ∷ [];
  pcq_capacity = 2;
  pcq_current_size = 0;
  pcq_head = 0;
  pcq_tail = 0;
}

abbrev request : ℕ → List ℕ
request x = replicate 289 x

blank : (i p : ℕ) → get_elem? (null ∷ null ∷ []) i ≢ some (address p)
blank zero p e = ground (arith, e)
blank (suc zero) p e = ground (arith, e)
blank (suc (suc i)) p e = ground (arith, e)

pcq_create_lem_example :
    ((pcq_create (some (null ∷ null ∷ [])) locks 2 empty_queue).0 ≡ pos 0)
    × IsValid
        (record { queue = (pcq_create (some (null ∷ null ∷ [])) locks 2 empty_queue).1; heap = [] })
    × Contents
        (record { queue = (pcq_create (some (null ∷ null ∷ [])) locks 2 empty_queue).1; heap = [] })
        []
pcq_create_lem_example =
    pcq_create_lem (null ∷ null ∷ []) 2 empty_queue [] locks refl (omega arith) (omega arith) blank
      all_work

abbrev pub empty_world : World
empty_world = record { queue = empty_queue; heap = [] }

pub empty_world-IsValid : IsValid empty_world
unfolding pcq_create
empty_world-IsValid = pcq_create_lem_example.1

pub empty_world-Contents : Contents empty_world []
unfolding pcq_create
empty_world-Contents = pcq_create_lem_example.2

pcq_enqueue_lem_example :
    Enqueued empty_world [] (take 289 (request 7)) (pcq_enqueue true calls (request 7) empty_world)
pcq_enqueue_lem_example =
    pcq_enqueue_lem empty_world empty_world-IsValid calls works (request 7) (omega arith) []
      empty_world-Contents

abbrev world_of : World → Call ℤ → World
world_of w (done r w') = w'
world_of w blocked = w
world_of w fault = w

entered_at :
    {w w' : World} {xs : List (List ℕ)} {x : List ℕ} {c : Call ℤ}
    → Enqueued w xs x c
    → c ≡ done (pos 0) w'
    → IsValid w' × Contents w' (xs ++ x ∷ [])
entered_at (waits full e) run = absurd (ground (arith, e, run))
entered_at {w' = w'} {xs} {x} (entered less w1 e kept v c) run =
    let same : w1 ≡ w' = ap (world_of w') (sym e ∙ run) in
    (coe 0 1 (i. IsValid (same i)) v, coe 0 1 (i. Contents (same i) (xs ++ x ∷ [])) c)

abbrev one_request : World
one_request = record {
  queue = record {
    pcq_buffer = address 0 ∷ null ∷ [];
    pcq_capacity = 2;
    pcq_current_size = 1;
    pcq_head = 1;
    pcq_tail = 0;
  };
  heap = live (request 7) ∷ [];
}

enqueue_run : pcq_enqueue true calls (request 7) empty_world ≡ done (pos 0) one_request
unfolding pcq_enqueue copy_element reserve put free_pointer
enqueue_run = refl

dequeue_run :
    pcq_dequeue calls one_request
    ≡ done (address 0) (record one_request {
      queue = record one_request.queue { pcq_current_size = 0; pcq_tail = 1 };
    })
unfolding pcq_dequeue claim fetch
dequeue_run = refl

wait_run : pcq_dequeue calls empty_world ≡ blocked
unfolding pcq_dequeue claim
wait_run = refl

pcq_dequeue_lem_example :
    Dequeued one_request (take 289 (request 7) ∷ []) (pcq_dequeue calls one_request)
pcq_dequeue_lem_example =
    pcq_dequeue_lem one_request (entered_at pcq_enqueue_lem_example enqueue_run).0 calls works
      (take 289 (request 7) ∷ []) (entered_at pcq_enqueue_lem_example enqueue_run).1
