-- ===== src/ProducerConsumer/Threads/Tests.antt =====
-- Steps of a producer and a consumer on a queue of two slots.
use projeto_so.Base.{ℕ, ◌≡◌, refl, List, [], ◌∷◌, some, get_elem?, replicate, arith, pos, ◌%◌}
use projeto_so.ProducerConsumer.{
  Pointer, null, PcQueue, Locks, reserve, claim, pcq_create, copy_element, live,
}
use projeto_so.ProducerConsumer.Threads.{
  outside, copied, counted, claimed, fetched, copies, counts, claims, System, Step, step, Reach,
  start, later, IsConsistent,
}
use projeto_so.ProducerConsumer.Threads.Interleaved.{created, pcq_create-Reach}
use projeto_so.ProducerConsumer.Threads.Progress.{claimed-fetches}

abbrev locks : Locks
locks = record {
  size_lock = pos 0;
  head_lock = pos 0;
  tail_lock = pos 0;
  pusher_lock = pos 0;
  pusher_condvar = pos 0;
  popper_lock = pos 0;
  popper_condvar = pos 0;
}

abbrev garbage : PcQueue
garbage = record {
  pcq_buffer = [];
  pcq_capacity = 7;
  pcq_current_size = 7;
  pcq_head = 7;
  pcq_tail = 7;
}

abbrev slots : List Pointer
slots = null ∷ null ∷ []

-- the queue with one counted element that is in no slot yet
abbrev counted_queue : PcQueue
counted_queue = record {
  pcq_buffer = slots;
  pcq_capacity = 2;
  pcq_current_size = 1;
  pcq_head = 0;
  pcq_tail = 0;
}

abbrev request : List ℕ
request = replicate 289 1

-- A producer has copied and counted its element.
abbrev one_counted : System
one_counted = record {
  world = record { queue = counted_queue; heap = live request ∷ [] };
  threads = counted 0 ∷ outside ∷ [];
  put_so_far = 0;
  fetched_so_far = 0;
}

abbrev after_copy : System
after_copy = record {
  world = record {
    queue = record counted_queue { pcq_current_size = 0 };
    heap = live request ∷ [];
  };
  threads = copied 0 ∷ outside ∷ [];
  put_so_far = 0;
  fetched_so_far = 0;
}

copied_first : Step (created slots locks 2 garbage [] 2) after_copy
unfolding pcq_create copy_element
copied_first = step 0 refl (copies request refl)

counted_next : Step after_copy one_counted
unfolding reserve
counted_next = step 0 refl (counts refl)

one_counted-Reach : Reach (created slots locks 2 garbage [] 2) one_counted
one_counted-Reach = later (later start copied_first) counted_next

pcq_create-Reach_example : IsConsistent one_counted
pcq_create-Reach_example =
    pcq_create-Reach slots locks 2 garbage [] 2 one_counted (omega arith) (omega arith) refl
      one_counted-Reach

-- Another thread has then taken that element off the count.
abbrev one_claimed : System
one_claimed = record {
  world = record {
    queue = record counted_queue { pcq_current_size = 0 };
    heap = live request ∷ [];
  };
  threads = counted 0 ∷ claimed ∷ [];
  put_so_far = 0;
  fetched_so_far = 0;
}

claimed_next : Step one_counted one_claimed
unfolding claim
claimed_next = step 1 refl (claims refl)

claimed-fetches_example :
    (elem : Pointer) × (u : System) × Step one_claimed u
    × (get_elem? one_claimed.world.queue.pcq_buffer (0 % 2) ≡ some elem)
    × (get_elem? u.threads 1 ≡ some (fetched elem))
    × (u.fetched_so_far ≡ 1)
    × (u.world.queue.pcq_tail ≡ 1 % 2)
claimed-fetches_example =
    claimed-fetches slots locks 2 garbage [] 2 one_claimed (omega arith) (omega arith) refl
      (later one_counted-Reach claimed_next) 1 refl
