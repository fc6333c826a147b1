-- ===== src/ProducerConsumer/Create.antt =====
-- `pcq_create` (producer-consumer/producer-consumer.c) makes an empty queue.
use projeto_so.Base.{
  ℕ, ◌^◌, ◌<◌, ◌≡◌, ◌≢◌, refl, some, List, [], pos, is_minus_one, length, get_elem?, arith, false,
}
use projeto_so.ProducerConsumer.{Pointer, address, Cell, PcQueue, Locks, all_locks, pcq_create}
use projeto_so.ProducerConsumer.Invariant.{IsValid, Contents}

-- No initialisation reports -1.
pub record AllWork (l : Locks) : Type 0 where
  pub size_lock : is_minus_one l.size_lock ≡ false
  pub head_lock : is_minus_one l.head_lock ≡ false
  pub tail_lock : is_minus_one l.tail_lock ≡ false
  pub pusher_lock : is_minus_one l.pusher_lock ≡ false
  pub pusher_condvar : is_minus_one l.pusher_condvar ≡ false
  pub popper_lock : is_minus_one l.popper_lock ≡ false
  pub popper_condvar : is_minus_one l.popper_condvar ≡ false

module _ (buffer : List Pointer) (capacity : ℕ) (queue : PcQueue) (heap : List Cell) (l : Locks)
    (size : length buffer ≡ capacity) (positive : 0 < capacity) (small : capacity < 2 ^ 63)
    (blank : (i p : ℕ) → get_elem? buffer i ≢ some (address p)) (all : AllWork l) where
  -- For a capacity that is positive and below 2 ^ 63, where `malloc` returned that many slots and
  -- none happened to hold an address, and no initialisation reports -1: `pcq_create` returns 0 and
  -- leaves a well-formed queue that holds nothing.
  pub pcq_create_lem :
      ((pcq_create (some buffer) l capacity queue).0 ≡ pos 0)
      × IsValid (record { queue = (pcq_create (some buffer) l capacity queue).1; heap = heap })
      × Contents (record { queue = (pcq_create (some buffer) l capacity queue).1; heap = heap }) []
  unfolding pcq_create all_locks
  pcq_create_lem = (
    rw
        (
          all.size_lock, all.head_lock, all.tail_lock, all.pusher_lock, all.pusher_condvar,
          all.popper_lock, all.popper_condvar,
        )
        refl,
    record {
      capacity_pos = positive;
      capacity_small = small;
      length_buffer = size;
      size_fits = omega arith;
      tail_in_range = positive;
      head_at = ground (arith, positive);
      slots = record {
        live_slot = λ i p e. absurd (blank i p e);
        distinct = λ i j p e f. absurd (blank i p e);
      };
    },
    record { count = refl; elements = λ k x e. ground (arith, e) },
  )
