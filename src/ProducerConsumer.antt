-- ===== src/ProducerConsumer.antt =====
-- The bounded queue of producer-consumer/producer-consumer.c, one call at a time.
pub mod Invariant
pub mod Create
pub mod Sections
pub mod Dequeue
pub mod Enqueue
pub mod Threads
pub mod Tests
use projeto_so.Base.{
  ℕ, ◌+◌, ◌-◌, ◌*◌, ◌%◌, ◌^◌, Bool, true, false, not, Option, none, some, List, [], ◌∷◌, ◌++◌, ℤ,
  pos, minus_one, is_minus_one, length, take, get_elem?, set, leb, ◌==◌, if◌then◌else◌,
}

-- REQUEST_LENGTH of utils/common.h
abbrev pub request_length : ℕ
request_length = 256 + 32 + 1

-- a pointer of the queue's array
pub data Pointer : Type 0 where
  null : Pointer
  address : ℕ → Pointer

-- a piece of memory that calloc gave out, by its number
pub data Cell : Type 0 where
  live : List ℕ → Cell
  freed : Cell

pub record PcQueue : Type 0 where
  pub pcq_buffer : List Pointer
  pub pcq_capacity : ℕ
  pub pcq_current_size : ℕ
  pub pcq_head : ℕ
  pub pcq_tail : ℕ

pub record World : Type 0 where
  pub queue : PcQueue
  pub heap : List Cell

-- `blocked` is a wait on a condition variable; `fault` is undefined behaviour.
pub data Call (A : Type 0) : Type 0 where
  done : A → World → Call A
  blocked : Call A
  fault : Call A

abbrev pub Cmd : Type 0 → Type 0
Cmd A = World → Call A

module _ {A B : Type 0} where
  abbrev pub and_then : Call A → (A → Cmd B) → Call B
  and_then (done a w) k = k a w
  and_then blocked k = blocked
  and_then fault k = fault

  infixl 5 ◌>>=◌ ◌>>◌
  abbrev pub ◌>>=◌ : Cmd A → (A → Cmd B) → Cmd B
  ◌>>=◌ m k w = and_then (m w) k

  abbrev pub ◌>>◌ : Cmd A → Cmd B → Cmd B
  m >> n = m >>= λ _. n

-- What the pthread functions return to one call, each in the order of the source.
pub record Pthread : Type 0 where
  pub lock_size : ℤ
  pub unlock_size : ℤ
  pub lock_end : ℤ
  pub unlock_end : ℤ
  pub signal : ℤ

-- what the seven initialisations (or destructions) of locks and condition variables return
pub record Locks : Type 0 where
  pub size_lock : ℤ
  pub head_lock : ℤ
  pub tail_lock : ℤ
  pub pusher_lock : ℤ
  pub pusher_condvar : ℤ
  pub popper_lock : ℤ
  pub popper_condvar : ℤ

-- The chain of tests on these results.
unfoldable pub all_locks : List ℤ → ℤ
all_locks [] = pos 0
all_locks (r ∷ rs) = if is_minus_one r then minus_one else all_locks rs

-- `free(p)`
unfoldable pub free_pointer : Pointer → List Cell → Option (List Cell)
free_pointer null heap = some heap
free_pointer (address p) heap = elim (get_elem? heap p) [
  | some (live bytes) ↦ some (set heap p freed)
  | some freed ↦ none
  | none ↦ none
]

-- `buffer` is what `malloc` returned, with the pointers that the memory happened to hold.
unfoldable pub pcq_create : Option (List Pointer) → Locks → ℕ → PcQueue → ℤ × PcQueue
pcq_create none l capacity queue = (minus_one, record queue { pcq_buffer = [] })
pcq_create (some buffer) l capacity queue = (
  all_locks (
      l.size_lock ∷ l.head_lock ∷ l.tail_lock ∷ l.pusher_lock ∷ l.pusher_condvar ∷ l.popper_lock
      ∷ l.popper_condvar ∷ []),
  record {
    pcq_buffer = buffer;
    pcq_capacity = capacity;
    pcq_current_size = 0;
    pcq_head = 0;
    pcq_tail = 0;
  },
)

-- The array is given back; the elements are not.
unfoldable pub pcq_destroy : Locks → PcQueue → ℤ × PcQueue
pcq_destroy l queue = (
  all_locks (
      l.size_lock ∷ l.head_lock ∷ l.tail_lock ∷ l.pusher_lock ∷ l.pusher_condvar ∷ l.popper_lock
      ∷ l.popper_condvar ∷ []),
  record queue { pcq_buffer = [] },
)

-- `calloc` and the copy of the element into the new memory, whose number is returned
unfoldable pub copy_element : List ℕ → Cmd ℕ
copy_element elem w =
    if leb request_length (length elem)
    then done (length w.heap) (record w { heap = w.heap ++ live (take request_length elem) ∷ [] })
    else fault

-- under the lock of the size: wait for room, and count the element
unfoldable pub reserve : Cmd (Unit {0})
reserve w =
    let q = w.queue in
    if q.pcq_current_size == q.pcq_capacity
    then blocked
    else done tt
        (record w { queue = record q { pcq_current_size = (q.pcq_current_size + 1) % 2 ^ 64 } })

-- `(i + 1) % capacity`
abbrev pub next_index : ℕ → ℕ → ℕ
next_index i capacity = ((i + 1) % 2 ^ 64) % capacity

-- under the lock of the head: free what the slot held, and put the element there
unfoldable pub put : ℕ → Cmd (Unit {0})
put p w =
    let q = w.queue in
    elim (get_elem? q.pcq_buffer q.pcq_head) [
      | none ↦ fault
      | some old ↦ elim (free_pointer old w.heap) [
        | none ↦ fault
        | some heap ↦
            if q.pcq_capacity == 0
            then fault
            else done tt (record {
              heap = heap;
              queue = record q {
                pcq_buffer = set q.pcq_buffer q.pcq_head (address p);
                pcq_head = next_index q.pcq_head q.pcq_capacity;
              };
            })
      ]
    ]

-- `calloc` fails where `has_memory` is false.
unfoldable pub pcq_enqueue : Bool → Pthread → List ℕ → Cmd ℤ
pcq_enqueue has_memory t elem = if not has_memory then done minus_one else do
  p ← copy_element elem
  if is_minus_one t.lock_size then done minus_one else do
    reserve
    if is_minus_one t.unlock_size
        then done minus_one
        else if is_minus_one t.lock_end
        then done minus_one
        else do
          put p
          if is_minus_one t.unlock_end
              then done minus_one
              else if is_minus_one t.signal
              then done minus_one
              else done (pos 0)

-- under the lock of the size: wait for an element, and take it off the count
unfoldable pub claim : Cmd (Unit {0})
claim w =
    let q = w.queue in
    if q.pcq_current_size == 0
    then blocked
    else done tt (record w { queue = record q { pcq_current_size = q.pcq_current_size - 1 } })

-- under the lock of the tail: the element, which stays in its slot
unfoldable pub fetch : Cmd Pointer
fetch w =
    let q = w.queue in
    elim (get_elem? q.pcq_buffer q.pcq_tail) [
      | none ↦ fault
      | some elem ↦
          if q.pcq_capacity == 0
          then fault
          else done elem
              (record w { queue = record q { pcq_tail = next_index q.pcq_tail q.pcq_capacity } })
    ]

unfoldable pub pcq_dequeue : Pthread → Cmd Pointer
pcq_dequeue t = if is_minus_one t.lock_size then done null else do
  claim
  if is_minus_one t.unlock_size
      then done null
      else if is_minus_one t.lock_end
      then done null
      else do
        elem ← fetch
        if is_minus_one t.unlock_end
            then done null
            else if is_minus_one t.signal
            then done null
            else done elem
