-- ===== src/ProducerConsumer/Threads.antt =====
-- Threads inside the queue of producer-consumer/producer-consumer.c at the same time. What a call
-- does under one lock is one step; the steps of the calls interleave in any order, and a thread that
-- waits on a condition variable takes no step.
pub mod Returned
pub mod Interleaved
pub mod Progress
mod Tests
use projeto_so.Base.{
  ℕ, zero, suc, ◌+◌, ◌*◌, ◌%◌, ◌^◌, ◌≤◌, ◌<◌, ◌≡◌, refl, ap, sym, ◌∙◌, some, List, [], ◌∷◌,
  get_elem?, set, length, arith,
}
use projeto_so.ProducerConsumer.{
  Pointer, PcQueue, World, done, copy_element, reserve, put, claim, fetch,
}

-- Where a thread stands: outside of the queue; in `pcq_enqueue` with its copy of the element at `p`,
-- before or after it has counted the element; or in `pcq_dequeue`, once it has taken an element off
-- the count, before or after it has fetched the pointer that the call returns.
pub data Pc : Type 0 where
  outside : Pc
  copied : ℕ → Pc
  counted : ℕ → Pc
  claimed : Pc
  fetched : Pointer → Pc

-- One step of one thread, with how many elements it puts into a slot and fetches out of one.
pub data Move (w : World) : Pc → ℕ → ℕ → World → Pc → Type 0 where
  copies :
      (elem : List ℕ) {p : ℕ} {w' : World}
      → copy_element elem w ≡ done p w'
      → Move w outside 0 0 w' (copied p)
  counts : {p : ℕ} {w' : World} → reserve w ≡ done tt w' → Move w (copied p) 0 0 w' (counted p)
  puts : {p : ℕ} {w' : World} → put p w ≡ done tt w' → Move w (counted p) 1 0 w' outside
  claims : {w' : World} → claim w ≡ done tt w' → Move w outside 0 0 w' claimed
  fetches :
      {elem : Pointer} {w' : World} → fetch w ≡ done elem w' → Move w claimed 0 1 w' (fetched elem)
  returns : {elem : Pointer} → Move w (fetched elem) 0 0 w outside

-- `put_so_far` and `fetched_so_far` count the steps of the past; the program does not keep them.
pub record System : Type 0 where
  pub world : World
  pub threads : List Pc
  pub put_so_far : ℕ
  pub fetched_so_far : ℕ

pub data Step (s : System) : System → Type 0 where
  step :
      (i : ℕ) {pc pc' : Pc} {m n : ℕ} {w : World}
      → get_elem? s.threads i ≡ some pc
      → Move s.world pc m n w pc'
      → Step s (record {
        world = w;
        threads = set s.threads i pc';
        put_so_far = s.put_so_far + m;
        fetched_so_far = s.fetched_so_far + n;
      })

-- What the steps lead to from `s`.
pub data Reach (s : System) : System → Type 0 where
  start : Reach s s
  later : {t u : System} → Reach s t → Step t u → Reach s u

-- how many threads have counted an element that is not in its slot, and taken one off the count
-- that is still in its slot
abbrev pub is_counted : Pc → ℕ
is_counted (counted p) = 1
is_counted _ = 0

abbrev pub is_claimed : Pc → ℕ
is_claimed claimed = 1
is_claimed _ = 0

abbrev pub total : (Pc → ℕ) → List Pc → ℕ
total f [] = 0
total f (pc ∷ pcs) = f pc + total f pcs

pub total-set :
    (f : Pc → ℕ) (pcs : List Pc) (i : ℕ) (pc pc' : Pc)
    → get_elem? pcs i ≡ some pc
    → total f (set pcs i pc') + f pc ≡ total f pcs + f pc'
total-set f [] i pc pc' e = ground (arith, e)
total-set f (x ∷ pcs) zero pc pc' e = let same : x ≡ pc = ground (arith, e) in rw same (omega arith)
total-set f (x ∷ pcs) (suc i) pc pc' e = omega (arith, total-set f pcs i pc pc' e)

-- The array has the size that the capacity says, the count does not pass it, the indices are the
-- numbers of puts and fetches modulo the capacity, and the count is of the elements in the slots,
-- with those that are counted before they are put and without those that are taken off before they
-- are fetched.
pub record Consistent (q : PcQueue) (threads : List Pc) (put_so_far fetched_so_far : ℕ)
    : Type 0 where
  pub capacity_pos : 0 < q.pcq_capacity
  pub capacity_small : q.pcq_capacity < 2 ^ 63
  pub length_buffer : length q.pcq_buffer ≡ q.pcq_capacity
  pub size_fits : q.pcq_current_size ≤ q.pcq_capacity
  pub head_at : q.pcq_head ≡ put_so_far % q.pcq_capacity
  pub tail_at : q.pcq_tail ≡ fetched_so_far % q.pcq_capacity
  pub balance :
      q.pcq_current_size + fetched_so_far + total is_claimed threads
      ≡ put_so_far + total is_counted threads

abbrev pub IsConsistent : System → Type 0
IsConsistent s = Consistent s.world.queue s.threads s.put_so_far s.fetched_so_far
