-- ===== src/ProducerConsumer/Threads/Interleaved.antt =====
-- What holds of the queue whenever threads use it at the same time.
use projeto_so.Base.{
  ℕ, zero, suc, ◌+◌, ◌-◌, ◌%◌, ◌^◌, ◌<◌, ◌≡◌, ◌≢◌, refl, ap, sym, ◌∙◌, some, List, get_elem?, set,
  length, arith, length-set, replicate,
}
use native.Mathlib.Nat.{zero-mod}
use projeto_so.ProducerConsumer.{
  Pointer, address, Cell, PcQueue, World, next_index, Locks, pcq_create,
}
use projeto_so.ProducerConsumer.Threads.{
  Pc, outside, copied, counted, claimed, fetched, Move, copies, counts, puts, claims, fetches,
  returns, System, step, Reach, start, later, is_counted, is_claimed, total, total-set, Consistent,
  IsConsistent,
}
use projeto_so.ProducerConsumer.Threads.Returned.{
  copy_element-done, reserve-done, claim-done, put-done, fetch-done, next_index-mod,
}

module _ (q : PcQueue) (pcs : List Pc) (m n i : ℕ) (v : Consistent q pcs m n) where
  -- a step that leaves the queue as it is
  Consistent-copies :
      (p : ℕ) → get_elem? pcs i ≡ some outside → Consistent q (set pcs i (copied p)) (m + 0) (n + 0)
  Consistent-copies p at = record {
    capacity_pos = v.capacity_pos;
    capacity_small = v.capacity_small;
    length_buffer = v.length_buffer;
    size_fits = v.size_fits;
    head_at = v.head_at ∙ ap (λ k. k % q.pcq_capacity) {x = m} (omega arith);
    tail_at = v.tail_at ∙ ap (λ k. k % q.pcq_capacity) {x = n} (omega arith);
    balance = omega (
      arith,
      v.balance,
      total-set is_claimed pcs i outside (copied p) at,
      total-set is_counted pcs i outside (copied p) at,
    );
  }

  Consistent-counts :
      (p : ℕ)
      → get_elem? pcs i ≡ some (copied p)
      → q.pcq_current_size ≢ q.pcq_capacity
      → Consistent
          (record q { pcq_current_size = (q.pcq_current_size + 1) % 2 ^ 64 })
          (set pcs i (counted p))
          (m + 0)
          (n + 0)
  Consistent-counts p at room =
      let wraps : (q.pcq_current_size + 1) % 2 ^ 64 ≡ q.pcq_current_size + 1 =
        omega (arith, v.size_fits, v.capacity_small) in
      record {
        capacity_pos = v.capacity_pos;
        capacity_small = v.capacity_small;
        length_buffer = v.length_buffer;
        size_fits = ground (arith, wraps, v.size_fits, room);
        head_at = v.head_at ∙ ap (λ k. k % q.pcq_capacity) {x = m} (omega arith);
        tail_at = v.tail_at ∙ ap (λ k. k % q.pcq_capacity) {x = n} (omega arith);
        balance = omega (
          arith,
          wraps,
          v.balance,
          total-set is_claimed pcs i (copied p) (counted p) at,
          total-set is_counted pcs i (copied p) (counted p) at,
        );
      }

  Consistent-puts :
      (p : ℕ)
      → get_elem? pcs i ≡ some (counted p)
      → Consistent
          (record q {
            pcq_buffer = set q.pcq_buffer q.pcq_head (address p);
            pcq_head = next_index q.pcq_head q.pcq_capacity;
          })
          (set pcs i outside)
          (m + 1)
          (n + 0)
  Consistent-puts p at = record {
    capacity_pos = v.capacity_pos;
    capacity_small = v.capacity_small;
    length_buffer = length-set q.pcq_buffer q.pcq_head (address p) ∙ v.length_buffer;
    size_fits = v.size_fits;
    head_at =
        ap (λ j. next_index j q.pcq_capacity) v.head_at
        ∙ next_index-mod m q.pcq_capacity v.capacity_pos v.capacity_small;
    tail_at = v.tail_at ∙ ap (λ k. k % q.pcq_capacity) {x = n} (omega arith);
    balance = omega (
      arith,
      v.balance,
      total-set is_claimed pcs i (counted p) outside at,
      total-set is_counted pcs i (counted p) outside at,
    );
  }

  Consistent-claims :
      get_elem? pcs i ≡ some outside
      → q.pcq_current_size ≢ 0
      → Consistent
          (record q { pcq_current_size = q.pcq_current_size - 1 })
          (set pcs i claimed)
          (m + 0)
          (n + 0)
  Consistent-claims at some_left = record {
    capacity_pos = v.capacity_pos;
    capacity_small = v.capacity_small;
    length_buffer = v.length_buffer;
    size_fits = omega (arith, v.size_fits);
    head_at = v.head_at ∙ ap (λ k. k % q.pcq_capacity) {x = m} (omega arith);
    tail_at = v.tail_at ∙ ap (λ k. k % q.pcq_capacity) {x = n} (omega arith);
    balance = ground (
      arith,
      some_left,
      v.balance,
      total-set is_claimed pcs i outside claimed at,
      total-set is_counted pcs i outside claimed at,
    );
  }

  Consistent-fetches :
      (elem : Pointer)
      → get_elem? pcs i ≡ some claimed
      → Consistent
          (record q { pcq_tail = next_index q.pcq_tail q.pcq_capacity })
          (set pcs i (fetched elem))
          (m + 0)
          (n + 1)
  Consistent-fetches elem at = record {
    capacity_pos = v.capacity_pos;
    capacity_small = v.capacity_small;
    length_buffer = v.length_buffer;
    size_fits = v.size_fits;
    head_at = v.head_at ∙ ap (λ k. k % q.pcq_capacity) {x = m} (omega arith);
    tail_at =
        ap (λ j. next_index j q.pcq_capacity) v.tail_at
        ∙ next_index-mod n q.pcq_capacity v.capacity_pos v.capacity_small;
    balance = omega (
      arith,
      v.balance,
      total-set is_claimed pcs i claimed (fetched elem) at,
      total-set is_counted pcs i claimed (fetched elem) at,
    );
  }

  Consistent-returns :
      (elem : Pointer)
      → get_elem? pcs i ≡ some (fetched elem)
      → Consistent q (set pcs i outside) (m + 0) (n + 0)
  Consistent-returns elem at = record {
    capacity_pos = v.capacity_pos;
    capacity_small = v.capacity_small;
    length_buffer = v.length_buffer;
    size_fits = v.size_fits;
    head_at = v.head_at ∙ ap (λ k. k % q.pcq_capacity) {x = m} (omega arith);
    tail_at = v.tail_at ∙ ap (λ k. k % q.pcq_capacity) {x = n} (omega arith);
    balance = omega (
      arith,
      v.balance,
      total-set is_claimed pcs i (fetched elem) outside at,
      total-set is_counted pcs i (fetched elem) outside at,
    );
  }

module _ (w : World) (pcs : List Pc) (m n i : ℕ) (v : Consistent w.queue pcs m n) where
  Consistent-Move :
      (pc pc' : Pc) (dm dn : ℕ) (w' : World)
      → get_elem? pcs i ≡ some pc
      → Move w pc dm dn w' pc'
      → Consistent w'.queue (set pcs i pc') (m + dm) (n + dn)
  Consistent-Move _ _ _ _ _ at (copies elem {p} {w'} e) =
      rw (copy_element-done elem w p w' e) (Consistent-copies w.queue pcs m n i v p at)
  Consistent-Move _ _ _ _ _ at (counts {p} {w'} e) =
      let (room, q') = reserve-done w w' e in
      rw q' (Consistent-counts w.queue pcs m n i v p at room)
  Consistent-Move _ _ _ _ _ at (puts {p} {w'} e) =
      rw (put-done p w w' e) (Consistent-puts w.queue pcs m n i v p at)
  Consistent-Move _ _ _ _ _ at (claims {w'} e) =
      let (some_left, q') = claim-done w w' e in
      rw q' (Consistent-claims w.queue pcs m n i v at some_left)
  Consistent-Move _ _ _ _ _ at (fetches {elem} {w'} e) =
      rw (fetch-done elem w w' e) (Consistent-fetches w.queue pcs m n i v elem at)
  Consistent-Move _ _ _ _ _ at (returns {elem}) = Consistent-returns w.queue pcs m n i v elem at

IsConsistent-Reach : (s t : System) → IsConsistent s → Reach s t → IsConsistent t
IsConsistent-Reach s _ v start = v
IsConsistent-Reach s _ v (later {t} r (step i {pc} {pc'} {m} {n} {w} at move)) =
    Consistent-Move t.world t.threads t.put_so_far t.fetched_so_far i (IsConsistent-Reach s t v r)
      pc pc' m n w at move

-- Once `pcq_create` has returned, with `k` threads that are outside of the queue.
abbrev pub created : List Pointer → Locks → ℕ → PcQueue → List Cell → ℕ → System
created buffer l capacity queue heap k = record {
  world = record { queue = (pcq_create (some buffer) l capacity queue).1; heap = heap };
  threads = replicate k outside;
  put_so_far = 0;
  fetched_so_far = 0;
}

total-outside : (f : Pc → ℕ) (k : ℕ) → f outside ≡ 0 → total f (replicate k outside) ≡ 0
total-outside f zero z = refl
total-outside f (suc k) z = omega (arith, z, total-outside f k z)

-- A queue that `pcq_create` has set up with an array of `capacity` slots, a capacity that is not 0
-- and below 2 ^ 63, and any number of threads: however their steps interleave, the array keeps its
-- size, the count does not pass the capacity, the two indices are the numbers of puts and fetches
-- modulo the capacity, and the count is of the elements in the slots, with those that are counted
-- but not yet put and without those that are taken off but not yet fetched.
pub pcq_create-Reach :
    (buffer : List Pointer) (l : Locks) (capacity : ℕ) (queue : PcQueue) (heap : List Cell) (k : ℕ)
    (t : System)
    → 0 < capacity
    → capacity < 2 ^ 63
    → length buffer ≡ capacity
    → Reach (created buffer l capacity queue heap k) t
    → IsConsistent t
unfolding pcq_create
pcq_create-Reach buffer l capacity queue heap k t h small whole r =
    IsConsistent-Reach (created buffer l capacity queue heap k) t
      (record {
        capacity_pos = h;
        capacity_small = small;
        length_buffer = whole;
        size_fits = omega arith;
        head_at = sym (zero-mod capacity);
        tail_at = sym (zero-mod capacity);
        balance = omega (arith, total-outside is_claimed k refl, total-outside is_counted k refl);
      })
      r
