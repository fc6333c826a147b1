-- ===== src/Broker/Requests.antt =====
-- The loop of `main` (mbroker/mbroker.c) that hands requests to the queue.
pub mod Freed
mod Tests
use projeto_so.Base.{
  ℕ, zero, suc, ◌+◌, ◌≤◌, ◌<◌, ◌≡◌, refl, ap, sym, ◌∙◌, Bool, true, false, List, [], ◌∷◌, ◌++◌, ℤ,
  pos, minus_one, is_minus_one, arith, length, leb, not, if◌then◌else◌, take, length-replicate,
  length-append,
}
use mathlib.Core.List.{append-nil, append_assoc}
use projeto_so.Libc.Memory.{poke, length-poke}
use projeto_so.Protocol.{calloc}
use projeto_so.Protocol.Fields.{take-whole}
use projeto_so.Subscriber.{Read}
use projeto_so.ProducerConsumer.{
  World, Call, done, blocked, fault, Pthread, request_length, pcq_enqueue,
}
use projeto_so.ProducerConsumer.Invariant.{IsValid, Contents}
use projeto_so.ProducerConsumer.Sections.{Works, Enqueued, waits, entered}
use projeto_so.ProducerConsumer.Enqueue.{pcq_enqueue_lem}

-- one round: what `read` gives, and what the calls of `pcq_enqueue` answer
pub record Round : Type 0 where
  pub read : Read
  pub has_memory : Bool
  pub calls : Pthread

-- How the loop stands: it has left with -1, it waits for the next request, it waits for room in the
-- queue, or it has run into undefined behaviour.
pub data Served : Type 0 where
  left : World → Served
  waiting : World → Served
  full : Served
  broken : Served

-- the message of a round, whose buffer was cleared
abbrev pub message_of : Round → List ℕ
message_of r = poke (calloc request_length) 0 r.read.bytes

-- What follows `pcq_enqueue`, with the rest of the loop.
unfoldable pub after_enqueue : Call ℤ → (World → Served) → Served
after_enqueue (done code w) rest = if is_minus_one code then left w else rest w
after_enqueue blocked rest = full
after_enqueue fault rest = broken

unfoldable pub serve : List Round → World → Served
serve [] w = waiting w
serve (r ∷ rs) w =
    let rest = serve rs in
    if is_minus_one r.read.code
    then left w
    else after_enqueue (pcq_enqueue r.has_memory r.calls (message_of r) w) rest

-- Every call of the rounds works.
abbrev pub AllWork : List Round → Type 0
AllWork [] = Unit
AllWork (r ∷ rs) =
    (is_minus_one r.read.code ≡ false) × (r.has_memory ≡ true) × Works r.calls × AllWork rs

abbrev pub messages_of : List Round → List (List ℕ)
messages_of [] = []
messages_of (r ∷ rs) = message_of r ∷ messages_of rs

pub length-message_of : (r : Round) → length (message_of r) ≡ request_length
length-message_of r =
    length-poke (calloc request_length) 0 r.read.bytes ∙ length-replicate {A = ℕ} request_length 0

serve-next :
    (r : Round) (rs : List Round) (w w' : World)
    → is_minus_one r.read.code ≡ false
    → r.has_memory ≡ true
    → pcq_enqueue true r.calls (message_of r) w ≡ done (pos 0) w'
    → serve (r ∷ rs) w ≡ serve rs w'
unfolding serve after_enqueue
serve-next r rs w w' reads memory run = rw (reads, memory, run) refl

served_none : (w : World) → serve [] w ≡ waiting w
unfolding serve
served_none w = refl

-- One message, on a queue with room.
enqueue_one :
    (r : Round) (w : World) (xs : List (List ℕ))
    → IsValid w
    → Contents w xs
    → Works r.calls
    → length xs < w.queue.pcq_capacity
    → (w' : World) × (pcq_enqueue true r.calls (message_of r) w ≡ done (pos 0) w')
      × (w'.queue.pcq_capacity ≡ w.queue.pcq_capacity)
      × IsValid w'
      × Contents w' (xs ++ message_of r ∷ [])
enqueue_one r w xs v c works room =
    let whole = take-whole request_length (message_of r) (omega (arith, length-message_of r)) in
    elim (pcq_enqueue_lem w v r.calls works (message_of r) (omega (arith, length-message_of r)) xs
      c) [
        | waits same is_blocked ↦ absurd (omega (arith, same, room))
        | entered less w' run same v' c' ↦
            (w', run, same, v', coe 0 1 (i. Contents w' (xs ++ whole i ∷ [])) c')
      ]

-- What `serve_lem` says, and that the capacity stays.
pub serve_run :
    (rs : List Round) (w : World) (xs : List (List ℕ))
    → IsValid w
    → Contents w xs
    → AllWork rs
    → length xs + length rs ≤ w.queue.pcq_capacity
    → (w' : World) × (serve rs w ≡ waiting w')
      × (w'.queue.pcq_capacity ≡ w.queue.pcq_capacity)
      × IsValid w'
      × Contents w' (xs ++ messages_of rs)
serve_run [] w xs v c works room = (w, served_none w, refl, v, rw (append-nil xs) c)
serve_run (r ∷ rs) w xs v c works room =
    let grown : List (List ℕ) = xs ++ message_of r ∷ [] in
    let (w1, run, same, v1, c1) = enqueue_one r w xs v c works.2 (omega (arith, room)) in
    let (w2, end, same2, v2, c2) =
      serve_run rs w1 grown v1 c1 works.3
        (omega (arith, same, room, length-append xs (message_of r ∷ []))) in
    (
      w2,
      serve-next r rs w w1 works.0 works.1 run ∙ end,
      same2 ∙ same,
      v2,
      coe 0 1 (i. Contents w2 (append_assoc xs (message_of r ∷ []) (messages_of rs) i)) c2,
    )

-- On a well-formed queue that holds `xs` and has room for as many elements as there are rounds, where
-- no call fails and no worker takes an element: the loop puts the message of each round behind the
-- others, in order, and then waits for the next request; the queue stays well-formed.
pub serve_lem :
    (rs : List Round) (w : World) (xs : List (List ℕ))
    → IsValid w
    → Contents w xs
    → AllWork rs
    → length xs + length rs ≤ w.queue.pcq_capacity
    → (w' : World) × (serve rs w ≡ waiting w') × IsValid w' × Contents w' (xs ++ messages_of rs)
serve_lem rs w xs v c works room =
    let (w', end, same, v', c') = serve_run rs w xs v c works room in (w', end, v', c')
