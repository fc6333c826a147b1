-- ===== src/Broker/Lists.antt =====
-- `list_box` (mbroker/mbroker.c) on the chain of boxes, and `list_box_request` (manager/manager.c)
-- on what it writes.
use projeto_so.Base.{
  ℕ, zero, suc, ◌+◌, ◌≤◌, ◌≡◌, refl, ap, ◌∙◌, ◌⊎◌, true, false, Option, some, List, [], ◌∷◌, ◌++◌,
  ℤ, pos, is_minus_one, arith, length, length-append,
}
use projeto_so.Libc.Memory.{poke}
use projeto_so.Libc.CString.{CString}
use projeto_so.BoxList.{Box, box_name_length, uint64_bytes, box_to_string}
use projeto_so.BoxList.Chain.{Chain}
use projeto_so.Protocol.{calloc, list_box_a, list_response_length}
use projeto_so.Subscriber.{Read}
use projeto_so.Manager
use projeto_so.Manager.{Listed, list_box_request}
use projeto_so.Manager.Listing.{AllFromBroker, list_box_request-stuck}
use projeto_so.Broker.{World, done}
use projeto_so.Broker.Handlers.{box_message, no_box, list_one, list_loop, list_box}

-- Writing behind a prefix leaves the prefix, and writing over zeros leaves the zeros behind it.
poke-append :
    (xs m : List ℕ) (n k : ℕ) (bytes : List ℕ)
    → n ≡ length xs + k
    → poke (xs ++ m) n bytes ≡ xs ++ poke m k bytes
unfolding poke
poke-append [] m n k bytes h = ap (λ j. poke m j bytes) {x = n} {y = k} (omega (arith, h))
poke-append (x ∷ xs) m zero k bytes h = absurd (omega (arith, h))
poke-append (x ∷ xs) m (suc n) k bytes h = ap (x ∷◌) (poke-append xs m n k bytes (omega (arith, h)))

poke-calloc :
    (bytes : List ℕ) (n k : ℕ) → n ≡ length bytes + k → poke (calloc n) 0 bytes ≡ bytes ++ calloc k
unfolding poke
poke-calloc [] zero k h = ap calloc {x = 0} {y = k} (omega (arith, h))
poke-calloc [] (suc n) k h = ap calloc {x = suc n} {y = k} (omega (arith, h))
poke-calloc (b ∷ bytes) zero k h = absurd (omega (arith, h))
poke-calloc (b ∷ bytes) (suc n) k h = ap (b ∷◌) (poke-calloc bytes n k (omega (arith, h)))

-- the 58 bytes for a box: operation code, mark of the last box, name and the three numbers
abbrev pub message_of : Box → List ℕ
message_of b =
    list_box_a
    ∷ b.last
    ∷ (b.box_name
        ++ (uint64_bytes b.box_size
            ++ (uint64_bytes b.n_publishers ++ uint64_bytes b.n_subscribers)))

box_message_lem :
    (b : Box) → length b.box_name ≡ box_name_length → box_message b ≡ some (message_of b)
unfolding box_message box_to_string poke uint64_bytes
box_message_lem b h =
    let sizes = uint64_bytes b.box_size in
    let pubs = uint64_bytes b.n_publishers in
    rw
      (
        poke-calloc b.box_name 56 24 (omega (arith, h)),
        poke-append b.box_name (calloc 24) 32 0 sizes (omega (arith, h)),
        poke-append b.box_name (poke (calloc 24) 0 sizes) 40 8 pubs (omega (arith, h)),
        poke-append b.box_name (poke (poke (calloc 24) 0 sizes) 8 pubs) 48 16
            (uint64_bytes b.n_subscribers) (omega (arith, h)),
      )
      refl

length-message_of :
    (b : Box) → length b.box_name ≡ box_name_length → length (message_of b) ≡ list_response_length
unfolding uint64_bytes
length-message_of b h =
    let numbers =
      uint64_bytes b.box_size ++ (uint64_bytes b.n_publishers ++ uint64_bytes b.n_subscribers) in
    omega (arith, h, length-append b.box_name numbers)

-- the messages for the boxes of a chain
abbrev pub messages_of : List (ℕ × Box) → List (List ℕ)
messages_of [] = []
messages_of ((p, b) ∷ xs) = message_of b ∷ messages_of xs

-- Each name fills its array.
abbrev pub Named : List (ℕ × Box) → Type 0
Named [] = Unit
Named ((p, b) ∷ xs) = (length b.box_name ≡ box_name_length) × Named xs

append-nil : (ms : List (List ℕ)) → ms ++ [] ≡ ms
append-nil [] = refl
append-nil (x ∷ ms) = ap (x ∷◌) (append-nil ms)

append_one : (ms ns : List (List ℕ)) (m : List ℕ) → (ms ++ m ∷ []) ++ ns ≡ ms ++ m ∷ ns
append_one [] ns m = refl
append_one (x ∷ ms) ns m = ap (x ∷◌) (append_one ms ns m)

module _ (written : ℕ → ℤ) (works : (k : ℕ) → is_minus_one (written k) ≡ false) where
  list_loop_lem :
      (rounds k : ℕ) (head : Option ℕ) (xs : List (ℕ × Box)) (w : World)
      → Chain w.boxes head xs
      → Named xs
      → length xs ≤ rounds
      → list_loop written rounds k head w
        ≡ done (pos 0) (record w { pipe = w.pipe ++ messages_of xs })
  unfolding list_loop list_one
  list_loop_lem zero k head [] w c n h = rw (c, append-nil w.pipe) refl
  list_loop_lem (suc rounds) k head [] w c n h = rw (c, append-nil w.pipe) refl
  list_loop_lem zero k head (x ∷ xs) w c n h = absurd (omega (arith, h))
  list_loop_lem (suc rounds) k head ((p, b) ∷ xs) w c n h =
      let w' : World = record w { pipe = w.pipe ++ message_of b ∷ [] } in
      let rest = list_loop_lem rounds (k + 1) b.next xs w' c.2 n.1 (omega (arith, h)) in
      rw
        (
          c.0,
          list_loop,
          c.1,
          box_message_lem b n.0,
          works k,
          rest,
          append_one w.pipe (messages_of xs) (message_of b),
        )
        refl

-- what `list_box` writes for the boxes: one message for each, or that for the mark of an empty list
abbrev pub listing_of : List (ℕ × Box) → List (List ℕ)
listing_of [] = message_of no_box ∷ []
listing_of (x ∷ xs) = messages_of (x ∷ xs)

-- On a chain of boxes whose names fill their arrays, with memory, no fewer rounds than boxes and a
-- `write` that works each time: `list_box` returns 0 and writes the boxes in their order, one
-- message of operation code, mark, name and numbers for each, and for no box one message of which
-- the mark is 1 and all else is 0; it changes nothing else.
pub list_box_lem :
    (written : ℕ → ℤ) (rounds : ℕ) (head : Option ℕ) (xs : List (ℕ × Box)) (w : World)
    → ((k : ℕ) → is_minus_one (written k) ≡ false)
    → Chain w.boxes head xs
    → Named xs
    → length xs ≤ rounds
    → list_box true true written rounds head w
      ≡ done (pos 0) (record w { pipe = w.pipe ++ listing_of xs })
unfolding list_box
list_box_lem written rounds head [] w works c n h =
    rw (c, box_message_lem no_box refl, works 0) refl
list_box_lem written rounds head ((p, b) ∷ xs) w works c n h =
    rw c.0 (list_loop_lem written works rounds 0 (some p) ((p, b) ∷ xs) w (refl, c.1, c.2) n h)

-- The reads of a session pipe that carries these messages, each of which comes whole.
abbrev pub reads_of : Option Box → List (List ℕ) → List (Read × Option Box)
reads_of malloced [] = []
reads_of malloced (m ∷ ms) = (record { code = pos 58; bytes = m }, malloced) ∷ reads_of malloced ms

reads_of-AllFromBroker :
    (old : Box) (xs : List (ℕ × Box))
    → Named xs
    → AllFromBroker (reads_of (some old) (messages_of xs))
reads_of-AllFromBroker old [] n = tt
reads_of-AllFromBroker old ((p, b) ∷ xs) n = (
  record { code = refl; whole = length-message_of b n.0; tagged = refl },
  (old, refl),
  reads_of-AllFromBroker old xs n.1,
)

listing-AllFromBroker :
    (old : Box) (xs : List (ℕ × Box))
    → Named xs
    → AllFromBroker (reads_of (some old) (listing_of xs))
listing-AllFromBroker old [] n =
    (record { code = refl; whole = length-message_of no_box refl; tagged = refl }, (old, refl), tt)
listing-AllFromBroker old (x ∷ xs) n = reads_of-AllFromBroker old (x ∷ xs) n

-- A broker that lists a chain of boxes whose names fill their arrays, to an empty pipe and with
-- memory and a `write` that work, returns 0; and a manager that reads just the messages it wrote,
-- where every call before the loop works and `malloc` finds memory, never returns: it waits for more
-- or runs into undefined behaviour.
pub list_box_request-list_box :
    (rounds : ℕ) (head : Option ℕ) (xs : List (ℕ × Box)) (w : World) (old : Box) (closed : ℤ)
    (session_pipe_name : CString)
    → w.pipe ≡ []
    → Chain w.boxes head xs
    → Named xs
    → length xs ≤ rounds
    → (w' : World) × (list_box true true (λ k. pos 58) rounds head w ≡ done (pos 0) w')
      × (let l =
            list_box_request true
              (pos 257)
              true
              (pos 3)
              (reads_of (some old) w'.pipe)
              closed
              session_pipe_name in
          (l ≡ Manager.fault) ⊎ (l ≡ Manager.waiting))
list_box_request-list_box rounds head xs w old closed name empty c n h =
    let w' : World = record w { pipe = listing_of xs } in
    (
      w',
      list_box_lem (λ k. pos 58) rounds head xs w (λ k. refl) c n h
          ∙ ap (λ ms. done (pos 0) (record w { pipe = ms ++ listing_of xs })) empty,
      list_box_request-stuck (reads_of (some old) (listing_of xs)) (pos 257) (pos 3) closed name
          (listing-AllFromBroker old xs n) refl refl,
    )
