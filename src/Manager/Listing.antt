-- ===== src/Manager/Listing.antt =====
-- `list_box_request` (manager/manager.c) on the responses that the broker writes.
use projeto_so.Base.{
  ℕ, ◌+◌, ◌≤◌, ◌≡◌, refl, ap, ◌⊎◌, inl, inr, true, false, Option, none, some, List, [], ◌∷◌, ◌++◌,
  ℤ, pos, is_minus_one, arith, length, drop, get_elem?, leb, ltb, Option-cases, length-take,
}
use projeto_so.Libc.Memory.{peek, poke}
use projeto_so.Libc.CString.{CString, terminated}
use projeto_so.BoxList.{Box, Cell, live, Outcome, box_name_length, insertion_sort}
use projeto_so.Protocol.{c_string, calloc, list_box_message, list_box_a, list_response_length}
use projeto_so.Protocol.Fields.{length-c_string}
use projeto_so.Subscriber.{Read}
use projeto_so.Manager.{
  Listed, fault, waiting, Response, uint64_of_bytes, take_response, sort_in, list_response,
  read_response, list_loop, list_box_request,
}

-- A response of the broker: 58 bytes, the first of which is the operation code.
pub record FromBroker (r : Read) : Type 0 where
  pub code : is_minus_one r.code ≡ false
  pub whole : length r.bytes ≡ list_response_length
  pub tagged : get_elem? r.bytes 0 ≡ some list_box_a

abbrev pub AllFromBroker : List (Read × Option Box) → Type 0
AllFromBroker [] = Unit
AllFromBroker ((r, malloced) ∷ rs) =
    FromBroker r × ((old : Box) × (malloced ≡ some old)) × AllFromBroker rs

abbrev IsStuck : Listed → Type 0
IsStuck l = (l ≡ fault) ⊎ (l ≡ waiting)

-- `insertionSort` into an empty list works, where the name is a string.
sort_in-empty :
    (old : Box) (r : Response) (heap : List Cell)
    → length r.box_name ≤ box_name_length
    → (sort_in (some old) r heap ≡ Outcome.fault)
      ⊎ ((heap' : List Cell) × (sort_in (some old) r heap ≡ Outcome.done (pos 0) heap'))
unfolding sort_in insertion_sort
sort_in-empty old r heap fits = elim (Option-cases (c_string r.box_name)) [
  | inl e ↦ inl (ground (arith, e))
  | inr (s, e) ↦
      let short : ltb (length s) box_name_length ≡ true =
        ground (arith, fits, length-c_string r.box_name s e) in
      inr (
        heap
            ++ live (record {
              box_name = poke old.box_name 0 (terminated s);
              box_size = uint64_of_bytes r.box_size;
              n_publishers = uint64_of_bytes r.n_publishers;
              n_subscribers = uint64_of_bytes r.n_subscribers;
              last = 0;
              next = none;
            })
              ∷ [],
        ground (arith, e, short),
      )
]

poke-whole : (m bytes : List ℕ) → length m ≡ length bytes → poke m 0 bytes ≡ bytes
unfolding poke
poke-whole [] [] h = refl
poke-whole [] (b ∷ bytes) h = absurd (omega (arith, h))
poke-whole (x ∷ m) [] h = absurd (omega (arith, h))
poke-whole (x ∷ m) (b ∷ bytes) h = ap (b ∷◌) (poke-whole m bytes (omega (arith, h)))

-- the box that the loop reads at the start of the bytes
abbrev response_of : List ℕ → Response
response_of bytes = record {
  last = uint64_of_bytes (peek bytes 0 1);
  box_name = peek bytes 1 box_name_length;
  box_size = peek bytes 33 8;
  n_publishers = peek bytes 41 8;
  n_subscribers = peek bytes 49 8;
}

taken_whole :
    (bytes : List ℕ)
    → length bytes ≡ list_response_length
    → take_response bytes 0 ≡ some (response_of bytes, 49)
unfolding take_response
taken_whole bytes h = let fits : leb 57 (length bytes) ≡ true = ground (arith, h) in rw fits refl

-- `last` is the operation code.
tag_last : (r : Read) → FromBroker r → (response_of r.bytes).last ≡ list_box_a
unfolding uint64_of_bytes
tag_last r b = first_byte r.bytes b.tagged
  where
    first_byte :
        (bytes : List ℕ)
        → get_elem? bytes 0 ≡ some list_box_a
        → uint64_of_bytes (peek bytes 0 1) ≡ list_box_a
    first_byte [] e = ground (arith, e)
    first_byte (c ∷ bytes) e = ground (arith, e)

module _ (closed : ℤ) (messages : List (List ℕ)) where
  -- The second read does not fit behind the pointer.
  second_read :
      (rs : List (Read × Option Box)) (buffer : List ℕ) (heap : List Cell)
      → AllFromBroker rs
      → length buffer ≡ list_response_length
      → IsStuck (list_loop rs closed messages buffer 49 heap)
  unfolding list_loop
  second_read [] buffer heap all whole = inr refl
  second_read ((r, malloced) ∷ rs) buffer heap all whole =
      let over : leb (49 + length r.bytes) (length buffer) ≡ false =
        ground (arith, whole, all.0.whole) in
      inl (rw (all.0.code, over) refl)

  -- A response that is neither the last nor the mark of an empty list goes into the list.
  response_goes_on :
      (old : Box) (r : Response) (heap : List Cell) (more : List Cell → Listed)
      → length r.box_name ≤ box_name_length
      → r.last ≡ list_box_a
      → ((heap' : List Cell) → IsStuck (more heap'))
      → IsStuck (list_response (some old) closed messages r heap more)
  unfolding list_response
  response_goes_on old r heap more fits last stuck = elim (sort_in-empty old r heap fits) [
    | inl e ↦ inl (ground (arith, e))
    | inr (heap', e) ↦
        let goes_on : list_response (some old) closed messages r heap more ≡ more heap' =
          ground (arith, e, last) in
        coe 1 0 (i. IsStuck (goes_on i)) (stuck heap')
  ]

  list_loop-tagged :
      (r : Read) (malloced : Option Box) (rs : List (Read × Option Box)) (buffer : List ℕ)
      (heap : List Cell) (response : Response)
      → FromBroker r
      → length buffer ≡ list_response_length
      → take_response r.bytes 0 ≡ some (response, 49)
      → list_loop ((r, malloced) ∷ rs) closed messages buffer 0 heap
        ≡ list_response malloced closed messages response heap
            (λ heap'. list_loop rs closed messages r.bytes 49 heap')
  unfolding list_loop read_response
  list_loop-tagged r malloced rs buffer heap response b whole taken =
      let fits : leb (0 + length r.bytes) (length buffer) ≡ true = ground (arith, whole, b.whole) in
      let filled : poke buffer 0 r.bytes ≡ r.bytes =
        poke-whole buffer r.bytes (omega (arith, whole, b.whole)) in
      rw (b.code, fits, filled, b.tagged, taken) refl

  pub list_loop-IsStuck :
      (rs : List (Read × Option Box)) (buffer : List ℕ) (heap : List Cell)
      → AllFromBroker rs
      → length buffer ≡ list_response_length
      → IsStuck (list_loop rs closed messages buffer 0 heap)
  unfolding list_loop
  list_loop-IsStuck [] buffer heap all whole = inr refl
  list_loop-IsStuck ((r, malloced) ∷ rs) buffer heap all whole =
      let (b, (old, is_old), others) = all in
      let response : Response = response_of r.bytes in
      let taken : take_response r.bytes 0 ≡ some (response, 49) = taken_whole r.bytes b.whole in
      rw (list_loop-tagged r malloced rs buffer heap response b whole taken, is_old)
        (response_goes_on old response heap (λ heap'. list_loop rs closed messages r.bytes 49 heap')
          (omega (arith, length-take box_name_length (drop 1 r.bytes))) (tag_last r b)
          (λ heap'. second_read rs r.bytes heap' others b.whole))

-- For responses of 58 bytes that begin with the broker's operation code for a list, where every call
-- before the loop works and `malloc` finds memory for every box: `list_box_request` never returns;
-- it waits for more responses, or runs into undefined behaviour.
pub list_box_request-stuck :
    (reads : List (Read × Option Box)) (written opened closed : ℤ) (session_pipe_name : CString)
    → AllFromBroker reads
    → is_minus_one written ≡ false
    → is_minus_one opened ≡ false
    → let l = list_box_request true written true opened reads closed session_pipe_name in
      (l ≡ fault) ⊎ (l ≡ waiting)
unfolding list_box_request
list_box_request-stuck reads written opened closed name all w o =
    rw (w, o)
      (list_loop-IsStuck closed (list_box_message name ∷ []) reads (calloc list_response_length) []
        all refl)
