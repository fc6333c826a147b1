-- ===== src/Manager.antt =====
-- The requests of manager/manager.c and how it reads the answers. What calloc, malloc, open, read,
-- write and close answer is a parameter.
pub mod Listing
pub mod Main
pub mod Exits
mod Tests
use projeto_so.Base.{
  ℕ, ◌+◌, ◌*◌, ◌≡◌, Bool, true, false, not, Option, none, some, List, [], ◌∷◌, ℤ, pos, minus_one,
  is_minus_one, is_zero, leb, length, get_elem?, ◌==◌, if◌then◌else◌,
}
use projeto_so.Libc.Memory.{peek, poke, int_of_bytes}
use projeto_so.Libc.CString.{CString}
use projeto_so.BoxList.{Box, Cell, Outcome, box_name_length, insertion_sort}
use projeto_so.BoxList
use projeto_so.Protocol.{
  c_string, calloc, box_request_message, list_box_message, total_response_length,
  list_response_length, error_message_size,
}
use projeto_so.Subscriber.{Read}

-- "OK", or "ERROR" with what the 1024 bytes that follow hold
pub data Line : Type 0 where
  ok_line : Line
  error_line : List ℕ → Line
  no_boxes_line : Line

-- what a request returns, what it has written to the server, and what it has printed
pub record Reply : Type 0 where
  pub code : ℤ
  pub messages : List (List ℕ)
  pub printed : List Line

-- what the calls of `box_request` answer, in the order of the source
pub record Answers : Type 0 where
  pub has_memory : Bool
  pub written : ℤ
  pub opened : ℤ
  pub answer : Read
  pub closed : ℤ

-- What is printed for an answer.
unfoldable pub answer_line : List ℕ → Line
answer_line bytes =
    let buffer = poke (calloc total_response_length) 0 bytes in
    if is_zero (int_of_bytes (peek buffer 1 4))
    then ok_line
    else error_line (peek buffer 5 error_message_size)

unfoldable pub box_request : Answers → CString → CString → ℕ → Reply
box_request a session_pipe_name box code =
    let message = box_request_message code session_pipe_name box in
    if not a.has_memory
    then record { code = minus_one; messages = []; printed = [] }
    else if is_minus_one a.written
    then record { code = minus_one; messages = message ∷ []; printed = [] }
    else if is_minus_one a.opened
    then record { code = minus_one; messages = message ∷ []; printed = [] }
    else if is_minus_one a.answer.code
    then record { code = minus_one; messages = message ∷ []; printed = [] }
    else record {
      code = if is_minus_one a.closed then minus_one else pos 0;
      messages = message ∷ [];
      printed = answer_line a.answer.bytes ∷ [];
    }

-- How `list_box_request` ends: it returns, it runs into undefined behaviour, or it waits for more
-- boxes than there are.
pub data Listed : Type 0 where
  returned : Reply → Listed
  fault : Listed
  waiting : Listed

-- the box of a response whose `last` stands before `offset`
pub record Response : Type 0 where
  pub last : ℕ
  pub box_name : List ℕ
  pub box_size : List ℕ
  pub n_publishers : List ℕ
  pub n_subscribers : List ℕ

-- The little-endian value of the bytes.
unfoldable pub uint64_of_bytes : List ℕ → ℕ
uint64_of_bytes [] = 0
uint64_of_bytes (b ∷ bytes) = b + 256 * uint64_of_bytes bytes

-- `memcmp(&last, &BOX_ERROR, UINT8_T_SIZE) == 0`, whose first byte is 255
abbrev pub means_no_boxes : ℕ → Bool
means_no_boxes last = last == 255

abbrev pub is_last_box : ℕ → Bool
is_last_box last = last == 1

-- What the loop takes out of the buffer from `offset` on, and where it leaves the pointer; `none`
-- where that lies outside the buffer.
unfoldable pub take_response : List ℕ → ℕ → Option (Response × ℕ)
take_response buffer offset =
    if leb (offset + 1 + box_name_length + 24) (length buffer)
    then some (
      record {
        last = uint64_of_bytes (peek buffer offset 1);
        box_name = peek buffer (offset + 1) box_name_length;
        box_size = peek buffer (offset + 1 + box_name_length) 8;
        n_publishers = peek buffer (offset + 1 + box_name_length + 8) 8;
        n_subscribers = peek buffer (offset + 1 + box_name_length + 16) 8;
      },
      offset + 1 + box_name_length + 16,
    )
    else none

-- `insertionSort` with the list that `head` starts, which stays NULL, since the call gets a copy.
unfoldable pub sort_in : Option Box → Response → List Cell → Outcome ℤ
sort_in malloced r heap = elim (c_string r.box_name) [
  | none ↦ Outcome.fault
  | some name ↦
      insertion_sort malloced 0 none name (uint64_of_bytes r.box_size)
        (uint64_of_bytes r.n_publishers) (uint64_of_bytes r.n_subscribers) heap
]

-- The end of `list_box_request`: the list is empty, so nothing is printed for it.
abbrev pub finish : ℤ → List (List ℕ) → List Line → Listed
finish closed messages printed = returned (record {
  code = if is_minus_one closed then minus_one else pos 0;
  messages = messages;
  printed = printed;
})

-- What is done with a response, where `more` is the rest of the loop on what `malloc` and
-- `insertionSort` leave.
unfoldable pub list_response :
    Option Box → ℤ → List (List ℕ) → Response → List Cell → (List Cell → Listed) → Listed
list_response malloced closed messages r heap more = elim (sort_in malloced r heap) [
  | Outcome.done code heap' ↦
      if not (is_zero code)
      then returned (record { code = minus_one; messages = messages; printed = [] })
      else if is_last_box r.last
      then finish closed messages []
      else more heap'
  | Outcome.fault ↦ fault
  | Outcome.endless ↦ fault
]

-- What is done with the bytes at the pointer: `last`, and the box there where it lies in the buffer.
unfoldable pub read_response :
    Option Box
    → ℤ
    → List (List ℕ)
    → Option ℕ
    → Option (Response × ℕ)
    → List Cell
    → (ℕ → List Cell → Listed)
    → Listed
read_response malloced closed messages none taken heap more = fault
read_response malloced closed messages (some last) none heap more =
    if means_no_boxes last then finish closed messages (no_boxes_line ∷ []) else fault
read_response malloced closed messages (some last) (some (response, next)) heap more =
    if means_no_boxes last
    then finish closed messages (no_boxes_line ∷ [])
    else list_response malloced closed messages response heap (more next)

-- The loop, with the pointer at `offset` of the buffer, on what `read` and `malloc` give from now
-- on. A `read` that stores bytes behind the end of the buffer is a fault.
unfoldable pub list_loop :
    List (Read × Option Box) → ℤ → List (List ℕ) → List ℕ → ℕ → List Cell → Listed
list_loop [] closed messages buffer offset heap = waiting
list_loop ((r, malloced) ∷ rs) closed messages buffer offset heap =
    let filled = poke buffer offset r.bytes in
    let more = λ (next : ℕ) (heap' : List Cell). list_loop rs closed messages filled next heap' in
    if is_minus_one r.code
    then returned (record { code = minus_one; messages = messages; printed = [] })
    else if not (leb (offset + length r.bytes) (length buffer))
    then fault
    else read_response malloced closed messages (get_elem? filled offset)
        (take_response filled offset) heap more

unfoldable pub list_box_request :
    Bool → ℤ → Bool → ℤ → List (Read × Option Box) → ℤ → CString → Listed
list_box_request has_memory written has_buffer opened reads closed session_pipe_name =
    let message = list_box_message session_pipe_name in
    if not has_memory
    then returned (record { code = minus_one; messages = []; printed = [] })
    else if is_minus_one written
    then returned (record { code = minus_one; messages = message ∷ []; printed = [] })
    else if not has_buffer
    then returned (record { code = minus_one; messages = message ∷ []; printed = [] })
    else if is_minus_one opened
    then returned (record { code = minus_one; messages = message ∷ []; printed = [] })
    else list_loop reads closed (message ∷ []) (calloc list_response_length) 0 []
