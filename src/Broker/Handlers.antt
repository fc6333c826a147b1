-- ===== src/Broker/Handlers.antt =====
-- `box_answer`, `create_box`, `remove_box` and `list_box` of mbroker/mbroker.c.
use projeto_so.Base.{
  ℕ, zero, suc, ◌+◌, Bool, not, Option, none, some, List, [], ◌∷◌, ℤ, pos, minus_one, is_minus_one,
  ◌==◌, if◌then◌else◌, get_elem?, take, length,
}
use projeto_so.Libc.Memory.{peek, poke, int_bytes}
use projeto_so.Libc.CString.{CString}
use projeto_so.BoxList.{
  Box, live, freed, Name, box_name_length, insert_box, delete_box, box_to_string,
}
use projeto_so.Fs.Operations.{Mutex, tfs_o_creat, tfs_open, tfs_close, tfs_unlink}
use projeto_so.Protocol.{
  c_string, calloc, total_response_length, box_creation_r, box_creation_a, box_removal_r,
  box_removal_a, list_box_a,
}
use projeto_so.Broker.{done, fault, endless, Cmd, ◌>>=◌, ◌>>◌, or_fault, in_fs, in_boxes, send}

-- "ERROR: Unable to process request."
abbrev pub error_message : List ℕ
error_message =
    69 ∷ 82 ∷ 82 ∷ 79 ∷ 82 ∷ 58 ∷ 32 ∷ 85 ∷ 110 ∷ 97 ∷ 98 ∷ 108 ∷ 101 ∷ 32 ∷ 116 ∷ 111 ∷ 32 ∷ 112
    ∷ 114 ∷ 111 ∷ 99 ∷ 101 ∷ 115 ∷ 115 ∷ 32 ∷ 114 ∷ 101 ∷ 113 ∷ 117 ∷ 101 ∷ 115 ∷ 116 ∷ 46 ∷ []

-- The operation code of the answer; another request leaves the zero of the fresh message.
abbrev pub answer_code : ℕ → ℕ
answer_code op_code =
    if op_code == box_creation_r
    then box_creation_a
    else if op_code == box_removal_r
    then box_removal_a
    else 0

-- the message of 1029 bytes that `box_answer` lays out
unfoldable pub answer_message : ℤ → ℕ → List ℕ
answer_message return_code op_code =
    let coded = poke (calloc total_response_length) 0 (answer_code op_code ∷ []) in
    let returned = poke coded 1 (int_bytes return_code) in
    if is_minus_one return_code then poke returned 5 error_message else returned

-- The bytes that it writes: from behind the return code, as many as the error message has.
unfoldable pub answer_bytes : ℤ → ℕ → List ℕ
answer_bytes return_code op_code =
    peek (answer_message return_code op_code) 5 (length error_message)

-- what calloc and write answer to one call of `box_answer`
pub record Answer : Type 0 where
  pub has_memory : Bool
  pub written : ℤ

unfoldable pub box_answer : Answer → ℤ → ℕ → Cmd ℤ
box_answer a return_code op_code = if not a.has_memory then done minus_one else do
  send a.written (answer_bytes return_code op_code)
  if is_minus_one a.written then done minus_one else done (pos 0)

-- The answer of a failed request, and the return of -1.
abbrev pub refuse : Answer → ℕ → Cmd ℤ
refuse a op_code = do _ ← box_answer a minus_one op_code; done minus_one

-- what the calls of `create_box` and `remove_box` answer
pub record Calls : Type 0 where
  pub open_mutex : Mutex
  pub close_mutex : Mutex
  pub malloced : Option Box
  pub answer : Answer
  pub second_answer : Answer

-- the name of a box in an array of the caller, which no box points into
abbrev pub own_name : CString → Name
own_name path = record { string = path; inside = none }

-- The end of `create_box`, from the insertion on.
unfoldable pub add : Calls → ℕ → CString → Option ℕ → ℕ → Cmd ℤ
add c rounds box_name head op_code = do
  inserted ← in_boxes (insert_box c.malloced rounds head (own_name box_name) box_name_length)
  if is_minus_one inserted then refuse c.answer op_code else do
    answered ← box_answer c.answer (pos 0) op_code
    if is_minus_one answered then done minus_one else done (pos 0)

-- `rounds` bounds the loops along the list.
unfoldable pub create_box : Calls → ℕ → List ℕ → Option ℕ → ℕ → Cmd ℤ
create_box c rounds buffer head op_code = do
  box_name ← or_fault (c_string (take box_name_length buffer))
  fhandle ← in_fs (tfs_open c.open_mutex (some box_name) tfs_o_creat)
  if is_minus_one fhandle then refuse c.answer op_code else do
    closed ← in_fs (tfs_close c.close_mutex fhandle)
    if is_minus_one closed then refuse c.answer op_code else add c rounds box_name head op_code

unfoldable pub remove_box : Calls → ℕ → List ℕ → Option ℕ → ℕ → Cmd ℤ
remove_box c rounds buffer head op_code = do
  box_name ← or_fault (c_string (take box_name_length buffer))
  unlinked ← in_fs (tfs_unlink c.open_mutex (some box_name))
  if is_minus_one unlinked then refuse c.answer op_code else do
    deleted ← in_boxes (delete_box rounds head box_name)
    if is_minus_one deleted then refuse c.answer op_code else do
      answered ← box_answer c.answer (pos 0) op_code
      if is_minus_one answered then refuse c.second_answer op_code else done (pos 0)

-- the message of 58 bytes for one box
unfoldable pub box_message : Box → Option (List ℕ)
box_message box = elim (box_to_string box (calloc 57)) [
  | none ↦ none
  | some bytes ↦ some (list_box_a ∷ bytes)
]

-- the box that stands for an empty list
abbrev pub no_box : Box
no_box = record {
  box_name = calloc box_name_length;
  box_size = 0;
  n_publishers = 0;
  last = 1;
  n_subscribers = 0;
  next = none;
}

-- One box, and the rest of the loop. After a failed `write` the pointer that is freed stands before
-- the memory.
unfoldable pub list_one : ℤ → Box → Cmd ℤ → Cmd ℤ
list_one written b rest = do
  message ← or_fault (box_message b)
  send written message
  if is_minus_one written then (λ w. fault) else rest

-- The loop of `list_box`; `k` boxes were written.
unfoldable pub list_loop : (ℕ → ℤ) → ℕ → ℕ → Option ℕ → Cmd ℤ
list_loop written rounds k none = done (pos 0)
list_loop written zero k (some p) = λ w. endless
list_loop written (suc rounds) k (some p) = λ w. elim (get_elem? w.boxes p) [
  | none ↦ fault
  | some freed ↦ fault
  | some (live b) ↦
      let rest = list_loop written rounds (k + 1) b.next in list_one (written k) b rest w
]

-- `has_no_box` is whether `malloc` finds memory for the box that stands for an empty list.
unfoldable pub list_box : Bool → Bool → (ℕ → ℤ) → ℕ → Option ℕ → Cmd ℤ
list_box has_memory has_no_box written rounds head =
    if not has_memory then done minus_one else elim head [
      | some p ↦ list_loop written rounds 0 (some p)
      | none ↦ if not has_no_box then done minus_one else do
        message ← or_fault (box_message no_box)
        send (written 0) message
        if is_minus_one (written 0) then done minus_one else done (pos 0)
    ]
