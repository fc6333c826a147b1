-- ===== src/Broker/Sessions.antt =====
-- `publisher`, `subscriber` and the dispatch of `working_thread` (mbroker/mbroker.c).
use projeto_so.Base.{
  ℕ, ◌+◌, ◌-◌, Bool, true, false, not, Option, none, some, List, [], ◌∷◌, ℤ, pos, minus_one,
  is_minus_one, is_zero, ◌==◌, if◌then◌else◌, get_elem?, set, drop, length, leb,
}
use projeto_so.Libc.Memory.{peek, poke}
use projeto_so.BoxList.{Box, live, freed, Name, get_box}
use projeto_so.Fs.Types.{add_size, sub_size}
use projeto_so.Fs.Tables.{index}
use projeto_so.Fs.Operations.{
  Mutex, tfs_o_append, tfs_o_trunc, tfs_open, tfs_close, tfs_write, tfs_read,
}
use projeto_so.Protocol.{
  Request, ClientInfo, c_string, calloc, read_request, register_client, message_size, server_2_sub,
  pub_register, sub_register, box_creation_r, box_removal_r, list_box_r,
}
use projeto_so.Subscriber.{Read, is_positive}
use projeto_so.Broker.{done, fault, endless, Cmd, ◌>>=◌, ◌>>◌, or_fault, in_fs, in_boxes, send}
use projeto_so.Broker.Handlers.{Calls, create_box, remove_box, list_box}

-- the name in a `Client_Info`, which no box points into
abbrev pub client_name : ClientInfo → Name
client_name info = record { string = info.box_name; inside = none }

-- `*box`
unfoldable pub load_box : ℕ → Cmd Box
load_box p w = elim (get_elem? w.boxes p) [
  | none ↦ fault
  | some freed ↦ fault
  | some (live b) ↦ done b w
]

abbrev pub store_box : ℕ → Box → Cmd (Unit {0})
store_box p b w = done tt (record w { boxes = set w.boxes p (live b) })

abbrev pub publishers_down : ℕ → Cmd (Unit {0})
publishers_down p = do
  b ← load_box p
  store_box p (record b { n_publishers = sub_size b.n_publishers 1 })

abbrev pub subscribers_down : ℕ → Cmd (Unit {0})
subscribers_down p = do
  b ← load_box p
  store_box p (record b { n_subscribers = sub_size b.n_subscribers 1 })

-- one round of the loop of `publisher`: what `read` gives, and the mutex for `tfs_write`
pub record Round : Type 0 where
  pub read : Read
  pub write_mutex : Mutex

-- what the calls of `publisher` answer
pub record PublisherCalls : Type 0 where
  pub has_memory : Bool
  pub open_mutex : Mutex
  pub close_mutex : Mutex
  pub reads : List Round

-- The way out of the loop: `free` of a pointer that has moved by `offset` is undefined.
unfoldable pub leave_publisher : Mutex → ℕ → ℤ → ℕ → Cmd ℤ
leave_publisher m p fd offset = do
  publishers_down p
  if offset == 0 then (do _ ← in_fs (tfs_close m fd); done minus_one) else (λ w. fault)

-- A round in which `message` points to `offset` of the memory and `read` has stored something; a
-- `read` that does not fit is a fault. `rest` is the loop after it.
unfoldable pub round_after : Mutex → ℕ → ℤ → List ℕ → ℕ → Read → Mutex → Cmd ℤ → Cmd ℤ
round_after m p fd memory offset got write_mutex rest =
    let message = drop (offset + 1) (poke memory offset got.bytes) in
    if not (leb (offset + length got.bytes) (length memory)) then (λ w. fault) else do
      text ← or_fault (c_string message)
      bytes_written ← in_fs (tfs_write write_mutex fd message (length text + 1))
      if is_minus_one bytes_written then leave_publisher m p fd (offset + 1) else (do
        b ← load_box p
        store_box p (record b { box_size = add_size b.box_size (index bytes_written) })
        rest)

-- how the pipe of a session was opened, and what a `read` on it gives that would give `r` on a pipe
-- that is open for reading: on one that is only open for writing, `read` fails
pub data OpenMode : Type 0 where
  o_rdonly : OpenMode
  o_wronly : OpenMode

unfoldable pub read_from : OpenMode → Read → Read
read_from o_rdonly r = r
read_from o_wronly r = record { code = minus_one; bytes = [] }

-- `working_thread` opens the pipe of every session for writing.
abbrev pub session_mode : OpenMode
session_mode = o_wronly

-- The loop of `publisher`, which moves `message` on by one byte in each round.
unfoldable pub publisher_loop : OpenMode → Mutex → ℕ → ℤ → List ℕ → ℕ → List Round → Cmd ℤ
publisher_loop mode m p fd memory offset [] = λ w. endless
publisher_loop mode m p fd memory offset (r ∷ rs) =
    let got = read_from mode r.read in
    let rest = publisher_loop mode m p fd (poke memory offset got.bytes) (offset + 1) rs in
    if not (is_positive got.code)
    then leave_publisher m p fd offset
    else round_after m p fd memory offset got r.write_mutex rest

-- `none` is a client for which there was no memory.
unfoldable pub publisher : PublisherCalls → ℕ → Option ClientInfo → Option ℕ → Cmd ℤ
publisher c rounds client head = if not c.has_memory then done minus_one else do
  info ← or_fault client
  found ← in_boxes (get_box rounds head (client_name info))
  elim found [
    | none ↦ done minus_one
    | some p ↦ do
      b ← load_box p
      if not (b.n_publishers == 0) then done minus_one else do
        store_box p (record b { n_publishers = add_size b.n_publishers 1 })
        path ← or_fault (c_string info.box_name)
        fd ← in_fs (tfs_open c.open_mutex (some path) tfs_o_append)
        if is_minus_one fd
            then (do publishers_down p; done minus_one)
            else publisher_loop session_mode c.close_mutex p fd (calloc (message_size + 1)) 0
                c.reads
  ]

-- one round of the loop of `subscriber`: the mutex for `tfs_read`, and what `write` gives
pub record SubscriberRound : Type 0 where
  pub read_mutex : Mutex
  pub written : ℤ

-- what the calls of `subscriber` answer
pub record SubscriberCalls : Type 0 where
  pub has_memory : Bool
  pub open_mutex : Mutex
  pub has_buffer : Bool
  pub close_mutex : Mutex
  pub rounds : List SubscriberRound

-- The way out of the loop, as in `publisher`.
unfoldable pub leave_subscriber : Mutex → ℕ → ℤ → ℕ → Cmd ℤ
leave_subscriber m p fd offset = do
  subscribers_down p
  if offset == 0 then (do _ ← in_fs (tfs_close m fd); done minus_one) else (λ w. fault)

-- Bytes that are stored at an offset of an object; a fault where they do not fit.
unfoldable pub store_at : List ℕ → ℕ → List ℕ → Cmd (List ℕ)
store_at memory offset bytes w =
    if leb (offset + length bytes) (length memory) then done (poke memory offset bytes) w else fault

-- The index of the first NUL in the buffer, or the size of a message; and the bytes before it that
-- are copied, which are none where there is no NUL.
abbrev pub text_length : List ℕ → ℕ
text_length buffer = elim (c_string buffer) [ none ↦ message_size | some s ↦ length s ]

abbrev pub text_of : List ℕ → List ℕ
text_of buffer = elim (c_string buffer) [ none ↦ [] | some s ↦ s ]

-- From line 157 on: the memory is cleared from `message` on, and gets the next operation code and what
-- is behind the text in the buffer. `rest` is the loop after it, on the memory and the offset of
-- `message` in it.
unfoldable pub next_message : List ℕ → ℕ → List ℕ → (List ℕ → ℕ → Cmd ℤ) → Cmd ℤ
next_message memory offset buffer rest = do
  let i = text_length buffer
  cleared ← store_at memory offset (calloc (message_size + 1))
  coded ← store_at cleared offset (server_2_sub ∷ [])
  copied ← store_at coded (offset + 1) (drop i buffer)
  rest copied (offset + 1 + (message_size - i))

-- One round of the loop, in which `message` points to `offset` of the memory. A `write` that returns
-- anything but 0 leaves the loop.
unfoldable pub subscriber_round :
    Mutex → ℕ → ℤ → List ℕ → ℕ → List ℕ → SubscriberRound → (List ℕ → ℕ → Cmd ℤ) → Cmd ℤ
subscriber_round m p fd memory offset buffer r rest = do
  (code, bytes) ← in_fs (tfs_read r.read_mutex fd message_size)
  if is_minus_one code then leave_subscriber m p fd offset else (do
    let stored = poke buffer 0 bytes
    copied ← store_at memory offset (text_of stored)
    text ← or_fault (c_string (drop offset copied))
    send r.written (peek copied (offset - 1) (length text + 1))
    if not (is_zero r.written)
        then leave_subscriber m p fd offset
        else next_message copied offset stored rest)

-- The loop of `subscriber`, with a buffer that line 162 clears after each round.
unfoldable pub subscriber_loop : Mutex → ℕ → ℤ → List ℕ → ℕ → List SubscriberRound → Cmd ℤ
subscriber_loop m p fd memory offset [] = λ w. endless
subscriber_loop m p fd memory offset (r ∷ rs) =
    let rest = λ (next : List ℕ) (place : ℕ). subscriber_loop m p fd next place rs in
    subscriber_round m p fd memory offset (calloc message_size) r rest

unfoldable pub subscriber : SubscriberCalls → ℕ → Option ClientInfo → Option ℕ → Cmd ℤ
subscriber c rounds client head = if not c.has_memory then done minus_one else do
  info ← or_fault client
  found ← in_boxes (get_box rounds head (client_name info))
  elim found [
    | none ↦ done minus_one
    | some p ↦ do
      b ← load_box p
      store_box p (record b { n_subscribers = add_size b.n_subscribers 1 })
      path ← or_fault (c_string info.box_name)
      fd ← in_fs (tfs_open c.open_mutex (some path) tfs_o_trunc)
      if is_minus_one fd
          then (do subscribers_down p; done minus_one)
          else if not c.has_buffer
          then (do subscribers_down p; _ ← in_fs (tfs_close c.close_mutex fd); done minus_one)
          else subscriber_loop c.close_mutex p fd
              (poke (calloc (message_size + 1)) 0 (server_2_sub ∷ [])) 1 c.rounds
  ]

-- what the calls of one round of `working_thread` answer
pub record WorkerCalls : Type 0 where
  pub opened : ℤ
  pub has_info : Bool
  pub for_publisher : PublisherCalls
  pub for_subscriber : SubscriberCalls
  pub for_box : Calls
  pub has_list : Bool
  pub has_no_box : Bool
  pub list_written : ℕ → ℤ
  pub rounds : ℕ

-- The handler for the operation code.
unfoldable pub dispatch : WorkerCalls → Option ℕ → Request → Cmd ℤ
dispatch c head r =
    if r.op_code == pub_register
    then publisher c.for_publisher c.rounds (register_client c.has_info r.buffer c.opened) head
    else if r.op_code == sub_register
    then subscriber c.for_subscriber c.rounds (register_client c.has_info r.buffer c.opened) head
    else if r.op_code == box_creation_r
    then create_box c.for_box c.rounds r.buffer head r.op_code
    else if r.op_code == box_removal_r
    then remove_box c.for_box c.rounds r.buffer head r.op_code
    else if r.op_code == list_box_r
    then list_box c.has_list c.has_no_box c.list_written c.rounds head
    else done (pos 0)

-- One round of the loop of `working_thread` on a request: whether the thread goes on. What the
-- handler returns only decides whether the session's pipe is closed.
unfoldable pub handle_request : WorkerCalls → Option ℕ → List ℕ → Cmd Bool
handle_request c head message = do
  let r = read_request message
  _ ← or_fault (c_string r.session_pipe_name)
  if is_minus_one c.opened then done false else do _ ← dispatch c head r; done true
