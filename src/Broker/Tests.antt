-- ===== src/Broker/Tests.antt =====
-- Runs of the request handlers of mbroker/mbroker.c on the small file system of the tests of fs/.
use projeto_so.Base.{
  ℕ, ◌≡◌, refl, true, Option, some, none, List, [], ◌∷◌, ◌++◌, ℤ, pos, minus_one, arith, ◌⊎◌, inl,
  replicate, drop, ◌-◌,
}
use projeto_so.Libc.CString.{CString}
use projeto_so.Libc.Memory.{poke}
use projeto_so.BoxList.{Box, Cell, live}
use projeto_so.BoxList.Chain.{Chain, Distinct}
use projeto_so.Fs.Invariant.{IsValid}
use projeto_so.Fs.Operations.{valid_pathname, skip_slash}
use projeto_so.Fs.Updates.Entries.{Unnamed}
use projeto_so.Fs.Tests.{working, empty_root, fresh_fs, file_root, written_fs}
use projeto_so.Fs.Tests.Witnesses.{fresh_fs-IsValid, written_fs-IsValid}
use projeto_so.Protocol.{c_string, calloc, read_request, register_request, error_message_size}
use projeto_so.Manager.{list_box_request, error_line, answer_line}
use projeto_so.Manager
use projeto_so.Broker.{World, done}
use projeto_so.Broker.Handlers.{
  Calls, create_box, remove_box, list_box, error_message, answer_bytes,
}
use projeto_so.Broker.Boxes.{Works, Answered, Created, create_box_lem, remove_box-null}
use projeto_so.Broker.Lists.{listing_of, reads_of, list_box_lem, list_box_request-list_box}
use projeto_so.Broker.Sessions.{PublisherCalls, SubscriberCalls, WorkerCalls, handle_request}
use projeto_so.Broker.Answers.{answer_line-answer_bytes}
use projeto_so.Broker.Dead.{handle_request-unserved}

abbrev box : ℕ → ℕ → Option ℕ → Box
box letter last next = record {
  box_name = 47 ∷ letter ∷ replicate 30 0;
  box_size = 5;
  n_publishers = 0;
  last = last;
  n_subscribers = 0;
  next = next;
}

-- "/b", then "/d"
abbrev two_boxes : List Cell
two_boxes = live (box 98 0 (some 1)) ∷ live (box 100 1 none) ∷ []

abbrev links : List (ℕ × Box)
links = (0, box 98 0 (some 1)) ∷ (1, box 100 1 none) ∷ []

links-Chain : Chain two_boxes (some 0) links
links-Chain = (refl, refl, (refl, refl, refl))

links-Distinct : Distinct links
links-Distinct = (((λ e. omega (arith, e)), tt), (tt, tt))

abbrev fresh_world : World
fresh_world = record { fs = fresh_fs; boxes = two_boxes; pipe = [] }

abbrev written_world : World
written_world = record { fs = written_fs; boxes = two_boxes; pipe = [] }

abbrev calls : Calls
calls = record {
  open_mutex = working;
  close_mutex = working;
  malloced = some (box 0 0 none);
  answer = record { has_memory = true; written = pos 33 };
  second_answer = record { has_memory = true; written = pos 33 };
}

abbrev calls-Works : Works calls
calls-Works = record {
  open_locks = refl;
  open_unlocks = refl;
  close_locks = refl;
  close_unlocks = refl;
  old = box 0 0 none;
  has_box = refl;
  has_memory = refl;
  written = refl;
}

-- "/f" in the array of a request
abbrev path : CString
path = 47 ∷ 102 ∷ []

abbrev buffer : List ℕ
buffer = 47 ∷ 102 ∷ replicate 30 0

buffer-path : c_string buffer ≡ some path
unfolding c_string
buffer-path = refl

create_box_lem_example :
    (r : ℤ) × (w' : World) × (create_box calls 2 buffer (some 0) 3 fresh_world ≡ done r w')
    × Created 0 fresh_world calls path (box 0 0 none) (some 0) links r w'
create_box_lem_example =
    create_box_lem 0 empty_root fresh_world fresh_fs-IsValid calls calls-Works 2 3 buffer path
      buffer-path (some 0) links links-Chain links-Distinct (omega arith)

valid_path : valid_pathname (some path) ≡ true
valid_path = refl

remove_box-null_example :
    (w' : World) × (block' : List ℕ) × (remove_box calls 2 buffer none 5 written_world
      ≡ done minus_one w')
    × IsValid 0 block' w'.fs
    × Unnamed 100 w'.fs.freeinode_ts block' (skip_slash (some path))
    × (w'.boxes ≡ two_boxes)
    × Answered written_world error_message w'
remove_box-null_example =
    remove_box-null 0 file_root written_world written_fs-IsValid calls calls-Works 2 5 buffer path
      buffer-path valid_path

list_box_lem_example :
    list_box true true (λ k. pos 58) 2 (some 0) fresh_world
    ≡ done (pos 0) (record fresh_world { pipe = listing_of links })
list_box_lem_example =
    list_box_lem (λ k. pos 58) 2 (some 0) links fresh_world (λ k. refl) links-Chain
      (refl, (refl, tt)) (omega arith)

list_box_request-list_box_example :
    (w' : World) × (list_box true true (λ k. pos 58) 2 (some 0) fresh_world ≡ done (pos 0) w')
    × (let l =
          list_box_request true
            (pos 257)
            true
            (pos 3)
            (reads_of (some (box 0 0 none)) w'.pipe)
            (pos 0)
            (112 ∷ []) in
        (l ≡ Manager.fault) ⊎ (l ≡ Manager.waiting))
list_box_request-list_box_example =
    list_box_request-list_box 2 (some 0) links fresh_world (box 0 0 none) (pos 0) (112 ∷ []) refl
      links-Chain (refl, (refl, tt)) (omega arith)

abbrev publisher_calls : PublisherCalls
publisher_calls = record {
  has_memory = true;
  open_mutex = working;
  close_mutex = working;
  reads = [];
}

abbrev subscriber_calls : SubscriberCalls
subscriber_calls = record {
  has_memory = true;
  open_mutex = working;
  has_buffer = true;
  close_mutex = working;
  rounds = record { read_mutex = working; written = pos 3 } ∷ [];
}

abbrev worker_calls : WorkerCalls
worker_calls = record {
  opened = pos 9;
  has_info = true;
  for_publisher = publisher_calls;
  for_subscriber = subscriber_calls;
  for_box = calls;
  has_list = true;
  has_no_box = true;
  list_written = λ k. pos 58;
  rounds = 2;
}

-- a publisher's request for the box "/b", which is there
abbrev request : List ℕ
request = register_request 1 (112 ∷ []) (47 ∷ 98 ∷ [])

request_code : (read_request request).op_code ≡ 1
unfolding read_request poke
request_code = refl

request_pipe : c_string (read_request request).session_pipe_name ≡ some (112 ∷ [])
unfolding read_request poke c_string
request_pipe = refl

handle_request-unserved_example :
    handle_request worker_calls (some 0) request fresh_world ≡ done true fresh_world
handle_request-unserved_example =
    handle_request-unserved worker_calls fresh_world (some 0) links request (112 ∷ []) links-Chain
      (omega arith) (inl request_code) request_pipe refl refl

-- A failed request to create a box.
answer_line-answer_bytes_example :
    answer_line (answer_bytes minus_one 3)
    ≡ error_line (drop 5 error_message ++ calloc (error_message_size - 28))
answer_line-answer_bytes_example = answer_line-answer_bytes minus_one 3
