-- ===== src/Clients/Tests.antt =====
-- Runs of the main functions of a publisher and a manager.
use projeto_so.Base.{◌≡◌, refl, true, false, some, List, ℕ, [], ◌∷◌, pos, replicate}
use projeto_so.Libc.CString.{CString, strcmp_eq}
use projeto_so.Libc.Memory.{poke}
use projeto_so.Protocol.{c_string, box_request_message}
use projeto_so.Clients.{Exit, exited, StartCalls, pipe_name}
use projeto_so.Publisher.Main as PublisherMain
use projeto_so.Publisher.Exits.{Removed, main-Removed}
use projeto_so.Manager.{box_request}
use projeto_so.Manager.Main as ManagerMain
use projeto_so.Manager.Main.{for_box, handle, leave}
use projeto_so.Manager.Exits.{main-exits}

abbrev start : StartCalls
start = record {
  has_server_name = true;
  has_session_name = true;
  unlinked = pos 0;
  missing = false;
  made = pos 0;
  opened_server = some (pos 3);
  left = pos 0;
}

-- "p", and what follows it in the memory of the arguments
abbrev argument : List ℕ
argument = 112 ∷ replicate 248 0

-- "../tmp/p"
abbrev name : CString
name = 46 ∷ 46 ∷ 47 ∷ 116 ∷ 109 ∷ 112 ∷ 47 ∷ 112 ∷ []

named : pipe_name true argument ≡ some name
unfolding pipe_name c_string poke
named = refl

abbrev publisher_calls : PublisherMain.MainCalls
publisher_calls = record {
  start = start;
  has_memory = true;
  written = pos 289;
  closed_server = pos 0;
  opened_session = some (pos 4);
  signal_works = true;
  answers = record { has_memory = λ k. true; written = λ k. pos 1025 };
  end = record { closed = pos 0; unlinked = pos 0; missing = false };
}

main-Removed_example :
    Removed (PublisherMain.main publisher_calls 4 argument argument (98 ∷ []) (104 ∷ 10 ∷ []))
main-Removed_example =
    main-Removed publisher_calls (record { left = refl; closed = refl; unlinked = refl }) 4 argument
      argument (98 ∷ []) (104 ∷ 10 ∷ []) name name (pos 3) (pos 4) named named refl refl

abbrev manager_calls : ManagerMain.MainCalls
manager_calls = record {
  start = start;
  for_box = record {
    has_memory = true;
    written = pos 289;
    opened = pos 4;
    answer = record { code = pos 33; bytes = replicate 33 0 };
    closed = pos 0;
  };
  list_has_memory = true;
  list_written = pos 257;
  list_has_buffer = true;
  list_opened = pos 4;
  list_reads = [];
  list_closed = pos 0;
  unlinked_session = pos 0;
  closed_server = pos 0;
}

-- what a manager leaves that has created the box "b"
abbrev created : Exit
created = record {
  code = pos 0;
  session_exists = false;
  server_closes = 1;
  requests = box_request_message 3 name (98 ∷ []) ∷ [];
  messages = [];
}

create_run :
    ManagerMain.main manager_calls 5 argument argument ManagerMain.create (98 ∷ []) ≡ exited created
unfolding ManagerMain.main handle for_box leave box_request strcmp_eq pipe_name c_string poke
create_run = refl

main-exits_example : (created.session_exists ≡ false) × (created.server_closes ≡ 1)
main-exits_example =
    main-exits manager_calls 5 argument argument ManagerMain.create (98 ∷ []) name name created
      named named create_run refl
