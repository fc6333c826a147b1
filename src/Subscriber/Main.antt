-- ===== src/Subscriber/Main.antt =====
-- `main` of subscriber/sub.c around its loop.
use projeto_so.Base.{
  ℕ, Bool, not, ◌&&◌, Option, none, some, List, [], ℤ, pos, minus_one, is_minus_one, is_zero, ◌==◌,
  if◌then◌else◌,
}
use projeto_so.Libc.CString.{CString}
use projeto_so.Clients
use projeto_so.Clients.{
  Main, exited, StartCalls, EndCalls, pipe_name, nothing_made, give_up, still_there,
}
use projeto_so.Publisher.{Ending, finished, failed, fault}
use projeto_so.Subscriber.{Round, register_sub, sub_destroy, subscribe}

pub record MainCalls : Type 0 where
  pub start : StartCalls
  pub has_memory : Bool
  pub written : ℤ
  pub closed_server : ℤ
  pub opened_session : Option ℤ
  pub signal_works : Bool
  pub has_buffer : Bool
  pub rounds : List Round
  pub end : EndCalls

-- The end of the session, with the code for a `sub_destroy` that works.
unfoldable pub leave : EndCalls → ℤ → List (List ℕ) → List CString → Main
leave c code requests lines =
    let destroyed = sub_destroy c.closed c.unlinked c.missing in
    exited (record {
      code = if is_zero destroyed then code else minus_one;
      session_exists = still_there c;
      server_closes = 1;
      requests = requests;
      messages = lines;
    })

-- From the loop on.
unfoldable pub after_loop : EndCalls → List (List ℕ) → Ending × List CString → Main
after_loop c requests (finished, lines) = leave c (pos 0) requests lines
after_loop c requests (failed, lines) = leave c minus_one requests lines
after_loop c requests (fault, lines) = Clients.fault

-- From the open pipe of the session on.
unfoldable pub after_open : MainCalls → List (List ℕ) → Main
after_open c requests =
    if not c.signal_works
    then leave c.end minus_one requests []
    else if not c.has_buffer
    then leave c.end minus_one requests []
    else after_loop c.end requests (subscribe c.rounds)

-- From the registration on.
unfoldable pub register : MainCalls → CString → CString → Main
register c session_pipe_name box =
    let sent = register_sub c.has_memory c.written session_pipe_name box in
    if not (is_zero sent.code)
    then give_up c.start.left 1 sent.messages
    else if is_minus_one c.closed_server
    then give_up c.start.left 1 sent.messages
    else elim c.opened_session [
      | none ↦ Clients.waiting
      | some opened ↦
          if is_minus_one opened
          then give_up c.start.left 1 sent.messages
          else after_open c sent.messages
    ]

-- `server` and `session` are the bytes that argv[1] and argv[2] lead to.
unfoldable pub main : MainCalls → ℕ → List ℕ → List ℕ → CString → Main
main c argc server session box =
    if not (argc == 4) then nothing_made else elim (pipe_name c.start.has_server_name server) [
      | none ↦ Clients.fault
      | some server_pipe_name ↦ elim (pipe_name c.start.has_session_name session) [
        | none ↦ Clients.fault
        | some session_pipe_name ↦
            if not (is_zero c.start.unlinked) && not c.start.missing
            then nothing_made
            else if not (is_zero c.start.made)
            then nothing_made
            else elim c.start.opened_server [
              | none ↦ Clients.waiting
              | some opened ↦
                  if is_minus_one opened
                  then give_up c.start.left 0 []
                  else register c session_pipe_name box
            ]
      ]
    ]
