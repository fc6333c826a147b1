-- ===== src/Publisher/Main.antt =====
-- `main` of publisher/pub.c around its loop.
use projeto_so.Base.{
  ℕ, Bool, not, ◌&&◌, Option, none, some, List, [], ℤ, pos, minus_one, is_minus_one, is_zero, ◌==◌,
  if◌then◌else◌,
}
use projeto_so.Libc.CString.{CString}
use projeto_so.Clients
use projeto_so.Clients.{
  Main, exited, StartCalls, EndCalls, pipe_name, nothing_made, give_up, still_there,
}
use projeto_so.Publisher.{
  Answers, Ending, finished, failed, fault, register_pub, pub_destroy, publish_input,
}

pub record MainCalls : Type 0 where
  pub start : StartCalls
  pub has_memory : Bool
  pub written : ℤ
  pub closed_server : ℤ
  pub opened_session : Option ℤ
  pub signal_works : Bool
  pub answers : Answers
  pub end : EndCalls

-- The end of the session, with the code for a `pub_destroy` that works.
unfoldable pub leave : EndCalls → ℤ → List (List ℕ) → List (List ℕ) → Main
leave c code requests messages =
    let destroyed = pub_destroy c.closed c.unlinked c.missing in
    exited (record {
      code = if is_zero destroyed then code else minus_one;
      session_exists = still_there c;
      server_closes = 1;
      requests = requests;
      messages = messages;
    })

-- From the loop on.
unfoldable pub after_loop : EndCalls → List (List ℕ) → Ending × List (List ℕ) → Main
after_loop c requests (finished, messages) = leave c (pos 0) requests messages
after_loop c requests (failed, messages) = leave c minus_one requests messages
after_loop c requests (fault, messages) = Clients.fault

-- From the open pipe of the session on.
unfoldable pub after_open : MainCalls → List (List ℕ) → List ℕ → Main
after_open c requests input =
    if not c.signal_works
    then leave c.end minus_one requests []
    else after_loop c.end requests (publish_input c.answers input)

-- From the registration on.
unfoldable pub register : MainCalls → CString → CString → List ℕ → Main
register c session_pipe_name box input =
    let sent = register_pub c.has_memory c.written session_pipe_name box in
    if not (is_zero sent.code)
    then give_up c.start.left 1 sent.messages
    else if is_minus_one c.closed_server
    then give_up c.start.left 1 sent.messages
    else elim c.opened_session [
      | none ↦ Clients.waiting
      | some opened ↦
          if is_minus_one opened
          then give_up c.start.left 2 sent.messages
          else after_open c sent.messages input
    ]

-- `server` and `session` are the bytes that argv[1] and argv[2] lead to.
unfoldable pub main : MainCalls → ℕ → List ℕ → List ℕ → CString → List ℕ → Main
main c argc server session box input =
    if not (argc == 4) then nothing_made else elim (pipe_name c.start.has_server_name server) [
      | none ↦ Clients.fault
      | some server_pipe_name ↦ elim (pipe_name c.start.has_session_name session) [
        | none ↦ Clients.fault
        | some session_pipe_name ↦
            if not (is_zero c.start.unlinked) && not c.start.missing
            then nothing_made
            else if not (is_zero c.start.made)
            then nothing_made
            else elim c.start.opened_server [
              | none ↦ Clients.waiting
              | some opened ↦
                  if is_minus_one opened
                  then give_up c.start.left 0 []
                  else register c session_pipe_name box input
            ]
      ]
    ]
