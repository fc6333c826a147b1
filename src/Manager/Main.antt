-- ===== src/Manager/Main.antt =====
-- `main` of manager/manager.c.
use projeto_so.Base.{
  ℕ, Bool, true, false, not, ◌&&◌, Option, none, some, List, [], ◌∷◌, ℤ, pos, minus_one,
  is_minus_one, is_zero, ◌==◌, if◌then◌else◌,
}
use projeto_so.Libc.CString.{CString, strcmp_eq, terminated}
use projeto_so.BoxList.{Box}
use projeto_so.Clients
use projeto_so.Clients.{Main, exited, StartCalls, pipe_name, nothing_made}
use projeto_so.Protocol.{box_creation_r, box_removal_r}
use projeto_so.Subscriber.{Read}
use projeto_so.Manager.{
  Reply, Answers, Listed, returned, fault, waiting, box_request, list_box_request,
}

pub record MainCalls : Type 0 where
  pub start : StartCalls
  pub for_box : Answers
  pub list_has_memory : Bool
  pub list_written : ℤ
  pub list_has_buffer : Bool
  pub list_opened : ℤ
  pub list_reads : List (Read × Option Box)
  pub list_closed : ℤ
  pub unlinked_session : ℤ
  pub closed_server : ℤ

-- "create", "remove" and "list"
abbrev pub create : CString
create = 99 ∷ 114 ∷ 101 ∷ 97 ∷ 116 ∷ 101 ∷ []

abbrev pub remove : CString
remove = 114 ∷ 101 ∷ 109 ∷ 111 ∷ 118 ∷ 101 ∷ []

abbrev pub list : CString
list = 108 ∷ 105 ∷ 115 ∷ 116 ∷ []

-- `!strcmp(request, word)`
abbrev pub is_word : CString → CString → Bool
is_word request word = elim (strcmp_eq (terminated request) (terminated word)) [
  | none ↦ false
  | some same ↦ same
]

-- A request that works is followed by the removal of the session's pipe and the close of the
-- server's; one that fails is not.
unfoldable pub leave : MainCalls → Reply → Main
leave c reply = exited (record {
  code =
      if not (is_zero reply.code)
      then minus_one
      else if is_minus_one c.unlinked_session
      then minus_one
      else if is_minus_one c.closed_server
      then minus_one
      else pos 0;
  session_exists = if is_zero reply.code then is_minus_one c.unlinked_session else true;
  server_closes = if is_zero reply.code then 1 else 0;
  requests = reply.messages;
  messages = [];
})

unfoldable pub after_list : MainCalls → Listed → Main
after_list c (returned reply) = leave c reply
after_list c fault = Clients.fault
after_list c waiting = Clients.waiting

-- A request for a box; without a name, the pointer is NULL, which `strlen` reads once the message
-- is there.
unfoldable pub for_box : MainCalls → CString → Option CString → ℕ → Main
for_box c session_pipe_name (some box) code =
    leave c (box_request c.for_box session_pipe_name box code)
for_box c session_pipe_name none code =
    if c.for_box.has_memory
    then Clients.fault
    else leave c (record { code = minus_one; messages = []; printed = [] })

-- From the test of the request on.
unfoldable pub handle : MainCalls → CString → CString → Option CString → Main
handle c session_pipe_name request box =
    if is_word request create
    then for_box c session_pipe_name box box_creation_r
    else if is_word request remove
    then for_box c session_pipe_name box box_removal_r
    else if is_word request list
    then after_list c (
        list_box_request c.list_has_memory c.list_written c.list_has_buffer c.list_opened
          c.list_reads c.list_closed session_pipe_name)
    else leave c (record { code = pos 0; messages = []; printed = [] })

-- `box` is argv[4], if there is one; a manager that cannot open the server's pipe leaves its own.
unfoldable pub main : MainCalls → ℕ → List ℕ → List ℕ → CString → CString → Main
main c argc server session request box =
    if not (argc == 5) && not (argc == 4)
    then nothing_made
    else elim (pipe_name c.start.has_server_name server) [
      | none ↦ Clients.fault
      | some server_pipe_name ↦ elim (pipe_name c.start.has_session_name session) [
        | none ↦ Clients.fault
        | some session_pipe_name ↦
            if not (is_zero c.start.unlinked) && not c.start.missing
            then nothing_made
            else if not (is_zero c.start.made)
            then nothing_made
            else elim c.start.opened_server [
              | none ↦ Clients.waiting
              | some opened ↦
                  if is_minus_one opened
                  then exited (record {
                    code = minus_one;
                    session_exists = true;
                    server_closes = 0;
                    requests = [];
                    messages = [];
                  })
                  else handle c session_pipe_name request (if argc == 5 then some box else none)
            ]
      ]
    ]
