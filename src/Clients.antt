-- ===== src/Clients.antt =====
-- What the main functions of publisher/pub.c, subscriber/sub.c and manager/manager.c share: the
-- names of the pipes, and what is left when a client exits.
mod Tests
use projeto_so.Base.{
  ℕ, ◌+◌, ◌-◌, Bool, true, false, not, ◌&&◌, Option, none, some, List, [], ◌∷◌, ℤ, minus_one,
  is_minus_one, is_zero, length, take, leb, if◌then◌else◌,
}
use projeto_so.Libc.Memory.{poke}
use projeto_so.Libc.CString.{CString}
use projeto_so.Protocol.{c_string, calloc, pipe_name_length}

-- "../tmp/"
abbrev pub pipe_path : List ℕ
pipe_path = 46 ∷ 46 ∷ 47 ∷ 116 ∷ 109 ∷ 112 ∷ 47 ∷ []

-- The name of a pipe, from the bytes that the argument's pointer leads to; `none` where calloc gave
-- NULL, where the copy reads behind these bytes, or where the name has no NUL.
unfoldable pub pipe_name : Bool → List ℕ → Option CString
pipe_name has_memory argument =
    if not has_memory
    then none
    else if not (leb (pipe_name_length - length pipe_path) (length argument))
    then none
    else c_string (
        poke (poke (calloc pipe_name_length) 0 pipe_path) (length pipe_path)
          (take (pipe_name_length - length pipe_path) argument))

-- What a client leaves: its code, whether the pipe that it made is still there, how often it closed
-- X
pub record Exit : Type 0 where
  pub code : ℤ
  pub session_exists : Bool
  pub server_closes : ℕ
  pub requests : List (List ℕ)
  pub messages : List (List ℕ)

-- `waiting` is a client that waits for ever: for the other end of a pipe that it opens, or for more
-- answers than there are.
pub data Main : Type 0 where
  exited : Exit → Main
  fault : Main
  waiting : Main

-- what the calls of `main` answer up to the registration, in the order of the source; `missing` is
-- `errno == ENOENT`, an `open` of a pipe that waits for its other end for ever answers nothing, and
-- `left` is the answer of an `unlink` whose result is not looked at
pub record StartCalls : Type 0 where
  pub has_server_name : Bool
  pub has_session_name : Bool
  pub unlinked : ℤ
  pub missing : Bool
  pub made : ℤ
  pub opened_server : Option ℤ
  pub left : ℤ

-- a return of -1 before the pipe of the session was made
abbrev pub nothing_made : Main
nothing_made = exited (record {
  code = minus_one;
  session_exists = false;
  server_closes = 0;
  requests = [];
  messages = [];
})

-- a return of -1 after `unlink` of the session's pipe answered `left`
abbrev pub give_up : ℤ → ℕ → List (List ℕ) → Main
give_up left server_closes requests = exited (record {
  code = minus_one;
  session_exists = not (is_zero left);
  server_closes = server_closes;
  requests = requests;
  messages = [];
})

-- what `close` and `unlink` answer at the end of a session
pub record EndCalls : Type 0 where
  pub closed : ℤ
  pub unlinked : ℤ
  pub missing : Bool

-- Whether the session's pipe is still there after `pub_destroy` or `sub_destroy`.
unfoldable pub still_there : EndCalls → Bool
still_there c = if is_minus_one c.closed then true else not (is_zero c.unlinked) && not c.missing
