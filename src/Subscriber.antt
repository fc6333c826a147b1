-- ===== src/Subscriber.antt =====
-- A subscriber's session, subscriber/sub.c: the registration and the loop that prints messages.
-- What calloc, write, read, close and unlink answer is a parameter.
pub mod Prints
pub mod Main
mod Tests
use projeto_so.Base.{
  ℕ, ◌+◌, Bool, true, false, not, ◌&&◌, Option, none, some, List, [], ◌∷◌, ℤ, pos, negsuc,
  minus_one, is_minus_one, is_zero, ltb, if◌then◌else◌,
}
use projeto_so.Libc.Memory.{peek, poke}
use projeto_so.Libc.CString.{CString}
use projeto_so.Protocol.{c_string, calloc, register_request, sub_register, message_size}
use projeto_so.Publisher.{Sent, Ending, finished, failed, fault}

unfoldable pub register_sub : Bool → ℤ → CString → CString → Sent
register_sub has_memory written session_pipe_name box =
    if not has_memory then record { code = minus_one; messages = [] } else record {
      code = if is_minus_one written then minus_one else pos 0;
      messages = register_request sub_register session_pipe_name box ∷ [];
    }

-- `x > 0`
abbrev pub is_positive : ℤ → Bool
is_positive (pos n) = ltb 0 n
is_positive (negsuc n) = false

-- What one call of `read` gives: its result, and the bytes that it stored.
pub record Read : Type 0 where
  pub code : ℤ
  pub bytes : List ℕ

-- The message behind the operation code, or `none` for -1.
unfoldable pub read_message : Bool → Read → Option (List ℕ)
read_message has_memory r =
    if not has_memory
    then none
    else if not (is_positive r.code)
    then none
    else some (peek (poke (calloc (message_size + 1)) 0 r.bytes) 1 message_size)

-- `missing` is `errno == ENOENT` after `unlink`.
unfoldable pub sub_destroy : ℤ → ℤ → Bool → ℤ
sub_destroy closed unlinked missing =
    if is_minus_one closed
    then minus_one
    else if not (is_zero unlinked) && not missing
    then minus_one
    else pos 0

-- One round, on what `read_message` gave: the line is printed and the loop goes on.
unfoldable pub print_message : Option (List ℕ) → Ending × List CString → Ending × List CString
print_message none rest = (failed, [])
print_message (some buffer) rest = elim (c_string buffer) [
  | none ↦ (fault, [])
  | some line ↦ (rest.0, line ∷ rest.1)
]

-- what the calls of one round of the loop answer: whether `calloc` gives memory for the message, and
-- what `read` gives
pub record Round : Type 0 where
  pub has_memory : Bool
  pub read : Read

-- The loop, on the rounds that start while `running` holds; no more of them is a signal that has
-- cleared `running`. How it ends, and the lines that it prints.
unfoldable pub subscribe : List Round → Ending × List CString
subscribe [] = (finished, [])
subscribe (r ∷ rs) =
    let rest = subscribe rs in print_message (read_message r.has_memory r.read) rest
