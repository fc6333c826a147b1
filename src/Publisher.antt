-- ===== src/Publisher.antt =====
-- A publisher's session, publisher/pub.c: the registration, the messages, and the loop over the
-- characters of standard input. What calloc, write, close and unlink answer is a parameter.
pub mod Lines
pub mod Main
pub mod Exits
mod Tests
use projeto_so.Base.{
  ℕ, ◌+◌, ◌-◌, ◌≡◌, Bool, true, false, not, ◌&&◌, Option, none, some, List, [], ◌∷◌, ◌++◌, ℤ, pos,
  minus_one, is_minus_one, is_nonneg, is_zero, take, set, ltb, leb, ◌==◌, if◌then◌else◌,
}
use projeto_so.Libc.Memory.{poke}
use projeto_so.Libc.CString.{CString}
use projeto_so.Protocol.{
  c_string, calloc, register_request, pub_register, pub_2_server, message_size,
}

-- What a call returns, and what it has passed to `write`.
pub record Sent : Type 0 where
  pub code : ℤ
  pub messages : List (List ℕ)

unfoldable pub register_pub : Bool → ℤ → CString → CString → Sent
register_pub has_memory written session_pipe_name box =
    if not has_memory then record { code = minus_one; messages = [] } else record {
      code = if is_minus_one written then minus_one else pos 0;
      messages = register_request pub_register session_pipe_name box ∷ [];
    }

-- the 1025 bytes that `send_message` writes for a string
abbrev pub publisher_message : CString → List ℕ
publisher_message message = poke (poke (calloc (message_size + 1)) 0 (pub_2_server ∷ [])) 1 message

-- `message` is the array that the pointer leads to; `none` where it holds no string.
unfoldable pub send_message : Bool → ℤ → List ℕ → Option Sent
send_message has_memory written message =
    if not has_memory
    then some (record { code = minus_one; messages = [] })
    else elim (c_string message) [
      | none ↦ none
      | some s ↦ some (record { code = written; messages = publisher_message s ∷ [] })
    ]

-- `missing` is `errno == ENOENT` after `unlink`.
unfoldable pub pub_destroy : ℤ → ℤ → Bool → ℤ
pub_destroy closed unlinked missing =
    if is_minus_one closed
    then minus_one
    else if not (is_zero unlinked) && not missing
    then minus_one
    else pos 0

-- what the environment answers to the `k`th message
pub record Answers : Type 0 where
  pub has_memory : ℕ → Bool
  pub written : ℕ → ℤ

-- How the loop ended: the input was used up, a message could not be sent, or undefined behaviour.
pub data Ending : Type 0 where
  finished failed fault : Ending

-- One character: `i` afterwards, and the buffer. A character where the buffer is full is dropped.
unfoldable pub put_char : ℕ → List ℕ → ℕ → ℕ × List ℕ
put_char i buffer c =
    if ltb i (message_size - 1)
    then (if c == b'\n'
        then (message_size - 1, set buffer (message_size - 1) 0)
        else (i, set buffer i c))
    else (i, buffer)

-- The test of what `send_message` returned, and what goes on after it.
unfoldable pub after_sent : Option Sent → Ending × List (List ℕ) → Ending × List (List ℕ)
after_sent none rest = (fault, [])
after_sent (some sent) rest =
    if is_nonneg sent.code then (rest.0, sent.messages ++ rest.1) else (failed, sent.messages)

-- the byte whose cast to `char`, which is signed, is EOF
abbrev pub end_of_file : ℕ
end_of_file = 255

-- The loop, on the characters that `getchar` gives while `running` holds, up to the end of the
-- input. `k` messages have been sent.
unfoldable pub publish : Answers → ℕ → ℕ → List ℕ → List ℕ → Ending × List (List ℕ)
publish a k i buffer [] = (finished, [])
publish a k i buffer (c ∷ cs) =
    let next = put_char i buffer c in
    let rest = publish a (k + 1) 1 (calloc message_size) cs in
    let more = publish a k (next.0 + 1) next.1 cs in
    if c == end_of_file
    then (finished, [])
    else if leb (message_size - 1) next.0
    then after_sent (send_message (a.has_memory k) (a.written k) next.1) rest
    else more

-- The session: the loop from an empty buffer.
abbrev pub publish_input : Answers → List ℕ → Ending × List (List ℕ)
publish_input a input = publish a 0 0 (calloc message_size) input
