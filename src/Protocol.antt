-- ===== src/Protocol.antt =====
-- The messages of the named pipes: the constants of utils/common.h, the requests that
-- publisher/pub.c, subscriber/sub.c and manager/manager.c lay out, and how mbroker/mbroker.c takes
-- them apart.
pub mod Fields
pub mod RoundTrip
mod Tests
use projeto_so.Base.{
  ℕ, ◌+◌, ◌-◌, Bool, Option, none, some, List, [], ◌∷◌, ◌++◌, ℤ, take, replicate, ◌==◌,
  if◌then◌else◌,
}
use projeto_so.Libc.Memory.{peek, poke}
use projeto_so.Libc.CString.{CString, strncpy}
use projeto_so.BoxList.{box_name_length}
use projeto_so.ProducerConsumer.{request_length}

abbrev pub pipe_name_length : ℕ
pipe_name_length = 256

abbrev pub total_response_length : ℕ
total_response_length = 1029

abbrev pub error_message_size : ℕ
error_message_size = 1024

abbrev pub list_request_length : ℕ
list_request_length = 257

abbrev pub list_response_length : ℕ
list_response_length = 58

abbrev pub message_size : ℕ
message_size = 1024

abbrev pub pub_register : ℕ
pub_register = 1

abbrev pub sub_register : ℕ
sub_register = 2

abbrev pub box_creation_r : ℕ
box_creation_r = 3

abbrev pub box_creation_a : ℕ
box_creation_a = 4

abbrev pub box_removal_r : ℕ
box_removal_r = 5

abbrev pub box_removal_a : ℕ
box_removal_a = 6

abbrev pub list_box_r : ℕ
list_box_r = 7

abbrev pub list_box_a : ℕ
list_box_a = 8

abbrev pub pub_2_server : ℕ
pub_2_server = 9

abbrev pub server_2_sub : ℕ
server_2_sub = 10

-- `calloc(n, sizeof(char))`
abbrev pub calloc : ℕ → List ℕ
calloc n = replicate n 0

-- The string that starts at a pointer into an object that ends with the list; `none` where the
-- object has no NUL.
unfoldable pub c_string : List ℕ → Option CString
c_string [] = none
c_string (b ∷ m) =
    let rest = c_string m in
    if b == 0 then some [] else elim rest [ none ↦ none | some s ↦ some (b ∷ s) ]

-- The request that `register_pub` and `register_sub` lay out: the code, and the names, each cut at
-- the length of its field.
abbrev pub register_request : ℕ → CString → CString → List ℕ
register_request code session_pipe_name box =
    poke
      (poke (poke (calloc request_length) 0 (code ∷ [])) 1
        (take pipe_name_length session_pipe_name))
      (1 + pipe_name_length) (take box_name_length box)

-- The request of `box_request`, whose box name is a path of the file system.
abbrev pub box_request_message : ℕ → CString → CString → List ℕ
box_request_message code session_pipe_name box =
    poke
      (poke
        (poke (poke (calloc request_length) 0 (code ∷ [])) 1
          (take pipe_name_length session_pipe_name))
        (1 + pipe_name_length) (b'/' ∷ []))
      (2 + pipe_name_length) (take (box_name_length - 1) box)

-- The request of `list_box_request`, which has no box.
abbrev pub list_box_message : CString → List ℕ
list_box_message session_pipe_name =
    poke (poke (calloc list_request_length) 0 (list_box_r ∷ [])) 1
      (take pipe_name_length session_pipe_name)

-- What `working_thread` takes out of a request.
pub record Request : Type 0 where
  pub op_code : ℕ
  pub session_pipe_name : List ℕ
  pub buffer : List ℕ

unfoldable pub read_request : List ℕ → Request
read_request message = record {
  op_code = first (peek message 0 1);
  session_pipe_name = peek message 1 pipe_name_length;
  buffer = peek message (1 + pipe_name_length) box_name_length;
}
  where
    first : List ℕ → ℕ
    first [] = 0
    first (b ∷ _) = b

pub record ClientInfo : Type 0 where
  pub session_pipe : ℤ
  pub box_name : List ℕ

-- `strncpy` of `n` bytes from an array of `n`: what follows the NUL becomes zero.
unfoldable pub strncpy_array : ℕ → List ℕ → List ℕ
strncpy_array n bytes = elim (c_string bytes) [ none ↦ take n bytes | some s ↦ strncpy n s ]

-- `none` where there is no memory
unfoldable pub register_client : Bool → List ℕ → ℤ → Option ClientInfo
register_client has_memory buffer session_pipe =
    if has_memory
    then some (record {
      session_pipe = session_pipe;
      box_name = strncpy_array box_name_length (take box_name_length buffer);
    })
    else none
