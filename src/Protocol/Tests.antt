-- ===== src/Protocol/Tests.antt =====
-- Runs of the requests on small names.
use projeto_so.Base.{◌≡◌, refl, true, some, none, [], ◌∷◌, pos, arith, replicate}
use projeto_so.Libc.Memory.{poke}
use projeto_so.Libc.CString.{CString, IsCString, strncpy}
use projeto_so.Protocol.{
  c_string, register_request, box_request_message, read_request, register_client,
}
use projeto_so.Protocol.RoundTrip.{read_request-register_request, read_request-box_request}

-- "p" and "box"
abbrev pipe : CString
pipe = 112 ∷ []

abbrev box : CString
box = 98 ∷ 111 ∷ 120 ∷ []

-- a name of 31 bytes
abbrev long_box : CString
long_box = replicate 31 98

pipe-IsCString : IsCString pipe
pipe-IsCString = (omega arith, tt)

box-IsCString : IsCString box
box-IsCString = (omega arith, (omega arith, (omega arith, tt)))

read_request-register_request_example :
    let r = read_request (register_request 1 pipe box) in
    (r.op_code ≡ 1)
    × (c_string r.session_pipe_name ≡ some pipe)
    × (register_client true r.buffer (pos 7)
        ≡ some (record { session_pipe = pos 7; box_name = strncpy 32 box }))
read_request-register_request_example =
    read_request-register_request 1 pipe box (pos 7) pipe-IsCString box-IsCString (omega arith)
      (omega arith)

read_request-box_request_example :
    let r = read_request (box_request_message 3 pipe box) in
    (r.op_code ≡ 3) × (c_string r.buffer ≡ some (b'/' ∷ box))
read_request-box_request_example = read_request-box_request 3 pipe box box-IsCString

-- The path of a box of 31 bytes is no string any more.
long_run : c_string (read_request (box_request_message 3 pipe long_box)).buffer ≡ none
unfolding c_string read_request poke
long_run = refl
