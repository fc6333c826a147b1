-- ===== src/Protocol/RoundTrip.antt =====
-- What the broker reads out of a request is what the client put into it.
use projeto_so.Base.{
  ℕ, zero, suc, ◌+◌, ◌-◌, ◌≤◌, ◌<◌, ◌≡◌, refl, ap, ◌∙◌, some, none, true, List, [], ◌∷◌, ◌++◌, ℤ,
  arith, length, take, drop, length-take, length-replicate, length-append, ltb, ltb→lt,
  if◌then◌else◌, Bool-cases, inl, inr,
}
use mathlib.Core.List.{append-nil}
use projeto_so.Libc.Memory.{
  peek, poke, length-poke, peek-poke_self, peek-poke_before, peek-poke_after,
}
use projeto_so.Libc.CString.{CString, IsCString, strncpy}
use projeto_so.BoxList.{box_name_length}
use projeto_so.ProducerConsumer.{request_length}
use projeto_so.Protocol.{
  c_string, calloc, register_request, box_request_message, read_request, register_client,
  pipe_name_length, strncpy_array,
}
use projeto_so.Protocol.Fields.{
  c_string-none, c_string-calloc, peek-poke_field, peek-calloc, drop-calloc, take-whole,
  poke-poke_next,
}

-- a request whose names fill no more than their fields
abbrev laid_out : ℕ → List ℕ → List ℕ → List ℕ
laid_out code p b =
    poke (poke (poke (calloc request_length) 0 (code ∷ [])) 1 p) (1 + pipe_name_length) b

module _ (code : ℕ) (p b : List ℕ) (hp : length p ≤ pipe_name_length)
    (hb : length b ≤ box_name_length) where
  abbrev coded : List ℕ
  coded = poke (calloc request_length) 0 (code ∷ [])

  length-coded : length coded ≡ request_length
  length-coded =
      length-poke (calloc request_length) 0 (code ∷ []) ∙ length-replicate {A = ℕ} request_length 0

  code_field : peek (laid_out code p b) 0 1 ≡ code ∷ []
  code_field =
      peek-poke_before (poke coded 1 p) 257 b 0 1 (omega arith)
      ∙ peek-poke_before coded 1 p 0 1 (omega arith)
      ∙ peek-poke_self (calloc request_length) 0 (code ∷ []) 1 refl
          (omega (arith, length-replicate {A = ℕ} request_length 0))

  pipe_field :
      peek (laid_out code p b) 1 pipe_name_length ≡ p ++ calloc (pipe_name_length - length p)
  pipe_field =
      peek-poke_before (poke coded 1 p) 257 b 1 256 (omega arith)
      ∙ peek-poke_field coded 1 p 256 hp (omega (arith, length-coded))
      ∙ ap (λ (z : List ℕ). p ++ drop (length p) z)
          (peek-poke_after (calloc request_length) 0 (code ∷ []) 1 256 (omega arith)
            ∙ peek-calloc request_length 1 256 (omega arith))
      ∙ ap (λ (z : List ℕ). p ++ z) (drop-calloc (length p) 256)

  box_field :
      peek (laid_out code p b) (1 + pipe_name_length) box_name_length
      ≡ b ++ calloc (box_name_length - length b)
  box_field =
      peek-poke_field (poke coded 1 p) 257 b 32 hb
        (omega (arith, length-coded, length-poke coded 1 p))
      ∙ ap (λ (z : List ℕ). b ++ drop (length b) z)
          (peek-poke_after coded 1 p 257 32 (omega (arith, hp))
            ∙ peek-poke_after (calloc request_length) 0 (code ∷ []) 257 32 (omega arith)
            ∙ peek-calloc request_length 257 32 (omega arith))
      ∙ ap (λ (z : List ℕ). b ++ z) (drop-calloc (length b) 32)

  pub read_laid_out : read_request (laid_out code p b) ≡ record {
    op_code = code;
    session_pipe_name = p ++ calloc (pipe_name_length - length p);
    buffer = b ++ calloc (box_name_length - length b);
  }
  unfolding read_request
  read_laid_out = rw (code_field, pipe_field, box_field) refl

strncpy_array_lem :
    (n : ℕ) (bytes : List ℕ) (s : CString)
    → c_string bytes ≡ some s
    → strncpy_array n bytes ≡ strncpy n s
unfolding strncpy_array
strncpy_array_lem n bytes s e = ground (arith, e)

-- For a session pipe and a box with no zero byte in their names, shorter than their fields: the
-- broker reads the code, the name of the pipe and the name of the box out of the request that
-- `register_pub` and `register_sub` write, and `register_client`, given memory, keeps the pipe it is
-- handed and the name of the box.
pub read_request-register_request :
    (code : ℕ) (session_pipe_name box : CString) (session_pipe : ℤ)
    → IsCString session_pipe_name
    → IsCString box
    → length session_pipe_name < pipe_name_length
    → length box < box_name_length
    → let r = read_request (register_request code session_pipe_name box) in
      (r.op_code ≡ code)
      × (c_string r.session_pipe_name ≡ some session_pipe_name)
      × (register_client true r.buffer session_pipe
          ≡ some (record { session_pipe = session_pipe; box_name = strncpy box_name_length box }))
unfolding register_client
read_request-register_request code p b session_pipe isp isb hp hb =
    let cut_p = take-whole pipe_name_length p (omega (arith, hp)) in
    let cut_b = take-whole box_name_length b (omega (arith, hb)) in
    let full : length (b ++ calloc (box_name_length - length b)) ≡ 32 = omega (
      arith,
      length-append {0} b (calloc (box_name_length - length b)),
      hb,
      length-replicate {A = ℕ} (box_name_length - length b) 0,
    ) in
    rw
      (
        cut_p,
        cut_b,
        read_laid_out code p b (omega (arith, hp)) (omega (arith, hb)),
        take-whole box_name_length (b ++ calloc (box_name_length - length b)) (omega (arith, full)),
      )
      (
        refl,
        c_string-calloc p (pipe_name_length - length p) isp (omega (arith, hp)),
        rw
            (strncpy_array_lem box_name_length (b ++ calloc (box_name_length - length b)) b
              (c_string-calloc b (box_name_length - length b) isb (omega (arith, hb))))
            refl,
      )

box_request-laid_out :
    (code : ℕ) (p b : CString)
    → box_request_message code p b
      ≡ laid_out code (take pipe_name_length p) (b'/' ∷ take (box_name_length - 1) b)
box_request-laid_out code p b =
    poke-poke_next (poke (poke (calloc request_length) 0 (code ∷ [])) 1 (take pipe_name_length p))
      (1 + pipe_name_length) b'/' (take (box_name_length - 1) b)

IsCString-take : (n : ℕ) (s : CString) → IsCString s → IsCString (take n s)
IsCString-take zero s is = tt
IsCString-take (suc n) [] is = tt
IsCString-take (suc n) (c ∷ s) is = (is.0, IsCString-take n s is.1)

-- For a box with no zero byte in its name: the broker reads the code of a manager's request, and
-- behind the session pipe the path of the box, which is its name behind a slash where the name has
-- fewer than 31 bytes; a longer name leaves no room for a NUL, so what the broker holds is no string.
pub read_request-box_request :
    (code : ℕ) (session_pipe_name box : CString)
    → IsCString box
    → let r = read_request (box_request_message code session_pipe_name box) in
      (r.op_code ≡ code)
      × (c_string r.buffer
          ≡ (if ltb (length box) (box_name_length - 1) then some (b'/' ∷ box) else none))
read_request-box_request code p b is = elim (Bool-cases (ltb (length b) (box_name_length - 1))) [
  | inl short ↦
      let less = ltb→lt (length b) (box_name_length - 1) short in
      rw
        (
          box_request-laid_out code p b,
          short,
          read_laid_out code (take 256 p) (b'/' ∷ take 31 b) (omega (arith, length-take 256 p))
              (omega (arith, length-take 31 b)),
          take-whole 31 b (omega (arith, less)),
        )
        (
          refl,
          c_string-calloc (b'/' ∷ b) (box_name_length - length (b'/' ∷ b)) (omega arith, is)
              (omega (arith, less)),
        )
  | inr long ↦
      let enough : length (take 31 b) ≡ 31 = ground (arith, length-take 31 b) in
      let no_room : box_name_length - length (b'/' ∷ take 31 b) ≡ 0 = omega (arith, enough) in
      rw
        (
          box_request-laid_out code p b,
          long,
          read_laid_out code (take 256 p) (b'/' ∷ take 31 b) (omega (arith, length-take 256 p))
              (omega (arith, enough)),
          no_room,
          append-nil (b'/' ∷ take 31 b),
        )
        (refl, c_string-none (b'/' ∷ take 31 b) (omega arith, IsCString-take 31 b is))
]
