-- ===== src/Broker/Answers.antt =====
-- The answer that `box_answer` (mbroker/mbroker.c) writes, and what `box_request`
-- (manager/manager.c) makes of it.
use projeto_so.Base.{
  ℕ, ◌-◌, ◌≡◌, refl, ◌∙◌, inl, inr, true, false, List, [], ◌∷◌, ◌++◌, ℤ, pos, is_minus_one, arith,
  if◌then◌else◌, Bool-cases, length, drop, length-replicate,
}
use projeto_so.Libc.Memory.{
  peek, poke, int_bytes, int_of_bytes, length-int_bytes, length-poke, peek-poke_self,
  peek-poke_after,
}
use projeto_so.Protocol.{calloc, total_response_length, error_message_size}
use projeto_so.Protocol.Fields.{peek-calloc}
use projeto_so.Manager.{ok_line, error_line, answer_line}
use projeto_so.Broker.{World, done}
use projeto_so.Broker.Handlers.{
  Answer, error_message, answer_code, answer_message, answer_bytes, box_answer,
}

-- the message before an error text is put into it
abbrev coded : ℤ → ℕ → List ℕ
coded rc op = poke (poke (calloc total_response_length) 0 (answer_code op ∷ [])) 1 (int_bytes rc)

length-coded : (rc : ℤ) (op : ℕ) → length (coded rc op) ≡ total_response_length
length-coded rc op =
    length-poke (poke (calloc total_response_length) 0 (answer_code op ∷ [])) 1 (int_bytes rc)
    ∙ length-poke (calloc total_response_length) 0 (answer_code op ∷ [])
    ∙ length-replicate {A = ℕ} total_response_length 0

coded-tail : (rc : ℤ) (op : ℕ) → peek (coded rc op) 5 33 ≡ calloc 33
coded-tail rc op =
    peek-poke_after (poke (calloc total_response_length) 0 (answer_code op ∷ [])) 1 (int_bytes rc) 5
      33 (omega (arith, length-int_bytes rc))
    ∙ peek-poke_after (calloc total_response_length) 0 (answer_code op ∷ []) 5 33 (omega arith)
    ∙ peek-calloc total_response_length 5 33 (omega arith)

-- What is written holds neither the operation code nor the return code: it is the error text, or as
-- many zeros.
pub answer_bytes_lem :
    (rc : ℤ) (op : ℕ) → answer_bytes rc op ≡ (if is_minus_one rc then error_message else calloc 33)
unfolding answer_bytes answer_message
answer_bytes_lem rc op = elim (Bool-cases (is_minus_one rc)) [
  | inl failed ↦
      rw failed
        (peek-poke_self (coded rc op) 5 error_message 33 refl (omega (arith, length-coded rc op)))
  | inr good ↦ rw good (coded-tail rc op)
]

-- For any request and any return code of the broker: on the bytes that it writes, the manager prints
-- "OK" for every return code but -1; for -1 it prints "ERROR" and the text without its first five
-- characters.
pub answer_line-answer_bytes :
    (rc : ℤ) (op : ℕ)
    → answer_line (answer_bytes rc op) ≡ (
        if is_minus_one rc
        then error_line (drop 5 error_message ++ calloc (error_message_size - 28))
        else ok_line)
unfolding answer_line int_of_bytes poke
answer_line-answer_bytes rc op = elim (Bool-cases (is_minus_one rc)) [
  | inl failed ↦ rw (answer_bytes_lem rc op, failed) refl
  | inr good ↦ rw (answer_bytes_lem rc op, good) refl
]

-- What `box_answer` returns and writes, with the memory and the `write` that it gets.
pub box_answer_lem :
    (a : Answer) (rc : ℤ) (op : ℕ) (w : World)
    → a.has_memory ≡ true
    → is_minus_one a.written ≡ false
    → box_answer a rc op w
      ≡ done (pos 0) (record w {
        pipe = w.pipe ++ (if is_minus_one rc then error_message else calloc 33) ∷ [];
      })
unfolding box_answer
box_answer_lem a rc op w memory written = rw (memory, written, answer_bytes_lem rc op) refl
