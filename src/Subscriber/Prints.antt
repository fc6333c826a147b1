-- ===== src/Subscriber/Prints.antt =====
-- What the loop of subscriber/sub.c prints.
use projeto_so.Base.{
  ℕ, suc, ◌-◌, ◌≤◌, ◌<◌, ◌≡◌, refl, ap, ◌∙◌, true, false, some, Bool-cases, inl, inr, List, [], ◌∷◌,
  ◌++◌, arith, length, length-replicate, drop,
}
use mathlib.Core.List.{append-nil, append_assoc}
use projeto_so.Libc.Memory.{peek, poke}
use projeto_so.Libc.CString.{CString, IsCString}
use projeto_so.Protocol.{c_string, calloc, message_size}
use projeto_so.Protocol.Fields.{
  c_string_lem, c_string-calloc, peek-poke_field, peek-calloc, drop-calloc,
}
use projeto_so.Publisher.{Ending, finished, failed}
use projeto_so.Subscriber.{Round, is_positive, read_message, print_message, subscribe}

-- What stands behind a line in its message: nothing, or a NUL and any bytes.
abbrev pub EndsLine : List ℕ → Type 0
EndsLine [] = Unit {0}
EndsLine (b ∷ rest) = b ≡ 0

-- A round with memory whose read gives the code, the line and `rest`, in at most the bytes of a
-- message. A line is a string that is shorter than a message.
pub record Carries (code : ℕ) (line : CString) (r : Round) : Type 0 where
  pub rest : List ℕ
  pub bytes : r.read.bytes ≡ code ∷ line ++ rest
  pub ends : EndsLine rest
  pub is_string : IsCString line
  pub short : length line < message_size
  pub fits : length (line ++ rest) ≤ message_size
  pub has_memory : r.has_memory ≡ true
  pub positive : is_positive r.read.code ≡ true

-- Each round carries one of the lines, in order.
abbrev pub AllCarry : ℕ → List CString → List Round → Type 0
AllCarry code [] rs = rs ≡ []
AllCarry code (line ∷ lines) [] = ⊥
AllCarry code (line ∷ lines) (r ∷ rs) = Carries code line r × AllCarry code lines rs

-- How the loop ends on the rounds that are left: a signal has cleared `running`, there is no memory
-- for the next message, or its read gives nothing.
pub data Stops : List Round → Ending → Type 0 where
  interrupted : Stops [] finished
  no_memory : {r : Round} {rs : List Round} → r.has_memory ≡ false → Stops (r ∷ rs) failed
  no_read : {r : Round} {rs : List Round} → is_positive r.read.code ≡ false → Stops (r ∷ rs) failed

behind_code :
    (n code : ℕ) (line : List ℕ)
    → length line ≤ n
    → peek (poke (calloc (suc n)) 0 (code ∷ line)) 1 n ≡ line ++ calloc (n - length line)
unfolding poke
behind_code n code line h =
    peek-poke_field (calloc n) 0 line n h (omega (arith, length-replicate {A = ℕ} n 0))
    ∙ ap (λ (z : List ℕ). line ++ drop (length line) z) (peek-calloc n 0 n (omega arith))
    ∙ ap (λ (z : List ℕ). line ++ z) (drop-calloc (length line) n)

-- The string of a line with what stands behind it, in a buffer of `n` bytes.
c_string-EndsLine :
    (n : ℕ) (line : CString) (rest : List ℕ)
    → IsCString line
    → EndsLine rest
    → length line < n
    → c_string ((line ++ rest) ++ calloc (n - length (line ++ rest))) ≡ some line
c_string-EndsLine n line [] is ends h =
    ap (λ (z : List ℕ). c_string (z ++ calloc (n - length z))) (append-nil line)
    ∙ c_string-calloc line (n - length line) is (omega (arith, h))
c_string-EndsLine n line (b ∷ rest) is ends h =
    ap c_string (append_assoc line (b ∷ rest) (calloc (n - length (line ++ b ∷ rest))))
    ∙ ap (λ (z : ℕ). c_string (line ++ ((z ∷ rest) ++ calloc (n - length (line ++ b ∷ rest))))) ends
    ∙ c_string_lem line (rest ++ calloc (n - length (line ++ b ∷ rest))) is

read_message-Carries :
    (code : ℕ) (line : CString) (r : Round)
    → Carries code line r
    → (buffer : List ℕ) × (read_message r.has_memory r.read ≡ some buffer)
      × (c_string buffer ≡ some line)
unfolding read_message
read_message-Carries code line r c = (
  (line ++ c.rest) ++ calloc (message_size - length (line ++ c.rest)),
  rw (c.has_memory, c.positive, c.bytes, behind_code message_size code (line ++ c.rest) c.fits)
      refl,
  c_string-EndsLine message_size line c.rest c.is_string c.ends c.short,
)

-- Rounds that carry lines, and then what stops the loop: a signal, a round without memory for its
-- message, or one whose read gives nothing, such as at the end of the pipe. A round carries a line
-- where there is memory and its read gives a code and the line, a string shorter than 1024 bytes,
-- with nothing behind it or with a NUL, in at most 1025 bytes. The loop prints exactly these lines,
-- in order, and is finished after the signal and failed after either of the others.
pub subscribe_lem :
    (code : ℕ) (lines : List CString) (rs rest : List Round) (ending : Ending)
    → AllCarry code lines rs
    → Stops rest ending
    → subscribe (rs ++ rest) ≡ (ending, lines)
unfolding subscribe read_message print_message
subscribe_lem code [] rs [] _ all interrupted = rw all refl
subscribe_lem code [] rs (r ∷ rest) _ all (no_memory lack) = rw (all, lack) refl
subscribe_lem code [] rs (r ∷ rest) _ all (no_read nothing) = elim (Bool-cases r.has_memory) [
  | inl have ↦ rw (all, have, nothing) refl
  | inr lack ↦ rw (all, lack) refl
]
subscribe_lem code (line ∷ lines) [] rest ending all stops = absurd all
subscribe_lem code (line ∷ lines) (r ∷ rs) rest ending all stops =
    let (buffer, got, ends) = read_message-Carries code line r all.0 in
    let later = subscribe_lem code lines rs rest ending all.1 stops in
    ground (arith, got, ends, later)
