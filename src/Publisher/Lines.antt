-- ===== src/Publisher/Lines.antt =====
-- Which messages the loop of publisher/pub.c sends.
use projeto_so.Base.{
  ℕ, zero, suc, ◌+◌, ◌-◌, ◌≤◌, ◌<◌, ◌≡◌, ◌≢◌, refl, ap, ◌∙◌, Bool, true, false, some, List, [], ◌∷◌,
  ◌++◌, ℤ, is_nonneg, arith, length, get_elem?, set, ltb, leb, Bool-cases, inl, inr,
  get_elem?-set_ne, set-get_elem?, length-append, ◌==◌,
}
use mathlib.Core.List.{append-nil, append_assoc}
use projeto_so.Libc.CString.{IsCString}
use projeto_so.Protocol.{c_string, calloc, message_size}
use projeto_so.Protocol.Fields.{c_string-calloc}
use projeto_so.Publisher.{
  Answers, Ending, publisher_message, send_message, put_char, after_sent, end_of_file, publish,
  publish_input,
}

-- Every message carries the empty string.
abbrev pub AllEmpty : List (List ℕ) → Type 0
AllEmpty [] = Unit
AllEmpty (m ∷ ms) = (m ≡ publisher_message []) × AllEmpty ms

c_string-empty : (m : List ℕ) → get_elem? m 0 ≡ some 0 → c_string m ≡ some []
unfolding c_string
c_string-empty [] e = ground (arith, e)
c_string-empty (b ∷ m) e = ground (arith, e)

-- Behind index 0 the first byte is left alone.
put_char-first :
    (i : ℕ) (buffer : List ℕ) (c : ℕ)
    → 0 < i
    → get_elem? buffer 0 ≡ some 0
    → (0 < (put_char i buffer c).0) × (get_elem? (put_char i buffer c).1 0 ≡ some 0)
unfolding put_char
put_char-first i buffer c h e =
    ground (arith, get_elem?-set_ne buffer i 0 c, get_elem?-set_ne buffer (message_size - 1) 0 0)

send_empty :
    (has_memory : Bool) (written : ℤ) (buffer : List ℕ) (rest : Ending × List (List ℕ))
    → get_elem? buffer 0 ≡ some 0
    → AllEmpty rest.1
    → AllEmpty ((after_sent (send_message has_memory written buffer) rest).1)
unfolding send_message after_sent
send_empty false written buffer rest e all = tt
send_empty true written buffer rest e all = elim (Bool-cases (is_nonneg written)) [
  | inl good ↦ rw (sent, good) (refl, all)
  | inr bad ↦ rw (sent, bad) (refl, tt)
]
  where
    sent :
        send_message true written buffer
        ≡ some (record { code = written; messages = publisher_message [] ∷ [] })
    sent = ground (arith, c_string-empty buffer e)

-- From an index behind the first and a buffer that begins with a NUL, as the loop stands after each
-- message: whatever the input and whatever the calls answer, every message that is sent from there on
-- carries the empty string.
pub publish-AllEmpty :
    (a : Answers) (k i : ℕ) (buffer cs : List ℕ)
    → 0 < i
    → get_elem? buffer 0 ≡ some 0
    → AllEmpty (publish a k i buffer cs).1
unfolding publish
publish-AllEmpty a k i buffer [] h e = tt
publish-AllEmpty a k i buffer (c ∷ cs) h e =
    let (h', e') = put_char-first i buffer c h e in
    elim (Bool-cases (c == end_of_file)) [
      | inl eof ↦ rw (publish, eof) tt
      | inr goes_on ↦ elim (Bool-cases (leb (message_size - 1) (put_char i buffer c).0)) [
        | inr more ↦
            rw (publish, goes_on, more)
              (publish-AllEmpty a k ((put_char i buffer c).0 + 1) (put_char i buffer c).1 cs
                (omega arith) e')
        | inl full ↦
            rw (publish, goes_on, full)
              (send_empty (a.has_memory k) (a.written k) (put_char i buffer c).1
                (publish a (k + 1) 1 (calloc message_size) cs) e'
                (publish-AllEmpty a (k + 1) 1 (calloc message_size) cs (omega arith) refl))
      ]
    ]

put_char-stored :
    (i c : ℕ) (buffer : List ℕ)
    → i < message_size - 1
    → c ≢ b'\n'
    → put_char i buffer c ≡ (i, set buffer i c)
unfolding put_char
put_char-stored i c buffer h ne = ground arith

-- No byte of the line ends it or the input.
abbrev pub OneLine : List ℕ → Type 0
OneLine [] = Unit
OneLine (c ∷ cs) = (c ≢ b'\n') × (c ≢ end_of_file) × OneLine cs

set-append : (xs ys : List ℕ) (y c : ℕ) → set (xs ++ y ∷ ys) (length xs) c ≡ (xs ++ c ∷ []) ++ ys
set-append [] ys y c = refl
set-append (x ∷ xs) ys y c = ap (x ∷◌) (set-append xs ys y c)

get_elem?-append_calloc :
    (s : List ℕ) (k i : ℕ) → length s ≤ i → i < length s + k → get_elem? (s ++ calloc k) i ≡ some 0
get_elem?-append_calloc [] zero i h l = absurd (omega (arith, l))
get_elem?-append_calloc [] (suc k) zero h l = refl
get_elem?-append_calloc [] (suc k) (suc i) h l =
    get_elem?-append_calloc [] k i (omega arith) (omega (arith, l))
get_elem?-append_calloc (c ∷ s) k zero h l = absurd (omega (arith, h))
get_elem?-append_calloc (c ∷ s) k (suc i) h l =
    get_elem?-append_calloc s k i (omega (arith, h)) (omega (arith, l))

publish-more :
    (a : Answers) (i c : ℕ) (buffer cs : List ℕ)
    → i < message_size - 1
    → c ≢ b'\n'
    → c ≢ end_of_file
    → publish a 0 i buffer (c ∷ cs) ≡ publish a 0 (i + 1) (set buffer i c) cs
unfolding publish
publish-more a i c buffer cs h ne on =
    let stored : put_char i buffer c ≡ (i, set buffer i c) = put_char-stored i c buffer h ne in
    let not_full : leb (message_size - 1) i ≡ false = ground arith in
    let goes_on : (c == end_of_file) ≡ false = ground (arith, on) in
    rw (publish, goes_on, stored, not_full) refl

module _ (a : Answers) (rest : List ℕ) where
  -- The characters of a line are collected behind those that are there.
  collect :
      (line sofar : List ℕ) (n : ℕ)
      → OneLine line
      → length sofar + n ≡ message_size
      → length sofar + length line < message_size - 1
      → publish a 0 (length sofar) (sofar ++ calloc n) (line ++ rest)
        ≡ publish a 0 (length (sofar ++ line)) ((sofar ++ line) ++ calloc (n - length line)) rest
  collect [] sofar n one full fits =
      let same : n - 0 ≡ n = omega arith in rw (append-nil sofar, same) refl
  collect (c ∷ line) sofar zero one full fits = absurd (omega (arith, full, fits))
  collect (c ∷ line) sofar (suc n) one full fits =
      let more : length sofar + 1 ≡ length (sofar ++ c ∷ []) =
        omega (arith, length-append {0} sofar (c ∷ [])) in
      let fewer : suc n - suc (length line) ≡ n - length line = omega arith in
      publish-more a (length sofar) c (sofar ++ calloc (suc n)) (line ++ rest) (omega (arith, fits))
        one.0 one.1
      ∙ rw (set-append sofar (calloc n) 0 c, more) refl
      ∙ collect line (sofar ++ c ∷ []) n one.2 (omega (arith, full, more))
          (omega (arith, fits, more))
      ∙ rw (append_assoc sofar (c ∷ []) line, fewer) refl

  -- A newline behind the line sends it.
  flush :
      (line : List ℕ) (n : ℕ)
      → IsCString line
      → length line + n ≡ message_size
      → length line < message_size - 1
      → publish a 0 (length line) (line ++ calloc n) (b'\n' ∷ rest)
        ≡ after_sent
            (send_message (a.has_memory 0) (a.written 0) (line ++ calloc n))
            (publish a 1 1 (calloc message_size) rest)
  unfolding publish put_char
  flush line n is full fits =
      let room : ltb (length line) (message_size - 1) ≡ true = ground arith in
      let same : set (line ++ calloc n) (message_size - 1) 0 ≡ line ++ calloc n =
        set-get_elem? (line ++ calloc n) (message_size - 1) 0 (
          get_elem?-append_calloc line n (message_size - 1) (omega (arith, fits))
            (omega (arith, full))) in
      rw (publish, put_char, room, same) refl

-- For an input whose first line has fewer than 1023 bytes, none of them 0 or 255, whose cast is EOF,
-- where the line ends with a newline, there is memory for its message and `write` does not fail: the first message that is sent carries the line, and
-- every message after it carries the empty string, whatever the rest of the input.
pub publish-lines :
    (a : Answers) (line rest : List ℕ)
    → OneLine line
    → IsCString line
    → length line < message_size - 1
    → a.has_memory 0 ≡ true
    → is_nonneg (a.written 0) ≡ true
    → (later : List (List ℕ)) × AllEmpty later
      × ((publish_input a (line ++ b'\n' ∷ rest)).1 ≡ publisher_message line ∷ later)
unfolding send_message after_sent
publish-lines a line rest one is fits memory good =
    let n : ℕ = message_size - length line in
    let whole : publish_input a (line ++ b'\n' ∷ rest)
        ≡ after_sent (send_message (a.has_memory 0) (a.written 0) (line ++ calloc n))
            (publish a 1 1 (calloc message_size) rest) =
      collect a (b'\n' ∷ rest) line [] message_size one (omega arith) (omega (arith, fits))
      ∙ flush a rest line n is (omega (arith, fits)) fits in
    let ends : c_string (line ++ calloc n) ≡ some line =
      c_string-calloc line n is (omega (arith, fits)) in
    let sent : send_message true (a.written 0) (line ++ calloc n)
        ≡ some (record { code = a.written 0; messages = publisher_message line ∷ [] }) =
      rw (send_message, ends) refl in
    (
      (publish a 1 1 (calloc message_size) rest).1,
      publish-AllEmpty a 1 1 (calloc message_size) rest (omega arith) refl,
      rw (whole, memory, sent, good) refl,
    )
