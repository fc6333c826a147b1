-- ===== src/Publisher/Tests.antt =====
-- Runs of the loop of publisher/pub.c.
use projeto_so.Base.{◌≡◌, refl, true, List, ℕ, [], ◌∷◌, pos, arith}
use projeto_so.Libc.CString.{CString}
use projeto_so.Protocol.{c_string}
use projeto_so.Publisher.{
  Answers, finished, publisher_message, send_message, put_char, after_sent, publish, publish_input,
}
use projeto_so.Publisher.Lines.{AllEmpty, publish-lines}

abbrev working : Answers
working = record { has_memory = λ k. true; written = λ k. pos 1025 }

-- "hi" and "ho", each with its line end
abbrev hi : CString
hi = 104 ∷ 105 ∷ []

abbrev ho_line : List ℕ
ho_line = 104 ∷ 111 ∷ 10 ∷ []

publish-lines_example :
    (later : List (List ℕ)) × AllEmpty later
    × ((publish_input working (104 ∷ 105 ∷ 10 ∷ ho_line)).1 ≡ publisher_message hi ∷ later)
publish-lines_example =
    publish-lines working hi ho_line
      (
        λ e. omega (arith, e),
        λ e. omega (arith, e),
        (λ e. omega (arith, e), λ e. omega (arith, e), tt),
      )
      (omega arith, (omega arith, tt)) (omega arith) refl refl

-- Two lines: the second message is empty.
two_lines_run :
    publish_input working (104 ∷ 105 ∷ 10 ∷ ho_line)
    ≡ (finished, publisher_message hi ∷ publisher_message [] ∷ [])
unfolding publish put_char after_sent send_message c_string
two_lines_run = refl
