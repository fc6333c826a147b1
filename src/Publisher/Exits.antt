-- ===== src/Publisher/Exits.antt =====
-- How publisher/pub.c ends.
use projeto_so.Base.{
  ℕ, zero, suc, ◌+◌, ◌-◌, ◌≡◌, ◌≢◌, refl, Bool, true, false, not, ◌&&◌, some, List, [], ◌∷◌, ℤ, pos,
  minus_one, is_minus_one, is_zero, is_nonneg, arith, get_elem?, leb, ◌==◌, if◌then◌else◌,
  Bool-cases, inl, inr, get_elem?-set_ne, get_elem?-set_self, lt_of_get_elem?,
}
use projeto_so.Libc.CString.{CString}
use projeto_so.Protocol.{c_string, calloc, message_size}
use projeto_so.Clients.{Main, Exit, exited, pipe_name, give_up, still_there}
use projeto_so.Publisher.{
  Answers, Ending, finished, failed, fault, send_message, put_char, after_sent, end_of_file,
  publish, publish_input, register_pub,
}
use projeto_so.Publisher.Main.{MainCalls, main, register, after_open, leave, after_loop}

-- An array with a NUL holds a string.
c_string-some :
    (m : List ℕ) (k : ℕ) → get_elem? m k ≡ some 0 → (s : CString) × (c_string m ≡ some s)
unfolding c_string
c_string-some [] k e = ground (arith, e)
c_string-some (b ∷ m) zero e = ([], ground (arith, e))
c_string-some (b ∷ m) (suc k) e =
    let (s, e') = c_string-some m k e in
    elim (Bool-cases (b == 0)) [
      | inl z ↦ ([], ground (arith, z, e'))
      | inr nz ↦ (b ∷ s, ground (arith, nz, e'))
    ]

-- The last byte of the buffer stays 0.
put_char-last :
    (i : ℕ) (buffer : List ℕ) (c : ℕ)
    → get_elem? buffer (message_size - 1) ≡ some 0
    → get_elem? (put_char i buffer c).1 (message_size - 1) ≡ some 0
unfolding put_char
put_char-last i buffer c e = ground (
  arith,
  get_elem?-set_ne buffer i (message_size - 1) c,
  get_elem?-set_self buffer (message_size - 1) 0 (lt_of_get_elem? buffer (message_size - 1) e),
)

after_sent-returns :
    (has_memory : Bool) (written : ℤ) (buffer : List ℕ) (rest : Ending × List (List ℕ))
    → get_elem? buffer (message_size - 1) ≡ some 0
    → rest.0 ≢ fault
    → (after_sent (send_message has_memory written buffer) rest).0 ≢ fault
unfolding after_sent send_message
after_sent-returns has_memory written buffer rest e good =
    let (s, ends) = c_string-some buffer (message_size - 1) e in
    elim (Bool-cases has_memory) [
      | inl have ↦ elim (Bool-cases (is_nonneg written)) [
        | inl fine ↦ λ z. good (ground (arith, z, have, ends, fine))
        | inr bad ↦ λ z. ground (arith, z, have, ends, bad)
      ]
      | inr lack ↦ λ z. ground (arith, z, lack)
    ]

publish-returns :
    (a : Answers) (k i : ℕ) (buffer cs : List ℕ)
    → get_elem? buffer (message_size - 1) ≡ some 0
    → (publish a k i buffer cs).0 ≢ fault
unfolding publish
publish-returns a k i buffer [] e = λ z. ground (arith, z)
publish-returns a k i buffer (c ∷ cs) e =
    let e' = put_char-last i buffer c e in
    elim (Bool-cases (c == end_of_file)) [
      | inl eof ↦ rw (publish, eof) λ z. ground (arith, z)
      | inr goes_on ↦ elim (Bool-cases (leb (message_size - 1) (put_char i buffer c).0)) [
        | inr more ↦
            rw (publish, goes_on, more)
              (publish-returns a k ((put_char i buffer c).0 + 1) (put_char i buffer c).1 cs e')
        | inl full ↦
            rw (publish, goes_on, full)
              (after_sent-returns (a.has_memory k) (a.written k) (put_char i buffer c).1
                (publish a (k + 1) 1 (calloc message_size) cs) e'
                (publish-returns a (k + 1) 1 (calloc message_size) cs refl))
      ]
    ]

-- The program exits, and the pipe that it made is gone.
abbrev pub Removed : Main → Type 0
Removed m = (e : Exit) × (m ≡ exited e) × (e.session_exists ≡ false)

-- Each `unlink` works, and so does the `close` of the session's pipe.
pub record Unlinks (c : MainCalls) : Type 0 where
  pub left : c.start.left ≡ pos 0
  pub closed : is_minus_one c.end.closed ≡ false
  pub unlinked : c.end.unlinked ≡ pos 0

Removed-if : (b : Bool) (x y : Main) → Removed x → Removed y → Removed (if b then x else y)
Removed-if true x y rx ry = rx
Removed-if false x y rx ry = ry

module _ (c : MainCalls) (unlinks : Unlinks c) where
  give_up-Removed :
      (closes : ℕ) (requests : List (List ℕ)) → Removed (give_up c.start.left closes requests)
  give_up-Removed closes requests = (_, refl, rw unlinks.left refl)

  leave-Removed :
      (code : ℤ) (requests messages : List (List ℕ)) → Removed (leave c.end code requests messages)
  unfolding leave still_there
  leave-Removed code requests messages = (_, refl, rw (unlinks.closed, unlinks.unlinked) refl)

  after_loop-Removed :
      (requests : List (List ℕ)) (r : Ending × List (List ℕ))
      → r.0 ≢ fault
      → Removed (after_loop c.end requests r)
  unfolding after_loop
  after_loop-Removed requests (finished, messages) good = leave-Removed (pos 0) requests messages
  after_loop-Removed requests (failed, messages) good = leave-Removed _ requests messages
  after_loop-Removed requests (fault, messages) good = absurd (good refl)

  after_open-Removed :
      (requests : List (List ℕ)) (input : List ℕ) → Removed (after_open c requests input)
  unfolding after_open
  after_open-Removed requests input =
      Removed-if (not c.signal_works) _ _ (leave-Removed minus_one requests []) (
        after_loop-Removed requests (publish_input c.answers input)
          (publish-returns c.answers 0 0 (calloc message_size) input refl))

  register-Removed :
      (session_pipe_name box : CString) (input : List ℕ) (session_pipe : ℤ)
      → c.opened_session ≡ some session_pipe
      → Removed (register c session_pipe_name box input)
  unfolding register
  register-Removed session_pipe_name box input session_pipe opened_session =
      let sent = register_pub c.has_memory c.written session_pipe_name box in
      Removed-if (not (is_zero sent.code)) _ _ (give_up-Removed 1 sent.messages) (
        Removed-if (is_minus_one c.closed_server) _ _ (give_up-Removed 1 sent.messages) (
          rw (opened_session) (
            Removed-if (is_minus_one session_pipe) _ _ (give_up-Removed 2 sent.messages)
              (after_open-Removed sent.messages input))))

  -- Where `calloc` gives memory for the names of both pipes, the copies of 249 bytes of the arguments
  -- stay inside their memory and each gives a name, the `open` of the server's pipe and that of the
  -- session's pipe do not wait for ever, each `unlink` of the publisher's pipe at its end works and so
  -- does the `close` of that pipe: whatever the other calls answer, as long as they answer, and whatever
  -- the input is, the publisher exits, without undefined behaviour, and no pipe that it made is left.
  pub main-Removed :
      (argc : ℕ) (server session : List ℕ) (box : CString) (input : List ℕ)
      (server_pipe_name session_pipe_name : CString) (server_pipe session_pipe : ℤ)
      → pipe_name c.start.has_server_name server ≡ some server_pipe_name
      → pipe_name c.start.has_session_name session ≡ some session_pipe_name
      → c.start.opened_server ≡ some server_pipe
      → c.opened_session ≡ some session_pipe
      → Removed (main c argc server session box input)
  unfolding main
  main-Removed argc server session box input server_pipe_name session_pipe_name server_pipe
        session_pipe sn pn so po =
      Removed-if (not (argc == 4)) _ _ (_, refl, refl)
        (rw (sn, pn, so)
          (Removed-if (not (is_zero c.start.unlinked) && not c.start.missing) _ _ (_, refl, refl)
            (Removed-if (not (is_zero c.start.made)) _ _ (_, refl, refl)
              (Removed-if (is_minus_one server_pipe) _ _ (give_up-Removed 0 [])
                (register-Removed session_pipe_name box input session_pipe po)))))
