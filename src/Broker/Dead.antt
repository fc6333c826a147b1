-- ===== src/Broker/Dead.antt =====
-- Sessions of mbroker/mbroker.c that are never served.
use projeto_so.Base.{
  ℕ, ◌≤◌, ◌≡◌, refl, ◌⊎◌, inl, inr, true, false, Option, none, some, List, ◌∷◌, ℤ, minus_one,
  is_minus_one, Bool-cases, length, get_elem?, set,
}
use projeto_so.BoxList.{Box, live, Outcome, get_box}
use projeto_so.BoxList.Chain.{Chain, get_box_misses}
use projeto_so.Protocol.{
  ClientInfo, c_string, read_request, register_client, pub_register, sub_register,
}
use projeto_so.Fs.Types
use projeto_so.Fs.Types.{State, sub_size}
use projeto_so.Fs.Operations.{Mutex, tfs_close}
use projeto_so.Broker.{World, done}
use projeto_so.Broker.Sessions.{
  PublisherCalls, SubscriberCalls, WorkerCalls, Round, publisher, subscriber, dispatch,
  handle_request, publisher_loop, session_mode, read_from, leave_publisher, load_box, client_name,
}

module _ (w : World) (rounds : ℕ) (head : Option ℕ) (xs : List (ℕ × Box))
    (chain : Chain w.boxes head xs) (enough : length xs ≤ rounds) (info : ClientInfo) where
  missed : get_box rounds head (client_name info) w.boxes ≡ Outcome.done none w.boxes
  missed = get_box_misses rounds w.boxes head xs (client_name info) chain enough refl

  pub publisher_lem :
      (c : PublisherCalls) → publisher c rounds (some info) head w ≡ done minus_one w
  unfolding publisher
  publisher_lem c = elim (Bool-cases c.has_memory) [
    | inl have ↦ rw (have, missed) refl
    | inr lack ↦ rw lack refl
  ]

  pub subscriber_lem :
      (c : SubscriberCalls) → subscriber c rounds (some info) head w ≡ done minus_one w
  unfolding subscriber
  subscriber_lem c = elim (Bool-cases c.has_memory) [
    | inl have ↦ rw (have, missed) refl
    | inr lack ↦ rw lack refl
  ]

-- On a chain of boxes, with no fewer rounds than boxes, for a request of a publisher or a subscriber
-- whose session pipe has a name and can be opened, and with memory for the client: the worker goes
-- on to the next request, and neither the file system nor a box has changed and nothing was written
-- to the session, whatever box the request names.
pub handle_request-unserved :
    (c : WorkerCalls) (w : World) (head : Option ℕ) (xs : List (ℕ × Box)) (message : List ℕ)
    (name : List ℕ)
    → Chain w.boxes head xs
    → length xs ≤ c.rounds
    → ((read_request message).op_code ≡ pub_register)
      ⊎ ((read_request message).op_code ≡ sub_register)
    → c_string (read_request message).session_pipe_name ≡ some name
    → is_minus_one c.opened ≡ false
    → c.has_info ≡ true
    → handle_request c head message w ≡ done true w
unfolding handle_request dispatch register_client
handle_request-unserved c w head xs message name chain enough (inl publishes) named opened have =
    rw
      (
        named,
        opened,
        publishes,
        have,
        publisher_lem w c.rounds head xs chain enough _ c.for_publisher,
      )
      refl
handle_request-unserved c w head xs message name chain enough (inr subscribes) named opened have =
    rw
      (
        named,
        opened,
        subscribes,
        have,
        subscriber_lem w c.rounds head xs chain enough _ c.for_subscriber,
      )
      refl

-- A publisher's session that reaches its loop ends there: the first `read` fails, since the pipe is
-- open for writing only, the number of publishers goes down again and the file is closed.
publisher_loop-unread :
    (m : Mutex) (p : ℕ) (fd code : ℤ) (memory : List ℕ) (r : Round) (rs : List Round) (w : World)
    (b : Box) (s : State)
    → get_elem? w.boxes p ≡ some (live b)
    → tfs_close m fd w.fs ≡ Types.Run.ok code s
    → publisher_loop session_mode m p fd memory 0 (r ∷ rs) w
      ≡ done minus_one (record w {
        fs = s;
        boxes = set w.boxes p (live (record b { n_publishers = sub_size b.n_publishers 1 }));
      })
unfolding publisher_loop leave_publisher load_box read_from
publisher_loop-unread m p fd code memory r rs w b s at closed =
    rw (leave_publisher, load_box, at, closed) refl
