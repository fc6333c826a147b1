-- ===== src/Broker.antt =====
-- The request handlers of mbroker/mbroker.c on the state that they share: the file system, the list
-- of boxes, and what was written to the pipe of the session. What calloc, malloc, write and the
-- mutex of the file system answer is a parameter.
pub mod Handlers
pub mod Sessions
pub mod Answers
pub mod Boxes
pub mod Lists
pub mod Dead
pub mod Requests
mod Tests
use projeto_so.Base.{
  ℕ, Bool, Option, none, some, List, [], ◌∷◌, ◌++◌, ℤ, is_minus_one, minus_one, if◌then◌else◌,
}
use projeto_so.BoxList.{Cell, Outcome}
use projeto_so.BoxList
use projeto_so.Fs.Types
use projeto_so.Fs.Types.{State}

-- `pipe` is what was written to the pipe of the session, the oldest message first.
pub record World : Type 0 where
  pub fs : State
  pub boxes : List Cell
  pub pipe : List (List ℕ)

-- `panic` is a failed assertion, `fault` undefined behaviour, and `endless` a loop that has used up
-- its rounds.
pub data Run (A : Type 0) : Type 0 where
  done : A → World → Run A
  panic : Run A
  fault : Run A
  endless : Run A

abbrev pub Cmd : Type 0 → Type 0
Cmd A = World → Run A

module _ {A B : Type 0} where
  abbrev pub and_then : Run A → (A → Cmd B) → Run B
  and_then (done a w) k = k a w
  and_then panic k = panic
  and_then fault k = fault
  and_then endless k = endless

  infixl 5 ◌>>=◌ ◌>>◌
  abbrev pub ◌>>=◌ : Cmd A → (A → Cmd B) → Cmd B
  ◌>>=◌ m k w = and_then (m w) k

  abbrev pub ◌>>◌ : Cmd A → Cmd B → Cmd B
  m >> n = m >>= λ _. n

module _ {A : Type 0} where
  abbrev pub or_fault : Option A → Cmd A
  or_fault none w = fault
  or_fault (some a) w = done a w

  -- a call of the file system
  abbrev pub with_fs : Types.Run A → World → Run A
  with_fs (Types.Run.ok a s) w = done a (record w { fs = s })
  with_fs Types.Run.panic w = panic
  with_fs Types.Run.fault w = fault

  abbrev pub in_fs : Types.Cmd A → Cmd A
  in_fs m w = with_fs (m w.fs) w

  -- a call on the list of boxes
  abbrev pub with_boxes : Outcome A → World → Run A
  with_boxes (Outcome.done a heap) w = done a (record w { boxes = heap })
  with_boxes Outcome.fault w = fault
  with_boxes Outcome.endless w = endless

  abbrev pub in_boxes : (List Cell → Outcome A) → Cmd A
  in_boxes m w = with_boxes (m w.boxes) w

-- `write` to the pipe of the session, with what it returns; on -1 nothing is written.
abbrev pub send : ℤ → List ℕ → Cmd (Unit {0})
send written message w =
    if is_minus_one written then done tt w else done tt (record w { pipe = w.pipe ++ message ∷ [] })
