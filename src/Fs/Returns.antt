-- ===== src/Fs/Returns.antt =====
-- A command that neither panics nor runs into undefined behaviour, with what holds of its result.
use projeto_so.Base.{◌≡◌, refl}
use projeto_so.Fs.Types.{State, Run, ok, panic, fault, Cmd, and_then}

pub data Returns {A : Type 0} (P : A → State → Type 0) : Run A → Type 0 where
  returns : {a : A} {s : State} → P a s → Returns P (ok a s)

module _ {A : Type 0} {P : A → State → Type 0} where
  pub mono :
      {Q : A → State → Type 0} {r : Run A}
      → Returns P r
      → ((a : A) (s : State) → P a s → Q a s)
      → Returns Q r
  mono (returns p) weaken = returns (weaken _ _ p)

  pub bind :
      {B : Type 0} {Q : B → State → Type 0} {r : Run A} {k : A → Cmd B}
      → Returns P r
      → ((a : A) (s : State) → P a s → Returns Q (k a s))
      → Returns Q (and_then r k)
  bind (returns p) next = next _ _ p

-- What the run came to: the value and state of `ok`, and nothing else.
abbrev pub Holds : {A : Type 0} → (A → State → Type 0) → Run A → Type 0
Holds P (ok a s) = P a s
Holds P panic = ⊥
Holds P fault = ⊥

pub holds : {A : Type 0} {P : A → State → Type 0} {r : Run A} → Returns P r → Holds P r
holds (returns p) = p

-- what holds of the result and state that a run is known to come to
pub at_run :
    {A : Type 0} {P : A → State → Type 0} {r : Run A} {a : A} {s : State}
    → Returns P r
    → r ≡ ok a s
    → P a s
at_run {P = P} w e = coe 0 1 (i. Holds P (e i)) (holds w)

-- the result and the state, with what holds of them
pub outcome :
    {A : Type 0} {P : A → State → Type 0} {r : Run A}
    → Returns P r
    → (a : A) × (s : State) × (r ≡ ok a s) × P a s
outcome (returns p) = (_, _, refl, p)
