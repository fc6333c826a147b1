-- ===== src/Subscriber/Tests.antt =====
-- Runs of the loop of subscriber/sub.c.
use projeto_so.Base.{◌≡◌, refl, true, false, List, [], ◌∷◌, ◌++◌, pos, arith}
use projeto_so.Publisher.{finished, failed}
use projeto_so.Subscriber.{Round, read_message, print_message, subscribe}
use projeto_so.Subscriber.Prints.{AllCarry, interrupted, no_read, subscribe_lem}

-- "hi" with a NUL behind it, and an empty line without
abbrev two_rounds : List Round
two_rounds =
    record { has_memory = true; read = record { code = pos 4; bytes = 10 ∷ 104 ∷ 105 ∷ 0 ∷ [] } }
    ∷ record { has_memory = true; read = record { code = pos 1; bytes = 10 ∷ [] } }
    ∷ []

-- the end of the pipe
abbrev closed : Round
closed = record { has_memory = true; read = record { code = pos 0; bytes = [] } }

two_rounds-AllCarry : AllCarry 10 ((104 ∷ 105 ∷ []) ∷ [] ∷ []) two_rounds
two_rounds-AllCarry = (
  record {
    rest = 0 ∷ [];
    bytes = refl;
    ends = refl;
    is_string = (omega arith, (omega arith, tt));
    short = omega arith;
    fits = omega arith;
    has_memory = refl;
    positive = refl;
  },
  (
    record {
      rest = [];
      bytes = refl;
      ends = tt;
      is_string = tt;
      short = omega arith;
      fits = omega arith;
      has_memory = refl;
      positive = refl;
    },
    refl,
  ),
)

subscribe_lem_example : subscribe (two_rounds ++ closed ∷ []) ≡ (failed, (104 ∷ 105 ∷ []) ∷ [] ∷ [])
subscribe_lem_example =
    subscribe_lem 10 ((104 ∷ 105 ∷ []) ∷ [] ∷ []) two_rounds (closed ∷ []) failed
      two_rounds-AllCarry (no_read refl)

interrupted_run : subscribe two_rounds ≡ (finished, (104 ∷ 105 ∷ []) ∷ [] ∷ [])
interrupted_run =
    subscribe_lem 10 ((104 ∷ 105 ∷ []) ∷ [] ∷ []) two_rounds [] finished two_rounds-AllCarry
      interrupted

no_memory_run :
    subscribe (record { has_memory = false; read = record { code = pos 1; bytes = 10 ∷ [] } } ∷ [])
    ≡ (failed, [])
unfolding subscribe read_message print_message
no_memory_run = refl
