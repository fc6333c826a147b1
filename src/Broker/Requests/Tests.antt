-- ===== src/Broker/Requests/Tests.antt =====
-- Two requests to the broker on a queue of two slots.
use projeto_so.Base.{◌≡◌, refl, true, List, [], ◌∷◌, pos, arith}
use projeto_so.Protocol.{box_request_message, list_box_message, register_request}
use projeto_so.ProducerConsumer.{Pointer, World, done, pcq_dequeue}
use projeto_so.ProducerConsumer.Invariant.{IsValid, Contents}
use projeto_so.ProducerConsumer.Tests.{
  calls, works, empty_world, empty_world-IsValid, empty_world-Contents,
}
use projeto_so.Broker.Requests.{Round, serve, waiting, broken, messages_of, serve_lem}
use projeto_so.Broker.Requests.Freed.{release, serve-frees_twice}

-- a request to create a box, and one to list the boxes, which is shorter
abbrev rounds : List Round
rounds =
    record {
      read = record { code = pos 289; bytes = box_request_message 3 (112 ∷ []) (98 ∷ []) };
      has_memory = true;
      calls = calls;
    }
    ∷ record {
      read = record { code = pos 257; bytes = list_box_message (112 ∷ []) };
      has_memory = true;
      calls = calls;
    }
    ∷ []

serve_lem_example :
    (w' : World) × (serve rounds empty_world ≡ waiting w')
    × IsValid w'
    × Contents w' (messages_of rounds)
serve_lem_example =
    serve_lem rounds empty_world [] empty_world-IsValid empty_world-Contents
      (refl, refl, works, (refl, refl, works, tt)) (omega arith)

-- the next request, of a publisher
abbrev next_round : Round
next_round = record {
  read = record { code = pos 289; bytes = register_request 1 (112 ∷ []) (98 ∷ []) };
  has_memory = true;
  calls = calls;
}

serve-frees_twice_example :
    (buffer : Pointer) × (w1 : World) × (w2 : World) × (w3 : World) × (serve rounds empty_world
      ≡ waiting w1)
    × (pcq_dequeue calls w1 ≡ done buffer w2)
    × (release buffer w2 ≡ done tt w3)
    × (serve (next_round ∷ []) w3 ≡ broken)
serve-frees_twice_example =
    serve-frees_twice rounds next_round [] empty_world calls empty_world-IsValid
      empty_world-Contents (refl, refl, works, (refl, refl, works, tt)) refl works refl refl works
