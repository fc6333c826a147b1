-- ===== src/Manager/Tests.antt =====
-- A run of `list_box_request` of manager/manager.c.
use projeto_so.Base.{◌≡◌, refl, true, Option, some, none, List, [], ◌∷◌, pos, ◌⊎◌, replicate}
use projeto_so.Libc.Memory.{poke, int_of_bytes}
use projeto_so.BoxList.{Box, insertion_sort}
use projeto_so.Protocol.{c_string}
use projeto_so.Subscriber.{Read}
use projeto_so.Manager.{
  ok_line, answer_line, fault, waiting, list_box_request, uint64_of_bytes, take_response, sort_in,
  list_response, read_response, list_loop,
}
use projeto_so.Manager.Listing.{list_box_request-stuck}

abbrev pub fresh_box : Box
fresh_box = record {
  box_name = replicate 32 0;
  box_size = 0;
  n_publishers = 0;
  last = 0;
  n_subscribers = 0;
  next = none;
}

-- the broker's response for the last box, "b"
abbrev response : Read
response = record { code = pos 58; bytes = 8 ∷ 1 ∷ 98 ∷ replicate 55 0 }

abbrev one_read : List (Read × Option Box)
one_read = (response, some fresh_box) ∷ []

list_box_request-stuck_example :
    let l = list_box_request true (pos 257) true (pos 3) one_read (pos 0) (112 ∷ []) in
    (l ≡ fault) ⊎ (l ≡ waiting)
list_box_request-stuck_example =
    list_box_request-stuck one_read (pos 257) (pos 3) (pos 0) (112 ∷ [])
      (record { code = refl; whole = refl; tagged = refl }, (fresh_box, refl), tt) refl refl

-- The manager goes on after the last box.
waiting_run : list_box_request true (pos 257) true (pos 3) one_read (pos 0) (112 ∷ []) ≡ waiting
unfolding list_box_request list_loop read_response list_response sort_in take_response
    uint64_of_bytes insertion_sort c_string poke
waiting_run = refl

-- An answer of 33 zeros counts as a success.
created_run : answer_line (replicate 33 0) ≡ ok_line
unfolding answer_line poke int_of_bytes
created_run = refl
