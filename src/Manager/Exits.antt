-- ===== src/Manager/Exits.antt =====
-- When a manager, manager/manager.c, reports success.
use projeto_so.Base.{
  ℕ, ◌≡◌, refl, Bool, true, false, not, ◌&&◌, Option, none, some, List, pos, is_minus_one, is_zero,
  arith, ◌==◌, if◌then◌else◌, Bool-cases, Option-cases, inl, inr,
}
use projeto_so.Libc.CString.{CString}
use projeto_so.Clients.{Main, Exit, exited, pipe_name, nothing_made}
use projeto_so.Protocol.{box_creation_r, box_removal_r}
use projeto_so.Manager.{Reply, Listed, returned, fault, waiting, box_request}
use projeto_so.Manager.Main.{
  MainCalls, main, handle, for_box, after_list, leave, is_word, create, remove, list,
}

-- An exit with the code 0 has removed the session's pipe and closed the server's once.
abbrev Tidy : Main → Type 0
Tidy (exited e) = e.code ≡ pos 0 → (e.session_exists ≡ false) × (e.server_closes ≡ 1)
Tidy _ = Unit

Tidy-if : (b : Bool) (x y : Main) → Tidy x → Tidy y → Tidy (if b then x else y)
Tidy-if true x y tx ty = tx
Tidy-if false x y tx ty = ty

failed-Tidy : Tidy nothing_made
failed-Tidy z = ground (arith, z)

module _ (c : MainCalls) where
  leave-Tidy : (reply : Reply) → Tidy (leave c reply)
  unfolding leave
  leave-Tidy reply = elim (Bool-cases (is_zero reply.code)) [
    | inr bad ↦ λ z. ground (arith, z, bad)
    | inl good ↦ elim (Bool-cases (is_minus_one c.unlinked_session)) [
      | inl left ↦ λ z. ground (arith, z, good, left)
      | inr gone ↦ λ z. (rw (good, gone) refl, rw good refl)
    ]
  ]

  for_box-Tidy : (name : CString) (box : Option CString) (code : ℕ) → Tidy (for_box c name box code)
  unfolding for_box
  for_box-Tidy name (some box) code = leave-Tidy (box_request c.for_box name box code)
  for_box-Tidy name none code = Tidy-if c.for_box.has_memory _ _ tt (leave-Tidy _)

  after_list-Tidy : (l : Listed) → Tidy (after_list c l)
  unfolding after_list
  after_list-Tidy (returned reply) = leave-Tidy reply
  after_list-Tidy fault = tt
  after_list-Tidy waiting = tt

  handle-Tidy : (name request : CString) (box : Option CString) → Tidy (handle c name request box)
  unfolding handle
  handle-Tidy name request box =
      Tidy-if (is_word request create) _ _ (for_box-Tidy name box box_creation_r) (
        Tidy-if (is_word request remove) _ _ (for_box-Tidy name box box_removal_r)
          (Tidy-if (is_word request list) _ _ (after_list-Tidy _) (leave-Tidy _)))

main-Tidy :
    (c : MainCalls) (argc : ℕ) (server session : List ℕ) (request box : CString)
    (server_pipe_name session_pipe_name : CString)
    → pipe_name c.start.has_server_name server ≡ some server_pipe_name
    → pipe_name c.start.has_session_name session ≡ some session_pipe_name
    → Tidy (main c argc server session request box)
unfolding main
main-Tidy c argc server session request box server_pipe_name session_pipe_name sn pn =
    Tidy-if (not (argc == 5) && not (argc == 4)) _ _ failed-Tidy (
      rw (sn, pn)
        (Tidy-if (not (is_zero c.start.unlinked) && not c.start.missing) _ _ failed-Tidy (
          Tidy-if (not (is_zero c.start.made)) _ _ failed-Tidy
            (elim (Option-cases c.start.opened_server) [
              | inl waits ↦ rw waits tt
              | inr (opened, answers) ↦ rw answers (
                  Tidy-if (is_minus_one opened) _ _ (λ z. ground (arith, z))
                    (handle-Tidy c session_pipe_name request
                      (if argc == 5 then some box else none)))
            ]))))

-- Whatever the calls answer and whatever the request is: where the names of both pipes fit, and the
-- manager exits with the code 0, the pipe that it made is gone and it closed the server's pipe once.
pub main-exits :
    (c : MainCalls) (argc : ℕ) (server session : List ℕ) (request box : CString)
    (server_pipe_name session_pipe_name : CString) (e : Exit)
    → pipe_name c.start.has_server_name server ≡ some server_pipe_name
    → pipe_name c.start.has_session_name session ≡ some session_pipe_name
    → main c argc server session request box ≡ exited e
    → e.code ≡ pos 0
    → (e.session_exists ≡ false) × (e.server_closes ≡ 1)
main-exits c argc server session request box server_pipe_name session_pipe_name e sn pn run good =
    coe 0 1 (i. Tidy (run i))
      (main-Tidy c argc server session request box server_pipe_name session_pipe_name sn pn) good
