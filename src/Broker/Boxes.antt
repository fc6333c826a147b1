-- ===== src/Broker/Boxes.antt =====
-- `create_box` and `remove_box` (mbroker/mbroker.c) on a well-formed file system.
pub mod Steps
use projeto_so.Base.{
  ℕ, ◌/◌, ◌≤◌, ◌<◌, ◌≡◌, refl, ap, ◌∙◌, ◌⊎◌, inl, inr, true, false, Option, none, some, List, [],
  ◌∷◌, ◌++◌, ℤ, pos, minus_one, is_minus_one, arith, Bool-cases, length, take, length-take,
  get_elem?-append_one,
}
use projeto_so.Libc.CString.{CString, IsCString}
use projeto_so.BoxList.{
  Box, Cell, live, Outcome, box_name_length, insert_box, delete_box, delete_loop,
}
use projeto_so.BoxList.Chain.{Chain, Distinct, appended, made, insert_box_empty, insert_box_lem}
use projeto_so.Fs.Types.{State}
use projeto_so.Fs.Types
use projeto_so.Fs.Invariant.{IsValid, Hit}
use projeto_so.Fs.Dir.{dir_entry_size}
use projeto_so.Fs.Returns.{outcome}
use projeto_so.Fs.Operations.{valid_pathname, skip_slash, tfs_open, tfs_close, tfs_o_creat}
use projeto_so.Fs.Operations.Open.Whole.{
  Opened, existing, creating, absent, tfs_open_lem, tfs_open_invalid,
}
use projeto_so.Fs.Operations.Open.Cases.{Made, fresh, no_inode, no_entry}
use projeto_so.Fs.Operations.Close.{closed, tfs_close_lem}
use projeto_so.Fs.Operations.Unlink.Cases.{Unlinked, gone, missing, tfs_unlink_lem, cleared}
use projeto_so.Fs.Updates.Entries.{Unnamed}
use projeto_so.Protocol.{c_string, calloc}
use projeto_so.Protocol.Fields.{length-c_string, c_string-IsCString}
use projeto_so.Broker.{World, done}
use projeto_so.Broker.Handlers.{Calls, error_message, refuse, own_name, add, create_box, remove_box}
use projeto_so.Broker.Answers.{box_answer_lem}
use projeto_so.Broker.Boxes.Steps.{
  start_of, inserted, Opened-Hit, is_minus_one-true, Unlinked-Unnamed, IsCString-skip_slash,
}

-- No call fails for want of memory or a mutex, and every `write` works.
pub record Works (c : Calls) : Type 0 where
  pub open_locks : is_minus_one c.open_mutex.lock ≡ false
  pub open_unlocks : is_minus_one c.open_mutex.unlock ≡ false
  pub close_locks : is_minus_one c.close_mutex.lock ≡ false
  pub close_unlocks : is_minus_one c.close_mutex.unlock ≡ false
  pub old : Box
  pub has_box : c.malloced ≡ some old
  pub has_memory : c.answer.has_memory ≡ true
  pub written : is_minus_one c.answer.written ≡ false

-- One answer was written.
abbrev pub Answered : World → List ℕ → World → Type 0
Answered w bytes w' = w'.pipe ≡ w.pipe ++ bytes ∷ []

-- What a request to create the box `path` has done, where the worker's list starts at `head`: one of
-- the entries of the root directory is for it, the boxes are linked from where they started on with
-- the new one behind them, and the answer is 33 zeros; from a NULL head, the new box is alone at the
-- address that `malloc` gave, where the worker's pointer does not lead; or the file could not be opened or closed,
-- the answer is the error text, and no box has changed.
pub data Created (b : ℕ) (w : World) (c : Calls) (path : CString) (old : Box) (head : Option ℕ)
    (xs : List (ℕ × Box)) (r : ℤ) (w' : World) : Type 0 where
  created :
      (block : List ℕ) (k : ℕ)
      → r ≡ pos 0
      → IsValid b block w'.fs
      → k < w.fs.fs_params.block_size / dir_entry_size
      → Hit block (skip_slash (some path)) k
      → Chain w'.boxes
          (start_of head (length w.boxes))
          (appended (length w.boxes) (made old path box_name_length) xs)
      → Answered w (calloc 33) w'
      → Created b w c path old head xs r w'
  refused :
      (block : List ℕ) (fd : ℤ) (s1 : State)
      → tfs_open c.open_mutex (some path) tfs_o_creat w.fs ≡ Types.Run.ok fd s1
      → (is_minus_one fd ≡ true)
        ⊎ ((s2 : State) × (tfs_close c.close_mutex fd s1 ≡ Types.Run.ok minus_one s2))
      → r ≡ minus_one
      → IsValid b block w'.fs
      → w'.boxes ≡ w.boxes
      → Answered w error_message w'
      → Created b w c path old head xs r w'

module _ (b : ℕ) (block : List ℕ) (w : World) (v : IsValid b block w.fs) (c : Calls)
    (works : Works c) (rounds op : ℕ) (buffer : List ℕ) (path : CString)
    (named : c_string (take box_name_length buffer) ≡ some path) where
  refuse_lem :
      (w1 : World)
      → refuse c.answer op w1 ≡ done minus_one (record w1 { pipe = w1.pipe ++ error_message ∷ [] })
  refuse_lem w1 = rw (box_answer_lem c.answer minus_one op w1 works.has_memory works.written) refl

  module _ (head : Option ℕ) (xs : List (ℕ × Box)) (chain : Chain w.boxes head xs)
      (distinct : Distinct xs) (enough : length xs ≤ rounds) where
    -- the end of a request to create a box whose file was opened and closed
    add_box :
        (block' : List ℕ) (s2 : State) (k : ℕ)
        → IsValid b block' s2
        → k < w.fs.fs_params.block_size / dir_entry_size
        → Hit block' (skip_slash (some path)) k
        → (r : ℤ) × (w' : World) × (add c rounds path head op (record w { fs = s2 }) ≡ done r w')
          × Created b w c path works.old head xs r w'
    unfolding add
    add_box block' s2 k valid hk hit =
        let short : length path < box_name_length = omega (
          arith,
          length-c_string (take box_name_length buffer) path named,
          length-take box_name_length buffer,
        ) in
        let (heap', run, chain') =
          inserted works.old rounds head xs path box_name_length w.boxes enough chain distinct
            short in
        (
          pos 0,
          record { fs = s2; boxes = heap'; pipe = w.pipe ++ calloc 33 ∷ [] },
          rw
              (
                works.has_box,
                run,
                box_answer_lem c.answer (pos 0) op
                    (record { fs = s2; boxes = heap'; pipe = w.pipe }) works.has_memory
                    works.written,
              )
              refl,
          created block' k refl valid hk hit chain' refl,
        )

    -- `create_box` once its file was opened.
    close_and_add :
        (block' : List ℕ) (s1 : State) (fd : ℤ)
        → IsValid b block' s1
        → (fd ≡ minus_one)
          ⊎ ((k : ℕ) × (k < w.fs.fs_params.block_size / dir_entry_size)
              × Hit block' (skip_slash (some path)) k)
        → tfs_open c.open_mutex (some path) tfs_o_creat w.fs ≡ Types.Run.ok fd s1
        → (r : ℤ) × (w' : World) × (create_box c rounds buffer head op w ≡ done r w')
          × Created b w c path works.old head xs r w'
    unfolding create_box
    close_and_add block' s1 fd valid known run = elim (Bool-cases (is_minus_one fd)) [
      | inl failed ↦ (
        minus_one,
        record { fs = s1; boxes = w.boxes; pipe = w.pipe ++ error_message ∷ [] },
        rw (named, run, failed, refuse_lem (record w { fs = s1 })) refl,
        refused block' fd s1 run (inl failed) refl valid refl refl,
      )
      | inr good ↦
          let (closed, s2, run2, (valid2, _)) = outcome (
            tfs_close_lem b block' s1 c.close_mutex fd valid works.close_locks
              works.close_unlocks) in
          elim (Bool-cases (is_minus_one closed)) [
            | inl failed ↦ (
              minus_one,
              record { fs = s2; boxes = w.boxes; pipe = w.pipe ++ error_message ∷ [] },
              rw (named, run, good, run2, failed, refuse_lem (record w { fs = s2 })) refl,
              refused block' fd s1 run
                  (inr (s2, run2 ∙ ap (λ z. Types.Run.ok z s2) (is_minus_one-true closed failed)))
                  refl valid2 refl refl,
            )
            | inr fine ↦ elim known [
              | inl none_given ↦ absurd (ground (arith, none_given, good))
              | inr (k, hk, hit) ↦
                  let (r, w', end, made) = add_box block' s2 k valid2 hk hit in
                  (r, w', rw (named, run, good, run2, fine) end, made)
            ]
          ]
    ]

    -- On a well-formed file system and a chain of boxes with different pointers, with memory, a
    -- mutex and a pipe that work, no fewer rounds than boxes, and a request that names a box by a
    -- string: `create_box` returns, and does what `Created` says. It returns 0 with the root
    -- directory holding an entry for the box among its entries, the box linked behind those that the
    -- worker's pointer leads to, or alone where that pointer is NULL, as it stays, and one answer of
    -- 33 zeros; or, where `tfs_open` or `tfs_close` of the file fails, it returns -1 with no box changed
    -- and the error text as its one answer. The file system is well-formed in both cases.
    pub create_box_lem :
        (r : ℤ) × (w' : World) × (create_box c rounds buffer head op w ≡ done r w')
        × Created b w c path works.old head xs r w'
    create_box_lem = elim (Bool-cases (valid_pathname (some path))) [
      | inr bad ↦ close_and_add block w.fs minus_one v (inl refl) (
          tfs_open_invalid b block w.fs v c.open_mutex (some path) tfs_o_creat works.open_locks
            works.open_unlocks bad)
      | inl valid ↦
          let (fd, s1, run, did) = outcome (
            tfs_open_lem b block w.fs v c.open_mutex (some path) tfs_o_creat works.open_locks
              works.open_unlocks valid
              (IsCString-skip_slash path
                (c_string-IsCString (take box_name_length buffer) path named))) in
          let (block', valid', known) =
            Opened-Hit b block w.fs v (skip_slash (some path)) tfs_o_creat fd s1 did in
          close_and_add block' s1 fd valid' known run
    ]

  -- On a well-formed file system, with memory, a mutex and a pipe that work, for a request whose box
  -- field holds a string that is a valid path, where the caller's list is NULL, as `main` hands it to
  -- every worker: `remove_box` returns -1 and answers with the error
  -- text, also where it has removed the file of the box; no entry of the root directory carries the
  -- name afterwards, and the file system stays well-formed.
  pub remove_box-null :
      valid_pathname (some path) ≡ true
      → (w' : World) × (block' : List ℕ) × (remove_box c rounds buffer none op w
          ≡ done minus_one w')
        × IsValid b block' w'.fs
        × Unnamed w.fs.fs_params.block_size w'.fs.freeinode_ts block' (skip_slash (some path))
        × (w'.boxes ≡ w.boxes)
        × Answered w error_message w'
  unfolding remove_box delete_box delete_loop
  remove_box-null valid =
      let (code, s1, run, did) = outcome (
        tfs_unlink_lem b block w.fs v c.open_mutex (some path) works.open_locks works.open_unlocks
          valid
          (IsCString-skip_slash path
            (c_string-IsCString (take box_name_length buffer) path named))) in
      let w' : World = record { fs = s1; boxes = w.boxes; pipe = w.pipe ++ error_message ∷ [] } in
      let end : remove_box c rounds buffer none op w ≡ done minus_one w' =
        elim (Bool-cases (is_minus_one code)) [
          | inl failed ↦ rw (named, run, failed, refuse_lem (record w { fs = s1 })) refl
          | inr good ↦ rw (named, run, good, refuse_lem (record w { fs = s1 })) refl
        ] in
      let (block', valid', new) =
        Unlinked-Unnamed b block w.fs v (skip_slash (some path)) code s1 did in
      (w', block', end, valid', new, refl, refl)
