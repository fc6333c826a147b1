-- ===== src/Broker/Boxes/Steps.antt =====
-- What the calls that `create_box` and `remove_box` (mbroker/mbroker.c) make have done.
use projeto_so.Base.{
  ℕ, ◌/◌, ◌≤◌, ◌<◌, ◌≡◌, refl, ◌⊎◌, inl, inr, true, Option, none, some, List, [], ◌∷◌, ◌++◌, ℤ, pos,
  minus_one, is_minus_one, arith, length, get_elem?-append_one,
}
use projeto_so.Libc.CString.{CString, IsCString}
use projeto_so.BoxList.{Box, Cell, live, Outcome, box_name_length, insert_box}
use projeto_so.BoxList.Chain.{Chain, Distinct, appended, made, insert_box_empty, insert_box_lem}
use projeto_so.Fs.Types.{State}
use projeto_so.Fs.Dir.{dir_entry_size}
use projeto_so.Fs.Invariant.{IsValid, Hit}
use projeto_so.Fs.Operations.{skip_slash}
use projeto_so.Fs.Operations.Open.Whole.{Opened, existing, creating, absent}
use projeto_so.Fs.Operations.Open.Cases.{Made, fresh, no_inode, no_entry}
use projeto_so.Fs.Operations.Unlink.Cases.{Unlinked, gone, missing, cleared}
use projeto_so.Fs.Updates.Entries.{Unnamed}
use projeto_so.Broker.Handlers.{own_name}

-- where the boxes start once box `new` is behind them: where they did, or at `new` if there was none
abbrev pub start_of : Option ℕ → ℕ → Option ℕ
start_of none new = some new
start_of (some p) new = some p

-- The insertion into any chain.
pub inserted :
    (old : Box) (rounds : ℕ) (head : Option ℕ) (xs : List (ℕ × Box)) (path : CString) (size : ℕ)
    (heap : List Cell)
    → length xs ≤ rounds
    → Chain heap head xs
    → Distinct xs
    → length path < box_name_length
    → (heap' : List Cell) × (insert_box (some old) rounds head (own_name path) size heap
        ≡ Outcome.done (pos 0) heap')
      × Chain heap' (start_of head (length heap)) (appended (length heap) (made old path size) xs)
inserted old rounds head [] path size heap h ch d short =
    let b : Box = made old path size in
    (
      heap ++ live b ∷ [],
      rw (ch, insert_box_empty old rounds (own_name path) size heap short) refl,
      coe 1 0
          (i. Chain (heap ++ live b ∷ []) (start_of (ch i) (length heap)) ((length heap, b) ∷ []))
          (refl, ground (arith, get_elem?-append_one heap (live b) (length heap)), refl),
    )
inserted old rounds head ((p, c) ∷ xs) path size heap h ch d short =
    let (heap', run, chain) =
      insert_box_lem old rounds p c xs (own_name path) size heap (omega (arith, h))
        (coe 0 1 (i. Chain heap (ch.0 i) ((p, c) ∷ xs)) ch) d short refl in
    (
      heap',
      rw ch.0 run,
      coe 1 0
          (i.
            Chain heap' (start_of (ch.0 i) (length heap))
              (appended (length heap) (made old path size) ((p, c) ∷ xs)))
          chain,
    )

-- What `tfs_open` has done that gave a handle: some entry carries the name.
pub Opened-Hit :
    (b : ℕ) (block : List ℕ) (s : State) (v : IsValid b block s) (name : CString) (mode : ℕ) (r : ℤ)
    (s' : State)
    → Opened b block s v name mode r s'
    → (block' : List ℕ) × IsValid b block' s'
      × ((r ≡ minus_one)
          ⊎ ((k : ℕ) × (k < s.fs_params.block_size / dir_entry_size) × Hit block' name k))
Opened-Hit b block s v name mode r s' (existing k i n h hit is at g valid) =
    (block, valid, inr (k, h, hit))
Opened-Hit b block s v name mode r s' (creating new creat made) = made-Hit made
  where
    made-Hit :
        Made b block s v name r s'
        → (block' : List ℕ) × IsValid b block' s'
          × ((r ≡ minus_one)
              ⊎ ((k : ℕ) × (k < s.fs_params.block_size / dir_entry_size) × Hit block' name k))
    made-Hit (fresh k i hk short f is hit h valid) = (_, valid, inr (k, hk, hit))
    made-Hit (no_inode all z same) = (block, rw same v, inl z)
    made-Hit (no_entry i why f z same valid) = (block, valid, inl z)
Opened-Hit b block s v name mode r s' (absent new creat z same) = (block, rw same v, inl z)

pub is_minus_one-true : (z : ℤ) → is_minus_one z ≡ true → z ≡ minus_one
is_minus_one-true z e = ground (arith, e)

-- After `tfs_unlink` no entry carries the name, whether it was found or not.
pub Unlinked-Unnamed :
    (b : ℕ) (block : List ℕ) (s : State) (v : IsValid b block s) (name : CString) (r : ℤ)
    (s' : State)
    → Unlinked b block s v name r s'
    → (block' : List ℕ) × IsValid b block' s'
      × Unnamed s.fs_params.block_size s'.freeinode_ts block' name
Unlinked-Unnamed b block s v name r s' (gone k i n h hit is at z same valid new) =
    (cleared block k, valid, new)
Unlinked-Unnamed b block s v name r s' (missing new z same) = (
  block,
  rw same v,
  coe 1 0 (i. Unnamed s.fs_params.block_size (same i).freeinode_ts block name) new,
)

pub IsCString-skip_slash : (path : CString) → IsCString path → IsCString (skip_slash (some path))
IsCString-skip_slash [] is = tt
IsCString-skip_slash (c ∷ path) is = is.1
