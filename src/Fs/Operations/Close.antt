-- ===== src/Fs/Operations/Close.antt =====
-- `tfs_close` (fs/operations.c).
use projeto_so.Base.{
  ℕ, ◌≡◌, refl, ◌⊎◌, inl, inr, false, List, ℤ, pos, minus_one, is_minus_one, arith, set, length-set,
}
use projeto_so.Fs.Types.{State, free, OpenFileEntry, ok}
use projeto_so.Fs.Tables.{remove_from_open_file_table}
use projeto_so.Fs.Invariant.{IsValid}
use projeto_so.Fs.Returns.{Returns, returns}
use projeto_so.Fs.Operations.{Mutex, tfs_close}
use projeto_so.Fs.Operations.Handles.{IsOpen, IsClosed, get_open_file_entry-cases}
use projeto_so.Fs.Updates.Opens

-- the state in which entry `f` is given back
abbrev pub closed : State → ℕ → State
closed s f = record s { free_open_file_entries = set s.free_open_file_entries f free }

remove_lem :
    {s : State} {fhandle : ℤ} {f : ℕ} {e : OpenFileEntry}
    → IsOpen s fhandle f e
    → remove_from_open_file_table fhandle s ≡ ok tt (closed s f)
unfolding remove_from_open_file_table
remove_lem {s} {fhandle} {f} o = rw o.handle (ground arith)

pub closed-IsValid :
    (b : ℕ) (block : List ℕ) (s : State) (f : ℕ) → IsValid b block s → IsValid b block (closed s f)
closed-IsValid b block s f v = record {
  shape = ground (arith, v.shape, length-set s.free_open_file_entries f free);
  blocks = v.blocks;
  root = ground (arith, v.root);
  inodes = v.inodes;
  opens =
      Opens.close b s.fs_params s.inode_table s.open_file_table s.free_open_file_entries v.opens f;
  entries = v.entries;
}

-- what a call has done that could lock and unlock the mutex
abbrev pub Closing : State → ℤ → ℤ → State → Type 0
Closing s fhandle r s' =
    ((f : ℕ) × (e : OpenFileEntry) × IsOpen s fhandle f e × (r ≡ pos 0) × (s' ≡ closed s f))
    ⊎ (IsClosed s fhandle × (r ≡ minus_one) × (s' ≡ s))

module _ (b : ℕ) (block : List ℕ) (s : State) (m : Mutex) (fhandle : ℤ) where
  -- On a well-formed file system, with a mutex that can be locked and unlocked, `tfs_close` neither
  -- panics nor faults; it gives back the entry of an open handle and returns 0, or returns -1 for
  -- any other handle and changes nothing; the file system stays well-formed.
  pub tfs_close_lem :
      IsValid b block s
      → is_minus_one m.lock ≡ false
      → is_minus_one m.unlock ≡ false
      → Returns (λ r s'. IsValid b block s' × Closing s fhandle r s') (tfs_close m fhandle s)
  unfolding tfs_close
  tfs_close_lem v locks unlocks = elim (get_open_file_entry-cases s v.shape fhandle) [
    | inl (f, e, o, got) ↦
        rw (locks, got, remove_lem o, unlocks)
          (returns (closed-IsValid b block s f v, inl (f, e, o, refl, refl)))
    | inr (out, got) ↦ rw (locks, got, unlocks) (returns (v, inr (out, refl, refl)))
  ]
