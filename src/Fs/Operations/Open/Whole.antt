-- ===== src/Fs/Operations/Open/Whole.antt =====
-- `tfs_open` (fs/operations.c) on every branch.
use projeto_so.Base.{
  ℕ, ◌/◌, ◌<◌, ◌≡◌, refl, inl, inr, true, false, Option, some, List, ℤ, pos, minus_one,
  is_minus_one, arith, Bool-cases, get_elem?, length, get_elem?-some, lt_of_get_elem?,
}
use projeto_so.Libc.CString.{CString, IsCString}
use projeto_so.Fs.Types.{State, Inode, ok}
use projeto_so.Fs.Tables.{index}
use projeto_so.Fs.Dir.{dir_entry_size, entry}
use projeto_so.Fs.Invariant.{IsValid, Hit}
use projeto_so.Fs.Returns
use projeto_so.Fs.Returns.{Returns, returns}
use projeto_so.Fs.Operations.{
  Mutex, has_flag, tfs_o_creat, valid_pathname, skip_slash, tfs_open, open_create,
}
use projeto_so.Fs.Operations.Paths.{inode_get_root, tfs_lookup-cases, name_of_valid}
use projeto_so.Fs.Operations.Open.{Handed}
use projeto_so.Fs.Operations.Open.Cases.{
  looked_at, start_offset, Made, fresh, no_inode, no_entry, open_existing_lem, open_create_lem,
}
use projeto_so.Fs.Updates.Entries.{Unnamed}

-- What `tfs_open` of a name has done: a handle on the file that carries the name, truncated if that
-- was asked for; or the creation of the file; or nothing.
pub data Opened (b : ℕ) (block : List ℕ) (s : State) (v : IsValid b block s) (name : CString)
    (mode : ℕ) (r : ℤ) (s' : State) : Type 0 where
  existing :
      (k i : ℕ) (n : Inode)
      → k < s.fs_params.block_size / dir_entry_size
      → Hit block name k
      → (entry block k).d_inumber ≡ pos i
      → get_elem? s.inode_table i ≡ some n
      → Handed (looked_at b block s v mode i n) i (start_offset b block s v mode n) r s'
      → IsValid b block s'
      → Opened b block s v name mode r s'
  creating :
      Unnamed s.fs_params.block_size s.freeinode_ts block name
      → has_flag mode tfs_o_creat ≡ true
      → Made b block s v name r s'
      → Opened b block s v name mode r s'
  absent :
      Unnamed s.fs_params.block_size s.freeinode_ts block name
      → has_flag mode tfs_o_creat ≡ false
      → r ≡ minus_one
      → s' ≡ s
      → Opened b block s v name mode r s'

module _ (b : ℕ) (block : List ℕ) (s : State) (v : IsValid b block s) (m : Mutex)
    (name : Option CString) (mode : ℕ) (locks : is_minus_one m.lock ≡ false)
    (unlocks : is_minus_one m.unlock ≡ false) where
  -- With a mutex that can be locked and unlocked, a path that is not valid is refused and nothing
  -- changes.
  pub tfs_open_invalid : valid_pathname name ≡ false → tfs_open m name mode s ≡ ok minus_one s
  unfolding tfs_open
  tfs_open_invalid bad = rw (locks, bad, unlocks)

  -- On a well-formed file system, with a mutex that can be locked and unlocked and a valid path
  -- whose name behind the slash has no zero byte: `tfs_open` neither panics nor faults, and does
  -- what `Opened` says. Where an entry carries the name, the file is truncated if the mode asks for
  -- it, and a handle at its start or at its end is given out, or the table of open files is full.
  -- Where none does and the mode does not ask for a new file, -1 is returned and nothing changes.
  -- Where it does, the first free inode becomes an empty file, an empty entry of the directory
  -- carries its name, and a handle at 0 is given out or the table of open files is full; or every
  -- inode is taken, -1 is returned and nothing changes; or the name is longer than 39 bytes or every
  -- entry is in use, -1 is returned, and the inode that was taken is free again. The file system
  -- stays well-formed.
  pub tfs_open_lem :
      valid_pathname name ≡ true
      → IsCString (skip_slash name)
      → Returns (Opened b block s v (skip_slash name) mode) (tfs_open m name mode s)
  unfolding tfs_open
  tfs_open_lem valid is = elim (tfs_lookup-cases b block s v name valid is) [
    | inl (k, h, hit, look, _) ↦
        let i : ℕ = index (entry block k).d_inumber in
        let is_i : (entry block k).d_inumber ≡ pos i = v.entries.used_index k h hit.0 in
        let pi : 0 < i = v.entries.used_file k h hit.0 in
        let t = v.entries.used_taken k h hit.0 in
        let lt : i < length s.inode_table = omega (
          arith,
          lt_of_get_elem? s.freeinode_ts i t,
          v.shape.length_freeinode_ts,
          v.shape.length_inode_table,
        ) in
        let (n, at) = get_elem?-some s.inode_table i lt in
        rw (locks, valid, inode_get_root b block s v, look, is_i)
          (Returns.mono (open_existing_lem b block s v mode i n pi t at m unlocks)
            λ r s' g. existing k i n h hit is_i at g.0 g.1)
    | inr (new, look) ↦ elim (Bool-cases (has_flag mode tfs_o_creat)) [
      | inr no_creat ↦
          rw (locks, valid, inode_get_root b block s v, look, no_creat, unlocks)
            (returns (absent new no_creat refl refl))
      | inl creat ↦
          let (c, rest, e) = name_of_valid name valid in
          let run : Returns (Made b block s v (skip_slash name))
              (open_create m 0 (skip_slash name) s) =
            rw e (open_create_lem b block s v m c rest unlocks (rw e at is) (rw e at new)) in
          rw (locks, valid, inode_get_root b block s v, look, creat)
            (Returns.mono run λ r s' g. creating new creat g)
    ]
  ]

module _ (b : ℕ) (block : List ℕ) (s : State) (v : IsValid b block s) where
  Made-IsValid :
      (name : CString) (r : ℤ) (s' : State)
      → Made b block s v name r s'
      → (block' : List ℕ) × IsValid b block' s'
  Made-IsValid name r s' (fresh k i hk short f is hit h w) = (_, w)
  Made-IsValid name r s' (no_inode all z same) = (block, rw same v)
  Made-IsValid name r s' (no_entry i why f z same w) = (block, w)

  -- Whatever `tfs_open` has done, the file system is well-formed.
  pub Opened-IsValid :
      (name : CString) (mode : ℕ) (r : ℤ) (s' : State)
      → Opened b block s v name mode r s'
      → (block' : List ℕ) × IsValid b block' s'
  Opened-IsValid name mode r s' (existing k i n h hit is at g w) = (block, w)
  Opened-IsValid name mode r s' (creating new creat made) = Made-IsValid name r s' made
  Opened-IsValid name mode r s' (absent new creat z same) = (block, rw same v)
