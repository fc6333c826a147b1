-- ===== src/Fs/Operations/Unlink/Cases.antt =====
-- `tfs_unlink` (fs/operations.c) as a whole.
use projeto_so.Base.{
  ℕ, ◌/◌, ◌<◌, ◌≡◌, refl, inl, inr, true, false, Option, some, List, ℤ, pos, minus_one,
  is_minus_one, arith, length, get_elem?, replicate, length-replicate, get_elem?-some,
  lt_of_get_elem?,
}
use projeto_so.Libc.Memory.{int_of_bytes-int_bytes-minus_one}
use projeto_so.Libc.CString.{CString, IsCString}
use projeto_so.Fs.Types.{State, Inode, ok}
use projeto_so.Fs.Tables.{index}
use projeto_so.Fs.Dir.{dir_entry_size, entry}
use projeto_so.Fs.Dir.Commands.{clear_some}
use projeto_so.Fs.Inodes.Files.{deleted, inode_delete_lem}
use projeto_so.Fs.Invariant.{IsValid, Hit}
use projeto_so.Fs.Returns.{Returns, returns}
use projeto_so.Fs.Operations.{Mutex, valid_pathname, skip_slash, tfs_unlink}
use projeto_so.Fs.Operations.Paths.{inode_get_root, tfs_lookup-cases}
use projeto_so.Fs.Operations.Unlink.{unlinked, unlinked-IsValid, deleted-Shape, deleted-Root}
use projeto_so.Fs.Updates.Entries
use projeto_so.Fs.Updates.Entries.{write_entry, Unnamed}

-- the block with entry `k` emptied
abbrev pub cleared : List ℕ → ℕ → List ℕ
cleared block k = write_entry block k minus_one (replicate 40 0)

-- What `tfs_unlink` of a name has done: the entry that carried it is emptied and its file deleted,
-- and no entry carries the name any more; or none did, and nothing has changed.
pub data Unlinked (b : ℕ) (block : List ℕ) (s : State) (v : IsValid b block s) (name : CString)
    (r : ℤ) (s' : State) : Type 0 where
  gone :
      (k i : ℕ) (n : Inode)
      → k < s.fs_params.block_size / dir_entry_size
      → Hit block name k
      → (entry block k).d_inumber ≡ pos i
      → get_elem? s.inode_table i ≡ some n
      → r ≡ pos 0
      → s' ≡ unlinked b block s v k i n
      → IsValid b (cleared block k) s'
      → Unnamed s.fs_params.block_size s'.freeinode_ts (cleared block k) name
      → Unlinked b block s v name r s'
  missing :
      Unnamed s.fs_params.block_size s.freeinode_ts block name
      → r ≡ minus_one
      → s' ≡ s
      → Unlinked b block s v name r s'

module _ (b : ℕ) (block : List ℕ) (s : State) (v : IsValid b block s) (m : Mutex)
    (target : Option CString) (locks : is_minus_one m.lock ≡ false)
    (unlocks : is_minus_one m.unlock ≡ false) where
  -- With a mutex that can be locked and unlocked, a path that is not valid is refused and nothing
  -- changes.
  pub tfs_unlink_invalid : valid_pathname target ≡ false → tfs_unlink m target s ≡ ok minus_one s
  unfolding tfs_unlink
  tfs_unlink_invalid bad = rw (locks, bad, unlocks)

  unnamed_after :
      (k : ℕ)
      → k < s.fs_params.block_size / dir_entry_size
      → IsCString (skip_slash target)
      → Hit block (skip_slash target) k
      → (l : ℕ) → l < s.fs_params.block_size / dir_entry_size
      → ¬ (Hit (cleared block k) (skip_slash target) l)
  unnamed_after k h is hit l hl again = ground (
    arith,
    Entries.entry-write_entry block k l minus_one (replicate 40 0)
        (omega (arith, v.blocks b block v.root.root_block)) (length-replicate {A = ℕ} 40 0)
        int_of_bytes-int_bytes-minus_one,
    v.entries.names_distinct (skip_slash target) k l is h hl hit,
  )

  -- On a well-formed file system, with a mutex that can be locked and unlocked and a valid path
  -- whose name behind the slash has no zero byte: `tfs_unlink` neither panics nor faults, and does
  -- what `Unlinked` says. Where an entry carries the name, it is emptied, its file is deleted, 0 is
  -- returned, no entry carries the name any more and the file system is well-formed; where none
  -- does, -1 is returned and nothing changes.
  pub tfs_unlink_lem :
      valid_pathname target ≡ true
      → IsCString (skip_slash target)
      → Returns (Unlinked b block s v (skip_slash target)) (tfs_unlink m target s)
  unfolding tfs_unlink
  tfs_unlink_lem valid is = elim (tfs_lookup-cases b block s v target valid is) [
    | inr (out, look) ↦
        rw (locks, valid, inode_get_root b block s v, look, unlocks)
          (returns (missing out refl refl))
    | inl (k, h, hit, look, scan) ↦
        let i : ℕ = index (entry block k).d_inumber in
        let is_i : (entry block k).d_inumber ≡ pos i = v.entries.used_index k h hit.0 in
        let pi : 0 < i = v.entries.used_file k h hit.0 in
        let t = v.entries.used_taken k h hit.0 in
        let lt : i < length s.inode_table = omega (
          arith,
          lt_of_get_elem? s.freeinode_ts i t,
          v.shape.length_freeinode_ts,
          v.shape.length_inode_table,
        ) in
        let (n, at) = get_elem?-some s.inode_table i lt in
        let safe = v.inodes.safe i n pi t at in
        let del = inode_delete_lem s v.shape i n t at safe.has_block safe.in_range in
        let clear =
          clear_some b block (deleted s i n) (deleted-Shape b block s v i n pi t at)
            (deleted-Root b block s v i n pi t at) (skip_slash target) k scan in
        rw (locks, valid, inode_get_root b block s v, look, is_i, del, clear, unlocks)
          (returns (
            gone k i n h hit is_i at refl refl (unlinked-IsValid b block s v i n pi t at k h is_i)
              (unnamed_after k h is hit)))
  ]
