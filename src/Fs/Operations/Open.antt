-- ===== src/Fs/Operations/Open.antt =====
-- The steps of `tfs_open` (fs/operations.c): truncation, creation, and the entry of the open file
-- table, each with the invariant.
pub mod Create
pub mod Cases
pub mod Whole
use projeto_so.Base.{
  ℕ, suc, ◌+◌, ◌*◌, ◌/◌, ◌≤◌, ◌<◌, ◌≡◌, refl, ◌≢◌, ◌⊎◌, inl, inr, Bool, true, false, none, some,
  List, ◌∷◌, ℤ, pos, minus_one, is_minus_one, arith, ltb, ◌==◌, ◌&&◌, if◌then◌else◌, Bool-cases,
  length, get_elem?, set, length-set, get_elem?-set, get_elem?-set_self, get_elem?-some,
  lt_of_get_elem?, set-get_elem?,
}
use projeto_so.Libc.CString.{CString, IsCString}
use projeto_so.Fs.Types.{
  State, Inode, OpenFileEntry, free, taken, Run, ok, Cmd, or_fault, ◌>>=◌, ◌>>◌,
}
use projeto_so.Fs.Types.Access.{load_inode_lem, store_inode_lem}
use projeto_so.Fs.Tables.{index}
use projeto_so.Fs.Tables.FirstFree.{IsFirst, AllTaken, add_to_open_file_table-cases}
use projeto_so.Fs.Inodes.Files.{data_block_free_lem}
use projeto_so.Fs.Invariant.{Shape, Safe, Inodes, IsValid}
use projeto_so.Fs.Returns.{Returns, returns}
use projeto_so.Fs.Operations.{Mutex, open_handle, truncate}
use projeto_so.Fs.Updates.Inodes
use projeto_so.Fs.Updates.Opens

-- the state with entry `h` of the open file table open on inode `i` at `offset`
abbrev pub opened : State → ℕ → ℕ → ℕ → State
opened s h i offset = record s {
  free_open_file_entries = set s.free_open_file_entries h taken;
  open_file_table = set s.open_file_table h (record { of_inumber = pos i; of_offset = offset });
}

-- What the end of `tfs_open` has done: the first free entry is open on inode `i` at `offset`, and
-- its index is returned; or the table is full.
pub data Handed (s : State) (i offset : ℕ) (r : ℤ) (s' : State) : Type 0 where
  handed :
      (h : ℕ)
      → IsFirst s.free_open_file_entries 0 h
      → r ≡ pos h
      → s' ≡ opened s h i offset
      → Handed s i offset r s'
  table_full :
      AllTaken s.free_open_file_entries 0 s.fs_params.max_open_files_count
      → r ≡ minus_one
      → s' ≡ s
      → Handed s i offset r s'

pub open_handle_lem :
    (m : Mutex) (s : State) (i offset : ℕ)
    → Shape s
    → is_minus_one m.unlock ≡ false
    → Returns (Handed s i offset) (open_handle m (pos i) offset s)
unfolding open_handle
open_handle_lem m s i offset v unlocks = elim (add_to_open_file_table-cases s v (pos i) offset) [
  | inl (h, f, p, e) ↦ rw (e, unlocks) (returns (handed h f refl refl))
  | inr (all, e) ↦ rw (e, unlocks) (returns (table_full all refl refl))
]

module _ (b : ℕ) (block : List ℕ) (s : State) (v : IsValid b block s) where
  opened-IsValid :
      (h i offset : ℕ)
      → 0 < i
      → i < s.fs_params.max_inode_count
      → offset ≤ s.fs_params.block_size
      → ((n : Inode) → get_elem? s.inode_table i ≡ some n → Safe b s.fs_params n)
      → IsValid b block (opened s h i offset)
  opened-IsValid h i offset p q fits is_safe = record {
    shape = ground (
      arith,
      v.shape,
      length-set s.free_open_file_entries h taken,
      length-set s.open_file_table h (record { of_inumber = pos i; of_offset = offset }),
    );
    blocks = v.blocks;
    root = ground (arith, v.root);
    inodes = v.inodes;
    opens =
        Opens.open_file b s.fs_params s.inode_table s.open_file_table s.free_open_file_entries
          v.opens h i offset p q fits is_safe;
    entries = v.entries;
  }

  pub Handed-IsValid :
      (i offset : ℕ) (r : ℤ) (s' : State)
      → 0 < i
      → i < s.fs_params.max_inode_count
      → offset ≤ s.fs_params.block_size
      → ((n : Inode) → get_elem? s.inode_table i ≡ some n → Safe b s.fs_params n)
      → Handed s i offset r s'
      → IsValid b block s'
  Handed-IsValid i offset r s' p q fits is_safe (handed h f got same) =
      rw same (opened-IsValid h i offset p q fits is_safe)
  Handed-IsValid i offset r s' p q fits is_safe (table_full all got same) = rw same v

  -- the state with inode `i`, which is `n`, made empty
  abbrev pub truncated : ℕ → Inode → State
  truncated i n = record s {
    free_blocks =
        (if ltb 0 n.i_size then set s.free_blocks (index n.i_data_block) free else s.free_blocks);
    inode_table = set s.inode_table i (record n { i_size = 0 });
  }

  module _ (i : ℕ) (n : Inode) (pi : 0 < i) (t : get_elem? s.freeinode_ts i ≡ some taken)
      (at : get_elem? s.inode_table i ≡ some n) where
    safe : Safe b s.fs_params n
    safe = v.inodes.safe i n pi t at

    Safe-empty : Safe b s.fs_params (record n { i_size = 0 })
    Safe-empty = record {
      size_fits = omega arith;
      has_block = λ q. absurd (omega arith);
      not_root = λ q. absurd (omega arith);
      in_range = λ q. absurd (omega arith);
    }

    pub truncate_lem : truncate i s ≡ ok tt (truncated i n)
    unfolding truncate
    truncate_lem = elim (Bool-cases (ltb 0 n.i_size)) [
      | inl full ↦
          let d : ℕ = index n.i_data_block in
          let s1 : State = record s { free_blocks = set s.free_blocks d free } in
          rw (
            load_inode_lem s i at,
            full,
            data_block_free_lem s n.i_data_block d v.shape (safe.has_block (ground arith))
                (safe.in_range (ground arith)),
            store_inode_lem s1 i (record n { i_size = 0 }) at,
          )
      | inr empty ↦
          rw (load_inode_lem s i at, empty) (ground (arith, set-get_elem? s.inode_table i n at))
    ]

    emptied :
        Inodes b s.fs_params
          (set s.inode_table i (record n { i_size = 0 }))
          s.freeinode_ts
          s.free_blocks
    emptied =
        Inodes.set_inode b s.fs_params s.inode_table s.freeinode_ts s.free_blocks v.inodes i
          (record n { i_size = 0 }) Safe-empty (λ q. absurd (omega arith))
          (λ q. absurd (omega arith))

    truncated-Inodes :
        Inodes b s.fs_params (truncated i n).inode_table s.freeinode_ts (truncated i n).free_blocks
    truncated-Inodes = elim (Bool-cases (ltb 0 n.i_size)) [
      | inr empty ↦ rw empty emptied
      | inl full ↦ rw full (
          Inodes.free_block b s.fs_params (set s.inode_table i (record n { i_size = 0 }))
            s.freeinode_ts s.free_blocks emptied (index n.i_data_block)
            (λ j m pj ne tj aj z.
              Inodes.unshared b s.fs_params s.inode_table s.freeinode_ts s.free_blocks v.inodes i n
                pi t at (ground arith) j m pj
                (ground (arith, get_elem?-set s.inode_table i j (record n { i_size = 0 }))) tj
                (ground (arith, get_elem?-set s.inode_table i j (record n { i_size = 0 }))) z))
    ]

    pub truncated-IsValid : IsValid b block (truncated i n)
    truncated-IsValid = record {
      shape = ground (
        arith,
        v.shape,
        length-set s.free_blocks (index n.i_data_block) free,
        length-set s.inode_table i (record n { i_size = 0 }),
      );
      blocks = v.blocks;
      root = ground (
        arith,
        v.root,
        safe,
        get_elem?-set s.free_blocks (index n.i_data_block) b free,
        get_elem?-set s.inode_table i 0 (record n { i_size = 0 }),
      );
      inodes = truncated-Inodes;
      opens =
          Opens.set_inode b s.fs_params s.inode_table s.open_file_table s.free_open_file_entries
            v.opens i (record n { i_size = 0 }) Safe-empty;
      entries = v.entries;
    }
