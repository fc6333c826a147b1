-- ===== src/Fs/Operations/Unlink.antt =====
-- `tfs_unlink` (fs/operations.c).
pub mod Cases
use projeto_so.Base.{
  ℕ, suc, ◌+◌, ◌*◌, ◌/◌, ◌≤◌, ◌<◌, ◌≡◌, refl, ◌≢◌, ◌⊎◌, inl, inr, Bool, true, false, none, some,
  List, ◌∷◌, ℤ, pos, minus_one, is_minus_one, arith, ltb, ◌==◌, ◌&&◌, if◌then◌else◌, Bool-cases,
  length, get_elem?, set, replicate, length-set, length-replicate, get_elem?-set,
  get_elem?-set_self, get_elem?-some, lt_of_get_elem?,
}
use projeto_so.Libc.Memory.{int_of_bytes, int_bytes, int_of_bytes-int_bytes-minus_one}
use projeto_so.Libc.CString.{CString, IsCString}
use projeto_so.Fs.Types.{State, Inode, DirEntry, free, taken, Run, ok, Cmd, ◌>>=◌, ◌>>◌}
use projeto_so.Fs.Tables.{index}
use projeto_so.Fs.Dir.{dir_entry_size, entry, set_inumber}
use projeto_so.Fs.Dir.Commands.{find_in_dir-cases, clear_some, with_entry}
use projeto_so.Fs.Inodes.{inode_get}
use projeto_so.Fs.Inodes.Files.{deleted, inode_delete_lem}
use projeto_so.Fs.Invariant.{Shape, Blocks, Root, Inodes, IsValid, Hit}
use projeto_so.Fs.Returns.{Returns, returns}
use projeto_so.Fs.Operations.{Mutex, valid_pathname, tfs_lookup, tfs_unlink}
use projeto_so.Fs.Operations.Handles.{inode_get_lem}
use projeto_so.Fs.Operations.Write.Valid.{Blocks-set}
use projeto_so.Fs.Updates.Inodes
use projeto_so.Fs.Updates.Entries
use projeto_so.Fs.Updates.Entries.{write_entry, Unnamed, length-set_inumber, length-set_name}

module _ (b : ℕ) (block : List ℕ) (s : State) (v : IsValid b block s) where
  -- the state with file `i`, which is `n`, deleted and entry `k` of the root directory emptied
  abbrev pub unlinked : ℕ → ℕ → Inode → State
  unlinked k i n = record (deleted s i n) {
    fs_data = set s.fs_data b (write_entry block k minus_one (replicate 40 0));
  }

  whole : length block ≡ s.fs_params.block_size
  whole = v.blocks b block v.root.root_block

  pub length-write_entry :
      (k : ℕ) (x : ℤ) (name : List ℕ) → length (write_entry block k x name) ≡ length block
  length-write_entry k x name =
      omega (arith, length-set_name (set_inumber block k x) k name, length-set_inumber block k x)

  module _ (i : ℕ) (n : Inode) (pi : 0 < i) (t : get_elem? s.freeinode_ts i ≡ some taken)
      (at : get_elem? s.inode_table i ≡ some n) where
    pub deleted-Shape : Shape (deleted s i n)
    deleted-Shape = ground (
      arith,
      v.shape,
      length-set s.freeinode_ts i free,
      length-set s.free_blocks (index n.i_data_block) free,
    )

    pub deleted-Root : Root b block (deleted s i n)
    deleted-Root = ground (
      arith,
      v.root,
      v.inodes.safe i n pi t at,
      get_elem?-set s.freeinode_ts i 0 free,
      get_elem?-set s.free_blocks (index n.i_data_block) b free,
    )

    pub deleted-Inodes :
        Inodes b s.fs_params s.inode_table (set s.freeinode_ts i free) (deleted s i n).free_blocks
    deleted-Inodes = elim (Bool-cases (ltb 0 n.i_size)) [
      | inr empty ↦
          rw empty
            (Inodes.free_inode b s.fs_params s.inode_table s.freeinode_ts s.free_blocks v.inodes i)
      | inl full ↦ rw full (
          Inodes.free_block b s.fs_params s.inode_table (set s.freeinode_ts i free) s.free_blocks
            (Inodes.free_inode b s.fs_params s.inode_table s.freeinode_ts s.free_blocks v.inodes i)
            (index n.i_data_block)
            (λ j m pj ne tj aj z.
              Inodes.unshared b s.fs_params s.inode_table s.freeinode_ts s.free_blocks v.inodes i n
                pi t at (ground arith) j m pj
                (ground (arith, get_elem?-set s.freeinode_ts i j free))
                (ground (arith, get_elem?-set s.freeinode_ts i j free)) aj z))
    ]

    pub unlinked-IsValid :
        (k : ℕ)
        → k < s.fs_params.block_size / dir_entry_size
        → (entry block k).d_inumber ≡ pos i
        → IsValid b (write_entry block k minus_one (replicate 40 0)) (unlinked k i n)
    unlinked-IsValid k h is = record {
      shape = ground (arith, deleted-Shape, length-set s.fs_data b cleared);
      blocks =
          Blocks-set s.fs_params.block_size s.fs_data b cleared v.blocks
            (omega (arith, length-write_entry k minus_one (replicate 40 0), whole));
      root = ground (arith, deleted-Root, get_elem?-set s.fs_data b b cleared, v.root.root_block);
      inodes = deleted-Inodes;
      opens = v.opens;
      entries = rw is at (
          Entries.clear_entry s.fs_params.block_size s.freeinode_ts block v.entries cleared k h
            (λ q. ground arith)
            (λ l.
              Entries.entry-write_entry block k l minus_one (replicate 40 0) (omega (arith, whole))
                (length-replicate {A = ℕ} 40 0) int_of_bytes-int_bytes-minus_one));
    }
      where
        cleared : List ℕ
        cleared = write_entry block k minus_one (replicate 40 0)
