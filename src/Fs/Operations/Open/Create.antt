-- ===== src/Fs/Operations/Open/Create.antt =====
-- The branch of `tfs_open` (fs/operations.c) that creates a file, with the invariant.
use projeto_so.Base.{
  ℕ, ◌/◌, ◌≤◌, ◌<◌, ◌≡◌, refl, some, List, pos, arith, ◌==◌, if◌then◌else◌, length, get_elem?, set,
  length-set, get_elem?-set, get_elem?-set_self, lt_of_get_elem?,
}
use mathlib.Core.Path.{subst}
use projeto_so.Libc.Memory.{int_of_bytes-int_bytes_pos}
use projeto_so.Libc.CString.{
  CString, IsCString, stored-ends, stored_self, length-stored, eq_of_stored,
}
use projeto_so.Fs.Types.{State, free, taken}
use projeto_so.Fs.Dir.{dir_entry_size, entry, name_bytes}
use projeto_so.Fs.Inodes.Files.{created, deleted, empty_file}
use projeto_so.Fs.Invariant.{Shape, Root, Safe, IsValid, Hit}
use projeto_so.Fs.Operations.Unlink.{length-write_entry}
use projeto_so.Fs.Operations.Write.Valid.{Blocks-set}
use projeto_so.Fs.Updates.Inodes
use projeto_so.Fs.Updates.Opens
use projeto_so.Fs.Updates.Entries
use projeto_so.Fs.Updates.Entries.{write_entry, Unnamed, Unlisted}

pub Safe-empty_file : (b : ℕ) (s : State) → Safe b s.fs_params empty_file
Safe-empty_file b s = record {
  size_fits = omega arith;
  has_block = λ q. absurd (omega arith);
  not_root = λ q. absurd (omega arith);
  in_range = λ q. absurd (omega arith);
}

module _ (b : ℕ) (block : List ℕ) (s : State) (v : IsValid b block s) where
  whole : length block ≡ s.fs_params.block_size
  whole = v.blocks b block v.root.root_block

  -- the block with entry `k` filled for file `i`
  abbrev pub named : ℕ → ℕ → CString → List ℕ
  named k i name = write_entry block k (pos i) (name_bytes name)

  -- the state with file `i` created, and entry `k` of the root directory filled for it
  abbrev pub made : ℕ → ℕ → CString → State
  made k i name = record (created s i) { fs_data = set s.fs_data b (named k i name) }

  module _ (i : ℕ) (is_free : get_elem? s.freeinode_ts i ≡ some free) where
    pub not_root : 0 < i
    not_root = ground (arith, v.root.root_taken)

    pub lt_count : i < s.fs_params.max_inode_count
    lt_count = omega (arith, lt_of_get_elem? s.freeinode_ts i is_free, v.shape.length_freeinode_ts)

    pub created-Shape : Shape (created s i)
    created-Shape =
        ground
          (arith, v.shape, length-set s.freeinode_ts i taken, length-set s.inode_table i empty_file)

    pub created-Root : Root b block (created s i)
    created-Root = ground (
      arith,
      v.root,
      not_root,
      get_elem?-set s.freeinode_ts i 0 taken,
      get_elem?-set s.inode_table i 0 empty_file,
    )

    -- Nothing lists the new file yet.
    unlisted : Unlisted s.fs_params.block_size s.freeinode_ts block i
    unlisted =
        Entries.Unlisted-of_free s.fs_params.block_size s.freeinode_ts block v.entries i is_free

    pub created-IsValid : IsValid b block (created s i)
    created-IsValid = record {
      shape = created-Shape;
      blocks = v.blocks;
      root = created-Root;
      inodes =
          Inodes.create_inode b s.fs_params s.inode_table s.freeinode_ts s.free_blocks i empty_file
            v.inodes refl;
      opens =
          Opens.set_inode b s.fs_params s.inode_table s.open_file_table s.free_open_file_entries
            v.opens i empty_file (Safe-empty_file b s);
      entries = Entries.take_slot s.fs_params.block_size s.freeinode_ts block v.entries i;
    }

    -- Taking the creation back leaves a well-formed file system.
    pub undone-IsValid : IsValid b block (deleted (created s i) i empty_file)
    undone-IsValid = record {
      shape = ground (arith, created-Shape, length-set (set s.freeinode_ts i taken) i free);
      blocks = v.blocks;
      root =
          ground
            (arith, created-Root, not_root, get_elem?-set (set s.freeinode_ts i taken) i 0 free);
      inodes =
          Inodes.free_inode b s.fs_params (set s.inode_table i empty_file)
            (set s.freeinode_ts i taken) s.free_blocks created-IsValid.inodes i;
      opens = created-IsValid.opens;
      entries =
          Entries.free_slot s.fs_params.block_size (set s.freeinode_ts i taken) block
            created-IsValid.entries i unlisted;
    }

    module _ (k : ℕ) (h : k < s.fs_params.block_size / dir_entry_size) (name : CString)
        (is : IsCString name) (short : length name ≤ 39) where
      entry-named :
          (l : ℕ)
          → entry (named k i name) l ≡ (
              if k == l
              then record { d_name = name_bytes name; d_inumber = pos i }
              else entry block l)
      entry-named l =
          Entries.entry-write_entry block k l (pos i) (name_bytes name) (omega (arith, whole))
            (length-stored 39 name)
            (int_of_bytes-int_bytes_pos i (omega (arith, lt_count, v.shape.inode_count_small)))

      pub named-Hit : Hit (named k i name) name k
      named-Hit = ground (arith, entry-named k, stored_self 39 name short is)

      pub made-IsValid :
          Unnamed s.fs_params.block_size s.freeinode_ts block name
          → IsValid b (named k i name) (made k i name)
      made-IsValid new = record {
        shape = ground (arith, created-Shape, length-set s.fs_data b (named k i name));
        blocks =
            Blocks-set s.fs_params.block_size s.fs_data b (named k i name) v.blocks
              (omega (arith, length-write_entry b block s v k (pos i) (name_bytes name), whole));
        root =
            ground (
              arith,
              created-Root,
              v.root.root_block,
              get_elem?-set s.fs_data b b (named k i name),
            );
        inodes = created-IsValid.inodes;
        opens = created-IsValid.opens;
        entries =
            Entries.fill_entry s.fs_params.block_size (set s.freeinode_ts i taken) block
              created-IsValid.entries (named k i name) k i (name_bytes name) not_root
              (get_elem?-set_self s.freeinode_ts i taken (lt_of_get_elem? s.freeinode_ts i is_free))
              unlisted (stored-ends 39 name)
              (λ other s' e.
                subst (Unnamed s.fs_params.block_size s.freeinode_ts block)
                  (eq_of_stored 39 name other short is s' e) new)
              entry-named;
      }
