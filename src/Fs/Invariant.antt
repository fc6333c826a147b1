-- ===== src/Fs/Invariant.antt =====
-- The well-formedness of the file system's tables (fs/state.c), part by part. Each part names only
-- the tables that it is about, so a write elsewhere leaves it as it is.
use projeto_so.Base.{
  ℕ, ◌/◌, ◌^◌, ◌≤◌, ◌<◌, ◌≡◌, ◌≢◌, true, some, List, pos, minus_one, length, get_elem?,
}
use projeto_so.Libc.CString.{CString, IsCString, terminated, strcmp_eq}
use projeto_so.Fs.Types.{
  State, TfsParams, Inode, t_directory, AllocationState, taken, OpenFileEntry,
}
use projeto_so.Fs.Tables.{index}
use projeto_so.Fs.Dir.{entry, dir_entry_size}

-- The tables have the lengths that the parameters give, and the parameters are within bounds.
pub record Shape (s : State) : Type 0 where
  pub block_size_pos : 0 < s.fs_params.block_size
  pub block_size_small : s.fs_params.block_size < 2 ^ 31
  pub inode_count_small : s.fs_params.max_inode_count ≤ 2 ^ 31
  pub block_count_small : s.fs_params.max_block_count ≤ 2 ^ 31
  pub open_count_small : s.fs_params.max_open_files_count < 2 ^ 31
  pub length_inode_table : length s.inode_table ≡ s.fs_params.max_inode_count
  pub length_freeinode_ts : length s.freeinode_ts ≡ s.fs_params.max_inode_count
  pub length_fs_data : length s.fs_data ≡ s.fs_params.max_block_count
  pub length_free_blocks : length s.free_blocks ≡ s.fs_params.max_block_count
  pub length_open_file_table : length s.open_file_table ≡ s.fs_params.max_open_files_count
  pub length_free_open : length s.free_open_file_entries ≡ s.fs_params.max_open_files_count

-- Every block has `block_size` bytes.
abbrev pub Blocks : ℕ → List (List ℕ) → Type 0
Blocks size fs_data =
    (d : ℕ) (bytes : List ℕ) → get_elem? fs_data d ≡ some bytes → length bytes ≡ size

-- Inode 0 is the root directory, and `block` is the contents of its data block `b`.
pub record Root (b : ℕ) (block : List ℕ) (s : State) : Type 0 where
  pub root_taken : get_elem? s.freeinode_ts 0 ≡ some taken
  pub root_inode :
      get_elem? s.inode_table 0
      ≡ some (record {
        i_node_type = t_directory;
        i_size = s.fs_params.block_size;
        i_data_block = pos b;
      })
  pub root_block_taken : get_elem? s.free_blocks b ≡ some taken
  pub root_block : get_elem? s.fs_data b ≡ some block

-- The size fits a block, and an inode that has contents has a block in range that is not the root's.
pub record Safe (b : ℕ) (params : TfsParams) (n : Inode) : Type 0 where
  pub size_fits : n.i_size ≤ params.block_size
  pub has_block : 0 < n.i_size → n.i_data_block ≡ pos (index n.i_data_block)
  pub not_root : 0 < n.i_size → index n.i_data_block ≢ b
  pub in_range : 0 < n.i_size → index n.i_data_block < params.max_block_count

-- The inodes in use, other than the root.
pub record Inodes (b : ℕ) (params : TfsParams) (inode_table : List Inode)
    (freeinode_ts free_blocks : List AllocationState) : Type 0 where
  pub safe :
      (i : ℕ) (n : Inode)
      → 0 < i
      → get_elem? freeinode_ts i ≡ some taken
      → get_elem? inode_table i ≡ some n
      → Safe b params n
  pub block_taken :
      (i : ℕ) (n : Inode)
      → 0 < i
      → get_elem? freeinode_ts i ≡ some taken
      → get_elem? inode_table i ≡ some n
      → 0 < n.i_size
      → get_elem? free_blocks (index n.i_data_block) ≡ some taken
  pub distinct :
      (i j : ℕ) (n m : Inode)
      → 0 < i
      → 0 < j
      → i ≢ j
      → get_elem? freeinode_ts i ≡ some taken
      → get_elem? freeinode_ts j ≡ some taken
      → get_elem? inode_table i ≡ some n
      → get_elem? inode_table j ≡ some m
      → 0 < n.i_size
      → 0 < m.i_size
      → index n.i_data_block ≢ index m.i_data_block

-- The open files. Their inode need not be in use: `tfs_unlink` does not look at open files.
pub record Opens (b : ℕ) (params : TfsParams) (inode_table : List Inode)
    (files : List OpenFileEntry) (free_open : List AllocationState) : Type 0 where
  pub is_index :
      (h : ℕ) (e : OpenFileEntry)
      → get_elem? free_open h ≡ some taken
      → get_elem? files h ≡ some e
      → e.of_inumber ≡ pos (index e.of_inumber)
  pub is_file :
      (h : ℕ) (e : OpenFileEntry)
      → get_elem? free_open h ≡ some taken
      → get_elem? files h ≡ some e
      → 0 < index e.of_inumber
  pub inode_in_range :
      (h : ℕ) (e : OpenFileEntry)
      → get_elem? free_open h ≡ some taken
      → get_elem? files h ≡ some e
      → index e.of_inumber < params.max_inode_count
  pub offset_fits :
      (h : ℕ) (e : OpenFileEntry)
      → get_elem? free_open h ≡ some taken
      → get_elem? files h ≡ some e
      → e.of_offset ≤ params.block_size
  pub open_safe :
      (h : ℕ) (e : OpenFileEntry) (n : Inode)
      → get_elem? free_open h ≡ some taken
      → get_elem? files h ≡ some e
      → get_elem? inode_table (index e.of_inumber) ≡ some n
      → Safe b params n

-- The entry is in use and carries this name.
abbrev pub Hit : List ℕ → CString → ℕ → Type 0
Hit block name k =
    ((entry block k).d_inumber ≢ minus_one)
    × (strcmp_eq (entry block k).d_name (terminated name) ≡ some true)

-- The entries of the root directory: an empty one has no name; one in use has a name that ends
-- inside its field, and an inode in use that no other entry has; no two carry one name.
pub record Entries (size : ℕ) (freeinode_ts : List AllocationState) (block : List ℕ) : Type 0 where
  pub empty_name :
      (k : ℕ)
      → k < size / dir_entry_size
      → (entry block k).d_inumber ≡ minus_one
      → get_elem? (entry block k).d_name 0 ≡ some 0
  pub ends :
      (k : ℕ)
      → k < size / dir_entry_size
      → (entry block k).d_inumber ≢ minus_one
      → get_elem? (entry block k).d_name 39 ≡ some 0
  pub used_index :
      (k : ℕ)
      → k < size / dir_entry_size
      → (entry block k).d_inumber ≢ minus_one
      → (entry block k).d_inumber ≡ pos (index (entry block k).d_inumber)
  pub used_file :
      (k : ℕ)
      → k < size / dir_entry_size
      → (entry block k).d_inumber ≢ minus_one
      → 0 < index (entry block k).d_inumber
  pub used_taken :
      (k : ℕ)
      → k < size / dir_entry_size
      → (entry block k).d_inumber ≢ minus_one
      → get_elem? freeinode_ts (index (entry block k).d_inumber) ≡ some taken
  pub used_distinct :
      (k l : ℕ)
      → k < size / dir_entry_size
      → l < size / dir_entry_size
      → (entry block k).d_inumber ≢ minus_one
      → (entry block l).d_inumber ≢ minus_one
      → index (entry block k).d_inumber ≡ index (entry block l).d_inumber
      → k ≡ l
  pub names_distinct :
      (name : CString) (k l : ℕ)
      → IsCString name
      → k < size / dir_entry_size
      → l < size / dir_entry_size
      → Hit block name k
      → Hit block name l
      → k ≡ l

pub record IsValid (b : ℕ) (block : List ℕ) (s : State) : Type 0 where
  pub shape : Shape s
  pub blocks : Blocks s.fs_params.block_size s.fs_data
  pub root : Root b block s
  pub inodes : Inodes b s.fs_params s.inode_table s.freeinode_ts s.free_blocks
  pub opens : Opens b s.fs_params s.inode_table s.open_file_table s.free_open_file_entries
  pub entries : Entries s.fs_params.block_size s.freeinode_ts block
