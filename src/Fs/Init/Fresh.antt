-- ===== src/Fs/Init/Fresh.antt =====
-- A file system that was just set up: `tfs_init` (fs/operations.c) on memory that `malloc` gave.
use projeto_so.Base.{ℕ, ◌^◌, ◌≤◌, ◌<◌, ◌≡◌, refl, some, List, pos, arith, length, get_elem?}
use projeto_so.Fs.Types.{State, TfsParams, Inode, AllocationState, free, OpenFileEntry}
use projeto_so.Fs.Init.{Allocs, free_all}
use projeto_so.Fs.Init.Loops.{fill_free_lem}
use projeto_so.Fs.Invariant.{Shape, Blocks}
use projeto_so.Fs.Returns.{Returns, returns}

-- Parameters that the file system can run with.
pub record Usable (params : TfsParams) : Type 0 where
  pub block_size_pos : 0 < params.block_size
  pub block_size_small : params.block_size < 2 ^ 31
  pub some_inode : 0 < params.max_inode_count
  pub inode_count_small : params.max_inode_count ≤ 2 ^ 31
  pub some_block : 0 < params.max_block_count
  pub block_count_small : params.max_block_count ≤ 2 ^ 31
  pub open_count_small : params.max_open_files_count < 2 ^ 31

-- The tables that `malloc` returned, all of the size that was asked for.
pub record Memory (params : TfsParams) : Type 0 where
  pub inode_table : List Inode
  pub freeinode_ts : List AllocationState
  pub fs_data : List (List ℕ)
  pub free_blocks : List AllocationState
  pub open_file_table : List OpenFileEntry
  pub free_open : List AllocationState
  pub length_inode_table : length inode_table ≡ params.max_inode_count
  pub length_freeinode_ts : length freeinode_ts ≡ params.max_inode_count
  pub length_fs_data : length fs_data ≡ params.max_block_count
  pub length_free_blocks : length free_blocks ≡ params.max_block_count
  pub length_open_file_table : length open_file_table ≡ params.max_open_files_count
  pub length_free_open : length free_open ≡ params.max_open_files_count
  pub blocks : Blocks params.block_size fs_data

-- what the six calls of `malloc` returned
abbrev pub malloced : {params : TfsParams} → Memory params → Allocs
malloced m = record {
  inode_table = some m.inode_table;
  freeinode_ts = some m.freeinode_ts;
  fs_data = some m.fs_data;
  free_blocks = some m.free_blocks;
  open_file_table = some m.open_file_table;
  free_open_file_entries = some m.free_open;
}

-- every slot is free
abbrev pub AllFree : List AllocationState → Type 0
AllFree table = (i : ℕ) → i < length table → get_elem? table i ≡ some free

-- The tables right after the three loops of `state_init`.
pub record Blank (s : State) : Type 0 where
  pub shape : Shape s
  pub blocks : Blocks s.fs_params.block_size s.fs_data
  pub some_inode : 0 < s.fs_params.max_inode_count
  pub some_block : 0 < s.fs_params.max_block_count
  pub inodes_free : AllFree s.freeinode_ts
  pub blocks_free : AllFree s.free_blocks
  pub open_free : AllFree s.free_open_file_entries

-- The three loops leave blank tables.
pub free_all_lem :
    (s : State)
    → Shape s
    → Blocks s.fs_params.block_size s.fs_data
    → 0 < s.fs_params.max_inode_count
    → 0 < s.fs_params.max_block_count
    → Returns
        (λ r s'. (r ≡ pos 0) × Blank s' × (s'.fs_params ≡ s.fs_params) × (s'.fs_data ≡ s.fs_data))
        (free_all s)
unfolding free_all
free_all_lem s v blocks si sb =
    let (inodes, f) =
      fill_free_lem s.freeinode_ts s.fs_params.max_inode_count 0 s.fs_params.max_inode_count
        (omega arith) (omega (arith, v.length_freeinode_ts)) in
    let (free_blocks, g) =
      fill_free_lem s.free_blocks s.fs_params.max_block_count 0 s.fs_params.max_block_count
        (omega arith) (omega (arith, v.length_free_blocks)) in
    let (entries, h) =
      fill_free_lem s.free_open_file_entries s.fs_params.max_open_files_count 0
        s.fs_params.max_open_files_count (omega arith) (omega (arith, v.length_free_open)) in
    rw (f.run, g.run, h.run)
      (returns (
        refl,
        record {
          shape = ground (arith, v, f.same_length, g.same_length, h.same_length);
          blocks = blocks;
          some_inode = si;
          some_block = sb;
          inodes_free = λ i p.
              f.all_free i (omega arith) (omega (arith, f.same_length, v.length_freeinode_ts));
          blocks_free = λ i p.
              g.all_free i (omega arith) (omega (arith, g.same_length, v.length_free_blocks));
          open_free =
              λ i p. h.all_free i (omega arith) (omega (arith, h.same_length, v.length_free_open));
        },
        refl,
        refl,
      ))
