-- ===== src/Fs/Init.antt =====
-- Setting up and tearing down the tables: `state_init` and `state_destroy` of fs/state.c,
-- `tfs_default_params`, `tfs_init` and `tfs_destroy` of fs/operations.c.
pub mod Loops
pub mod Fresh
pub mod Root
use projeto_so.Base.{
  ℕ, zero, suc, ◌+◌, Bool, true, false, not, ◌&&◌, Option, none, some, List, [], ℤ, pos, minus_one,
  is_zero, if◌then◌else◌,
}
use projeto_so.Fs.Types.{
  State, TfsParams, Inode, t_directory, AllocationState, free, OpenFileEntry, Cmd, pure, gets,
  or_fault, modify, ◌>>=◌, ◌>>◌,
}
use projeto_so.Fs.Tables.{store_at}
use projeto_so.Fs.Inodes.{inode_create}

-- What the six calls of `malloc` in `state_init` return: `none` is NULL, and the contents are
-- whatever the memory holds.
pub record Allocs : Type 0 where
  pub inode_table : Option (List Inode)
  pub freeinode_ts : Option (List AllocationState)
  pub fs_data : Option (List (List ℕ))
  pub free_blocks : Option (List AllocationState)
  pub open_file_table : Option (List OpenFileEntry)
  pub free_open_file_entries : Option (List AllocationState)

abbrev pub is_some {ℓ} : {A : Type ℓ} → Option A → Bool
is_some none = false
is_some (some _) = true

abbrev pub or_empty {ℓ} : {A : Type ℓ} → Option (List A) → List A
or_empty none = []
or_empty (some table) = table

-- `for (i = 0; i < n; i++) table[i] = FREE`
unfoldable pub fill_free : List AllocationState → ℕ → ℕ → Option (List AllocationState)
fill_free table zero i = some table
fill_free table (suc n) i = elim (store_at table i free) [
  | none ↦ none
  | some table' ↦ fill_free table' n (i + 1)
]

-- the assignments of the six pointers
abbrev pub install : Allocs → State → State
install a s = record s {
  initialised = is_some a.inode_table;
  inode_table = or_empty a.inode_table;
  freeinode_ts = or_empty a.freeinode_ts;
  fs_data = or_empty a.fs_data;
  free_blocks = or_empty a.free_blocks;
  open_file_table = or_empty a.open_file_table;
  free_open_file_entries = or_empty a.free_open_file_entries;
}

abbrev pub all_allocated : Allocs → Bool
all_allocated a =
    is_some a.inode_table
    && (is_some a.freeinode_ts
        && (is_some a.fs_data
            && (is_some a.free_blocks
                && (is_some a.open_file_table && is_some a.free_open_file_entries))))

-- the three loops that mark every slot as free
unfoldable pub free_all : Cmd ℤ
free_all = do
  params ← gets (λ s. s.fs_params)
  inodes ← or_fault (← gets (λ s. fill_free s.freeinode_ts params.max_inode_count 0))
  modify (λ s. record s { freeinode_ts = inodes })
  blocks ← or_fault (← gets (λ s. fill_free s.free_blocks params.max_block_count 0))
  modify (λ s. record s { free_blocks = blocks })
  entries ←
      or_fault (← gets (λ s. fill_free s.free_open_file_entries params.max_open_files_count 0))
  modify (λ s. record s { free_open_file_entries = entries })
  pure (pos 0)

-- The parameters are stored before the test for an earlier call, as in the source.
unfoldable pub state_init : Allocs → TfsParams → Cmd ℤ
state_init a params = do
  modify (λ s. record s { fs_params = params })
  already ← gets (λ s. s.initialised)
  if already
      then pure minus_one
      else do modify (install a); if all_allocated a then free_all else pure minus_one

unfoldable pub state_destroy : Cmd ℤ
state_destroy = do
  modify (λ s. record s {
    initialised = false;
    inode_table = [];
    freeinode_ts = [];
    fs_data = [];
    free_blocks = [];
    open_file_table = [];
    free_open_file_entries = [];
  })
  pure (pos 0)

abbrev pub tfs_default_params : TfsParams
tfs_default_params = record {
  max_inode_count = 64;
  max_block_count = 1024;
  max_open_files_count = 16;
  block_size = 1024;
}

-- `none` is the null pointer.
abbrev pub params_or_default : Option TfsParams → TfsParams
params_or_default none = tfs_default_params
params_or_default (some params) = params

unfoldable pub tfs_init : Allocs → Option TfsParams → Cmd ℤ
tfs_init a params_ptr = do
  done ← state_init a (params_or_default params_ptr)
  if not (is_zero done)
      then pure minus_one
      else do root ← inode_create t_directory; if is_zero root then pure (pos 0) else pure minus_one

unfoldable pub tfs_destroy : Cmd ℤ
tfs_destroy = do done ← state_destroy; if not (is_zero done) then pure minus_one else pure (pos 0)
