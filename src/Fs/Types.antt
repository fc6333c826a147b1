-- ===== src/Fs/Types.antt =====
-- The data of fs/state.h, fs/operations.h and fs/config.h, the global variables of fs/state.c as
-- one record, and the commands that read and write them.
pub mod Access
use projeto_so.Base.{
  ℕ, ◌+◌, ◌-◌, ◌%◌, ◌^◌, Bool, true, false, Option, none, some, List, ℤ, pos, get_elem?, set,
}

-- ROOT_DIR_INUM and MAX_FILE_NAME
abbrev pub root_dir_inum : ℤ
root_dir_inum = pos 0

abbrev pub max_file_name : ℕ
max_file_name = 40

-- size_t arithmetic wraps
abbrev pub add_size : ℕ → ℕ → ℕ
add_size a b = (a + b) % 2 ^ 64

abbrev pub sub_size : ℕ → ℕ → ℕ
sub_size a b = (a + 2 ^ 64 - b) % 2 ^ 64

pub record TfsParams : Type 0 where
  pub max_inode_count : ℕ
  pub max_block_count : ℕ
  pub max_open_files_count : ℕ
  pub block_size : ℕ

pub data InodeType : Type 0 where
  t_file t_directory : InodeType

pub record Inode : Type 0 where
  pub i_node_type : InodeType
  pub i_size : ℕ
  pub i_data_block : ℤ

pub data AllocationState : Type 0 where
  free taken : AllocationState

pub record DirEntry : Type 0 where
  pub d_name : List ℕ
  pub d_inumber : ℤ

pub record OpenFileEntry : Type 0 where
  pub of_inumber : ℤ
  pub of_offset : ℕ

-- The global variables. A table that is not allocated is empty; `initialised` is
-- `inode_table != NULL`. `fs_data` is cut into its blocks: an access outside a block is a fault.
pub record State : Type 0 where
  pub fs_params : TfsParams
  pub initialised : Bool
  pub inode_table : List Inode
  pub freeinode_ts : List AllocationState
  pub fs_data : List (List ℕ)
  pub free_blocks : List AllocationState
  pub open_file_table : List OpenFileEntry
  pub free_open_file_entries : List AllocationState

-- `panic` is a failed ALWAYS_ASSERT, which ends the process; `fault` is undefined behaviour, such
-- as an access outside a table.
pub data Run (A : Type 0) : Type 0 where
  ok : A → State → Run A
  panic : Run A
  fault : Run A

abbrev pub Cmd : Type 0 → Type 0
Cmd A = State → Run A

module _ {A : Type 0} where
  abbrev pub pure : A → Cmd A
  pure = ok

  abbrev pub gets : (State → A) → Cmd A
  gets f s = ok (f s) s

  -- the value, or a fault where there is none
  abbrev pub or_fault : Option A → Cmd A
  or_fault none s = fault
  or_fault (some a) s = ok a s

module _ {A B : Type 0} where
  abbrev pub and_then : Run A → (A → Cmd B) → Run B
  and_then (ok a s) k = k a s
  and_then panic k = panic
  and_then fault k = fault

  infixl 5 ◌>>=◌ ◌>>◌
  abbrev pub ◌>>=◌ : Cmd A → (A → Cmd B) → Cmd B
  ◌>>=◌ m k s = and_then (m s) k

  abbrev pub ◌>>◌ : Cmd A → Cmd B → Cmd B
  m >> n = m >>= λ _. n

abbrev pub modify : (State → State) → Cmd (Unit {0})
modify f s = ok tt (f s)

-- ALWAYS_ASSERT
abbrev pub always_assert : Bool → Cmd (Unit {0})
always_assert true s = ok tt s
always_assert false s = panic

-- Reads and writes through `&inode_table[p]`, where the pointer is its index `p`.
unfoldable pub load_inode : ℕ → Cmd Inode
load_inode p s = or_fault (get_elem? s.inode_table p) s

unfoldable pub store_inode : ℕ → Inode → Cmd (Unit {0})
store_inode p n s = elim (get_elem? s.inode_table p) [
  | none ↦ fault
  | some _ ↦ ok tt (record s { inode_table = set s.inode_table p n })
]

-- The bytes of the block at index `b`.
unfoldable pub load_block : ℕ → Cmd (List ℕ)
load_block b s = or_fault (get_elem? s.fs_data b) s

unfoldable pub store_block : ℕ → List ℕ → Cmd (Unit {0})
store_block b bytes s = elim (get_elem? s.fs_data b) [
  | none ↦ fault
  | some _ ↦ ok tt (record s { fs_data = set s.fs_data b bytes })
]
