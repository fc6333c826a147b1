-- ===== src/Fs/Tables.antt =====
-- The allocation tables of fs/state.c: finding and taking a free slot, and giving it back.
-- `insert_delay` only spends time and is left out; the division in the test that guards it is kept.
pub mod FirstFree
use projeto_so.Base.{
  ℕ, zero, suc, ◌+◌, ◌^◌, min, Bool, true, false, ◌&&◌, Option, none, some, List, ℤ, pos, negsuc,
  minus_one, to_int, get_elem?, set, ltb, ◌==◌, if◌then◌else◌,
}
use projeto_so.Fs.Types.{
  State, AllocationState, free, taken, Cmd, ok, fault, pure, gets, or_fault, modify, always_assert,
  ◌>>=◌, ◌>>◌,
}

-- `x >= 0 && x < limit`, on an int and a size_t
abbrev pub valid_index : ℤ → ℕ → Bool
valid_index (pos n) limit = ltb n limit
valid_index (negsuc n) limit = false

-- the int as an index, where it is not negative
abbrev pub index : ℤ → ℕ
index (pos n) = n
index (negsuc n) = 0

abbrev pub valid_inumber : State → ℤ → Bool
valid_inumber s inumber = valid_index inumber s.fs_params.max_inode_count

abbrev pub valid_block_number : State → ℤ → Bool
valid_block_number s block_number = valid_index block_number s.fs_params.max_block_count

abbrev pub valid_file_handle : State → ℤ → Bool
valid_file_handle s file_handle = valid_index file_handle s.fs_params.max_open_files_count

abbrev pub state_block_size : State → ℕ
state_block_size s = s.fs_params.block_size

pub data Scan : Type 0 where
  found : ℕ → Scan
  not_found : Scan
  out_of_bounds : Scan

-- The loop that looks for the first free slot of a table, from `i` on for `n` rounds.
unfoldable pub first_free : List AllocationState → ℕ → ℕ → Scan
first_free table zero i = not_found
first_free table (suc n) i =
    let rest = first_free table n (i + 1) in
    elim (get_elem? table i) [ none ↦ out_of_bounds | some free ↦ found i | some taken ↦ rest ]

-- The first round of a loop over `count` slots divides by the block size.
abbrev pub check_delay : ℕ → Cmd (Unit {0})
check_delay count s = if (s.fs_params.block_size == 0) && ltb 0 count then fault else ok tt s

-- `table[i] = v`
unfoldable pub store_at {ℓ} : {A : Type ℓ} → List A → ℕ → A → Option (List A)
store_at table i v = elim (get_elem? table i) [ none ↦ none | some _ ↦ some (set table i v) ]

unfoldable pub inode_alloc : Cmd ℤ
inode_alloc = do
  count ← gets (λ s. s.fs_params.max_inode_count)
  check_delay count
  table ← gets (λ s. s.freeinode_ts)
  elim (first_free table count 0) [
    | found inumber ↦ do
      modify (λ s. record s { freeinode_ts = set table inumber taken })
      pure (to_int inumber)
    | not_found ↦ pure minus_one
    | out_of_bounds ↦ λ s. fault
  ]

unfoldable pub data_block_alloc : Cmd ℤ
data_block_alloc = do
  count ← gets (λ s. s.fs_params.max_block_count)
  check_delay count
  table ← gets (λ s. s.free_blocks)
  elim (first_free table count 0) [
    | found i ↦ do modify (λ s. record s { free_blocks = set table i taken }); pure (to_int i)
    | not_found ↦ pure minus_one
    | out_of_bounds ↦ λ s. fault
  ]

unfoldable pub data_block_free : ℤ → Cmd (Unit {0})
data_block_free block_number = do
  always_assert (← gets (λ s. valid_block_number s block_number))
  table ← gets (λ s. s.free_blocks)
  table ← or_fault (store_at table (index block_number) free)
  modify (λ s. record s { free_blocks = table })

-- The pointer to a block, as its index.
unfoldable pub data_block_get : ℤ → Cmd ℕ
data_block_get block_number = do
  always_assert (← gets (λ s. valid_block_number s block_number))
  pure (index block_number)

-- The index is an int: behind slot 2 ^ 31 - 1 its increment overflows.
unfoldable pub add_to_open_file_table : ℤ → ℕ → Cmd ℤ
add_to_open_file_table inumber offset = do
  count ← gets (λ s. s.fs_params.max_open_files_count)
  table ← gets (λ s. s.free_open_file_entries)
  elim (first_free table (min count (2 ^ 31)) 0) [
    | found i ↦ do
      files ← gets (λ s. s.open_file_table)
      files ← or_fault (store_at files i (record { of_inumber = inumber; of_offset = offset }))
      modify (λ s. record s { free_open_file_entries = set table i taken; open_file_table = files })
      pure (pos i)
    | not_found ↦ if ltb count (2 ^ 31) then pure minus_one else λ s. fault
    | out_of_bounds ↦ λ s. fault
  ]

-- `x == TAKEN`
abbrev pub is_taken : AllocationState → Bool
is_taken free = false
is_taken taken = true

unfoldable pub remove_from_open_file_table : ℤ → Cmd (Unit {0})
remove_from_open_file_table fhandle = do
  always_assert (← gets (λ s. valid_file_handle s fhandle))
  table ← gets (λ s. s.free_open_file_entries)
  entry ← or_fault (get_elem? table (index fhandle))
  always_assert (is_taken entry)
  modify (λ s. record s { free_open_file_entries = set table (index fhandle) free })

-- The pointer to an entry of the open file table, as its index; `none` is NULL.
unfoldable pub get_open_file_entry : ℤ → Cmd (Option ℕ)
get_open_file_entry fhandle = do
  valid ← gets (λ s. valid_file_handle s fhandle)
  if valid
      then (do
        table ← gets (λ s. s.free_open_file_entries)
        entry ← or_fault (get_elem? table (index fhandle))
        pure (if is_taken entry then some (index fhandle) else none))
      else pure none
