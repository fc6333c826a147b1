-- ===== src/Fs/Inodes.antt =====
-- Inodes (fs/state.c): creation, deletion, and the pointer to an inode.
pub mod Files
use projeto_so.Base.{
  ℕ, zero, suc, ◌+◌, Option, none, some, List, ℤ, minus_one, is_minus_one, get_elem?, set, ltb,
  if◌then◌else◌,
}
use projeto_so.Fs.Types.{
  InodeType, t_file, t_directory, free, Cmd, pure, gets, or_fault, modify, always_assert,
  load_inode, store_inode, load_block, store_block, ◌>>=◌, ◌>>◌,
}
use projeto_so.Fs.Tables.{
  index, valid_inumber, is_taken, state_block_size, inode_alloc, data_block_alloc, data_block_free,
  data_block_get,
}
use projeto_so.Fs.Dir.{entry?, max_dir_entries, set_inumber}

unfoldable pub inode_delete : ℤ → Cmd (Unit {0})
inode_delete inumber = do
  always_assert (← gets (λ s. valid_inumber s inumber))
  slot ← or_fault (← gets (λ s. get_elem? s.freeinode_ts (index inumber)))
  always_assert (is_taken slot)
  n ← load_inode (index inumber)
  if ltb 0 n.i_size then data_block_free n.i_data_block else pure tt
  modify (λ s. record s { freeinode_ts = set s.freeinode_ts (index inumber) free })

-- The pointer to an inode, as its index in the table.
unfoldable pub inode_get : ℤ → Cmd ℕ
inode_get inumber = do always_assert (← gets (λ s. valid_inumber s inumber)); pure (index inumber)

-- The loop that marks every entry of a new directory as empty, from entry `i` on for `n` rounds.
unfoldable pub clear_entries : List ℕ → ℕ → ℕ → Option (List ℕ)
clear_entries block zero i = some block
clear_entries block (suc n) i =
    let rest = clear_entries (set_inumber block i minus_one) n (i + 1) in
    elim (entry? block i) [ none ↦ none | some _ ↦ rest ]

-- The directory case of `inode_create`.
unfoldable pub create_directory : ℤ → Cmd ℤ
create_directory inumber = do
  b ← data_block_alloc
  n ← load_inode (index inumber)
  if is_minus_one b
      then (do
        store_inode (index inumber) (record n { i_size = 0; i_data_block = minus_one })
        inode_delete inumber
        pure minus_one)
      else (do
        size ← gets state_block_size
        store_inode (index inumber) (record n { i_size = size; i_data_block = b })
        p ← data_block_get b
        block ← load_block p
        entries ← gets max_dir_entries
        block ← or_fault (clear_entries block entries 0)
        store_block p block
        pure inumber)

unfoldable pub inode_create : InodeType → Cmd ℤ
inode_create i_type = do
  inumber ← inode_alloc
  if is_minus_one inumber then pure minus_one else do
    n ← load_inode (index inumber)
    store_inode (index inumber) (record n { i_node_type = i_type })
    elim i_type [
      | t_directory ↦ create_directory inumber
      | t_file ↦ do
        n ← load_inode (index inumber)
        store_inode (index inumber) (record n { i_size = 0; i_data_block = minus_one })
        pure inumber
    ]
