-- ===== src/Fs/Dir.antt =====
-- Directories (fs/state.c): a directory's block is an array of `dir_entry_t`, each of 40 bytes of
-- name and 4 bytes of inumber.
pub mod Search
pub mod Commands
use projeto_so.Base.{
  ℕ, zero, suc, ◌+◌, ◌-◌, ◌*◌, ◌/◌, Bool, true, false, ◌||◌, Option, none, some, List, [], ◌∷◌,
  ◌++◌, ℤ, minus_one, is_minus_one, length, replicate, ltb, leb, ◌==◌, if◌then◌else◌,
}
use projeto_so.Libc.Memory.{peek, poke, int_bytes, int_of_bytes}
use projeto_so.Libc.CString.{CString, terminated, strcmp_eq, strncmp_eq, strncpy}
use projeto_so.Fs.Types.{
  State, InodeType, t_file, t_directory, DirEntry, max_file_name, Cmd, pure, gets, or_fault,
  load_inode, load_block, store_block, ◌>>=◌, ◌>>◌,
}
use projeto_so.Fs.Tables.{data_block_get}

-- sizeof(dir_entry_t)
abbrev pub dir_entry_size : ℕ
dir_entry_size = 44

-- MAX_DIR_ENTRIES
abbrev pub max_dir_entries : State → ℕ
max_dir_entries s = s.fs_params.block_size / dir_entry_size

-- `dir_entry[i]`, read out of the bytes of the block
unfoldable pub entry : List ℕ → ℕ → DirEntry
entry block i = record {
  d_name = peek block (i * dir_entry_size) max_file_name;
  d_inumber = int_of_bytes (peek block (i * dir_entry_size + max_file_name) 4);
}

-- `none` where the entry does not lie in the block
abbrev pub entry? : List ℕ → ℕ → Option DirEntry
entry? block i =
    if leb (i * dir_entry_size + dir_entry_size) (length block) then some (entry block i) else none

-- `dir_entry[i].d_inumber = v`
unfoldable pub set_inumber : List ℕ → ℕ → ℤ → List ℕ
set_inumber block i v = poke block (i * dir_entry_size + max_file_name) (int_bytes v)

-- the bytes of `dir_entry[i].d_name`
unfoldable pub set_name : List ℕ → ℕ → List ℕ → List ℕ
set_name block i name = poke block (i * dir_entry_size) name

abbrev pub is_directory : InodeType → Bool
is_directory t_file = false
is_directory t_directory = true

-- The loop of `clear_dir_entry`, from entry `i` on for `n` rounds: the entry that it finds.
unfoldable pub clear_scan : List ℕ → CString → ℕ → ℕ → Option (Option ℕ)
clear_scan block sub_name zero i = some none
clear_scan block sub_name (suc n) i =
    let rest = clear_scan block sub_name n (i + 1) in
    elim (entry? block i) [
      | none ↦ none
      | some e ↦ elim (strcmp_eq e.d_name (terminated sub_name)) [
        | none ↦ none
        | some true ↦ some (some i)
        | some false ↦ rest
      ]
    ]

unfoldable pub clear_dir_entry : ℕ → CString → Cmd ℤ
clear_dir_entry inode sub_name = do
  n ← load_inode inode
  if is_directory n.i_node_type
      then (do
        b ← data_block_get n.i_data_block
        block ← load_block b
        entries ← gets max_dir_entries
        hit ← or_fault (clear_scan block sub_name entries 0)
        elim hit [
          | none ↦ pure minus_one
          | some i ↦ do
            store_block b (set_name (set_inumber block i minus_one) i (replicate max_file_name 0))
            pure (ℤ.pos 0)
        ])
      else pure minus_one

-- The loop of `add_dir_entry`: the first empty entry.
unfoldable pub empty_scan : List ℕ → ℕ → ℕ → Option (Option ℕ)
empty_scan block zero i = some none
empty_scan block (suc n) i =
    let rest = empty_scan block n (i + 1) in
    elim (entry? block i) [
      | none ↦ none
      | some e ↦ if is_minus_one e.d_inumber then some (some i) else rest
    ]

-- the 40 bytes that `strncpy` and the write of the last NUL leave in `d_name`
abbrev pub name_bytes : CString → List ℕ
name_bytes sub_name = strncpy (max_file_name - 1) sub_name ++ 0 ∷ []

unfoldable pub add_dir_entry : ℕ → CString → ℤ → Cmd ℤ
add_dir_entry inode sub_name sub_inumber =
    if (length sub_name == 0) || ltb (max_file_name - 1) (length sub_name)
    then pure minus_one
    else do
      n ← load_inode inode
      if is_directory n.i_node_type
          then (do
            b ← data_block_get n.i_data_block
            block ← load_block b
            entries ← gets max_dir_entries
            hit ← or_fault (empty_scan block entries 0)
            elim hit [
              | none ↦ pure minus_one
              | some i ↦ do
                store_block b (set_name (set_inumber block i sub_inumber) i (name_bytes sub_name))
                pure (ℤ.pos 0)
            ])
          else pure minus_one

-- The loop of `find_in_dir`: the inumber that it returns.
unfoldable pub find_scan : List ℕ → CString → ℕ → ℕ → Option ℤ
find_scan block sub_name zero i = some minus_one
find_scan block sub_name (suc n) i =
    let rest = find_scan block sub_name n (i + 1) in
    elim (entry? block i) [
      | none ↦ none
      | some e ↦
          if is_minus_one e.d_inumber
          then rest
          else elim (strncmp_eq max_file_name e.d_name (terminated sub_name)) [
            | none ↦ none
            | some true ↦ some e.d_inumber
            | some false ↦ rest
          ]
    ]

unfoldable pub find_in_dir : ℕ → CString → Cmd ℤ
find_in_dir inode sub_name = do
  n ← load_inode inode
  if is_directory n.i_node_type
      then (do
        b ← data_block_get n.i_data_block
        block ← load_block b
        entries ← gets max_dir_entries
        or_fault (find_scan block sub_name entries 0))
      else pure minus_one
