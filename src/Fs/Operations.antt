-- ===== src/Fs/Operations.antt =====
-- The operations of fs/operations.c. Each runs under the library's mutex, so it is one step; what
-- `pthread_mutex_lock` and `pthread_mutex_unlock` return is the argument `Mutex`.
pub mod Handles
pub mod Close
pub mod Write
pub mod Read
pub mod Paths
pub mod Unlink
pub mod Open
use Prim.Native.Nat.{bit_and}
use projeto_so.Base.{
  ℕ, ◌+◌, Bool, false, not, ◌&&◌, Option, none, some, List, [], ◌∷◌, ℤ, pos, minus_one,
  is_minus_one, is_nonneg, length, ltb, leb, ◌==◌, if◌then◌else◌, take, get_elem?,
}
use projeto_so.Libc.Memory.{peek, poke}
use projeto_so.Libc.CString.{CString}
use projeto_so.Fs.Types.{
  t_file, Inode, OpenFileEntry, root_dir_inum, add_size, sub_size, Cmd, pure, gets, or_fault,
  modify, load_inode, store_inode, load_block, store_block, ◌>>=◌, ◌>>◌,
}
use projeto_so.Fs.Tables.{
  state_block_size, data_block_alloc, data_block_free, data_block_get, add_to_open_file_table,
  remove_from_open_file_table, get_open_file_entry, store_at,
}
use projeto_so.Fs.Dir.{add_dir_entry, clear_dir_entry, find_in_dir}
use projeto_so.Fs.Inodes.{inode_create, inode_delete, inode_get}

pub record Mutex : Type 0 where
  pub lock : ℤ
  pub unlock : ℤ

-- The test that every operation makes of the result of locking.
abbrev pub with_lock : {A : Type 0} → Mutex → A → Cmd A → Cmd A
with_lock m failed body = if is_minus_one m.lock then pure failed else body

-- Unlocking before a return of `result`.
abbrev pub unlock_return : {A : Type 0} → Mutex → A → A → Cmd A
unlock_return m failed result = if is_minus_one m.unlock then pure failed else pure result

-- tfs_file_mode_t
abbrev pub tfs_o_creat : ℕ
tfs_o_creat = 0b001

abbrev pub tfs_o_trunc : ℕ
tfs_o_trunc = 0b010

abbrev pub tfs_o_append : ℕ
tfs_o_append = 0b100

-- `mode & flag`
unfoldable pub has_flag : ℕ → ℕ → Bool
has_flag mode flag = not (bit_and mode flag == 0)

-- The path is the string of its bytes; `none` is NULL.
abbrev pub valid_pathname : Option CString → Bool
valid_pathname none = false
valid_pathname (some []) = false
valid_pathname (some (c ∷ name)) = ltb 1 (length (c ∷ name)) && (c == b'/')

-- `name + 1`, of a path that is valid
abbrev pub skip_slash : Option CString → CString
skip_slash (some (c ∷ name)) = name
skip_slash _ = []

unfoldable pub tfs_lookup : Option CString → ℕ → Cmd ℤ
tfs_lookup name root_inode =
    if not (valid_pathname name) then pure minus_one else find_in_dir root_inode (skip_slash name)

-- The end of `tfs_open`.
unfoldable pub open_handle : Mutex → ℤ → ℕ → Cmd ℤ
open_handle m inum offset = do
  ret ← add_to_open_file_table inum offset
  unlock_return m minus_one ret

-- TFS_O_TRUNC on a file that exists
unfoldable pub truncate : ℕ → Cmd (Unit {0})
truncate p = do
  n ← load_inode p
  if ltb 0 n.i_size
      then (do data_block_free n.i_data_block; store_inode p (record n { i_size = 0 }))
      else pure tt

-- The branch of `tfs_open` for a file that exists.
unfoldable pub open_existing : Mutex → ℕ → ℤ → Cmd ℤ
open_existing m mode inum = do
  p ← inode_get inum
  if has_flag mode tfs_o_trunc then truncate p else pure tt
  n ← load_inode p
  open_handle m inum (if has_flag mode tfs_o_append then n.i_size else 0)

-- The branch of `tfs_open` for a file that is to be created.
unfoldable pub open_create : Mutex → ℕ → CString → Cmd ℤ
open_create m root name = do
  inum ← inode_create t_file
  if is_minus_one inum then unlock_return m minus_one minus_one else do
    added ← add_dir_entry root name inum
    if is_minus_one added
        then (do inode_delete inum; unlock_return m minus_one minus_one)
        else open_handle m inum 0

unfoldable pub tfs_open : Mutex → Option CString → ℕ → Cmd ℤ
tfs_open m name mode = with_lock m minus_one (
    if not (valid_pathname name) then unlock_return m minus_one minus_one else do
      root ← inode_get root_dir_inum
      inum ← tfs_lookup name root
      if is_nonneg inum
          then open_existing m mode inum
          else if has_flag mode tfs_o_creat
          then open_create m root (skip_slash name)
          else unlock_return m minus_one minus_one)

unfoldable pub tfs_close : Mutex → ℤ → Cmd ℤ
tfs_close m fhandle = with_lock m minus_one (do
  file ← get_open_file_entry fhandle
  elim file [
    | none ↦ unlock_return m minus_one minus_one
    | some _ ↦ do remove_from_open_file_table fhandle; unlock_return m minus_one (pos 0)
  ])

-- The writes through the pointer to an open file entry.
unfoldable pub store_offset : ℕ → OpenFileEntry → ℕ → Cmd (Unit {0})
store_offset f file offset = do
  table ← gets (λ s. s.open_file_table)
  table ← or_fault (store_at table f (record file { of_offset = offset }))
  modify (λ s. record s { open_file_table = table })

-- `memcpy(block + offset, buffer, n)`: both ranges must lie in their objects.
abbrev pub copy_in : List ℕ → ℕ → List ℕ → ℕ → Option (List ℕ)
copy_in block offset buffer n =
    if leb n (length buffer) && leb (offset + n) (length block)
    then some (poke block offset (take n buffer))
    else none

-- `memcpy(buffer, block + offset, n)`: the bytes that are copied.
abbrev pub copy_out : List ℕ → ℕ → ℕ → Option (List ℕ)
copy_out block offset n =
    if leb (offset + n) (length block) then some (peek block offset n) else none

-- the size that `tfs_write` cuts `to_write` to
abbrev pub clamp_write : ℕ → ℕ → ℕ → ℕ
clamp_write block_size offset to_write =
    if ltb block_size (add_size to_write offset) then sub_size block_size offset else to_write

-- The copy into the block, and the updates of the offset and the size.
unfoldable pub write_bytes : Mutex → ℕ → OpenFileEntry → ℕ → List ℕ → ℕ → Cmd ℤ
write_bytes m f file p buffer to_write = do
  n ← load_inode p
  b ← data_block_get n.i_data_block
  block ← load_block b
  block ← or_fault (copy_in block file.of_offset buffer to_write)
  store_block b block
  let offset = add_size file.of_offset to_write
  store_offset f file offset
  if ltb n.i_size offset then store_inode p (record n { i_size = offset }) else pure tt
  unlock_return m minus_one (pos to_write)

unfoldable pub write_some : Mutex → ℕ → OpenFileEntry → ℕ → List ℕ → ℕ → Cmd ℤ
write_some m f file p buffer to_write = do
  n ← load_inode p
  if n.i_size == 0
      then (do
        bnum ← data_block_alloc
        if is_minus_one bnum then unlock_return m minus_one minus_one else do
          store_inode p (record n { i_data_block = bnum })
          write_bytes m f file p buffer to_write)
      else write_bytes m f file p buffer to_write

unfoldable pub tfs_write : Mutex → ℤ → List ℕ → ℕ → Cmd ℤ
tfs_write m fhandle buffer to_write = with_lock m minus_one (do
  handle ← get_open_file_entry fhandle
  elim handle [
    | none ↦ unlock_return m minus_one minus_one
    | some f ↦ do
      file ← or_fault (← gets (λ s. get_elem? s.open_file_table f))
      p ← inode_get file.of_inumber
      size ← gets state_block_size
      let n = clamp_write size file.of_offset to_write
      if ltb 0 n then write_some m f file p buffer n else unlock_return m minus_one (pos n)
  ])

-- the size that `tfs_read` cuts `len` to
abbrev pub clamp_read : ℕ → ℕ → ℕ → ℕ
clamp_read size offset len =
    let to_read = sub_size size offset in if ltb len to_read then len else to_read

-- The copy out of the block, and the update of the offset.
unfoldable pub read_bytes : Mutex → ℕ → OpenFileEntry → Inode → ℕ → Cmd (ℤ × List ℕ)
read_bytes m f file n to_read = do
  b ← data_block_get n.i_data_block
  block ← load_block b
  bytes ← or_fault (copy_out block file.of_offset to_read)
  store_offset f file (add_size file.of_offset to_read)
  unlock_return m (minus_one, bytes) (pos to_read, bytes)

-- The result comes with the bytes that are copied into the caller's buffer.
unfoldable pub tfs_read : Mutex → ℤ → ℕ → Cmd (ℤ × List ℕ)
tfs_read m fhandle len =
    with_lock m (minus_one, [])
      (do
        handle ← get_open_file_entry fhandle
        elim handle [
          | none ↦ unlock_return m (minus_one, []) (minus_one, [])
          | some f ↦ do
            file ← or_fault (← gets (λ s. get_elem? s.open_file_table f))
            p ← inode_get file.of_inumber
            n ← load_inode p
            let to_read = clamp_read n.i_size file.of_offset len
            if ltb 0 to_read
                then read_bytes m f file n to_read
                else unlock_return m (minus_one, []) (pos to_read, [])
        ])

unfoldable pub tfs_unlink : Mutex → Option CString → Cmd ℤ
tfs_unlink m target = with_lock m minus_one (
    if not (valid_pathname target) then unlock_return m minus_one minus_one else do
      root ← inode_get root_dir_inum
      inum ← tfs_lookup target root
      if is_minus_one inum then unlock_return m minus_one minus_one else do
        inode_delete inum
        cleared ← clear_dir_entry root (skip_slash target)
        if is_minus_one cleared
            then unlock_return m minus_one minus_one
            else unlock_return m minus_one (pos 0))
