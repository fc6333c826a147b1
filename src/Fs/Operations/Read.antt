-- ===== src/Fs/Operations/Read.antt =====
-- `tfs_read` (fs/operations.c): what is read, and what happens past the end of the file.
pub mod Cases
pub mod AfterWrite
use projeto_so.Base.{
  ℕ, ◌+◌, ◌-◌, ◌^◌, ◌≤◌, ◌<◌, min, ◌≡◌, refl, ◌⊎◌, inl, inr, Bool, true, false, some, List, [], ℤ,
  pos, minus_one, is_minus_one, arith, ltb, leb, le→leb, if◌then◌else◌, Bool-cases, length,
  get_elem?, set, length-set, get_elem?-some, lt_of_get_elem?,
}
use projeto_so.Libc.Memory.{peek}
use projeto_so.Fs.Types.{
  State, Inode, OpenFileEntry, add_size, Run, ok, or_fault, Cmd, load_block, pure, ◌>>=◌, ◌>>◌,
}
use projeto_so.Fs.Types.Access.{load_inode_lem, load_block_lem}
use projeto_so.Fs.Tables.{index, data_block_get, store_at}
use projeto_so.Fs.Invariant.{Safe, IsValid}
use projeto_so.Fs.Returns.{Returns, returns}
use projeto_so.Fs.Operations.{
  Mutex, unlock_return, store_offset, copy_out, clamp_read, tfs_read, read_bytes,
}
use projeto_so.Fs.Operations.Handles.{
  IsOpen, IsClosed, unlocked, get_open_file_entry-cases, inode_get_lem,
}
use projeto_so.Fs.Updates.Opens

-- the state in which entry `f`, which holds `e`, has moved by `k` bytes
abbrev pub advanced : State → ℕ → OpenFileEntry → ℕ → State
advanced s f e k = record s {
  open_file_table = set s.open_file_table f (record e { of_offset = e.of_offset + k });
}

-- The copy out of block `d`, whatever decided the count.
pub read_bytes_lem :
    (m : Mutex) (s : State) (f : ℕ) (e : OpenFileEntry) (n : Inode) (d k : ℕ) (block : List ℕ)
    → get_elem? s.open_file_table f ≡ some e
    → n.i_data_block ≡ pos d
    → d < s.fs_params.max_block_count
    → get_elem? s.fs_data d ≡ some block
    → e.of_offset + k ≤ length block
    → length block < 2 ^ 31
    → is_minus_one m.unlock ≡ false
    → read_bytes m f e n k s ≡ ok (pos k, peek block e.of_offset k) (advanced s f e k)
unfolding read_bytes data_block_get load_block store_offset store_at
read_bytes_lem m s f e n d k block at_f at_d dr at_b fits small unlocks =
    let wraps : add_size e.of_offset k ≡ e.of_offset + k = omega arith in ground (arith, wraps)

-- Before the end of the file the count is cut at the end; the difference does not wrap.
pub clamp_read-eq-min :
    (size offset len : ℕ)
    → offset ≤ size
    → size < 2 ^ 31
    → clamp_read size offset len ≡ min len (size - offset)
clamp_read-eq-min size offset len o z = ground arith

-- Past the end of the file the difference wraps, and nothing is cut.
pub clamp_read-wraps :
    (size offset len : ℕ)
    → size < offset
    → offset < 2 ^ 31
    → len < 2 ^ 63
    → clamp_read size offset len ≡ len
clamp_read-wraps size offset len o z l = ground arith

-- What `tfs_read` through entry `f`, which holds `e`, to inode `n` has done: `k` bytes of the file's
-- block from the offset on are returned, and the offset has moved behind them.
pub data Got (s : State) (f : ℕ) (e : OpenFileEntry) (n : Inode) (k : ℕ) (r : ℤ × List ℕ)
    (s' : State) : Type 0 where
  nothing : k ≡ 0 → r ≡ (pos 0, []) → s' ≡ s → Got s f e n k r s'
  bytes :
      (d : ℕ) (block : List ℕ)
      → 0 < k
      → n.i_data_block ≡ pos d
      → get_elem? s.fs_data d ≡ some block
      → r ≡ (pos k, peek block e.of_offset k)
      → s' ≡ advanced s f e k
      → Got s f e n k r s'

pub advanced-IsValid :
    (b : ℕ) (root : List ℕ) (s : State) (fhandle : ℤ) (f : ℕ) (e : OpenFileEntry) (k : ℕ)
    → IsValid b root s
    → IsOpen s fhandle f e
    → e.of_offset + k ≤ s.fs_params.block_size
    → IsValid b root (advanced s f e k)
advanced-IsValid b root s fhandle f e k v o fits = record {
  shape =
      ground
        (arith, v.shape, length-set s.open_file_table f (record e { of_offset = e.of_offset + k }));
  blocks = v.blocks;
  root = ground (arith, v.root);
  inodes = v.inodes;
  opens =
      Opens.set_offset b s.fs_params s.inode_table s.open_file_table s.free_open_file_entries
        v.opens f e (e.of_offset + k) o.in_use o.holds fits;
  entries = v.entries;
}
