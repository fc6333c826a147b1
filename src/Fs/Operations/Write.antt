-- ===== src/Fs/Operations/Write.antt =====
-- `tfs_write` (fs/operations.c): how much is written, where, and what it leaves alone.
pub mod Valid
pub mod Cases
use projeto_so.Base.{
  ℕ, ◌+◌, ◌-◌, ◌^◌, ◌≤◌, ◌<◌, min, ◌≡◌, ◌≢◌, refl, sym, ◌⊎◌, inl, inr, Bool, true, false, none,
  some, List, ℤ, pos, minus_one, is_minus_one, arith, ltb, leb, ◌==◌, if◌then◌else◌, Bool-cases,
  length, take, get_elem?, set, length-set, length-take, get_elem?-set_self, get_elem?-set,
  get_elem?-some, lt_of_get_elem?, set-get_elem?, set-set,
}
use projeto_so.Libc.Memory.{poke, length-poke}
use projeto_so.Fs.Types.{
  State, Inode, taken, OpenFileEntry, add_size, Run, ok, or_fault, load_inode, store_inode,
  load_block, store_block, ◌>>=◌, ◌>>◌,
}
use projeto_so.Fs.Tables.{index, store_at, data_block_get}
use projeto_so.Fs.Operations.{
  Mutex, unlock_return, store_offset, copy_in, clamp_write, write_bytes, write_some, tfs_write,
}
use projeto_so.Fs.Types.Access.{load_inode_lem, store_inode_lem}
use projeto_so.Fs.Tables.FirstFree.{IsFirst, AllTaken, data_block_alloc-cases}
use projeto_so.Fs.Invariant.{Safe, IsValid}
use projeto_so.Fs.Returns.{Returns, returns}
use projeto_so.Fs.Operations.Handles.{IsOpen, IsClosed, unlocked, get_open_file_entry-cases}

-- the inode after a write that ends at `offset`
abbrev pub grown : Inode → ℕ → Inode
grown n offset = record n { i_size = if ltb n.i_size offset then offset else n.i_size }

-- The state after `k` bytes of `buffer` are copied through entry `f`, which holds `e`, into block
-- `d`, with contents `block`, of inode `p`, which is `n`.
abbrev pub wrote : State → ℕ → OpenFileEntry → ℕ → Inode → ℕ → List ℕ → List ℕ → ℕ → State
wrote s f e p n d block buffer k = record s {
  fs_data = set s.fs_data d (poke block e.of_offset (take k buffer));
  open_file_table = set s.open_file_table f (record e { of_offset = e.of_offset + k });
  inode_table = set s.inode_table p (grown n (e.of_offset + k));
}

module _ (m : Mutex) (s : State) (f : ℕ) (e : OpenFileEntry) (p : ℕ) (n : Inode) (d : ℕ)
    (block buffer : List ℕ) (k : ℕ) where
  pub write_bytes_lem :
      get_elem? s.inode_table p ≡ some n
      → get_elem? s.open_file_table f ≡ some e
      → n.i_data_block ≡ pos d
      → d < s.fs_params.max_block_count
      → get_elem? s.fs_data d ≡ some block
      → e.of_offset + k ≤ length block
      → length block < 2 ^ 31
      → k ≤ length buffer
      → write_bytes m f e p buffer k s
        ≡ ok (unlocked m minus_one (pos k)) (wrote s f e p n d block buffer k)
  unfolding write_bytes load_inode data_block_get load_block store_block store_offset store_at
      store_inode
  write_bytes_lem at_p at_f at_d dr at_b fits small enough =
      let wraps : add_size e.of_offset k ≡ e.of_offset + k = omega arith in
      ground (arith, wraps, set-get_elem? s.inode_table p n at_p)

-- the state in which the empty file `p` has been given block `d`
abbrev pub allocated : State → ℕ → Inode → ℕ → State
allocated s p n d = record s {
  free_blocks = set s.free_blocks d taken;
  inode_table = set s.inode_table p (record n { i_data_block = pos d });
}

-- `tfs_write` cuts the count at the end of the block, and its sums do not wrap.
pub clamp_write-eq-min :
    (size offset to_write : ℕ)
    → offset ≤ size
    → size < 2 ^ 31
    → to_write < 2 ^ 63
    → clamp_write size offset to_write ≡ min to_write (size - offset)
clamp_write-eq-min size offset to_write o z t = ground arith

-- What `tfs_write` through entry `f`, which holds `e`, to inode `p`, which is `n`, has done with
-- `k` bytes: nothing was asked; the file's block was written; the file was empty and got the first
-- free block; or there was none.
pub data Written (s : State) (f : ℕ) (e : OpenFileEntry) (p : ℕ) (n : Inode) (buffer : List ℕ)
    (k : ℕ) (r : ℤ) (s' : State) : Type 0 where
  nothing : k ≡ 0 → r ≡ pos 0 → s' ≡ s → Written s f e p n buffer k r s'
  in_place :
      (d : ℕ) (block : List ℕ)
      → 0 < k
      → 0 < n.i_size
      → n.i_data_block ≡ pos d
      → get_elem? s.fs_data d ≡ some block
      → r ≡ pos k
      → s' ≡ wrote s f e p n d block buffer k
      → Written s f e p n buffer k r s'
  in_new_block :
      (d : ℕ) (block : List ℕ)
      → 0 < k
      → n.i_size ≡ 0
      → IsFirst s.free_blocks 0 d
      → get_elem? s.fs_data d ≡ some block
      → r ≡ pos k
      → s' ≡ wrote (allocated s p n d) f e p (record n { i_data_block = pos d }) d block buffer k
      → Written s f e p n buffer k r s'
  no_space :
      0 < k
      → n.i_size ≡ 0
      → AllTaken s.free_blocks 0 s.fs_params.max_block_count
      → r ≡ minus_one
      → s' ≡ s
      → Written s f e p n buffer k r s'

module _ (m : Mutex) (unlocks : is_minus_one m.unlock ≡ false) (b : ℕ) (root : List ℕ) (s : State)
    (v : IsValid b root s) (fhandle : ℤ) (f : ℕ) (e : OpenFileEntry) (o : IsOpen s fhandle f e)
    (n : Inode) (at_p : get_elem? s.inode_table (index e.of_inumber) ≡ some n) (buffer : List ℕ)
    (k : ℕ) (pk : 0 < k) (fits : e.of_offset + k ≤ s.fs_params.block_size)
    (enough : k ≤ length buffer) where
  abbrev pub p : ℕ
  p = index e.of_inumber

  Safe-inode : Safe b s.fs_params n
  Safe-inode = v.opens.open_safe f e n o.in_use o.holds at_p

  pub write_old :
      0 < n.i_size
      → Returns (λ r s'. Written s f e p n buffer k r s') (write_some m f e p buffer k s)
  unfolding write_some
  write_old z =
      let d = index n.i_data_block in
      let dr = Safe-inode.in_range z in
      let (block, at_b) = get_elem?-some s.fs_data d (omega (arith, v.shape.length_fs_data)) in
      let small : length block ≡ s.fs_params.block_size = v.blocks d block at_b in
      let run =
        write_bytes_lem m s f e p n d block buffer k at_p o.holds (Safe-inode.has_block z) dr at_b
          (omega arith) (omega (arith, v.shape.block_size_small)) enough in
      let nonzero : (n.i_size == 0) ≡ false = ground arith in
      rw (load_inode_lem s p at_p, nonzero, run, unlocks)
        (returns (in_place d block pk z (Safe-inode.has_block z) at_b refl refl))

  pub write_new :
      n.i_size ≡ 0
      → Returns (λ r s'. Written s f e p n buffer k r s') (write_some m f e p buffer k s)
  unfolding write_some
  write_new z = elim (data_block_alloc-cases s v.shape) [
    | inr (all, run) ↦
        rw (load_inode_lem s p at_p, empty, run, unlocks) (returns (no_space pk z all refl refl))
    | inl (d, first, dr, run) ↦
        let (block, at_b) = get_elem?-some s.fs_data d (omega (arith, v.shape.length_fs_data)) in
        let small : length block ≡ s.fs_params.block_size = v.blocks d block at_b in
        let n' : Inode = record n { i_data_block = pos d } in
        let at' = get_elem?-set_self s.inode_table p n' (lt_of_get_elem? s.inode_table p at_p) in
        let run' =
          write_bytes_lem m (allocated s p n d) f e p n' d block buffer k at' o.holds refl dr at_b
            (omega arith) (omega (arith, v.shape.block_size_small)) enough in
        let stored =
          store_inode_lem (record s { free_blocks = set s.free_blocks d taken }) p n' at_p in
        rw (load_inode_lem s p at_p, empty, run, stored, run', unlocks)
          (returns (in_new_block d block pk z first at_b refl refl))
  ]
    where
      empty : (n.i_size == 0) ≡ true
      empty = ground arith
