-- ===== src/Fs/Operations/Read/Cases.antt =====
-- `tfs_read` (fs/operations.c) as a whole, inside the file and past its end.
use projeto_so.Base.{
  ℕ, ◌+◌, ◌-◌, ◌^◌, ◌≤◌, ◌<◌, min, ◌≡◌, refl, inl, inr, false, some, List, [], ℤ, pos, minus_one,
  is_minus_one, arith, ltb, leb, leb→le, lt→ltb, ap, if◌then◌else◌, Bool-cases, get_elem?,
  get_elem?-some, length,
}
use projeto_so.Libc.Memory.{peek}
use projeto_so.Fs.Types.{State, Inode, OpenFileEntry, ok, fault, load_block}
use projeto_so.Fs.Types.Access.{load_inode_lem}
use projeto_so.Fs.Tables.{index, get_open_file_entry, data_block_get}
use projeto_so.Fs.Inodes.{inode_get}
use projeto_so.Fs.Invariant.{Safe, IsValid}
use projeto_so.Fs.Returns.{Returns, returns}
use projeto_so.Fs.Operations.{Mutex, clamp_read, read_bytes, tfs_read}
use projeto_so.Fs.Operations.Handles.{
  IsOpen, IsClosed, get_open_file_entry-cases, get_open_file_entry_lem, inode_get_lem,
}
use projeto_so.Fs.Operations.Read.{
  Got, nothing, bytes, advanced, read_bytes_lem, clamp_read-eq-min, clamp_read-wraps,
  advanced-IsValid,
}

module _ (b : ℕ) (root : List ℕ) (s : State) (m : Mutex) (fhandle : ℤ) (len : ℕ)
    (v : IsValid b root s) (locks : is_minus_one m.lock ≡ false)
    (unlocks : is_minus_one m.unlock ≡ false) where
  -- On a well-formed file system, with a mutex that can be locked and unlocked, `tfs_read` of a
  -- handle that is not open returns -1 and no byte, and changes nothing.
  pub tfs_read_closed : IsClosed s fhandle → tfs_read m fhandle len s ≡ ok (minus_one, []) s
  unfolding tfs_read
  tfs_read_closed out = elim (get_open_file_entry-cases s v.shape fhandle) [
    | inr (_, got) ↦ rw (locks, got, unlocks)
    | inl (f, e, o, got) ↦ absurd (out f o.handle o.in_use)
  ]

  module _ (f : ℕ) (e : OpenFileEntry) (n : Inode) (o : IsOpen s fhandle f e)
      (at : get_elem? s.inode_table (index e.of_inumber) ≡ some n) where
    -- Up to the copy a call depends on the count alone.
    reads :
        (k : ℕ)
        → clamp_read n.i_size e.of_offset len ≡ k
        → tfs_read m fhandle len s ≡ (if ltb 0 k then read_bytes m f e n k s else ok (pos k, []) s)
    unfolding tfs_read
    reads k clamp = elim (Bool-cases (ltb 0 k)) [
      | inl some_left ↦ rw (locks, got, o.holds, get, load_inode_lem s p at, clamp, some_left)
      | inr none_left ↦
          rw (locks, got, o.holds, get, load_inode_lem s p at, clamp, none_left, unlocks)
    ]
      where
        p : ℕ
        p = index e.of_inumber

        got : get_open_file_entry fhandle s ≡ ok (some f) s
        got = get_open_file_entry_lem s fhandle f e o

        get : inode_get e.of_inumber s ≡ ok p s
        get =
            inode_get_lem s e.of_inumber (v.opens.is_index f e o.in_use o.holds)
              (v.opens.inode_in_range f e o.in_use o.holds)

    -- On a well-formed file system, with a mutex that can be locked and unlocked, `tfs_read` of an
    -- open handle that is not past the end of its file neither panics nor faults; it returns the
    -- smaller of `len` and the number of bytes left, and those bytes; the offset moves behind them,
    -- and the file system stays well-formed.
    pub tfs_read_inside :
        e.of_offset ≤ n.i_size
        → Returns
            (λ r s'. IsValid b root s' × Got s f e n (min len (n.i_size - e.of_offset)) r s')
            (tfs_read m fhandle len s)
    tfs_read_inside before = elim (Bool-cases (ltb 0 (min len (n.i_size - e.of_offset)))) [
      | inr none_left ↦
          rw (reads _ clamp, none_left)
            (returns (v, nothing (ground arith) (ap (λ k. (pos k, [])) (ground arith)) refl))
      | inl some_left ↦
          let z : 0 < n.i_size = ground arith in
          let d = index n.i_data_block in
          let (block, at_b) =
            get_elem?-some s.fs_data d (omega (arith, v.shape.length_fs_data, safe.in_range z)) in
          let whole : length block ≡ s.fs_params.block_size = v.blocks d block at_b in
          rw
            (
              reads _ clamp,
              some_left,
              read_bytes_lem m s f e n d (min len (n.i_size - e.of_offset)) block o.holds
                  (safe.has_block z) (safe.in_range z) at_b (omega (arith, safe.size_fits))
                  (omega (arith, v.shape.block_size_small)) unlocks,
            )
            (returns (
              advanced-IsValid b root s fhandle f e _ v o (omega (arith, safe.size_fits)),
              bytes d block (ground arith) (safe.has_block z) at_b refl refl,
            ))
    ]
      where
        safe : Safe b s.fs_params n
        safe = v.opens.open_safe f e n o.in_use o.holds at

        clamp : clamp_read n.i_size e.of_offset len ≡ min len (n.i_size - e.of_offset)
        clamp =
            clamp_read-eq-min n.i_size e.of_offset len before
              (omega (arith, safe.size_fits, v.shape.block_size_small))

    -- On a well-formed file system, with a mutex that can be locked and unlocked, an open handle
    -- past the end of its file, whose inode names the block `d` in range, and a count that is
    -- positive and below 2 ^ 63: `tfs_read` is not cut at the end of the file; it returns all `len`
    -- bytes of the block from the offset on, or, where these do not fit the block, reads outside it.
    pub tfs_read_beyond :
        (d : ℕ) (block : List ℕ)
        → n.i_size < e.of_offset
        → n.i_data_block ≡ pos d
        → d < s.fs_params.max_block_count
        → get_elem? s.fs_data d ≡ some block
        → 0 < len
        → len < 2 ^ 63
        → tfs_read m fhandle len s ≡ (
            if leb (e.of_offset + len) s.fs_params.block_size
            then ok (pos len, peek block e.of_offset len) (advanced s f e len)
            else fault)
    unfolding read_bytes data_block_get load_block
    tfs_read_beyond d block after is_d dr at_b pl small =
        elim (Bool-cases (leb (e.of_offset + len) s.fs_params.block_size)) [
          | inl fits ↦ rw (
            reads len clamp,
            lt→ltb 0 len pl,
            read_bytes_lem m s f e n d len block o.holds is_d dr at_b
                (omega (arith, leb→le (e.of_offset + len) s.fs_params.block_size fits, whole))
                (omega (arith, v.shape.block_size_small, whole)) unlocks,
            fits,
          )
          | inr over ↦ rw (reads len clamp, lt→ltb 0 len pl, is_d) (ground (arith, at_b, whole))
        ]
      where
        whole : length block ≡ s.fs_params.block_size
        whole = v.blocks d block at_b

        clamp : clamp_read n.i_size e.of_offset len ≡ len
        clamp =
            clamp_read-wraps n.i_size e.of_offset len after
              (omega (arith, v.opens.offset_fits f e o.in_use o.holds, v.shape.block_size_small))
              small
