-- ===== src/Fs/Operations/Write/Cases.antt =====
-- `tfs_write` (fs/operations.c) as a whole: every branch, and the invariant.
use projeto_so.Base.{
  ℕ, ◌+◌, ◌-◌, ◌^◌, ◌≤◌, ◌<◌, min, ◌≡◌, refl, ◌⊎◌, inl, inr, false, some, List, ℤ, pos, minus_one,
  is_minus_one, arith, ltb, ◌==◌, Bool-cases, length, get_elem?, get_elem?-set, get_elem?-set_self,
  get_elem?-some, lt_of_get_elem?,
}
use projeto_so.Fs.Types.{State, Inode, taken, OpenFileEntry}
use projeto_so.Fs.Tables.{index}
use projeto_so.Fs.Invariant.{IsValid}
use projeto_so.Fs.Returns
use projeto_so.Fs.Returns.{Returns, returns}
use projeto_so.Fs.Operations.{Mutex, write_some, tfs_write}
use projeto_so.Fs.Operations.Handles.{
  IsOpen, IsClosed, get_open_file_entry-cases, get_open_file_entry_lem, inode_get_lem,
}
use projeto_so.Fs.Operations.Write.{
  Written, nothing, in_place, in_new_block, no_space, allocated, clamp_write-eq-min, write_old,
  write_new,
}
use projeto_so.Fs.Operations.Write.Valid.{
  allocated-IsValid, wrote-IsValid, allocated-Unshared, in_place-IsValid,
}

module _ (b : ℕ) (root : List ℕ) (s : State) (v : IsValid b root s) (fhandle : ℤ) (f : ℕ)
    (e : OpenFileEntry) (o : IsOpen s fhandle f e) (n : Inode)
    (at_p : get_elem? s.inode_table (index e.of_inumber) ≡ some n) where
  -- Whatever the write has done, the invariant holds.
  Written-IsValid :
      (buffer : List ℕ) (k : ℕ) (r : ℤ) (s' : State)
      → e.of_offset + k ≤ s.fs_params.block_size
      → Written s f e (index e.of_inumber) n buffer k r s'
      → IsValid b root s'
  Written-IsValid buffer k r s' fits (nothing z got same) = rw same v
  Written-IsValid buffer k r s' fits (no_space pk z all got same) = rw same v
  Written-IsValid buffer k r s' fits (in_place d block pk z is_d at_b got same) =
      rw same (in_place-IsValid b root s v fhandle f e o n at_p d block buffer k fits z is_d at_b)
  Written-IsValid buffer k r s' fits (in_new_block d block pk z first at_b got same) = rw same (
      wrote-IsValid b root s1 v1 fhandle f e o1 n1 at1 d block buffer k at_b (omega arith) refl
        (λ q. ground (arith, v.root.root_block_taken, first.is_free))
        (omega (arith, lt_of_get_elem? s.free_blocks d first.is_free, v.shape.length_free_blocks))
        (λ t.
          get_elem?-set_self s.free_blocks d taken (lt_of_get_elem? s.free_blocks d first.is_free))
        (λ t j m pj ne tj at pm.
          allocated-Unshared b root s v fhandle f e o n at_p d z first.is_free j m pj ne tj
            (ground (arith, get_elem?-set s.inode_table (index e.of_inumber) j n1)) pm)
        fits)
    where
      s1 : State
      s1 = allocated s (index e.of_inumber) n d

      v1 : IsValid b root s1
      v1 = allocated-IsValid b root s v fhandle f e o n at_p d z first.is_free

      n1 : Inode
      n1 = record n { i_data_block = pos d }

      at1 : get_elem? s1.inode_table (index e.of_inumber) ≡ some n1
      at1 =
          get_elem?-set_self s.inode_table (index e.of_inumber) n1
            (lt_of_get_elem? s.inode_table (index e.of_inumber) at_p)

      o1 : IsOpen s1 fhandle f e
      o1 = record { handle = o.handle; in_range = o.in_range; in_use = o.in_use; holds = o.holds }

-- what a call has done, whatever the handle
abbrev pub Writing : State → ℤ → List ℕ → ℕ → ℤ → State → Type 0
Writing s fhandle buffer to_write r s' =
    ((f : ℕ) × (e : OpenFileEntry) × (n : Inode) × IsOpen s fhandle f e
      × (get_elem? s.inode_table (index e.of_inumber) ≡ some n)
      × Written s f e (index e.of_inumber) n buffer
          (min to_write (s.fs_params.block_size - e.of_offset)) r s')
    ⊎ (IsClosed s fhandle × (r ≡ minus_one) × (s' ≡ s))

module _ (b : ℕ) (root : List ℕ) (s : State) (m : Mutex) (fhandle : ℤ) (buffer : List ℕ)
    (to_write : ℕ) (v : IsValid b root s) (locks : is_minus_one m.lock ≡ false)
    (unlocks : is_minus_one m.unlock ≡ false) (enough : to_write ≤ length buffer)
    (small : to_write < 2 ^ 63) where
  some_bytes :
      (f : ℕ) (e : OpenFileEntry) (n : Inode) (o : IsOpen s fhandle f e) (k : ℕ)
      → get_elem? s.inode_table (index e.of_inumber) ≡ some n
      → 0 < k
      → e.of_offset + k ≤ s.fs_params.block_size
      → k ≤ length buffer
      → Returns
          (λ r s'. Written s f e (index e.of_inumber) n buffer k r s')
          (write_some m f e (index e.of_inumber) buffer k s)
  some_bytes f e n o k at_p pk fits have = elim (Bool-cases (n.i_size == 0)) [
    | inl empty ↦
        write_new m unlocks b root s v fhandle f e o n at_p buffer k pk fits have (ground arith)
    | inr full ↦
        write_old m unlocks b root s v fhandle f e o n at_p buffer k pk fits have (ground arith)
  ]

  -- The write through a handle that is open.
  pub write_through :
      (f : ℕ) (e : OpenFileEntry) (n : Inode)
      → IsOpen s fhandle f e
      → get_elem? s.inode_table (index e.of_inumber) ≡ some n
      → Returns
          (λ r s'.
            IsValid b root s'
            × Written s f e
                (index e.of_inumber)
                n
                buffer
                (min to_write (s.fs_params.block_size - e.of_offset))
                r
                s')
          (tfs_write m fhandle buffer to_write s)
  unfolding tfs_write
  write_through f e n o at_p =
      let got = get_open_file_entry_lem s fhandle f e o in
      let range = v.opens.inode_in_range f e o.in_use o.holds in
      let offset = v.opens.offset_fits f e o.in_use o.holds in
      let clamp =
        clamp_write-eq-min s.fs_params.block_size e.of_offset to_write offset
          v.shape.block_size_small small in
      let get = inode_get_lem s e.of_inumber (v.opens.is_index f e o.in_use o.holds) range in
      elim (Bool-cases (ltb 0 (min to_write (s.fs_params.block_size - e.of_offset)))) [
        | inr none_left ↦
            rw (locks, got, o.holds, get, clamp, none_left, unlocks)
              (returns (v, nothing (ground arith) (ground arith) refl))
        | inl some_left ↦
            rw (locks, got, o.holds, get, clamp, some_left)
              (Returns.mono
                (some_bytes f e n o (min to_write (s.fs_params.block_size - e.of_offset)) at_p
                  (ground arith) (omega arith) (omega arith))
                λ r s' w. (
                  Written-IsValid b root s v fhandle f e o n at_p buffer _ r s' (omega arith) w,
                  w,
                ))
      ]

  -- On a well-formed file system, with a mutex that can be locked and unlocked and a buffer that
  -- holds at least `to_write` bytes, where `to_write` is below 2 ^ 63: `tfs_write` neither panics
  -- nor faults; through an open handle it writes the smaller of `to_write` and what is left of the
  -- block, at the offset, as `Written` says; through any other handle it returns -1 and changes
  -- nothing; and the file system stays well-formed.
  pub tfs_write_lem :
      Returns
        (λ r s'. IsValid b root s' × Writing s fhandle buffer to_write r s')
        (tfs_write m fhandle buffer to_write s)
  unfolding tfs_write
  tfs_write_lem = elim (get_open_file_entry-cases s v.shape fhandle) [
    | inr (out, got) ↦ rw (locks, got, unlocks) (returns (v, inr (out, refl, refl)))
    | inl (f, e, o, got) ↦
        let (n, at_p) = get_elem?-some s.inode_table (index e.of_inumber) (
          omega (arith, v.shape.length_inode_table, v.opens.inode_in_range f e o.in_use o.holds)) in
        Returns.mono (write_through f e n o at_p) λ r s' w. (w.0, inl (f, e, n, o, at_p, w.1))
  ]
