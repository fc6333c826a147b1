-- ===== src/Fs/Inodes/Files.antt =====
-- `inode_create` of a regular file and `inode_delete` (fs/state.c), as equations.
use projeto_so.Base.{
  ℕ, ◌<◌, ◌≡◌, ◌⊎◌, inl, inr, true, some, ℤ, pos, minus_one, arith, ltb, lt→ltb, if◌then◌else◌,
  Bool-cases, length, get_elem?, set, set-set, get_elem?-some, get_elem?-set_self, lt_of_get_elem?,
}
use projeto_so.Fs.Types.{State, Inode, t_file, free, taken, ok}
use projeto_so.Fs.Types.Access.{load_inode_lem, store_inode_lem}
use projeto_so.Fs.Tables.{index, store_at, data_block_free}
use projeto_so.Fs.Tables.FirstFree.{IsFirst, AllTaken, inode_alloc-cases}
use projeto_so.Fs.Inodes.{inode_create, inode_delete}
use projeto_so.Fs.Invariant.{Shape}

abbrev pub empty_file : Inode
empty_file = record { i_node_type = t_file; i_size = 0; i_data_block = minus_one }

-- the state with slot `i` taken for an empty file
abbrev pub created : State → ℕ → State
created s i = record s {
  freeinode_ts = set s.freeinode_ts i taken;
  inode_table = set s.inode_table i empty_file;
}

-- the state with inode `i`, which is `n`, and its block given back
abbrev pub deleted : State → ℕ → Inode → State
deleted s i n = record s {
  free_blocks =
      (if ltb 0 n.i_size then set s.free_blocks (index n.i_data_block) free else s.free_blocks);
  freeinode_ts = set s.freeinode_ts i free;
}

pub data_block_free_lem :
    (s : State) (v : ℤ) (d : ℕ)
    → Shape s
    → v ≡ pos d
    → d < s.fs_params.max_block_count
    → data_block_free v s ≡ ok tt (record s { free_blocks = set s.free_blocks d free })
unfolding data_block_free store_at
data_block_free_lem s v d shape e h =
    let slot = get_elem?-some s.free_blocks d (omega (arith, shape.length_free_blocks)) in
    rw e (ground (arith, slot.1))

module _ (s : State) (v : Shape s) where
  -- Creating a file takes the first free slot and makes it an empty file, or changes nothing.
  pub inode_create_file-cases :
      ((i : ℕ) × IsFirst s.freeinode_ts 0 i
        × (i < s.fs_params.max_inode_count)
        × (inode_create t_file s ≡ ok (pos i) (created s i)))
      ⊎ (AllTaken s.freeinode_ts 0 s.fs_params.max_inode_count
          × (inode_create t_file s ≡ ok minus_one s))
  unfolding inode_create
  inode_create_file-cases = elim (inode_alloc-cases s v) [
    | inr (all, e) ↦ inr (all, rw e)
    | inl (i, f, h, e) ↦
        let lt : i < length s.inode_table = omega (arith, v.length_inode_table) in
        let (n, at) = get_elem?-some s.inode_table i lt in
        let s1 : State = record s { freeinode_ts = set s.freeinode_ts i taken } in
        let n' : Inode = record n { i_node_type = t_file } in
        let s2 : State = record s1 { inode_table = set s.inode_table i n' } in
        let at' = get_elem?-set_self s.inode_table i n' lt in
        inl (
          i,
          f,
          h,
          rw (
            e,
            load_inode_lem s1 i at,
            store_inode_lem s1 i n' at,
            load_inode_lem s2 i at',
            store_inode_lem s2 i empty_file at',
            set-set s.inode_table i n' empty_file,
          ),
        )
  ]

  -- Deleting an inode in use gives back its slot and, if it has contents, its block.
  pub inode_delete_lem :
      (i : ℕ) (n : Inode)
      → get_elem? s.freeinode_ts i ≡ some taken
      → get_elem? s.inode_table i ≡ some n
      → (0 < n.i_size → n.i_data_block ≡ pos (index n.i_data_block))
      → (0 < n.i_size → index n.i_data_block < s.fs_params.max_block_count)
      → inode_delete (pos i) s ≡ ok tt (deleted s i n)
  unfolding inode_delete
  inode_delete_lem i n t at is_d dr = elim (Bool-cases (ltb 0 n.i_size)) [
    | inl full ↦ rw (
      valid,
      t,
      load_inode_lem s i at,
      full,
      data_block_free_lem s n.i_data_block (index n.i_data_block) v (is_d (ground arith))
          (dr (ground arith)),
    )
    | inr empty ↦ rw (valid, t, load_inode_lem s i at, empty)
  ]
    where
      valid : ltb i s.fs_params.max_inode_count ≡ true
      valid =
          lt→ltb i s.fs_params.max_inode_count
            (omega (arith, lt_of_get_elem? s.freeinode_ts i t, v.length_freeinode_ts))
