-- ===== src/Fs/Init/Root.antt =====
-- The creation of the root directory, and `tfs_init` (fs/operations.c) as a whole.
use projeto_so.Base.{
  ℕ, zero, suc, ◌/◌, ◌<◌, ◌≡◌, refl, ◌∙◌, ◌≢◌, inl, inr, true, false, some, Option, List, pos,
  minus_one, ap, arith, lt→ltb, length, get_elem?, set, length-set, set-set, get_elem?-set,
  get_elem?-set_self, get_elem?-some, lt_of_get_elem?,
}
use projeto_so.Fs.Types.{State, TfsParams, Inode, t_directory, AllocationState, taken, ok}
use projeto_so.Fs.Types.Access.{load_inode_lem, store_inode_lem, load_block_lem, store_block_lem}
use projeto_so.Fs.Tables.{inode_alloc, data_block_alloc, data_block_get}
use projeto_so.Fs.Tables.FirstFree.{IsFirst, inode_alloc-cases, data_block_alloc-cases}
use projeto_so.Fs.Dir.{dir_entry_size, entry}
use projeto_so.Fs.Inodes.{inode_create, create_directory}
use projeto_so.Fs.Init.{Allocs, install, state_init, tfs_init, params_or_default}
use projeto_so.Fs.Init.Loops.{Marked, clear_entries_lem, emptied}
use projeto_so.Fs.Init.Fresh.{Usable, Memory, malloced, AllFree, Blank, free_all_lem}
use projeto_so.Fs.Invariant.{Shape, IsValid}
use projeto_so.Fs.Operations.Write.Valid.{Blocks-set}
use projeto_so.Fs.Returns
use projeto_so.Fs.Returns.{Returns, returns}

-- No entry of the block has a name.
abbrev pub Nameless : ℕ → List ℕ → Type 0
Nameless size block =
    (k : ℕ) → k < size / dir_entry_size → get_elem? (entry block k).d_name 0 ≡ some 0

abbrev pub root_inode : ℕ → Inode
root_inode size = record { i_node_type = t_directory; i_size = size; i_data_block = pos 0 }

first_is_zero :
    (table : List AllocationState) (j : ℕ)
    → 0 < length table
    → AllFree table
    → IsFirst table 0 j
    → j ≡ 0
first_is_zero table zero p all f = refl
first_is_zero table (suc j) p all f =
    ground (arith, f.before 0 (omega arith) (omega arith), all 0 p)

-- The first allocations on blank tables give slot 0.
first_inode :
    (s : State)
    → Shape s
    → 0 < s.fs_params.max_inode_count
    → AllFree s.freeinode_ts
    → inode_alloc s ≡ ok (pos 0) (record s { freeinode_ts = set s.freeinode_ts 0 taken })
first_inode s v p all = elim (inode_alloc-cases s v) [
  | inr (full, e) ↦
      ground (arith, all 0 (omega (arith, v.length_freeinode_ts)), full 0 (omega arith) p)
  | inl (i, f, h, e) ↦
      let z = first_is_zero s.freeinode_ts i (omega (arith, v.length_freeinode_ts)) all f in
      ground (arith, e, z)
]

first_block :
    (s : State)
    → Shape s
    → 0 < s.fs_params.max_block_count
    → AllFree s.free_blocks
    → data_block_alloc s ≡ ok (pos 0) (record s { free_blocks = set s.free_blocks 0 taken })
first_block s v p all = elim (data_block_alloc-cases s v) [
  | inr (full, e) ↦
      ground (arith, all 0 (omega (arith, v.length_free_blocks)), full 0 (omega arith) p)
  | inl (i, f, h, e) ↦
      let z = first_is_zero s.free_blocks i (omega (arith, v.length_free_blocks)) all f in
      ground (arith, e, z)
]

module _ (s : State) (v : Blank s) (block : List ℕ)
    (at_b : get_elem? s.fs_data 0 ≡ some block) where
  -- the state with the root directory made, in which `block'` is its block
  abbrev pub rooted : List ℕ → State
  rooted block' = record s {
    freeinode_ts = set s.freeinode_ts 0 taken;
    free_blocks = set s.free_blocks 0 taken;
    inode_table = set s.inode_table 0 (root_inode s.fs_params.block_size);
    fs_data = set s.fs_data 0 block';
  }

  rooted-IsValid :
      (block' : List ℕ)
      → length block' ≡ length block
      → ((k : ℕ)
          → k < s.fs_params.block_size / dir_entry_size
          → entry block' k ≡ emptied (entry block k))
      → Nameless s.fs_params.block_size block
      → IsValid 0 block' (rooted block')
  rooted-IsValid block' len marked nameless = record {
    shape = ground (
      arith,
      v.shape,
      length-set s.freeinode_ts 0 taken,
      length-set s.free_blocks 0 taken,
      length-set s.inode_table 0 (root_inode s.fs_params.block_size),
      length-set s.fs_data 0 block',
    );
    blocks =
        Blocks-set s.fs_params.block_size s.fs_data 0 block' v.blocks
          (omega (arith, v.blocks 0 block at_b));
    root = record {
      root_taken =
          get_elem?-set_self s.freeinode_ts 0 taken
            (omega (arith, v.some_inode, v.shape.length_freeinode_ts));
      root_inode =
          get_elem?-set_self s.inode_table 0 (root_inode s.fs_params.block_size)
            (omega (arith, v.some_inode, v.shape.length_inode_table));
      root_block_taken =
          get_elem?-set_self s.free_blocks 0 taken
            (omega (arith, v.some_block, v.shape.length_free_blocks));
      root_block = get_elem?-set_self s.fs_data 0 block' (lt_of_get_elem? s.fs_data 0 at_b);
    };
    inodes = record {
      safe = λ i n p t e. absurd (only_root i p t);
      block_taken = λ i n p t e z. absurd (only_root i p t);
      distinct = λ i j n m p q ne t u e f y z. absurd (only_root i p t);
    };
    opens = record {
      is_index = λ h e t f. absurd (none_open h t);
      is_file = λ h e t f. absurd (none_open h t);
      inode_in_range = λ h e t f. absurd (none_open h t);
      offset_fits = λ h e t f. absurd (none_open h t);
      open_safe = λ h e n t f g. absurd (none_open h t);
    };
    entries = record {
      empty_name = λ k h u. ground (arith, marked k h, nameless k h);
      ends = λ k h u. absurd (unused k h u);
      used_index = λ k h u. absurd (unused k h u);
      used_file = λ k h u. absurd (unused k h u);
      used_taken = λ k h u. absurd (unused k h u);
      used_distinct = λ k l h h' u u' e. absurd (unused k h u);
      names_distinct = λ name k l is h h' u u'. absurd (unused k h u.0);
    };
  }
    where
      only_root : (i : ℕ) → 0 < i → get_elem? (set s.freeinode_ts 0 taken) i ≡ some taken → ⊥
      only_root i p t =
          let at : get_elem? s.freeinode_ts i ≡ some taken =
            ground (arith, get_elem?-set s.freeinode_ts 0 i taken) in
          ground (arith, v.inodes_free i (lt_of_get_elem? s.freeinode_ts i at))

      none_open : (h : ℕ) → get_elem? s.free_open_file_entries h ≡ some taken → ⊥
      none_open h t = ground (arith, v.open_free h (lt_of_get_elem? s.free_open_file_entries h t))

      unused :
          (k : ℕ)
          → k < s.fs_params.block_size / dir_entry_size
          → (entry block' k).d_inumber ≢ minus_one
          → ⊥
      unused k h u = ground (arith, marked k h)

  -- On blank tables the root directory becomes inode 0 with block 0, and holds no file.
  pub create_root :
      Nameless s.fs_params.block_size block
      → Returns
          (λ r s'.
            (r ≡ pos 0)
            × ((block' : List ℕ) × IsValid 0 block' s'
                × ((k : ℕ)
                    → k < s'.fs_params.block_size / dir_entry_size
                    → (entry block' k).d_inumber ≡ minus_one)))
          (inode_create t_directory s)
  unfolding inode_create create_directory data_block_get
  create_root nameless =
      rw
        (
          first_inode s v.shape v.some_inode v.inodes_free,
          load_inode_lem s1 0 at_n,
          store_inode_lem s1 0 n1 at_n,
          first_block s2 shape2 v.some_block v.blocks_free,
          load_inode_lem s3 0 at_n1,
          store_inode_lem s3 0 n2 at_n1,
          set-set s.inode_table 0 n1 n2,
          lt→ltb 0 s.fs_params.max_block_count v.some_block,
          load_block_lem s4 0 at_b,
          marked.run,
          store_block_lem s4 0 block' at_b,
        )
        (returns (
          refl,
          (
            block',
            rooted-IsValid block' marked.same_length (λ k h. marked.all_empty k (omega arith) h)
                nameless,
            λ k h. ap (λ e. e.d_inumber) (marked.all_empty k (omega arith) h),
          ),
        ))
    where
      lt_n : 0 < length s.inode_table
      lt_n = omega (arith, v.some_inode, v.shape.length_inode_table)

      n : Inode
      n = (get_elem?-some s.inode_table 0 lt_n).0

      at_n : get_elem? s.inode_table 0 ≡ some n
      at_n = (get_elem?-some s.inode_table 0 lt_n).1

      n1 : Inode
      n1 = record n { i_node_type = t_directory }

      n2 : Inode
      n2 = root_inode s.fs_params.block_size

      s1 : State
      s1 = record s { freeinode_ts = set s.freeinode_ts 0 taken }

      s2 : State
      s2 = record s1 { inode_table = set s.inode_table 0 n1 }

      shape2 : Shape s2
      shape2 =
          ground (arith, v.shape, length-set s.freeinode_ts 0 taken, length-set s.inode_table 0 n1)

      s3 : State
      s3 = record s2 { free_blocks = set s.free_blocks 0 taken }

      at_n1 : get_elem? s3.inode_table 0 ≡ some n1
      at_n1 = get_elem?-set_self s.inode_table 0 n1 lt_n

      s4 : State
      s4 = record s3 { inode_table = set s.inode_table 0 n2 }

      found :
          (block' : List ℕ) × Marked block
            (s.fs_params.block_size / dir_entry_size)
            0
            (s.fs_params.block_size / dir_entry_size)
            block'
      found =
          clear_entries_lem block (s.fs_params.block_size / dir_entry_size) 0
            (s.fs_params.block_size / dir_entry_size) (omega arith)
            (omega (arith, v.blocks 0 block at_b))

      block' : List ℕ
      block' = found.0

      marked :
          Marked block
            (s.fs_params.block_size / dir_entry_size)
            0
            (s.fs_params.block_size / dir_entry_size)
            block'
      marked = found.1

-- In a process that has not called it, with parameters that are in range, memory of the size asked
-- for from every `malloc`, and no name in an entry of the first block of that memory: `tfs_init`
-- neither panics nor faults; it returns 0, and leaves a well-formed file system in which every entry
-- of the root directory is unused.
pub tfs_init_lem :
    (s : State) (params_ptr : Option TfsParams) (mem : Memory (params_or_default params_ptr))
    (block : List ℕ)
    → s.initialised ≡ false
    → Usable (params_or_default params_ptr)
    → get_elem? mem.fs_data 0 ≡ some block
    → Nameless (params_or_default params_ptr).block_size block
    → Returns
        (λ r s'.
          (r ≡ pos 0)
          × ((block' : List ℕ) × IsValid 0 block' s'
              × ((k : ℕ)
                  → k < s'.fs_params.block_size / dir_entry_size
                  → (entry block' k).d_inumber ≡ minus_one)))
        (tfs_init (malloced mem) params_ptr s)
unfolding tfs_init state_init
tfs_init_lem s params_ptr mem block new u at nameless = rw new (
    Returns.bind (free_all_lem s1 shape mem.blocks u.some_inode u.some_block)
      λ r s' (z, blank, params_eq, data_eq). rw z (
        Returns.bind
          (create_root s' blank block (ap (λ t. get_elem? t 0) data_eq ∙ at)
            (λ k h. nameless k (rw params_eq at h)))
          λ r' s'' (z', made). rw z' (returns (refl, made))))
  where
    s1 : State
    s1 =
        install (malloced mem)
          (record s { fs_params = params_or_default params_ptr; initialised = false })

    shape : Shape s1
    shape = ground (arith, u)

-- On a well-formed file system that is initialised, with parameters that name another number of
-- inodes: `tfs_init` returns -1, and the file system is no longer well-formed.
pub tfs_init_again :
    (b : ℕ) (block : List ℕ) (s : State) (a : Allocs) (params : TfsParams)
    → IsValid b block s
    → s.initialised ≡ true
    → params.max_inode_count ≢ s.fs_params.max_inode_count
    → Returns (λ r s'. (r ≡ minus_one) × ¬ (IsValid b block s')) (tfs_init a (some params) s)
unfolding tfs_init state_init
tfs_init_again b block s a params v again other = rw again (
    returns
      (refl, λ w. other (omega (arith, v.shape.length_inode_table, w.shape.length_inode_table))))
