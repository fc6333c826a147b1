-- ===== src/Fs/Dir/Commands.antt =====
-- `find_in_dir`, `clear_dir_entry` and `add_dir_entry` (fs/state.c) on the root directory.
use projeto_so.Base.{
  ℕ, ◌/◌, ◌≤◌, ◌<◌, ◌≡◌, ◌≢◌, ◌⊎◌, inl, inr, false, some, none, List, ◌∷◌, ℤ, pos, minus_one, arith,
  ltb, lt→ltb, ◌==◌, length, set, replicate, lt_of_get_elem?, Bool-cases,
}
use projeto_so.Libc.CString.{CString, IsCString}
use projeto_so.Fs.Types.{State, ok}
use projeto_so.Fs.Types.Access.{load_inode_lem, load_block_lem, store_block_lem}
use projeto_so.Fs.Tables.{data_block_get}
use projeto_so.Fs.Dir.{
  dir_entry_size, entry, find_in_dir, clear_dir_entry, add_dir_entry, name_bytes, find_scan,
  clear_scan,
}
use projeto_so.Fs.Dir.Search.{find-clear, empty_scan-cases}
use projeto_so.Fs.Invariant.{Shape, Root, Entries, Hit}
use projeto_so.Fs.Updates.Entries.{write_entry, Unnamed}

module _ (b : ℕ) (block : List ℕ) (s : State) (shape : Shape s) (root : Root b block s) where
  block_get : data_block_get (pos b) s ≡ ok b s
  unfolding data_block_get
  block_get = rw (
      lt→ltb b s.fs_params.max_block_count (
        omega
          (arith, lt_of_get_elem? s.free_blocks b root.root_block_taken, shape.length_free_blocks)))

  -- what the three functions do before their loop
  find_lem :
      (name : CString) {r : ℤ}
      → find_scan block name (s.fs_params.block_size / dir_entry_size) 0 ≡ some r
      → find_in_dir 0 name s ≡ ok r s
  unfolding find_in_dir
  find_lem name e =
      rw (load_inode_lem s 0 root.root_inode, block_get, load_block_lem s b root.root_block, e)

  pub clear_none :
      (name : CString)
      → clear_scan block name (s.fs_params.block_size / dir_entry_size) 0 ≡ some none
      → clear_dir_entry 0 name s ≡ ok minus_one s
  unfolding clear_dir_entry
  clear_none name e =
      rw (load_inode_lem s 0 root.root_inode, block_get, load_block_lem s b root.root_block, e)

  -- the state with entry `k` of the root directory rewritten
  abbrev pub with_entry : ℕ → ℤ → List ℕ → State
  with_entry k v name = record s { fs_data = set s.fs_data b (write_entry block k v name) }

  pub clear_some :
      (name : CString) (k : ℕ)
      → clear_scan block name (s.fs_params.block_size / dir_entry_size) 0 ≡ some (some k)
      → clear_dir_entry 0 name s ≡ ok (pos 0) (with_entry k minus_one (replicate 40 0))
  unfolding clear_dir_entry
  clear_some name k e = rw (
    load_inode_lem s 0 root.root_inode,
    block_get,
    load_block_lem s b root.root_block,
    e,
    store_block_lem s b (write_entry block k minus_one (replicate 40 0)) root.root_block,
  )

  -- `add_dir_entry` refuses a name that is too long, and a directory in which every entry is in use;
  -- else it fills an empty entry.
  pub add_dir_entry-cases :
      (whole : length block ≡ s.fs_params.block_size)
      → (name : CString) (v : ℤ) → 0 < length name
      → ((k : ℕ) × (k < s.fs_params.block_size / dir_entry_size)
          × ((entry block k).d_inumber ≡ minus_one)
          × (length name ≤ 39)
          × (add_dir_entry 0 name v s ≡ ok (pos 0) (with_entry k v (name_bytes name))))
        ⊎ (((39 < length name)
              ⊎ ((k : ℕ)
                  → k < s.fs_params.block_size / dir_entry_size
                  → (entry block k).d_inumber ≢ minus_one))
            × (add_dir_entry 0 name v s ≡ ok minus_one s))
  unfolding add_dir_entry
  add_dir_entry-cases whole name v p = elim (Bool-cases (ltb 39 (length name))) [
    | inl long ↦ inr (inl (ground (arith, long)), rw (nonempty, long))
    | inr short ↦
        elim (empty_scan-cases s.fs_params.block_size block whole entries 0 entries (omega arith)
          (omega arith)) [
            | inl (k, h, empty, e) ↦ inl (
              k,
              h,
              empty,
              ground arith,
              rw (
                nonempty,
                short,
                load_inode_lem s 0 root.root_inode,
                block_get,
                load_block_lem s b root.root_block,
                e,
                store_block_lem s b (write_entry block k v (name_bytes name)) root.root_block,
              ),
            )
            | inr (all, e) ↦ inr (
              inr (λ k h. all k (omega arith) h),
              rw (
                nonempty,
                short,
                load_inode_lem s 0 root.root_inode,
                block_get,
                load_block_lem s b root.root_block,
                e,
              ),
            )
          ]
  ]
    where
      entries : ℕ
      entries = s.fs_params.block_size / dir_entry_size

      nonempty : (length name == 0) ≡ false
      nonempty = ground arith

  module _ (v : Entries s.fs_params.block_size s.freeinode_ts block)
      (whole : length block ≡ s.fs_params.block_size) where
    -- `find_in_dir` returns the inumber of the entry that carries the name, or -1; for the same
    -- name `clear_dir_entry` would clear the same entry.
    pub find_in_dir-cases :
        (c : ℕ) (rest : CString)
        → IsCString (c ∷ rest)
        → ((k : ℕ) × (k < s.fs_params.block_size / dir_entry_size)
            × Hit block (c ∷ rest) k
            × (find_in_dir 0 (c ∷ rest) s ≡ ok (entry block k).d_inumber s)
            × (clear_scan block (c ∷ rest) (s.fs_params.block_size / dir_entry_size) 0
                ≡ some (some k)))
          ⊎ (Unnamed s.fs_params.block_size s.freeinode_ts block (c ∷ rest)
              × (find_in_dir 0 (c ∷ rest) s ≡ ok minus_one s))
    find_in_dir-cases c rest is =
        elim (find-clear s.fs_params.block_size s.freeinode_ts block v whole c rest is
          (s.fs_params.block_size / dir_entry_size) 0 (s.fs_params.block_size / dir_entry_size)
          (omega arith) (omega arith)) [
            | inl (k, h, hit, e, e') ↦ inl (k, h, hit, find_lem (c ∷ rest) e, e')
            | inr (all, e, e') ↦ inr ((λ k h. all k (omega arith) h), find_lem (c ∷ rest) e)
          ]
