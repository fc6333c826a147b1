-- ===== src/Fs/Operations/Open/Cases.antt =====
-- `tfs_open` (fs/operations.c) as a whole.
use projeto_so.Base.{
  ℕ, ◌/◌, ◌≤◌, ◌<◌, ◌≡◌, ◌≢◌, ◌⊎◌, length, refl, inl, inr, false, some, List, ◌∷◌, ℤ, pos,
  minus_one, is_minus_one, arith, if◌then◌else◌, Bool-cases, get_elem?, get_elem?-set,
  get_elem?-set_self, lt_of_get_elem?,
}
use projeto_so.Libc.CString.{CString, IsCString}
use projeto_so.Fs.Types.{State, Inode, taken, ok}
use projeto_so.Fs.Types.Access.{load_inode_lem}
use projeto_so.Fs.Tables.FirstFree.{IsFirst, AllTaken}
use projeto_so.Fs.Dir.{entry, dir_entry_size}
use projeto_so.Fs.Dir.Commands.{add_dir_entry-cases}
use projeto_so.Fs.Inodes.Files.{
  created, deleted, empty_file, inode_create_file-cases, inode_delete_lem,
}
use projeto_so.Fs.Inodes.{inode_get}
use projeto_so.Fs.Invariant.{IsValid, Hit}
use projeto_so.Fs.Returns
use projeto_so.Fs.Returns.{Returns, returns}
use projeto_so.Fs.Operations.{
  Mutex, has_flag, tfs_o_trunc, tfs_o_append, open_handle, open_existing, open_create,
}
use projeto_so.Fs.Operations.Handles.{inode_get_lem}
use projeto_so.Fs.Operations.Open.{
  Handed, open_handle_lem, Handed-IsValid, truncated, truncate_lem, truncated-IsValid,
}
use projeto_so.Fs.Operations.Open.Create.{
  Safe-empty_file, named, made, not_root, created-Shape, created-Root, undone-IsValid, named-Hit,
  made-IsValid,
}
use projeto_so.Fs.Updates.Entries.{Unnamed}

module _ (b : ℕ) (block : List ℕ) (s : State) (v : IsValid b block s) where
  -- an existing file `i`, which is `n`, after TFS_O_TRUNC has been looked at
  abbrev pub looked_at : ℕ → ℕ → Inode → State
  looked_at mode i n = if has_flag mode tfs_o_trunc then truncated b block s v i n else s

  abbrev pub inode_after : ℕ → Inode → Inode
  inode_after mode n = if has_flag mode tfs_o_trunc then record n { i_size = 0 } else n

  -- where the handle starts
  abbrev pub start_offset : ℕ → Inode → ℕ
  start_offset mode n = if has_flag mode tfs_o_append then (inode_after mode n).i_size else 0

  module _ (mode i : ℕ) (n : Inode) (pi : 0 < i) (t : get_elem? s.freeinode_ts i ≡ some taken)
      (at : get_elem? s.inode_table i ≡ some n) where
    -- With a well-formed state in which the file is in use, the handle is given out.
    give :
        (m : Mutex) (s1 : State) (n1 : Inode) (offset : ℕ)
        → is_minus_one m.unlock ≡ false
        → (v1 : IsValid b block s1) → get_elem? s1.freeinode_ts i ≡ some taken
        → get_elem? s1.inode_table i ≡ some n1
        → offset ≤ n1.i_size
        → Returns
            (λ r s'. Handed s1 i offset r s' × IsValid b block s')
            (open_handle m (pos i) offset s1)
    give m s1 n1 offset unlocks v1 t1 at1 fits =
        let safe = v1.inodes.safe i n1 pi t1 at1 in
        Returns.mono (open_handle_lem m s1 i offset v1.shape unlocks) λ r s' h. (
          h,
          Handed-IsValid b block s1 v1 i offset r s' pi
              (omega (arith, lt_of_get_elem? s1.freeinode_ts i t1, v1.shape.length_freeinode_ts))
              (omega (arith, safe.size_fits)) (λ x ax. ground (arith, safe)) h,
        )

    -- The branch for a file that exists.
    pub open_existing_lem :
        (m : Mutex)
        → is_minus_one m.unlock ≡ false
        → Returns
            (λ r s'. Handed (looked_at mode i n) i (start_offset mode n) r s' × IsValid b block s')
            (open_existing m mode (pos i) s)
    unfolding open_existing
    open_existing_lem m unlocks = elim (Bool-cases (has_flag mode tfs_o_trunc)) [
      | inl trunc ↦
          let at1 =
            get_elem?-set_self s.inode_table i (record n { i_size = 0 })
              (lt_of_get_elem? s.inode_table i at) in
          rw
            (
              get,
              trunc,
              truncate_lem b block s v i n pi t at,
              load_inode_lem (truncated b block s v i n) i at1,
            )
            (give m (truncated b block s v i n) (record n { i_size = 0 }) _ unlocks
              (truncated-IsValid b block s v i n pi t at) t at1 (ground arith))
      | inr keep ↦
          rw (get, keep, load_inode_lem s i at) (give m s n _ unlocks v t at (ground arith))
    ]
      where
        get : inode_get (pos i) s ≡ ok i s
        get =
            inode_get_lem s (pos i) refl
              (omega (arith, lt_of_get_elem? s.freeinode_ts i t, v.shape.length_freeinode_ts))

  -- What the creating branch has done: file `i`, the first free inode, is created and entry `k`
  -- carries its name, and a handle at 0 is given out; or every inode is taken; or the name is longer
  -- than 39 bytes or every entry of the directory is in use, and the inode is given back.
  pub data Made (name : CString) (r : ℤ) (s' : State) : Type 0 where
    fresh :
        (k i : ℕ)
        → k < s.fs_params.block_size / dir_entry_size
        → length name ≤ 39
        → IsFirst s.freeinode_ts 0 i
        → (entry block k).d_inumber ≡ minus_one
        → Hit (named b block s v k i name) name k
        → Handed (made b block s v k i name) i 0 r s'
        → IsValid b (named b block s v k i name) s'
        → Made name r s'
    no_inode :
        AllTaken s.freeinode_ts 0 s.fs_params.max_inode_count
        → r ≡ minus_one
        → s' ≡ s
        → Made name r s'
    no_entry :
        (i : ℕ)
        → (39 < length name)
          ⊎ ((k : ℕ)
              → k < s.fs_params.block_size / dir_entry_size
              → (entry block k).d_inumber ≢ minus_one)
        → IsFirst s.freeinode_ts 0 i
        → r ≡ minus_one
        → s' ≡ deleted (created s i) i empty_file
        → IsValid b block s'
        → Made name r s'

  -- The branch that creates a file.
  pub open_create_lem :
      (m : Mutex) (c : ℕ) (rest : CString)
      → is_minus_one m.unlock ≡ false
      → IsCString (c ∷ rest)
      → Unnamed s.fs_params.block_size s.freeinode_ts block (c ∷ rest)
      → Returns (Made (c ∷ rest)) (open_create m 0 (c ∷ rest) s)
  unfolding open_create
  open_create_lem m c rest unlocks is new = elim (inode_create_file-cases s v.shape) [
    | inr (all, e) ↦ rw (e, unlocks) (returns (no_inode all refl refl))
    | inl (i, f, h, e) ↦
        let free_i = f.is_free in
        elim (add_dir_entry-cases b block (created s i) (created-Shape b block s v i free_i)
          (created-Root b block s v i free_i) (v.blocks b block v.root.root_block) (c ∷ rest)
          (pos i) (omega arith)) [
            | inr (why, added) ↦
                let undo =
                  inode_delete_lem (created s i) (created-Shape b block s v i free_i) i empty_file
                    (get_elem?-set_self s.freeinode_ts i taken
                      (lt_of_get_elem? s.freeinode_ts i free_i))
                    (get_elem?-set_self s.inode_table i empty_file
                      (omega (arith, v.shape.length_inode_table)))
                    (λ q. absurd (omega arith)) (λ q. absurd (omega arith)) in
                rw (e, added, undo, unlocks)
                  (returns (no_entry i why f refl refl (undone-IsValid b block s v i free_i)))
            | inl (k, hk, empty, short, added) ↦
                let v1 = made-IsValid b block s v i free_i k hk (c ∷ rest) is short new in
                rw (e, added)
                  (Returns.mono
                    (open_handle_lem m (made b block s v k i (c ∷ rest)) i 0 v1.shape unlocks)
                    λ r s' g.
                      fresh k i hk short f empty
                        (named-Hit b block s v i free_i k hk (c ∷ rest) is short) g
                        (Handed-IsValid b (named b block s v k i (c ∷ rest))
                          (made b block s v k i (c ∷ rest)) v1 i 0 r s'
                          (not_root b block s v i free_i) h (omega arith)
                          (λ x ax. ground (
                            arith,
                            Safe-empty_file b s,
                            get_elem?-set s.inode_table i i empty_file,
                          ))
                          g))
          ]
  ]
