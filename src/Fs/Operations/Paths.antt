-- ===== src/Fs/Operations/Paths.antt =====
-- Path names and the lookup of a file (fs/operations.c).
use projeto_so.Base.{
  ℕ, ◌/◌, ◌<◌, ◌≡◌, refl, ◌⊎◌, true, Option, none, some, List, [], ◌∷◌, minus_one, arith,
  lt_of_get_elem?,
}
use projeto_so.Libc.CString.{CString, IsCString}
use projeto_so.Fs.Types.{State, ok, root_dir_inum}
use projeto_so.Fs.Dir.{dir_entry_size, entry, clear_scan}
use projeto_so.Fs.Dir.Commands.{find_in_dir-cases}
use projeto_so.Fs.Inodes.{inode_get}
use projeto_so.Fs.Invariant.{IsValid, Hit}
use projeto_so.Fs.Operations.{valid_pathname, skip_slash, tfs_lookup}
use projeto_so.Fs.Operations.Handles.{inode_get_lem}
use projeto_so.Fs.Updates.Entries.{Unnamed}

-- A valid path is a slash and a name that is not empty.
pub name_of_valid :
    (path : Option CString)
    → valid_pathname path ≡ true
    → (c : ℕ) × (rest : CString) × (skip_slash path ≡ c ∷ rest)
name_of_valid none h = cc
name_of_valid (some []) h = cc
name_of_valid (some (c ∷ [])) h = absurd (ground arith)
name_of_valid (some (c ∷ d ∷ rest)) h = (d, rest, refl)

module _ (b : ℕ) (block : List ℕ) (s : State) (v : IsValid b block s) where
  -- The root directory's inode is always there.
  pub inode_get_root : inode_get root_dir_inum s ≡ ok 0 s
  inode_get_root = inode_get_lem s root_dir_inum refl (
      omega
        (arith, lt_of_get_elem? s.freeinode_ts 0 v.root.root_taken, v.shape.length_freeinode_ts))

  -- Looking up a valid path finds the entry that carries its name, or returns -1.
  pub tfs_lookup-cases :
      (path : Option CString)
      → valid_pathname path ≡ true
      → IsCString (skip_slash path)
      → ((k : ℕ) × (k < s.fs_params.block_size / dir_entry_size)
          × Hit block (skip_slash path) k
          × (tfs_lookup path 0 s ≡ ok (entry block k).d_inumber s)
          × (clear_scan block (skip_slash path) (s.fs_params.block_size / dir_entry_size) 0
              ≡ some (some k)))
        ⊎ (Unnamed s.fs_params.block_size s.freeinode_ts block (skip_slash path)
            × (tfs_lookup path 0 s ≡ ok minus_one s))
  unfolding tfs_lookup
  tfs_lookup-cases path valid is =
      let (c, rest, e) = name_of_valid path valid in
      rw (valid, e)
        (find_in_dir-cases b block s v.shape v.root v.entries (v.blocks b block v.root.root_block) c
          rest (rw e at is))
