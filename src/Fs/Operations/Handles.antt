-- ===== src/Fs/Operations/Handles.antt =====
-- File handles and the mutex: what `get_open_file_entry` answers, and what a call returns when it
-- unlocks. (fs/state.c, fs/operations.c)
use projeto_so.Base.{
  ℕ, ◌<◌, ◌≡◌, refl, ◌≢◌, ◌⊎◌, inl, inr, none, some, ℤ, pos, negsuc, is_minus_one, arith, ltb,
  ltb→lt, if◌then◌else◌, Bool-cases, get_elem?, get_elem?-some, lt_of_get_elem?,
}
use projeto_so.Fs.Types.{State, AllocationState, free, taken, OpenFileEntry, ok}
use projeto_so.Fs.Tables.{index, get_open_file_entry}
use projeto_so.Fs.Inodes.{inode_get}
use projeto_so.Fs.Invariant.{Shape}
use projeto_so.Fs.Operations.{Mutex, unlock_return}

-- What a call returns that unlocks the mutex and wants to return `result`.
abbrev pub unlocked : {A : Type 0} → Mutex → A → A → A
unlocked m failed result = if is_minus_one m.unlock then failed else result

pub unlock_return_lem :
    {A : Type 0} (m : Mutex) (failed result : A) (s : State)
    → unlock_return m failed result s ≡ ok (unlocked m failed result) s
unlock_return_lem m failed result s = ground arith

-- The handle is entry `f` of the open file table, in use and holding `e`.
pub record IsOpen (s : State) (fhandle : ℤ) (f : ℕ) (e : OpenFileEntry) : Type 0 where
  pub handle : fhandle ≡ pos f
  pub in_range : f < s.fs_params.max_open_files_count
  pub in_use : get_elem? s.free_open_file_entries f ≡ some taken
  pub holds : get_elem? s.open_file_table f ≡ some e

-- The handle is no entry in use.
abbrev pub IsClosed : State → ℤ → Type 0
IsClosed s fhandle = (f : ℕ) → fhandle ≡ pos f → get_elem? s.free_open_file_entries f ≢ some taken

module _ (s : State) (v : Shape s) where
  entry_cases :
      (f : ℕ) (a : AllocationState)
      → f < s.fs_params.max_open_files_count
      → get_elem? s.free_open_file_entries f ≡ some a
      → ((g : ℕ) × (e : OpenFileEntry) × IsOpen s (pos f) g e
          × (get_open_file_entry (pos f) s ≡ ok (some g) s))
        ⊎ (IsClosed s (pos f) × (get_open_file_entry (pos f) s ≡ ok none s))
  unfolding get_open_file_entry
  entry_cases f free p e = inr ((λ g q. ground arith), ground arith)
  entry_cases f taken p e =
      let (x, at) = get_elem?-some s.open_file_table f (omega (arith, v.length_open_file_table)) in
      inl (f, x, record { handle = refl; in_range = p; in_use = e; holds = at }, ground arith)

  pub get_open_file_entry-cases :
      (fhandle : ℤ)
      → ((f : ℕ) × (e : OpenFileEntry) × IsOpen s fhandle f e
          × (get_open_file_entry fhandle s ≡ ok (some f) s))
        ⊎ (IsClosed s fhandle × (get_open_file_entry fhandle s ≡ ok none s))
  unfolding get_open_file_entry
  get_open_file_entry-cases (negsuc n) = inr ((λ f p. ground arith), ground arith)
  get_open_file_entry-cases (pos f) = elim (Bool-cases (ltb f s.fs_params.max_open_files_count)) [
    | inl p ↦
        let q = ltb→lt f s.fs_params.max_open_files_count p in
        let (a, at) =
          get_elem?-some s.free_open_file_entries f (omega (arith, v.length_free_open, q)) in
        entry_cases f a q at
    | inr p ↦ inr ((λ g q. ground (arith, beyond g)), ground arith)
  ]
    where
      beyond :
          (g : ℕ)
          → get_elem? s.free_open_file_entries g ≡ some taken
          → g < s.fs_params.max_open_files_count
      beyond g e = omega (arith, lt_of_get_elem? s.free_open_file_entries g e, v.length_free_open)

-- An inumber in range is its own pointer.
pub inode_get_lem :
    (s : State) (inumber : ℤ)
    → inumber ≡ pos (index inumber)
    → index inumber < s.fs_params.max_inode_count
    → inode_get inumber s ≡ ok (index inumber) s
unfolding inode_get
inode_get_lem s (pos i) e h = ground arith
inode_get_lem s (negsuc i) e h = ground arith

-- The lookup of a handle that is open.
pub get_open_file_entry_lem :
    (s : State) (fhandle : ℤ) (f : ℕ) (e : OpenFileEntry)
    → IsOpen s fhandle f e
    → get_open_file_entry fhandle s ≡ ok (some f) s
unfolding get_open_file_entry
get_open_file_entry_lem s fhandle f e o = rw o.handle (ground (arith, o.in_range, o.in_use))
