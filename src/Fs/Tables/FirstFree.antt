-- ===== src/Fs/Tables/FirstFree.antt =====
-- The search for a free slot (fs/state.c): what `inode_alloc`, `data_block_alloc` and
-- `add_to_open_file_table` find and take.
use projeto_so.Base.{
  ℕ, zero, suc, ◌+◌, ◌^◌, min, ltb, lt→ltb, true, ◌≤◌, ◌<◌, ◌≡◌, refl, ◌⊎◌, inl, inr, some, List,
  pos, minus_one, arith, length, get_elem?, set, get_elem?-some, to_int-pos, ℤ,
}
use projeto_so.Fs.Types.{State, AllocationState, free, taken, ok}
use projeto_so.Fs.Tables.{
  Scan, found, not_found, first_free, check_delay, store_at, inode_alloc, data_block_alloc,
  add_to_open_file_table,
}
use projeto_so.Fs.Invariant.{Shape}

-- slot `j` is the first free one from `i` on
pub record IsFirst (table : List AllocationState) (i j : ℕ) : Type 0 where
  pub from : i ≤ j
  pub is_free : get_elem? table j ≡ some free
  pub before : (k : ℕ) → i ≤ k → k < j → get_elem? table k ≡ some taken

-- all slots from `i` up to `j` are taken
abbrev pub AllTaken : List AllocationState → ℕ → ℕ → Type 0
AllTaken table i j = (k : ℕ) → i ≤ k → k < j → get_elem? table k ≡ some taken

abbrev pub Searched : List AllocationState → ℕ → ℕ → Scan → Type 0
Searched table i j r =
    ((m : ℕ) × IsFirst table i m × (m < j) × (r ≡ found m)) ⊎ (AllTaken table i j × (r ≡ not_found))

taken_at :
    (table : List AllocationState) (i k : ℕ)
    → get_elem? table i ≡ some taken
    → i ≤ k
    → (suc i ≤ k → get_elem? table k ≡ some taken)
    → get_elem? table k ≡ some taken
taken_at table i k e h rest = ground arith

first_free-step :
    (table : List AllocationState) (n i j : ℕ) (a : AllocationState)
    → get_elem? table i ≡ some a
    → i < j
    → Searched table (i + 1) j (first_free table n (i + 1))
    → Searched table i j (first_free table (suc n) i)
unfolding first_free
first_free-step table n i j free e h rest = inl (
  i,
  record { from = omega arith; is_free = e; before = λ k p q. absurd (omega arith) },
  h,
  rw (e, first_free),
)
first_free-step table n i j taken e h (inl (m, f, p, r)) = inl (
  m,
  record {
    from = omega (arith, f.from);
    is_free = f.is_free;
    before = λ k p q. taken_at table i k e p (λ s. f.before k (omega arith) q);
  },
  p,
  rw (e, first_free, r),
)
first_free-step table n i j taken e h (inr (all, r)) =
    inr ((λ k p q. taken_at table i k e p (λ s. all k (omega arith) q)), rw (e, first_free, r))

first_free-cases :
    (table : List AllocationState) (n i j : ℕ)
    → i + n ≡ j
    → j ≤ length table
    → Searched table i j (first_free table n i)
unfolding first_free
first_free-cases table zero i j e h = inr ((λ k p q. absurd (omega arith)), refl)
first_free-cases table (suc n) i j e h =
    let (a, at) = get_elem?-some table i (omega arith) in
    first_free-step table n i j a at (omega arith)
      (first_free-cases table n (i + 1) j (omega arith) h)

pub search_all :
    (table : List AllocationState) (count : ℕ)
    → length table ≡ count
    → Searched table 0 count (first_free table count 0)
search_all table count e = first_free-cases table count 0 count (omega arith) (omega arith)

-- The first round of the two allocation loops does not divide by zero.
pub check_delay_lem :
    (count : ℕ) (s : State) → 0 < s.fs_params.block_size → check_delay count s ≡ ok tt s
check_delay_lem count s h = ground arith

module _ (s : State) (v : Shape s) where
  -- On tables of the sizes that the parameters give, with a block size that is not 0 and below 2 ^ 31,
  -- at most 2 ^ 31 inodes and blocks, and fewer than 2 ^ 31 open files: `inode_alloc` takes the first free slot, marks
  -- it as taken and returns its number, or, where every slot is taken, returns -1 and changes nothing.
  pub inode_alloc-cases :
      ((i : ℕ) × IsFirst s.freeinode_ts 0 i
        × (i < s.fs_params.max_inode_count)
        × (inode_alloc s ≡ ok (pos i) (record s { freeinode_ts = set s.freeinode_ts i taken })))
      ⊎ (AllTaken s.freeinode_ts 0 s.fs_params.max_inode_count × (inode_alloc s ≡ ok minus_one s))
  unfolding inode_alloc
  inode_alloc-cases = elim (search_all s.freeinode_ts count v.length_freeinode_ts) [
    | inl (i, f, p, r) ↦
        inl
          (i, f, p, ground (arith, delay, r, to_int-pos i (omega (arith, v.inode_count_small, p))))
    | inr (all, r) ↦ inr (all, ground (arith, delay, r))
  ]
    where
      count : ℕ
      count = s.fs_params.max_inode_count

      delay : check_delay count s ≡ ok tt s
      delay = check_delay_lem count s v.block_size_pos

  -- `data_block_alloc` does the same for blocks.
  pub data_block_alloc-cases :
      ((d : ℕ) × IsFirst s.free_blocks 0 d
        × (d < s.fs_params.max_block_count)
        × (data_block_alloc s ≡ ok (pos d) (record s { free_blocks = set s.free_blocks d taken })))
      ⊎ (AllTaken s.free_blocks 0 s.fs_params.max_block_count
          × (data_block_alloc s ≡ ok minus_one s))
  unfolding data_block_alloc
  data_block_alloc-cases = elim (search_all s.free_blocks count v.length_free_blocks) [
    | inl (d, f, p, r) ↦
        inl
          (d, f, p, ground (arith, delay, r, to_int-pos d (omega (arith, v.block_count_small, p))))
    | inr (all, r) ↦ inr (all, ground (arith, delay, r))
  ]
    where
      count : ℕ
      count = s.fs_params.max_block_count

      delay : check_delay count s ≡ ok tt s
      delay = check_delay_lem count s v.block_size_pos

  -- On tables of the sizes that the parameters give, with a block size that is not 0 and below 2 ^ 31,
  -- at most 2 ^ 31 inodes and blocks, and fewer than 2 ^ 31 open files: `add_to_open_file_table` fills the first free
  -- entry with the inumber and the offset, marks it as taken and returns its number, or, where every
  -- entry is taken, returns -1 and changes nothing.
  pub add_to_open_file_table-cases :
      (inumber : ℤ) (offset : ℕ)
      → ((h : ℕ) × IsFirst s.free_open_file_entries 0 h
          × (h < s.fs_params.max_open_files_count)
          × (add_to_open_file_table inumber offset s
              ≡ ok (pos h) (record s {
                free_open_file_entries = set s.free_open_file_entries h taken;
                open_file_table =
                    set s.open_file_table h (record { of_inumber = inumber; of_offset = offset });
              })))
        ⊎ (AllTaken s.free_open_file_entries 0 s.fs_params.max_open_files_count
            × (add_to_open_file_table inumber offset s ≡ ok minus_one s))
  unfolding add_to_open_file_table store_at
  add_to_open_file_table-cases inumber offset =
      elim (search_all s.free_open_file_entries count v.length_free_open) [
        | inl (h, f, p, r) ↦
            let slot =
              get_elem?-some s.open_file_table h (omega (arith, v.length_open_file_table, p)) in
            inl (h, f, p, ground (arith, cut, r, slot.1))
        | inr (all, r) ↦ inr (all, ground (arith, cut, r, bounded))
      ]
    where
      count : ℕ
      count = s.fs_params.max_open_files_count

      cut : min s.fs_params.max_open_files_count (2 ^ 31) ≡ count
      cut = omega (arith, v.open_count_small)

      bounded : ltb s.fs_params.max_open_files_count (2 ^ 31) ≡ true
      bounded = lt→ltb s.fs_params.max_open_files_count (2 ^ 31) v.open_count_small
