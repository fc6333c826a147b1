-- ===== src/Fs/Dir/Search.antt =====
-- The loops over a directory's entries (fs/state.c): what `find_in_dir`, `clear_dir_entry` and
-- `add_dir_entry` find.
use projeto_so.Base.{
  ℕ, zero, suc, ◌+◌, ◌*◌, ◌/◌, ◌≤◌, ◌<◌, ◌≡◌, refl, ◌∙◌, ◌≢◌, ◌⊎◌, inl, inr, Bool, true, false,
  Option, none, some, List, [], ◌∷◌, ℤ, minus_one, is_minus_one, arith, le→leb, ◌==◌, ==→eq,
  Bool-cases, length, get_elem?,
}
use projeto_so.Libc.CString.{
  CString, IsCString, terminated, strcmp_eq, strncmp_eq, strncmp_eq-strcmp_eq, strcmp_eq-ne-none,
}
use projeto_so.Fs.Types.{AllocationState}
use projeto_so.Fs.Dir.{dir_entry_size, entry, entry?, find_scan, clear_scan, empty_scan}
use projeto_so.Fs.Invariant.{Entries, Hit}

pub is_minus_one_iff : (v : ℤ) → is_minus_one v ≡ true → v ≡ minus_one
is_minus_one_iff v h = ground arith

-- An entry without a name differs from every name that is not empty.
strcmp_eq-empty :
    (bytes : List ℕ) (c : ℕ) (name : CString)
    → get_elem? bytes 0 ≡ some 0
    → 0 < c
    → strcmp_eq bytes (terminated (c ∷ name)) ≡ some false
unfolding strcmp_eq
strcmp_eq-empty [] c name e h = cc
strcmp_eq-empty (x ∷ bytes) c name e h = ground arith

module _ (size : ℕ) (freeinode_ts : List AllocationState) (block : List ℕ)
    (v : Entries size freeinode_ts block) (whole : length block ≡ size) (c : ℕ) (rest : CString)
    (is : IsCString (c ∷ rest)) where
  abbrev name : CString
  name = c ∷ rest

  -- what one round of each loop does at entry `i`
  abbrev Round : ℕ → ℕ → Type 0
  Round n i =
      (Hit block name i
        × (find_scan block name (suc n) i ≡ some (entry block i).d_inumber)
        × (clear_scan block name (suc n) i ≡ some (some i)))
      ⊎ ((¬ (Hit block name i))
          × (find_scan block name (suc n) i ≡ find_scan block name n (i + 1))
          × (clear_scan block name (suc n) i ≡ clear_scan block name n (i + 1)))

  in_block : (i : ℕ) → i < size / dir_entry_size → entry? block i ≡ some (entry block i)
  in_block i h = rw (le→leb (i * dir_entry_size + dir_entry_size) (length block) (omega arith))

  Round-used :
      (n i : ℕ) (same : Option Bool)
      → i < size / dir_entry_size
      → is_minus_one (entry block i).d_inumber ≡ false
      → strcmp_eq (entry block i).d_name (terminated name) ≡ same
      → same ≢ none
      → strncmp_eq 40 (entry block i).d_name (terminated name) ≡ same
      → Round n i
  unfolding find_scan clear_scan
  Round-used n i none h u e total e' = absurd (total refl)
  Round-used n i (some true) h u e total e' =
      inl (((λ q. ground arith), e), ground (arith, in_block i h), ground (arith, in_block i h))
  Round-used n i (some false) h u e total e' =
      inr ((λ hit. ground arith), ground (arith, in_block i h), ground (arith, in_block i h))

  round_lem : (n i : ℕ) → i < size / dir_entry_size → Round n i
  unfolding find_scan clear_scan
  round_lem n i h = elim (Bool-cases (is_minus_one (entry block i).d_inumber)) [
    | inl empty ↦
        let e = is_minus_one_iff (entry block i).d_inumber empty in
        let differs = strcmp_eq-empty (entry block i).d_name c rest (v.empty_name i h e) is.0 in
        inr (
          (λ hit. absurd (hit.0 e)),
          ground (arith, in_block i h),
          ground (arith, in_block i h, differs),
        )
    | inr used ↦
        let u : (entry block i).d_inumber ≢ minus_one = λ q. ground arith in
        let last = v.ends i h u in
        Round-used n i (strcmp_eq (entry block i).d_name (terminated name)) h used refl
          (strcmp_eq-ne-none 39 (entry block i).d_name name last)
          (strncmp_eq-strcmp_eq 40 39 (entry block i).d_name (terminated name) last (omega arith))
  ]

  -- Both loops stop at the first entry that carries the name, or agree that there is none.
  abbrev pub Found : ℕ → ℕ → ℕ → Type 0
  Found n i j =
      ((k : ℕ) × (k < j)
        × Hit block name k
        × (find_scan block name n i ≡ some (entry block k).d_inumber)
        × (clear_scan block name n i ≡ some (some k)))
      ⊎ (((k : ℕ) → i ≤ k → k < j → ¬ (Hit block name k))
          × (find_scan block name n i ≡ some minus_one)
          × (clear_scan block name n i ≡ some none))

  miss_at :
      (i k : ℕ)
      → ¬ (Hit block name i)
      → i ≤ k
      → (suc i ≤ k → ¬ (Hit block name k))
      → ¬ (Hit block name k)
  miss_at i k miss h later = elim (Bool-cases (i == k)) [
    | inl same ↦ rw (==→eq i k same) at miss
    | inr other ↦ later (ground arith)
  ]

  pub find-clear : (n i j : ℕ) → i + n ≡ j → j ≤ size / dir_entry_size → Found n i j
  unfolding find_scan clear_scan
  find-clear zero i j e h = inr ((λ k p q. absurd (omega arith)), refl, refl)
  find-clear (suc n) i j e h = elim (round_lem n i (omega arith)) [
    | inl (hit, r, r') ↦ inl (i, omega arith, hit, r, r')
    | inr (miss, r, r') ↦ elim (find-clear n (i + 1) j (omega arith) h) [
      | inl (k, p, hit, q, q') ↦ inl (k, p, hit, r ∙ q, r' ∙ q')
      | inr (all, q, q') ↦
          inr ((λ k p t. miss_at i k miss p (λ l. all k (omega arith) t)), r ∙ q, r' ∙ q')
    ]
  ]

module _ (size : ℕ) (block : List ℕ) (whole : length block ≡ size) where
  -- The loop of `add_dir_entry` finds an empty entry, unless there is none.
  abbrev pub Emptied : ℕ → ℕ → ℕ → Type 0
  Emptied n i j =
      ((k : ℕ) × (k < j)
        × ((entry block k).d_inumber ≡ minus_one)
        × (empty_scan block n i ≡ some (some k)))
      ⊎ (((k : ℕ) → i ≤ k → k < j → (entry block k).d_inumber ≢ minus_one)
          × (empty_scan block n i ≡ some none))

  used_at :
      (i k : ℕ)
      → (entry block i).d_inumber ≢ minus_one
      → i ≤ k
      → (suc i ≤ k → (entry block k).d_inumber ≢ minus_one)
      → (entry block k).d_inumber ≢ minus_one
  used_at i k used h later = elim (Bool-cases (i == k)) [
    | inl same ↦ rw (==→eq i k same) at used
    | inr other ↦ later (ground arith)
  ]

  pub empty_scan-cases : (n i j : ℕ) → i + n ≡ j → j ≤ size / dir_entry_size → Emptied n i j
  unfolding empty_scan
  empty_scan-cases zero i j e h = inr ((λ k p q. absurd (omega arith)), refl)
  empty_scan-cases (suc n) i j e h = elim (Bool-cases (is_minus_one (entry block i).d_inumber)) [
    | inl empty ↦
        inl
          (i, omega arith, is_minus_one_iff (entry block i).d_inumber empty, ground (arith, inside))
    | inr used ↦
        let u : (entry block i).d_inumber ≢ minus_one = λ q. ground arith in
        elim (empty_scan-cases n (i + 1) j (omega arith) h) [
          | inl (k, p, at, q) ↦ inl (k, p, at, ground (arith, inside, q))
          | inr (all, q) ↦
              inr
                ((λ k p t. used_at i k u p (λ l. all k (omega arith) t)), ground (arith, inside, q))
        ]
  ]
    where
      inside : entry? block i ≡ some (entry block i)
      inside = rw (le→leb (i * dir_entry_size + dir_entry_size) (length block) (omega arith))
