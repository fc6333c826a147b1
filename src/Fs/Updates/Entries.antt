-- ===== src/Fs/Updates/Entries.antt =====
-- Writes to the entries of a directory's block, and to the free-inode table below them.
use projeto_so.Base.{
  ℕ, ◌+◌, ◌*◌, ◌/◌, ◌≤◌, ◌<◌, ◌≡◌, ◌≢◌, inl, inr, true, false, some, List, ℤ, pos, minus_one, arith,
  ◌==◌, ltb, leb, ltb→lt, leb→le, ==→eq, if◌then◌else◌, Bool-cases, length, get_elem?, set,
  replicate, get_elem?-set,
}
use projeto_so.Libc.Memory.{
  peek, poke, int_bytes, int_of_bytes, length-poke, peek-poke_self, peek-poke_before,
  peek-poke_after, length-int_bytes,
}
use projeto_so.Libc.CString.{CString, IsCString, terminated, strcmp_eq}
use projeto_so.Fs.Types.{AllocationState, free, taken}
use projeto_so.Fs.Tables.{index}
use projeto_so.Fs.Dir.{entry, dir_entry_size, set_inumber, set_name}
use projeto_so.Fs.Invariant.{Entries, Hit}

-- both fields of entry `k` written
abbrev pub write_entry : List ℕ → ℕ → ℤ → List ℕ → List ℕ
write_entry block k v name = set_name (set_inumber block k v) k name

module _ (block : List ℕ) where
  pub length-set_inumber : (k : ℕ) (v : ℤ) → length (set_inumber block k v) ≡ length block
  unfolding set_inumber
  length-set_inumber k v = length-poke block _ _

  pub length-set_name : (k : ℕ) (name : List ℕ) → length (set_name block k name) ≡ length block
  unfolding set_name
  length-set_name k name = length-poke block _ _

  -- Writing the inumber of an entry changes that field alone.
  pub entry-set_inumber :
      (k l : ℕ) (v : ℤ)
      → k * 44 + 44 ≤ length block
      → entry (set_inumber block k v) l ≡ (
          if k == l
          then record { d_name = (entry block l).d_name; d_inumber = int_of_bytes (int_bytes v) }
          else entry block l)
  unfolding entry set_inumber
  entry-set_inumber k l v h = ground (
    arith,
    length-int_bytes v,
    peek-poke_self block (k * 44 + 40) (int_bytes v) 4,
    peek-poke_before block (k * 44 + 40) (int_bytes v) (l * 44) 40,
    peek-poke_after block (k * 44 + 40) (int_bytes v) (l * 44) 40,
    peek-poke_before block (k * 44 + 40) (int_bytes v) (l * 44 + 40) 4,
    peek-poke_after block (k * 44 + 40) (int_bytes v) (l * 44 + 40) 4,
  )

  -- Writing the name of an entry leaves the other names,
  name-set_name :
      (k l : ℕ) (name : List ℕ)
      → k * 44 + 44 ≤ length block
      → length name ≡ 40
      → peek (poke block (k * 44) name) (l * 44) 40
        ≡ (if k == l then name else peek block (l * 44) 40)
  name-set_name k l name h e = elim (Bool-cases (k == l)) [
    | inl same ↦
        rw (same, ← ==→eq k l same)
          (peek-poke_self block (k * 44) name 40 (omega arith) (omega arith))
    | inr other ↦ rw other (elim (Bool-cases (ltb k l)) [
      | inl lt ↦ peek-poke_after block (k * 44) name (l * 44) 40 (omega (arith, ltb→lt k l lt))
      | inr ge ↦ peek-poke_before block (k * 44) name (l * 44) 40 (before k l other ge)
    ])
  ]
    where
      before : (k l : ℕ) → (k == l) ≡ false → ltb k l ≡ false → l * 44 + 40 ≤ k * 44
      before k l other ge = ground arith

  -- and every inumber.
  inumber-set_name :
      (k l : ℕ) (name : List ℕ)
      → length name ≡ 40
      → peek (poke block (k * 44) name) (l * 44 + 40) 4 ≡ peek block (l * 44 + 40) 4
  inumber-set_name k l name e = elim (Bool-cases (leb k l)) [
    | inl le ↦ peek-poke_after block (k * 44) name (l * 44 + 40) 4 (omega (arith, leb→le k l le))
    | inr gt ↦ peek-poke_before block (k * 44) name (l * 44 + 40) 4 (before k l gt)
  ]
    where
      before : (k l : ℕ) → leb k l ≡ false → l * 44 + 40 + 4 ≤ k * 44
      before k l gt = ground arith

  pub entry-set_name :
      (k l : ℕ) (name : List ℕ)
      → k * 44 + 44 ≤ length block
      → length name ≡ 40
      → entry (set_name block k name) l ≡ (
          if k == l
          then record { d_name = name; d_inumber = (entry block l).d_inumber }
          else entry block l)
  unfolding entry set_name
  entry-set_name k l name h e = elim (Bool-cases (k == l)) [
    | inl same ↦ rw (name-set_name k l name h e, inumber-set_name k l name e, same)
    | inr other ↦ rw (name-set_name k l name h e, inumber-set_name k l name e, other)
  ]

pub entry-write_entry :
    (block : List ℕ) (k l : ℕ) (v : ℤ) (name : List ℕ)
    → k * 44 + 44 ≤ length block
    → length name ≡ 40
    → int_of_bytes (int_bytes v) ≡ v
    → entry (write_entry block k v name) l
      ≡ (if k == l then record { d_name = name; d_inumber = v } else entry block l)
entry-write_entry block k l v name h e r = ground (
  arith,
  length-set_inumber block k v,
  entry-set_inumber block k l v h,
  entry-set_name (set_inumber block k v) k l name,
)

module _ (size : ℕ) (freeinode_ts : List AllocationState) (block : List ℕ) where
  -- no entry in use has the inode `i`
  abbrev pub Unlisted : ℕ → Type 0
  Unlisted i =
      (k : ℕ)
      → k < size / dir_entry_size
      → (entry block k).d_inumber ≢ minus_one
      → index (entry block k).d_inumber ≢ i

  -- no entry carries the name
  abbrev pub Unnamed : CString → Type 0
  Unnamed name = (k : ℕ) → k < size / dir_entry_size → ¬ (Hit block name k)

  module _ (v : Entries size freeinode_ts block) where
    pub take_slot : (i : ℕ) → Entries size (set freeinode_ts i taken) block
    take_slot i = record {
      empty_name = v.empty_name;
      ends = v.ends;
      used_index = v.used_index;
      used_file = v.used_file;
      used_taken = λ k h u. ground (
        arith,
        get_elem?-set freeinode_ts i (index (entry block k).d_inumber) taken,
        v.used_taken k h u,
      );
      used_distinct = v.used_distinct;
      names_distinct = v.names_distinct;
    }

    pub free_slot : (i : ℕ) → Unlisted i → Entries size (set freeinode_ts i free) block
    free_slot i out = record {
      empty_name = v.empty_name;
      ends = v.ends;
      used_index = v.used_index;
      used_file = v.used_file;
      used_taken = λ k h u. ground (
        arith,
        get_elem?-set freeinode_ts i (index (entry block k).d_inumber) free,
        v.used_taken k h u,
        out k h u,
      );
      used_distinct = v.used_distinct;
      names_distinct = v.names_distinct;
    }

    -- A slot that is free is listed nowhere.
    pub Unlisted-of_free : (i : ℕ) → get_elem? freeinode_ts i ≡ some free → Unlisted i
    Unlisted-of_free i e k h u same = ground (arith, v.used_taken k h u)

    -- The first entry is emptied, with its slot given back.
    pub clear_entry :
        (block' : List ℕ) (k : ℕ)
        → k < size / dir_entry_size
        → (entry block k).d_inumber ≢ minus_one
        → ((l : ℕ)
            → entry block' l ≡ (
                if k == l
                then record { d_name = replicate 40 0; d_inumber = minus_one }
                else entry block l))
        → Entries size (set freeinode_ts (index (entry block k).d_inumber) free) block'
    clear_entry block' k hk uk at = record {
      empty_name = λ l h u. ground (arith, at l, v.empty_name l h);
      ends = λ l h u. ground (arith, at l, v.ends l h);
      used_index = λ l h u. ground (arith, at l, v.used_index l h);
      used_file = λ l h u. ground (arith, at l, v.used_file l h);
      used_taken = λ l h u. ground (
        arith,
        at l,
        get_elem?-set freeinode_ts (index (entry block k).d_inumber)
            (index (entry block l).d_inumber) free,
        v.used_taken l h,
        v.used_distinct k l hk h uk,
      );
      used_distinct = λ l m h h' u u' e. ground (arith, at l, at m, v.used_distinct l m h h');
      names_distinct =
          λ name l m s h h' u u'. ground (arith, at l, at m, v.names_distinct name l m s h h');
    }

    -- An empty entry takes a new name for an inode in use that is listed nowhere.
    pub fill_entry :
        (block' : List ℕ) (k i : ℕ) (bytes : List ℕ)
        → 0 < i
        → get_elem? freeinode_ts i ≡ some taken
        → Unlisted i
        → get_elem? bytes 39 ≡ some 0
        → ((other : CString)
            → IsCString other
            → strcmp_eq bytes (terminated other) ≡ some true
            → Unnamed other)
        → ((l : ℕ)
            → entry block' l
              ≡ (if k == l then record { d_name = bytes; d_inumber = pos i } else entry block l))
        → Entries size freeinode_ts block'
    fill_entry block' k i bytes pi ti out last fresh at = record {
      empty_name = λ l h u. ground (arith, at l, v.empty_name l h);
      ends = λ l h u. ground (arith, at l, v.ends l h);
      used_index = λ l h u. ground (arith, at l, v.used_index l h);
      used_file = λ l h u. ground (arith, at l, v.used_file l h);
      used_taken = λ l h u. ground (arith, at l, v.used_taken l h);
      used_distinct = λ l m h h' u u' e.
          ground (arith, at l, at m, v.used_distinct l m h h', out l h, out m h');
      names_distinct = λ other l m s h h' u u'. ground (
        arith,
        at l,
        at m,
        v.names_distinct other l m s h h',
        λ (q : strcmp_eq bytes (terminated other) ≡ some true). fresh other s q l h,
        λ (q : strcmp_eq bytes (terminated other) ≡ some true). fresh other s q m h',
      );
    }
