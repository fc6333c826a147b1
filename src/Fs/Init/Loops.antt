-- ===== src/Fs/Init/Loops.antt =====
-- The loops that set up the tables (fs/state.c): marking slots as free, and marking the entries of
-- a new directory as empty.
use projeto_so.Base.{
  ℕ, zero, suc, ◌+◌, ◌*◌, ◌≤◌, ◌<◌, ◌≡◌, refl, ◌∙◌, inl, inr, some, List, minus_one, arith, ◌==◌,
  ==→eq, Bool-cases, length, get_elem?, set, length-set, get_elem?-set, get_elem?-set_self,
  get_elem?-some,
}
use projeto_so.Libc.Memory.{int_of_bytes-int_bytes-minus_one}
use projeto_so.Fs.Types.{AllocationState, free, DirEntry}
use projeto_so.Fs.Tables.{store_at}
use projeto_so.Fs.Dir.{entry, set_inumber}
use projeto_so.Fs.Inodes.{clear_entries}
use projeto_so.Fs.Init.{fill_free}
use projeto_so.Fs.Updates.Entries.{entry-set_inumber, length-set_inumber}

-- The loop succeeds with a table of the same length in which the slots from `i` up to `j` are free.
pub record Filled (table : List AllocationState) (n i j : ℕ) (table' : List AllocationState)
    : Type 0 where
  pub run : fill_free table n i ≡ some table'
  pub same_length : length table' ≡ length table
  pub all_free : (k : ℕ) → i ≤ k → k < j → get_elem? table' k ≡ some free
  pub below : (k : ℕ) → k < i → get_elem? table' k ≡ get_elem? table k

fill_one :
    (table : List AllocationState) (i : ℕ)
    → i < length table
    → store_at table i free ≡ some (set table i free)
unfolding store_at
fill_one table i h = let (a, e) = get_elem?-some table i h in ground (arith, e)

pub fill_free_lem :
    (table : List AllocationState) (n i j : ℕ)
    → i + n ≡ j
    → j ≤ length table
    → (table' : List AllocationState) × Filled table n i j table'
unfolding fill_free
fill_free_lem table zero i j e h = (
  table,
  record {
    run = refl;
    same_length = refl;
    all_free = λ k p q. absurd (omega arith);
    below = λ k p. refl;
  },
)
fill_free_lem table (suc n) i j e h =
    let (table', f) =
      fill_free_lem (set table i free) n (i + 1) j (omega arith)
        (omega (arith, length-set table i free)) in
    (
      table',
      record {
        run = ground (arith, fill_one table i (omega arith), f.run);
        same_length = omega (arith, f.same_length, length-set table i free);
        all_free = λ k p q. elim (Bool-cases (i == k)) [
          | inl same ↦
              rw (← ==→eq i k same)
                (f.below i (omega arith) ∙ get_elem?-set_self table i free (omega arith))
          | inr other ↦ f.all_free k (ground arith) q
        ];
        below = λ k p. ground (arith, f.below k (omega arith), get_elem?-set table i k free);
      },
    )

-- the entry, marked as empty
abbrev pub emptied : DirEntry → DirEntry
emptied e = record { d_name = e.d_name; d_inumber = minus_one }

-- The loop succeeds with a block of the same length in which the entries from `i` up to `j` are
-- marked as empty, with their names left as they were.
pub record Marked (block : List ℕ) (n i j : ℕ) (block' : List ℕ) : Type 0 where
  pub run : clear_entries block n i ≡ some block'
  pub same_length : length block' ≡ length block
  pub all_empty : (k : ℕ) → i ≤ k → k < j → entry block' k ≡ emptied (entry block k)
  pub below : (k : ℕ) → k < i → entry block' k ≡ entry block k

pub clear_entries_lem :
    (block : List ℕ) (n i j : ℕ)
    → i + n ≡ j
    → j * 44 ≤ length block
    → (block' : List ℕ) × Marked block n i j block'
unfolding clear_entries
clear_entries_lem block zero i j e h = (
  block,
  record {
    run = refl;
    same_length = refl;
    all_empty = λ k p q. absurd (omega arith);
    below = λ k p. refl;
  },
)
clear_entries_lem block (suc n) i j e h =
    let one = set_inumber block i minus_one in
    let (block', f) =
      clear_entries_lem one n (i + 1) j (omega arith)
        (omega (arith, length-set_inumber block i minus_one)) in
    (
      block',
      record {
        run = ground (arith, f.run);
        same_length = omega (arith, f.same_length, length-set_inumber block i minus_one);
        all_empty = λ k p q. ground (
          arith,
          entry-set_inumber block i k minus_one (omega arith),
          int_of_bytes-int_bytes-minus_one,
          f.all_empty k,
          f.below k,
        );
        below =
            λ k p. ground (arith, entry-set_inumber block i k minus_one (omega arith), f.below k);
      },
    )
