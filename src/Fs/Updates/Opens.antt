-- ===== src/Fs/Updates/Opens.antt =====
-- Writes to the inode table and to the open file table, seen from the open files.
use projeto_so.Base.{
  ℕ, ◌≤◌, ◌<◌, ◌≡◌, none, some, List, pos, arith, ◌==◌, if◌then◌else◌, get_elem?, set,
  get_elem?-set,
}
use projeto_so.Fs.Types.{TfsParams, Inode, AllocationState, free, taken, OpenFileEntry}
use projeto_so.Fs.Tables.{index}
use projeto_so.Fs.Invariant.{Safe, Opens}

module _ (b : ℕ) (params : TfsParams) (inode_table : List Inode) (files : List OpenFileEntry)
    (free_open : List AllocationState) (v : Opens b params inode_table files free_open) where
  pub set_inode :
      (i : ℕ) (n : Inode) → Safe b params n → Opens b params (set inode_table i n) files free_open
  set_inode i n ok = record {
    is_index = v.is_index;
    is_file = v.is_file;
    inode_in_range = v.inode_in_range;
    offset_fits = v.offset_fits;
    open_safe = λ h e m t f.
        ground (arith, get_elem?-set inode_table i (index e.of_inumber) n, v.open_safe h e m t f);
  }

  pub close : (h : ℕ) → Opens b params inode_table files (set free_open h free)
  close h = record {
    is_index = λ g e t. ground (arith, get_elem?-set free_open h g free, v.is_index g e);
    is_file = λ g e t. ground (arith, get_elem?-set free_open h g free, v.is_file g e);
    inode_in_range =
        λ g e t. ground (arith, get_elem?-set free_open h g free, v.inode_in_range g e);
    offset_fits = λ g e t. ground (arith, get_elem?-set free_open h g free, v.offset_fits g e);
    open_safe = λ g e m t. ground (arith, get_elem?-set free_open h g free, v.open_safe g e m);
  }

  -- An entry is written for a file that is safe.
  pub open_file :
      (h i : ℕ) (offset : ℕ)
      → 0 < i
      → i < params.max_inode_count
      → offset ≤ params.block_size
      → ((n : Inode) → get_elem? inode_table i ≡ some n → Safe b params n)
      → Opens b params inode_table
          (set files h (record { of_inumber = pos i; of_offset = offset }))
          (set free_open h taken)
  open_file h i offset p q o ok = record {
    is_index = λ g e t f. ground (arith, get_elem?-set free_open h g taken, at g, v.is_index g e);
    is_file = λ g e t f. ground (arith, get_elem?-set free_open h g taken, at g, v.is_file g e);
    inode_in_range =
        λ g e t f. ground (arith, get_elem?-set free_open h g taken, at g, v.inode_in_range g e);
    offset_fits =
        λ g e t f. ground (arith, get_elem?-set free_open h g taken, at g, v.offset_fits g e);
    open_safe = λ g e m t f y.
        ground (arith, get_elem?-set free_open h g taken, at g, v.open_safe g e m, ok m);
  }
    where
      new : OpenFileEntry
      new = record { of_inumber = pos i; of_offset = offset }

      at :
          (g : ℕ)
          → get_elem? (set files h new) g ≡ (
              if h == g
              then (elim (get_elem? files g) [ none ↦ none | some _ ↦ some new ])
              else get_elem? files g)
      at g = get_elem?-set files h g new

  -- The offset of an entry moves inside the block.
  pub set_offset :
      (h : ℕ) (e : OpenFileEntry) (offset : ℕ)
      → get_elem? free_open h ≡ some taken
      → get_elem? files h ≡ some e
      → offset ≤ params.block_size
      → Opens b params inode_table (set files h (record e { of_offset = offset })) free_open
  set_offset h e offset t f o = record {
    is_index = λ g e' u w. ground (arith, at g, v.is_index g e', v.is_index h e);
    is_file = λ g e' u w. ground (arith, at g, v.is_file g e', v.is_file h e);
    inode_in_range = λ g e' u w. ground (arith, at g, v.inode_in_range g e', v.inode_in_range h e);
    offset_fits = λ g e' u w. ground (arith, at g, v.offset_fits g e');
    open_safe = λ g e' m u w y. ground (arith, at g, v.open_safe g e' m, v.open_safe h e m);
  }
    where
      moved : OpenFileEntry
      moved = record e { of_offset = offset }

      at :
          (g : ℕ)
          → get_elem? (set files h moved) g ≡ (
              if h == g
              then (elim (get_elem? files g) [ none ↦ none | some _ ↦ some moved ])
              else get_elem? files g)
      at g = get_elem?-set files h g moved
