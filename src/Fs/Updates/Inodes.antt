-- ===== src/Fs/Updates/Inodes.antt =====
-- Writes to the inode table, to the free-inode table and to the free-block table.
use projeto_so.Base.{ℕ, ◌<◌, ◌≡◌, ◌≢◌, some, List, arith, get_elem?, set, get_elem?-set}
use projeto_so.Fs.Types.{TfsParams, Inode, AllocationState, free, taken}
use projeto_so.Fs.Tables.{index}
use projeto_so.Fs.Invariant.{Safe, Inodes}

module _ (b : ℕ) (params : TfsParams) (inode_table : List Inode)
    (freeinode_ts free_blocks : List AllocationState)
    (v : Inodes b params inode_table freeinode_ts free_blocks) where
  -- no other inode in use has the block `d`
  abbrev pub Unshared : ℕ → ℕ → Type 0
  Unshared i d =
      (j : ℕ) (m : Inode)
      → 0 < j
      → j ≢ i
      → get_elem? freeinode_ts j ≡ some taken
      → get_elem? inode_table j ≡ some m
      → 0 < m.i_size
      → index m.i_data_block ≢ d

  -- An inode may be rewritten if what it says of its block is true.
  pub set_inode :
      (i : ℕ) (n : Inode)
      → Safe b params n
      → (0 < n.i_size
          → get_elem? freeinode_ts i ≡ some taken
          → get_elem? free_blocks (index n.i_data_block) ≡ some taken)
      → (0 < n.i_size → get_elem? freeinode_ts i ≡ some taken → Unshared i (index n.i_data_block))
      → Inodes b params (set inode_table i n) freeinode_ts free_blocks
  set_inode i n ok held alone = record {
    safe = λ j m p t e. ground (arith, get_elem?-set inode_table i j n, v.safe j m p t);
    block_taken =
        λ j m p t e z. ground (arith, get_elem?-set inode_table i j n, v.block_taken j m p t, held);
    distinct = λ j k m l p q ne s t e f y z. ground (
      arith,
      get_elem?-set inode_table i j n,
      get_elem?-set inode_table i k n,
      v.distinct j k m l p q ne s t,
      λ (u : 0 < n.i_size) (w : get_elem? freeinode_ts i ≡ some taken). alone u w j m p,
      λ (u : 0 < n.i_size) (w : get_elem? freeinode_ts i ≡ some taken). alone u w k l q,
    );
  }

  -- An inode may be given back.
  pub free_inode : (i : ℕ) → Inodes b params inode_table (set freeinode_ts i free) free_blocks
  free_inode i = record {
    safe = λ j m p t. ground (arith, get_elem?-set freeinode_ts i j free, v.safe j m p);
    block_taken =
        λ j m p t. ground (arith, get_elem?-set freeinode_ts i j free, v.block_taken j m p);
    distinct = λ j k m l p q ne s t. ground (
      arith,
      get_elem?-set freeinode_ts i j free,
      get_elem?-set freeinode_ts i k free,
      v.distinct j k m l p q ne,
    );
  }

  -- A block may be taken.
  pub take_block : (d : ℕ) → Inodes b params inode_table freeinode_ts (set free_blocks d taken)
  take_block d = record {
    safe = v.safe;
    block_taken = λ j m p t e z. ground (
      arith,
      get_elem?-set free_blocks d (index m.i_data_block) taken,
      v.block_taken j m p t e z,
    );
    distinct = v.distinct;
  }

  -- A block that no inode in use has may be given back.
  pub free_block :
      (d : ℕ) → Unshared 0 d → Inodes b params inode_table freeinode_ts (set free_blocks d free)
  free_block d alone = record {
    safe = v.safe;
    block_taken = λ j m p t e z. ground (
      arith,
      get_elem?-set free_blocks d (index m.i_data_block) free,
      v.block_taken j m p t e z,
      alone j m p (ground arith) t e z,
    );
    distinct = v.distinct;
  }

  -- The block of an inode in use belongs to it alone.
  pub unshared :
      (i : ℕ) (n : Inode)
      → 0 < i
      → get_elem? freeinode_ts i ≡ some taken
      → get_elem? inode_table i ≡ some n
      → 0 < n.i_size
      → Unshared i (index n.i_data_block)
  unshared i n p t e z j m q ne s f y = v.distinct j i m n q p ne s t f e y z

  -- A block that is free belongs to no inode in use.
  pub Unshared-of_free : (i d : ℕ) → get_elem? free_blocks d ≡ some free → Unshared i d
  Unshared-of_free i d e j m q ne s f y same = ground (arith, v.block_taken j m q s f y)

-- A slot may be taken for an empty file.
pub create_inode :
    (b : ℕ) (params : TfsParams) (inode_table : List Inode)
    (freeinode_ts free_blocks : List AllocationState) (i : ℕ) (n : Inode)
    → Inodes b params inode_table freeinode_ts free_blocks
    → n.i_size ≡ 0
    → Inodes b params (set inode_table i n) (set freeinode_ts i taken) free_blocks
create_inode b params inode_table freeinode_ts free_blocks i n v z = record {
  safe = λ j m p t e.
      ground (
        arith,
        get_elem?-set freeinode_ts i j taken,
        get_elem?-set inode_table i j n,
        v.safe j m p,
      );
  block_taken = λ j m p t e. ground (
    arith,
    get_elem?-set freeinode_ts i j taken,
    get_elem?-set inode_table i j n,
    v.block_taken j m p,
  );
  distinct = λ j k m l p q ne s t e f. ground (
    arith,
    get_elem?-set freeinode_ts i j taken,
    get_elem?-set inode_table i j n,
    get_elem?-set freeinode_ts i k taken,
    get_elem?-set inode_table i k n,
    v.distinct j k m l p q ne,
  );
}
