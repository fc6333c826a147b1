-- ===== src/Fs/Types/Access.antt =====
-- Reads and writes of an inode and of a block that lie in their tables.
use projeto_so.Base.{ℕ, ◌≡◌, some, List, arith, get_elem?, set}
use projeto_so.Fs.Types.{State, Inode, ok, load_inode, store_inode, load_block, store_block}

module _ (s : State) where
  pub load_inode_lem :
      (p : ℕ) {n : Inode} → get_elem? s.inode_table p ≡ some n → load_inode p s ≡ ok n s
  unfolding load_inode
  load_inode_lem p e = ground arith

  pub store_inode_lem :
      (p : ℕ) {n : Inode} (n' : Inode)
      → get_elem? s.inode_table p ≡ some n
      → store_inode p n' s ≡ ok tt (record s { inode_table = set s.inode_table p n' })
  unfolding store_inode
  store_inode_lem p n' e = ground arith

  pub load_block_lem :
      (d : ℕ) {block : List ℕ} → get_elem? s.fs_data d ≡ some block → load_block d s ≡ ok block s
  unfolding load_block
  load_block_lem d e = ground arith

  pub store_block_lem :
      (d : ℕ) {block : List ℕ} (block' : List ℕ)
      → get_elem? s.fs_data d ≡ some block
      → store_block d block' s ≡ ok tt (record s { fs_data = set s.fs_data d block' })
  unfolding store_block
  store_block_lem d block' e = ground arith
