-- ===== src/Fs/Operations/Write/Valid.antt =====
-- `tfs_write` (fs/operations.c) on every branch, and the invariant.
use projeto_so.Base.{
  ℕ, ◌+◌, ◌≤◌, ◌<◌, ◌≡◌, ◌≢◌, refl, some, List, ℤ, pos, arith, length, take, get_elem?, set,
  length-set, get_elem?-set,
}
use projeto_so.Libc.Memory.{poke, length-poke}
use projeto_so.Fs.Types.{State, Inode, free, taken, OpenFileEntry}
use projeto_so.Fs.Tables.{index}
use projeto_so.Fs.Invariant.{Safe, Blocks, IsValid}
use projeto_so.Fs.Operations.Handles.{IsOpen}
use projeto_so.Fs.Operations.Write.{grown, wrote, allocated}
use projeto_so.Fs.Updates.Inodes
use projeto_so.Fs.Updates.Inodes.{Unshared}
use projeto_so.Fs.Updates.Opens

-- Writing inside a block keeps the length of every block.
pub Blocks-set :
    (size : ℕ) (fs_data : List (List ℕ)) (d : ℕ) (bytes : List ℕ)
    → Blocks size fs_data
    → length bytes ≡ size
    → Blocks size (set fs_data d bytes)
Blocks-set size fs_data d bytes v e c other at =
    ground (arith, get_elem?-set fs_data d c bytes, v c other)

module _ (b : ℕ) (root : List ℕ) (s : State) (v : IsValid b root s) (fhandle : ℤ) (f : ℕ)
    (e : OpenFileEntry) (o : IsOpen s fhandle f e) (n : Inode)
    (at_p : get_elem? s.inode_table (index e.of_inumber) ≡ some n) where
  positive : 0 < index e.of_inumber
  positive = v.opens.is_file f e o.in_use o.holds

  -- Giving the empty file a free block keeps the invariant.
  pub allocated-IsValid :
      (d : ℕ)
      → n.i_size ≡ 0
      → get_elem? s.free_blocks d ≡ some free
      → IsValid b root (allocated s (index e.of_inumber) n d)
  allocated-IsValid d z is_free = record {
    shape = ground (
      arith,
      v.shape,
      length-set s.free_blocks d taken,
      length-set s.inode_table (index e.of_inumber) n',
    );
    blocks = v.blocks;
    root = ground (
      arith,
      v.root,
      get_elem?-set s.free_blocks d b taken,
      get_elem?-set s.inode_table (index e.of_inumber) 0 n',
      positive,
    );
    inodes =
        Inodes.take_block b s.fs_params _ s.freeinode_ts s.free_blocks
          (Inodes.set_inode b s.fs_params s.inode_table s.freeinode_ts s.free_blocks v.inodes
            (index e.of_inumber) n' safe' (λ q. absurd (omega arith)) (λ q. absurd (omega arith)))
          d;
    opens =
        Opens.set_inode b s.fs_params s.inode_table s.open_file_table s.free_open_file_entries
          v.opens (index e.of_inumber) n' safe';
    entries = v.entries;
  }
    where
      n' : Inode
      n' = record n { i_data_block = pos d }

      safe' : Safe b s.fs_params n'
      safe' = record {
        size_fits = omega arith;
        has_block = λ q. refl;
        not_root = λ q. absurd (omega arith);
        in_range = λ q. absurd (omega arith);
      }

  -- The write keeps the invariant, if the block is the file's own.
  pub wrote-IsValid :
      (d : ℕ) (block buffer : List ℕ) (k : ℕ)
      → get_elem? s.fs_data d ≡ some block
      → n.i_size ≤ s.fs_params.block_size
      → n.i_data_block ≡ pos d
      → d ≢ b
      → d < s.fs_params.max_block_count
      → (get_elem? s.freeinode_ts (index e.of_inumber) ≡ some taken
          → get_elem? s.free_blocks d ≡ some taken)
      → (get_elem? s.freeinode_ts (index e.of_inumber) ≡ some taken
          → Unshared b s.fs_params s.inode_table s.freeinode_ts s.free_blocks v.inodes
              (index e.of_inumber)
              d)
      → e.of_offset + k ≤ s.fs_params.block_size
      → IsValid b root (wrote s f e (index e.of_inumber) n d block buffer k)
  wrote-IsValid d block buffer k at_b small is_d ne dr held alone fits = record {
    shape = ground (
      arith,
      v.shape,
      length-set s.fs_data d bytes,
      length-set s.inode_table (index e.of_inumber) n',
      length-set s.open_file_table f (record e { of_offset = e.of_offset + k }),
    );
    blocks =
        Blocks-set s.fs_params.block_size s.fs_data d bytes v.blocks
          (omega (arith, length-poke block e.of_offset (take k buffer), v.blocks d block at_b));
    root = ground (
      arith,
      v.root,
      get_elem?-set s.fs_data d b bytes,
      get_elem?-set s.inode_table (index e.of_inumber) 0 n',
      positive,
    );
    inodes =
        Inodes.set_inode b s.fs_params s.inode_table s.freeinode_ts s.free_blocks v.inodes
          (index e.of_inumber) n' safe' (λ q t. ground (arith, held t)) (λ q w. rw is_d (alone w));
    opens =
        Opens.set_offset b s.fs_params _ s.open_file_table s.free_open_file_entries
          (Opens.set_inode b s.fs_params s.inode_table s.open_file_table s.free_open_file_entries
            v.opens (index e.of_inumber) n' safe')
          f e (e.of_offset + k) o.in_use o.holds fits;
    entries = v.entries;
  }
    where
      bytes : List ℕ
      bytes = poke block e.of_offset (take k buffer)

      n' : Inode
      n' = grown n (e.of_offset + k)

      safe' : Safe b s.fs_params n'
      safe' = ground arith

  -- Before the allocation no inode in use had the block.
  pub allocated-Unshared :
      (d : ℕ)
      → n.i_size ≡ 0
      → get_elem? s.free_blocks d ≡ some free
      → Unshared b s.fs_params s.inode_table s.freeinode_ts s.free_blocks v.inodes
          (index e.of_inumber)
          d
  allocated-Unshared d z is_free =
      Inodes.Unshared-of_free b s.fs_params s.inode_table s.freeinode_ts s.free_blocks v.inodes
        (index e.of_inumber) d is_free

  pub in_place-IsValid :
      (d : ℕ) (block buffer : List ℕ) (k : ℕ)
      → e.of_offset + k ≤ s.fs_params.block_size
      → 0 < n.i_size
      → n.i_data_block ≡ pos d
      → get_elem? s.fs_data d ≡ some block
      → IsValid b root (wrote s f e (index e.of_inumber) n d block buffer k)
  in_place-IsValid d block buffer k fits z is_d at_b =
      wrote-IsValid d block buffer k at_b safe.size_fits is_d (λ q. safe.not_root z (rw is_d q))
        (ground (arith, safe.in_range z))
        (λ t. ground (arith, v.inodes.block_taken (index e.of_inumber) n positive t at_p z))
        (λ t. rw is_d at (
          Inodes.unshared b s.fs_params s.inode_table s.freeinode_ts s.free_blocks v.inodes
            (index e.of_inumber) n positive t at_p z))
        fits
    where
      safe : Safe b s.fs_params n
      safe = v.opens.open_safe f e n o.in_use o.holds at_p
