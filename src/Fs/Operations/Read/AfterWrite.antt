-- ===== src/Fs/Operations/Read/AfterWrite.antt =====
-- What is written through one handle is read through another (fs/operations.c).
use projeto_so.Base.{
  ℕ, ◌+◌, ◌-◌, ◌≤◌, ◌<◌, min, ◌≡◌, ◌≢◌, false, some, List, ℤ, pos, is_minus_one, arith, length,
  take, get_elem?, length-take, get_elem?-set, get_elem?-set_self, lt_of_get_elem?,
}
use projeto_so.Libc.Memory.{poke, peek-poke_self}
use projeto_so.Fs.Types.{State, Inode, OpenFileEntry, ◌>>=◌}
use projeto_so.Fs.Tables.{index}
use projeto_so.Fs.Invariant.{IsValid}
use projeto_so.Fs.Returns
use projeto_so.Fs.Returns.{Returns, returns}
use projeto_so.Fs.Operations.{Mutex, tfs_write, tfs_read}
use projeto_so.Fs.Operations.Handles.{IsOpen}
use projeto_so.Fs.Operations.Write.{
  Written, nothing as nothing_written, in_place, in_new_block, no_space, grown, wrote,
}
use projeto_so.Fs.Operations.Write.Cases.{write_through}
use projeto_so.Fs.Operations.Write.Valid.{in_place-IsValid}
use projeto_so.Fs.Operations.Read.{Got, nothing, bytes}
use projeto_so.Fs.Operations.Read.Cases.{tfs_read_inside}

-- The bytes that a read inside the file returns are those that `wrote` left there.
Got-written :
    (s : State) (f g : ℕ) (e x : OpenFileEntry) (p : ℕ) (n : Inode) (d : ℕ) (block buffer : List ℕ)
    (k : ℕ) (r : ℤ × List ℕ) (s'' : State)
    → n.i_data_block ≡ pos d
    → d < length s.fs_data
    → e.of_offset + k ≤ length block
    → k ≤ length buffer
    → 0 < k
    → x.of_offset ≡ e.of_offset
    → Got
        (wrote s f e p n d block buffer k)
        g
        x
        (grown n (e.of_offset + k))
        (min k ((grown n (e.of_offset + k)).i_size - x.of_offset))
        r
        s''
    → r ≡ (pos k, take k buffer)
Got-written s f g e x p n d block buffer k r s'' is_d dl fits enough pk same (nothing z got _) =
    absurd (ground arith)
Got-written s f g e x p n d block buffer k r s'' is_d dl fits enough pk same
      (bytes d' block' pk' is_d' at' got _) =
    let all_k : min k ((grown n (e.of_offset + k)).i_size - x.of_offset) ≡ k = ground arith in
    let same_d : d' ≡ d = ground arith in
    let back =
      peek-poke_self block e.of_offset (take k buffer) k (omega (arith, length-take k buffer))
        (omega (arith, length-take k buffer)) in
    let there = get_elem?-set_self s.fs_data d (poke block e.of_offset (take k buffer)) dl in
    ground (arith, all_k, same_d, back, there)

module _ (b : ℕ) (root : List ℕ) (s : State) (m : Mutex) (v : IsValid b root s)
    (locks : is_minus_one m.lock ≡ false) (unlocks : is_minus_one m.unlock ≡ false)
    (fhandle ghandle : ℤ) (f g : ℕ) (e x : OpenFileEntry) (o : IsOpen s fhandle f e)
    (q : IsOpen s ghandle g x) (ne : f ≢ g) (same_file : x.of_inumber ≡ e.of_inumber)
    (same_offset : x.of_offset ≡ e.of_offset) (n : Inode)
    (at_p : get_elem? s.inode_table (index e.of_inumber) ≡ some n) (z : 0 < n.i_size)
    (buffer : List ℕ) (k : ℕ) (pk : 0 < k) (fits : e.of_offset + k ≤ s.fs_params.block_size)
    (enough : k ≤ length buffer) where
  read_wrote :
      (d : ℕ) (block : List ℕ) (is_d : n.i_data_block ≡ pos d)
      → get_elem? s.fs_data d ≡ some block
      → Returns
          (λ r s'. (r ≡ (pos k, take k buffer)) × IsValid b root s')
          (tfs_read m ghandle k (wrote s f e (index e.of_inumber) n d block buffer k))
  read_wrote d block is_d at_b =
      Returns.mono
        (tfs_read_inside b root s' m ghandle k
          (in_place-IsValid b root s v fhandle f e o n at_p d block buffer k fits z is_d at_b) locks
          unlocks g x n' o' at' (ground (arith, same_offset)))
        λ r s'' w. (
          Got-written s f g e x (index e.of_inumber) n d block buffer k r s'' is_d
              (lt_of_get_elem? s.fs_data d at_b) (omega (arith, v.blocks d block at_b)) enough pk
              same_offset w.1,
          w.0,
        )
    where
      s' : State
      s' = wrote s f e (index e.of_inumber) n d block buffer k

      n' : Inode
      n' = grown n (e.of_offset + k)

      o' : IsOpen s' ghandle g x
      o' = record {
        handle = q.handle;
        in_range = q.in_range;
        in_use = q.in_use;
        holds = ground (
          arith,
          q.holds,
          ne,
          get_elem?-set s.open_file_table f g (record e { of_offset = e.of_offset + k }),
        );
      }

      at' : get_elem? s'.inode_table (index x.of_inumber) ≡ some n'
      at' = rw same_file (
          get_elem?-set_self s.inode_table (index e.of_inumber) n'
            (lt_of_get_elem? s.inode_table (index e.of_inumber) at_p))

  after_writing :
      (r : ℤ) (s' : State)
      → Written s f e (index e.of_inumber) n buffer k r s'
      → Returns
          (λ r' s''. (r' ≡ (pos k, take k buffer)) × IsValid b root s'')
          (tfs_read m ghandle k s')
  after_writing r s' (nothing_written zero got same) = absurd (omega arith)
  after_writing r s' (in_place d block pk' z' is_d at_b got same) =
      rw same (read_wrote d block is_d at_b)
  after_writing r s' (in_new_block d block pk' empty first at_b got same) = absurd (omega arith)
  after_writing r s' (no_space pk' empty all got same) = absurd (omega arith)

  -- On a well-formed file system, with a mutex that can be locked and unlocked, two different open
  -- handles on one file that is not empty, at one offset, and a buffer of at least `k` bytes, where
  -- `k` is positive and fits between the offset and the end of the block: after `tfs_write` of `k`
  -- bytes through the first handle, `tfs_read` of `k` bytes through the second returns `k` and
  -- exactly those bytes, and the file system is well-formed at the end.
  pub read_back :
      Returns
        (λ r s'. (r ≡ (pos k, take k buffer)) × IsValid b root s')
        ((tfs_write m fhandle buffer k >>= λ _. tfs_read m ghandle k) s)
  read_back =
      Returns.bind
        (write_through b root s m fhandle buffer k v locks unlocks enough
          (omega (arith, v.shape.block_size_small)) f e n o at_p)
        λ r s' w.
          after_writing r s'
            (coe 0 1 (i. Written s f e (index e.of_inumber) n buffer (all_fit i) r s') w.1)
    where
      all_fit : min k (s.fs_params.block_size - e.of_offset) ≡ k
      all_fit = omega arith
