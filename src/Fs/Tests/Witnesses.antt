-- ===== src/Fs/Tests/Witnesses.antt =====
-- The theorems about fs/state.c and fs/operations.c applied to the small file system.
use projeto_so.Base.{
  ℕ, zero, suc, ◌/◌, ◌<◌, ◌⊎◌, set, ◌≡◌, refl, some, List, [], ◌∷◌, ℤ, pos, minus_one, arith,
  get_elem?, replicate,
}
use projeto_so.Libc.CString.{IsCString}
use projeto_so.Fs.Types.{taken, State, Inode, t_file, OpenFileEntry, ok, ◌>>=◌}
use projeto_so.Fs.Tables.{inode_alloc, add_to_open_file_table}
use projeto_so.Fs.Tables.FirstFree.{
  IsFirst, AllTaken, inode_alloc-cases, add_to_open_file_table-cases,
}
use projeto_so.Fs.Dir.{dir_entry_size, entry}
use projeto_so.Fs.Init.{tfs_init}
use projeto_so.Fs.Init.Fresh.{Usable, malloced}
use projeto_so.Fs.Init.Root.{Nameless, tfs_init_lem, tfs_init_again}
use projeto_so.Fs.Invariant.{IsValid}
use projeto_so.Fs.Returns.{Returns, at_run}
use projeto_so.Fs.Operations.{tfs_open, tfs_close, tfs_write, tfs_read, tfs_unlink}
use projeto_so.Fs.Operations.Handles.{IsOpen}
use projeto_so.Fs.Operations.Open.Whole.{Opened, tfs_open_lem, Opened-IsValid}
use projeto_so.Fs.Operations.Write.Cases.{Writing, tfs_write_lem}
use projeto_so.Fs.Operations.Read.{Got, advanced}
use projeto_so.Fs.Operations.Read.Cases.{tfs_read_inside, tfs_read_beyond}
use projeto_so.Fs.Operations.Read.AfterWrite.{read_back}
use projeto_so.Fs.Operations.Unlink.Cases.{Unlinked, tfs_unlink_lem}
use projeto_so.Fs.Operations.Close.{Closing, tfs_close_lem}
use projeto_so.Fs.Tests.{
  working, params, memory, start, zeros, path, empty_root, file_root, fresh_fs, created_fs,
  written_fs, shared_fs, reopened_fs, emptied_fs, init_run, create_run, write_run, append_run,
  reopen_run, truncate_run,
}

usable : Usable params
usable = record {
  block_size_pos = omega arith;
  block_size_small = omega arith;
  some_inode = omega arith;
  inode_count_small = omega arith;
  some_block = omega arith;
  block_count_small = omega arith;
  open_count_small = omega arith;
}

nameless : Nameless 100 zeros
unfolding entry
nameless zero h = refl
nameless (suc zero) h = refl
nameless (suc (suc k)) h = absurd (omega (arith, h))

tfs_init_lem_example :
    Returns
      (λ r s'.
        (r ≡ pos 0)
        × ((block' : List ℕ) × IsValid 0 block' s'
            × ((k : ℕ)
                → k < s'.fs_params.block_size / dir_entry_size
                → (entry block' k).d_inumber ≡ minus_one)))
      (tfs_init (malloced memory) (some params) start)
tfs_init_lem_example = tfs_init_lem start (some params) memory zeros refl usable refl nameless

-- The block of the root directory is the one that the state holds.
valid_at :
    {s : State} {block : List ℕ}
    → (block' : List ℕ) × IsValid 0 block' s
    → get_elem? s.fs_data 0 ≡ some block
    → IsValid 0 block s
valid_at {s} {block} (block', v) at =
    let same : block' ≡ block = ground (arith, v.root.root_block, at) in
    coe 0 1 (i. IsValid 0 (same i) s) v

pub fresh_fs-IsValid : IsValid 0 empty_root fresh_fs
fresh_fs-IsValid = let w = at_run tfs_init_lem_example init_run in valid_at (w.1.0, w.1.1) refl

is_path : IsCString (102 ∷ [])
is_path = (omega arith, tt)

tfs_open_lem_example :
    Returns
      (Opened 0 empty_root fresh_fs fresh_fs-IsValid (102 ∷ []) 1)
      (tfs_open working path 1 fresh_fs)
tfs_open_lem_example =
    tfs_open_lem 0 empty_root fresh_fs fresh_fs-IsValid working path 1 refl refl refl is_path

created_fs-IsValid : IsValid 0 file_root created_fs
created_fs-IsValid =
    valid_at
      (Opened-IsValid 0 empty_root fresh_fs fresh_fs-IsValid (102 ∷ []) 1 (pos 0) created_fs
        (at_run tfs_open_lem_example create_run))
      refl

tfs_write_lem_example :
    Returns
      (λ r s'. IsValid 0 file_root s' × Writing created_fs (pos 0) (104 ∷ 105 ∷ []) 2 r s')
      (tfs_write working (pos 0) (104 ∷ 105 ∷ []) 2 created_fs)
tfs_write_lem_example =
    tfs_write_lem 0 file_root created_fs working (pos 0) (104 ∷ 105 ∷ []) 2 created_fs-IsValid refl
      refl (omega arith) (omega arith)

pub written_fs-IsValid : IsValid 0 file_root written_fs
written_fs-IsValid = (at_run tfs_write_lem_example write_run).0

reopened :
    (mode : ℕ) {r : ℤ} {s : State}
    → tfs_open working path mode written_fs ≡ ok r s
    → (block : List ℕ) × IsValid 0 block s
reopened mode {r} {s} run =
    Opened-IsValid 0 file_root written_fs written_fs-IsValid (102 ∷ []) mode r s (
      at_run
        (tfs_open_lem 0 file_root written_fs written_fs-IsValid working path mode refl refl refl
          is_path)
        run)

shared_fs-IsValid : IsValid 0 file_root shared_fs
shared_fs-IsValid = valid_at (reopened 4 append_run) refl

emptied_fs-IsValid : IsValid 0 file_root emptied_fs
emptied_fs-IsValid = valid_at (reopened 2 truncate_run) refl

abbrev at_end : OpenFileEntry
at_end = record { of_inumber = pos 1; of_offset = 2 }

IsOpen-0 : IsOpen shared_fs (pos 0) 0 at_end
IsOpen-0 = record { handle = refl; in_range = omega arith; in_use = refl; holds = refl }

IsOpen-1 : IsOpen shared_fs (pos 1) 1 at_end
IsOpen-1 = record { handle = refl; in_range = omega arith; in_use = refl; holds = refl }

read_back_example :
    Returns
      (λ r s'. (r ≡ (pos 3, 106 ∷ 107 ∷ 108 ∷ [])) × IsValid 0 file_root s')
      ((tfs_write working (pos 0) (106 ∷ 107 ∷ 108 ∷ []) 3 >>= λ _. tfs_read working (pos 1) 3)
        shared_fs)
read_back_example =
    read_back 0 file_root shared_fs working shared_fs-IsValid refl refl (pos 0) (pos 1) 0 1 at_end
      at_end IsOpen-0 IsOpen-1 (omega arith) refl refl _ refl (omega arith) (106 ∷ 107 ∷ 108 ∷ []) 3
      (omega arith) (omega arith) (omega arith)

reopened_fs-IsValid : IsValid 0 file_root reopened_fs
reopened_fs-IsValid = valid_at (reopened 0 reopen_run) refl

abbrev at_start : OpenFileEntry
at_start = record { of_inumber = pos 1; of_offset = 0 }

abbrev two_bytes : Inode
two_bytes = record { i_node_type = t_file; i_size = 2; i_data_block = pos 1 }

tfs_read_inside_example :
    Returns
      (λ r s'. IsValid 0 file_root s' × Got reopened_fs 1 at_start two_bytes 2 r s')
      (tfs_read working (pos 1) 5 reopened_fs)
tfs_read_inside_example =
    tfs_read_inside 0 file_root reopened_fs working (pos 1) 5 reopened_fs-IsValid refl refl 1
      at_start two_bytes
      (record { handle = refl; in_range = omega arith; in_use = refl; holds = refl }) refl
      (omega arith)

tfs_read_beyond_example :
    tfs_read working (pos 0) 2 emptied_fs ≡ ok (pos 2, 0 ∷ 0 ∷ []) (advanced emptied_fs 0 at_end 2)
tfs_read_beyond_example =
    tfs_read_beyond 0 file_root emptied_fs working (pos 0) 2 emptied_fs-IsValid refl refl 0 at_end _
      (record { handle = refl; in_range = omega arith; in_use = refl; holds = refl }) refl 1
      (104 ∷ 105 ∷ replicate 98 0) (omega arith) refl (omega arith) refl (omega arith) (omega arith)

tfs_unlink_lem_example :
    Returns
      (Unlinked 0 file_root written_fs written_fs-IsValid (102 ∷ []))
      (tfs_unlink working path written_fs)
tfs_unlink_lem_example =
    tfs_unlink_lem 0 file_root written_fs written_fs-IsValid working path refl refl refl is_path

tfs_close_lem_example :
    Returns
      (λ r s'. IsValid 0 file_root s' × Closing written_fs (pos 0) r s')
      (tfs_close working (pos 0) written_fs)
tfs_close_lem_example =
    tfs_close_lem 0 file_root written_fs working (pos 0) written_fs-IsValid refl refl

tfs_init_again_example :
    Returns
      (λ r s'. (r ≡ minus_one) × ¬ (IsValid 0 empty_root s'))
      (tfs_init (malloced memory) (some (record params { max_inode_count = 7 })) fresh_fs)
tfs_init_again_example =
    tfs_init_again 0 empty_root fresh_fs (malloced memory) (record params { max_inode_count = 7 })
      fresh_fs-IsValid refl (omega arith)

inode_alloc-cases_example :
    ((i : ℕ) × IsFirst created_fs.freeinode_ts 0 i
      × (i < 3)
      × (inode_alloc created_fs
          ≡ ok (pos i) (record created_fs { freeinode_ts = set created_fs.freeinode_ts i taken })))
    ⊎ (AllTaken created_fs.freeinode_ts 0 3 × (inode_alloc created_fs ≡ ok minus_one created_fs))
inode_alloc-cases_example = inode_alloc-cases created_fs created_fs-IsValid.shape

add_to_open_file_table-cases_example :
    ((h : ℕ) × IsFirst created_fs.free_open_file_entries 0 h
      × (h < 2)
      × (add_to_open_file_table (pos 1) 5 created_fs
          ≡ ok (pos h) (record created_fs {
            free_open_file_entries = set created_fs.free_open_file_entries h taken;
            open_file_table =
                set created_fs.open_file_table h (record { of_inumber = pos 1; of_offset = 5 });
          })))
    ⊎ (AllTaken created_fs.free_open_file_entries 0 2
        × (add_to_open_file_table (pos 1) 5 created_fs ≡ ok minus_one created_fs))
add_to_open_file_table-cases_example =
    add_to_open_file_table-cases created_fs created_fs-IsValid.shape (pos 1) 5
