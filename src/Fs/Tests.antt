-- ===== src/Fs/Tests.antt =====
-- Runs of fs/operations.c on a small file system: three inodes, four blocks of 100 bytes, two
-- entries in the open file table.
pub mod Witnesses
use projeto_so.Base.{
  ℕ, ◌≡◌, refl, true, false, Option, some, signed32, to_int, List, [], ◌∷◌, ◌++◌, ℤ, pos, minus_one,
  get_elem?, length, ap, ◌∙◌, replicate, get_elem?-replicate,
}
use projeto_so.Libc.Memory.{poke, int_bytes, int_of_bytes}
use projeto_so.Libc.CString.{CString, strcmp_eq, strncmp_eq, strncpy}
use projeto_so.Fs.Types.{
  State, TfsParams, Inode, t_file, t_directory, AllocationState, free, taken, OpenFileEntry, ok,
  load_inode, store_inode, load_block, store_block,
}
use projeto_so.Fs.Tables.{
  first_free, store_at, inode_alloc, data_block_alloc, data_block_free, data_block_get,
  add_to_open_file_table, remove_from_open_file_table, get_open_file_entry,
}
use projeto_so.Fs.Dir.{
  entry, set_inumber, set_name, clear_scan, clear_dir_entry, empty_scan, add_dir_entry, find_scan,
  find_in_dir,
}
use projeto_so.Fs.Inodes.{inode_delete, inode_get, clear_entries, create_directory, inode_create}
use projeto_so.Fs.Init.{fill_free, free_all, state_init, tfs_init}
use projeto_so.Fs.Operations.{
  has_flag, tfs_lookup, open_handle, truncate, open_existing, open_create, tfs_open, tfs_close,
  store_offset, write_bytes, write_some, tfs_write, read_bytes, tfs_read, tfs_unlink, Mutex,
}
use projeto_so.Fs.Init.Fresh.{Usable, Memory, malloced}

abbrev pub working : Mutex
working = record { lock = pos 0; unlock = pos 0 }

abbrev pub params : TfsParams
params = record {
  max_inode_count = 3;
  max_block_count = 4;
  max_open_files_count = 2;
  block_size = 100;
}

abbrev pub empty_inode : Inode
empty_inode = record { i_node_type = t_file; i_size = 0; i_data_block = pos 0 }

abbrev pub no_file : OpenFileEntry
no_file = record { of_inumber = pos 0; of_offset = 0 }

abbrev pub zeros : List ℕ
zeros = replicate 100 0

abbrev pub memory : Memory params
memory = record {
  inode_table = replicate 3 empty_inode;
  freeinode_ts = replicate 3 taken;
  fs_data = replicate 4 zeros;
  free_blocks = replicate 4 taken;
  open_file_table = replicate 2 no_file;
  free_open = replicate 2 taken;
  length_inode_table = refl;
  length_freeinode_ts = refl;
  length_fs_data = refl;
  length_free_blocks = refl;
  length_open_file_table = refl;
  length_free_open = refl;
  blocks = λ d bytes at. ap length (get_elem?-replicate 4 zeros d bytes at);
}

-- before the first call
abbrev pub start : State
start = record {
  fs_params = params;
  initialised = false;
  inode_table = [];
  freeinode_ts = [];
  fs_data = [];
  free_blocks = [];
  open_file_table = [];
  free_open_file_entries = [];
}

abbrev pub unused_entry : List ℕ
unused_entry = replicate 40 0 ++ replicate 4 255

abbrev pub empty_root : List ℕ
empty_root = unused_entry ++ unused_entry ++ replicate 12 0

abbrev pub root_inode : Inode
root_inode = record { i_node_type = t_directory; i_size = 100; i_data_block = pos 0 }

-- after `tfs_init`
abbrev pub fresh_fs : State
fresh_fs = record {
  fs_params = params;
  initialised = true;
  inode_table = root_inode ∷ replicate 2 empty_inode;
  freeinode_ts = taken ∷ free ∷ free ∷ [];
  fs_data = empty_root ∷ replicate 3 zeros;
  free_blocks = taken ∷ replicate 3 free;
  open_file_table = replicate 2 no_file;
  free_open_file_entries = free ∷ free ∷ [];
}

-- "/f"
abbrev pub path : Option CString
path = some (47 ∷ 102 ∷ [])

abbrev pub file_entry : List ℕ
file_entry = 102 ∷ replicate 39 0 ++ 1 ∷ replicate 3 0

abbrev pub file_root : List ℕ
file_root = file_entry ++ unused_entry ++ replicate 12 0

abbrev pub created_fs : State
created_fs = record fresh_fs {
  inode_table =
      root_inode
      ∷ record { i_node_type = t_file; i_size = 0; i_data_block = minus_one }
      ∷ empty_inode
      ∷ [];
  freeinode_ts = taken ∷ taken ∷ free ∷ [];
  fs_data = file_root ∷ replicate 3 zeros;
  open_file_table = record { of_inumber = pos 1; of_offset = 0 } ∷ no_file ∷ [];
  free_open_file_entries = taken ∷ free ∷ [];
}

abbrev pub written_fs : State
written_fs = record created_fs {
  inode_table =
      root_inode
      ∷ record { i_node_type = t_file; i_size = 2; i_data_block = pos 1 }
      ∷ empty_inode
      ∷ [];
  fs_data = file_root ∷ (104 ∷ 105 ∷ replicate 98 0) ∷ replicate 2 zeros;
  free_blocks = taken ∷ taken ∷ free ∷ free ∷ [];
  open_file_table = record { of_inumber = pos 1; of_offset = 2 } ∷ no_file ∷ [];
}

-- a second handle on the file, at its end
abbrev pub shared_fs : State
shared_fs = record written_fs {
  open_file_table =
      record { of_inumber = pos 1; of_offset = 2 }
      ∷ record { of_inumber = pos 1; of_offset = 2 }
      ∷ [];
  free_open_file_entries = taken ∷ taken ∷ [];
}

-- a second handle on the file, at its start
abbrev pub reopened_fs : State
reopened_fs = record shared_fs {
  open_file_table =
      record { of_inumber = pos 1; of_offset = 2 }
      ∷ record { of_inumber = pos 1; of_offset = 0 }
      ∷ [];
}

-- a second handle on the file, which was emptied
abbrev pub emptied_fs : State
emptied_fs = record shared_fs {
  inode_table =
      root_inode
      ∷ record { i_node_type = t_file; i_size = 0; i_data_block = pos 1 }
      ∷ empty_inode
      ∷ [];
  free_blocks = taken ∷ free ∷ free ∷ free ∷ [];
  open_file_table =
      record { of_inumber = pos 1; of_offset = 2 }
      ∷ record { of_inumber = pos 1; of_offset = 0 }
      ∷ [];
}

-- the file removed, with a handle on it still open
abbrev pub unlinked_fs : State
unlinked_fs = record written_fs {
  freeinode_ts = taken ∷ free ∷ free ∷ [];
  fs_data = empty_root ∷ (104 ∷ 105 ∷ replicate 98 0) ∷ replicate 2 zeros;
  free_blocks = taken ∷ free ∷ free ∷ free ∷ [];
}

pub init_run : tfs_init (malloced memory) (some params) start ≡ ok (pos 0) fresh_fs
unfolding signed32 to_int inode_delete inode_get clear_entries create_directory inode_create
    has_flag tfs_lookup open_handle truncate open_existing open_create tfs_open tfs_close
    store_offset write_bytes write_some tfs_write read_bytes tfs_read tfs_unlink fill_free free_all
    state_init tfs_init first_free store_at inode_alloc data_block_alloc data_block_free
    data_block_get add_to_open_file_table remove_from_open_file_table get_open_file_entry load_inode
    store_inode load_block store_block entry set_inumber set_name clear_scan clear_dir_entry
    empty_scan add_dir_entry find_scan find_in_dir poke int_bytes int_of_bytes strcmp_eq strncmp_eq
    strncpy
init_run = refl

pub create_run : tfs_open working path 1 fresh_fs ≡ ok (pos 0) created_fs
unfolding signed32 to_int inode_delete inode_get clear_entries create_directory inode_create
    has_flag tfs_lookup open_handle truncate open_existing open_create tfs_open tfs_close
    store_offset write_bytes write_some tfs_write read_bytes tfs_read tfs_unlink fill_free free_all
    state_init tfs_init first_free store_at inode_alloc data_block_alloc data_block_free
    data_block_get add_to_open_file_table remove_from_open_file_table get_open_file_entry load_inode
    store_inode load_block store_block entry set_inumber set_name clear_scan clear_dir_entry
    empty_scan add_dir_entry find_scan find_in_dir poke int_bytes int_of_bytes strcmp_eq strncmp_eq
    strncpy
create_run = refl

pub write_run : tfs_write working (pos 0) (104 ∷ 105 ∷ []) 2 created_fs ≡ ok (pos 2) written_fs
unfolding signed32 to_int inode_delete inode_get clear_entries create_directory inode_create
    has_flag tfs_lookup open_handle truncate open_existing open_create tfs_open tfs_close
    store_offset write_bytes write_some tfs_write read_bytes tfs_read tfs_unlink fill_free free_all
    state_init tfs_init first_free store_at inode_alloc data_block_alloc data_block_free
    data_block_get add_to_open_file_table remove_from_open_file_table get_open_file_entry load_inode
    store_inode load_block store_block entry set_inumber set_name clear_scan clear_dir_entry
    empty_scan add_dir_entry find_scan find_in_dir poke int_bytes int_of_bytes strcmp_eq strncmp_eq
    strncpy
write_run = refl

pub append_run : tfs_open working path 4 written_fs ≡ ok (pos 1) shared_fs
unfolding signed32 to_int inode_delete inode_get clear_entries create_directory inode_create
    has_flag tfs_lookup open_handle truncate open_existing open_create tfs_open tfs_close
    store_offset write_bytes write_some tfs_write read_bytes tfs_read tfs_unlink fill_free free_all
    state_init tfs_init first_free store_at inode_alloc data_block_alloc data_block_free
    data_block_get add_to_open_file_table remove_from_open_file_table get_open_file_entry load_inode
    store_inode load_block store_block entry set_inumber set_name clear_scan clear_dir_entry
    empty_scan add_dir_entry find_scan find_in_dir poke int_bytes int_of_bytes strcmp_eq strncmp_eq
    strncpy
append_run = refl

pub reopen_run : tfs_open working path 0 written_fs ≡ ok (pos 1) reopened_fs
unfolding signed32 to_int inode_delete inode_get clear_entries create_directory inode_create
    has_flag tfs_lookup open_handle truncate open_existing open_create tfs_open tfs_close
    store_offset write_bytes write_some tfs_write read_bytes tfs_read tfs_unlink fill_free free_all
    state_init tfs_init first_free store_at inode_alloc data_block_alloc data_block_free
    data_block_get add_to_open_file_table remove_from_open_file_table get_open_file_entry load_inode
    store_inode load_block store_block entry set_inumber set_name clear_scan clear_dir_entry
    empty_scan add_dir_entry find_scan find_in_dir poke int_bytes int_of_bytes strcmp_eq strncmp_eq
    strncpy
reopen_run = refl

pub truncate_run : tfs_open working path 2 written_fs ≡ ok (pos 1) emptied_fs
unfolding signed32 to_int inode_delete inode_get clear_entries create_directory inode_create
    has_flag tfs_lookup open_handle truncate open_existing open_create tfs_open tfs_close
    store_offset write_bytes write_some tfs_write read_bytes tfs_read tfs_unlink fill_free free_all
    state_init tfs_init first_free store_at inode_alloc data_block_alloc data_block_free
    data_block_get add_to_open_file_table remove_from_open_file_table get_open_file_entry load_inode
    store_inode load_block store_block entry set_inumber set_name clear_scan clear_dir_entry
    empty_scan add_dir_entry find_scan find_in_dir poke int_bytes int_of_bytes strcmp_eq strncmp_eq
    strncpy
truncate_run = refl

pub unlink_run : tfs_unlink working path written_fs ≡ ok (pos 0) unlinked_fs
unfolding signed32 to_int inode_delete inode_get clear_entries create_directory inode_create
    has_flag tfs_lookup open_handle truncate open_existing open_create tfs_open tfs_close
    store_offset write_bytes write_some tfs_write read_bytes tfs_read tfs_unlink fill_free free_all
    state_init tfs_init first_free store_at inode_alloc data_block_alloc data_block_free
    data_block_get add_to_open_file_table remove_from_open_file_table get_open_file_entry load_inode
    store_inode load_block store_block entry set_inumber set_name clear_scan clear_dir_entry
    empty_scan add_dir_entry find_scan find_in_dir poke int_bytes int_of_bytes strcmp_eq strncmp_eq
    strncpy
unlink_run = refl

pub close_run : tfs_close working (pos 1) written_fs ≡ ok minus_one written_fs
unfolding signed32 to_int inode_delete inode_get clear_entries create_directory inode_create
    has_flag tfs_lookup open_handle truncate open_existing open_create tfs_open tfs_close
    store_offset write_bytes write_some tfs_write read_bytes tfs_read tfs_unlink fill_free free_all
    state_init tfs_init first_free store_at inode_alloc data_block_alloc data_block_free
    data_block_get add_to_open_file_table remove_from_open_file_table get_open_file_entry load_inode
    store_inode load_block store_block entry set_inumber set_name clear_scan clear_dir_entry
    empty_scan add_dir_entry find_scan find_in_dir poke int_bytes int_of_bytes strcmp_eq strncmp_eq
    strncpy
close_run = refl

pub read_run : tfs_read working (pos 0) 5 written_fs ≡ ok (pos 0, []) written_fs
unfolding signed32 to_int inode_delete inode_get clear_entries create_directory inode_create
    has_flag tfs_lookup open_handle truncate open_existing open_create tfs_open tfs_close
    store_offset write_bytes write_some tfs_write read_bytes tfs_read tfs_unlink fill_free free_all
    state_init tfs_init first_free store_at inode_alloc data_block_alloc data_block_free
    data_block_get add_to_open_file_table remove_from_open_file_table get_open_file_entry load_inode
    store_inode load_block store_block entry set_inumber set_name clear_scan clear_dir_entry
    empty_scan add_dir_entry find_scan find_in_dir poke int_bytes int_of_bytes strcmp_eq strncmp_eq
    strncpy
read_run = refl

pub invalid_run : tfs_open working (some (102 ∷ [])) 1 fresh_fs ≡ ok minus_one fresh_fs
unfolding signed32 to_int inode_delete inode_get clear_entries create_directory inode_create
    has_flag tfs_lookup open_handle truncate open_existing open_create tfs_open tfs_close
    store_offset write_bytes write_some tfs_write read_bytes tfs_read tfs_unlink fill_free free_all
    state_init tfs_init first_free store_at inode_alloc data_block_alloc data_block_free
    data_block_get add_to_open_file_table remove_from_open_file_table get_open_file_entry load_inode
    store_inode load_block store_block entry set_inumber set_name clear_scan clear_dir_entry
    empty_scan add_dir_entry find_scan find_in_dir poke int_bytes int_of_bytes strcmp_eq strncmp_eq
    strncpy
invalid_run = refl
