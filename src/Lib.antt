-- ===== src/Lib.antt =====
-- A library for the publish/subscribe message broker on an in-memory file system. The programs are
-- the broker (mbroker/mbroker.c), its publishers, subscribers and managers, which talk to it over
-- named pipes; the broker keeps each message box as a file of the file system (fs/) and hands
-- requests to its worker threads through a bounded queue (producer-consumer/).
--
-- Paths are from projeto-so-2022-23-main/.
--
-- The file system, Fs:
--   Fs.Types        the structs of fs/state.h and fs/operations.h, and the global variables of
--                   fs/state.c as the record `State`; a pointer into a table is its index, and
--                   `fs_data` is cut into blocks of bytes. A command is a function from a state to
--                   a value and a state (`ok`), a failed ALWAYS_ASSERT (`panic`), or undefined
--                   behaviour, such as an access outside a table (`fault`).
--   Fs.Tables       inode_alloc, data_block_alloc, data_block_free, data_block_get,
--                   add_to_open_file_table, remove_from_open_file_table, get_open_file_entry.
--   Fs.Dir          find_in_dir, add_dir_entry, clear_dir_entry, on the bytes of a block; an entry
--                   is 40 bytes of name and 4 bytes of inumber, low byte first.
--   Fs.Inodes       inode_create, inode_delete, inode_get.
--   Fs.Init         state_init, state_destroy, tfs_init, tfs_destroy; what malloc returns is a
--                   parameter.
--   Fs.Operations   tfs_open, tfs_close, tfs_write, tfs_read, tfs_unlink of fs/operations.c; what
--                   locking and unlocking the library's mutex return is a parameter (`Mutex`).
--                   Below it, one module for the proofs of each operation.
--   Fs.Invariant    when a state is well-formed (`IsValid b block s`: the root directory has block
--                   `b`, with the bytes `block`): sizes of the tables, the root directory, inodes
--                   in use with blocks of their own, open files with offsets inside a block, and
--                   directory entries with distinct names and inodes.
--   Fs.Updates      writes to one table and the part of the invariant about it.
--   Fs.Returns      a run that neither panics nor faults, with what holds of its result.
--
-- The queue, ProducerConsumer: producer-consumer/producer-consumer.c, one call at a time; and with
-- any number of threads inside in ProducerConsumer.Threads, where what a call does under one lock is
-- one step and the steps interleave in any order. The heap is a list of cells that are live or
-- freed; a wait on a condition variable is the outcome `blocked`; what the pthread functions return
-- is a parameter. Its contents are a list, the oldest element first.
--
-- The list of boxes, BoxList: getBox, insertBox, insertionSort, deleteBox, box_to_string,
-- destroy_list and print_list of utils/common.c, on a heap of cells that are live or freed. A
-- pointer to a box is the number of its cell, and a name comes with the box that its pointer points
-- into, if any. A loop along the list has a number of rounds; the theorems take at least as many as
-- there are boxes.
--
-- The messages between the programs, Protocol: the constants of utils/common.h, the requests as the
-- clients lay them out in their buffers, register_client, and how working_thread takes a request
-- apart. `calloc n` is `n` zero bytes, and `c_string` the string at the start of an array, if the
-- array has a NUL.
--
-- The clients:
--   Publisher       publisher/pub.c: register_pub, send_message, pub_destroy, and the loop of main as
--                   `publish`, on the list of characters that getchar gives.
--   Subscriber      subscriber/sub.c: register_sub, read_message, sub_destroy, and the loop of main
--                   as `subscribe`, on what calloc and read give in each round.
--   Manager         manager/manager.c: box_request, list_box_request.
--   Publisher.Main, Subscriber.Main, Manager.Main
--                   the main functions around these, with what they leave in Clients.
-- A client's function returns its code and what it passed to write. What calloc, malloc, open, read,
-- write, close, mkfifo and unlink return is a parameter; an open of a pipe in a client's main may
-- also wait for ever for its other end.
--
-- The broker, Broker: mbroker/mbroker.c on a `World`, which is the state of the file system, the heap
-- of boxes and what was written to the pipe of the session.
--   Broker.Handlers box_answer, create_box, remove_box, list_box.
--   Broker.Sessions publisher, subscriber, and one round of working_thread as `handle_request`. The
--                   loops of the two sessions keep the memory of their message and the offset of the
--                   pointer into it; a free of a pointer that has moved, and a store that does not fit
--                   the memory, are faults. A read on the pipe of a session fails, since
--                   working_thread opens it for writing only.
--   Broker.Requests the loop of main that reads requests into the queue, as `serve`, and below it the
--                   free of a request by working_thread, as `release`.
-- A run of a handler ends with a value (`done`), a failed assertion, undefined behaviour such as a
-- free of a pointer that calloc did not return (`fault`), or a loop whose rounds are used up
-- (`endless`). The theorems on both sides of a pipe stand in Broker.Answers and Broker.Lists.
--
-- What these need of C's memory and strings is in Libc, and of numbers and lists in Base. A size_t
-- wraps at 2 ^ 64 and an int is two's complement of 32 bits. Loops other than those along the
-- list of boxes are recursions on the number of rounds that the bound of the loop leaves.
--
-- Not modelled: what the broker's main does before and after its loop, such as starting threads; the
-- signals of the clients, which only end a loop; what the programs write to stderr; in which order
-- threads that wait at the queue are woken; writes to a pipe of which only a part is taken;
-- utils/logging.c, which only prints; insert_delay and touch_all_memory, which only spend time;
-- symbolic and hard links, which fs/operations.h declares and nothing defines.
pub mod Base
pub mod Libc
pub mod Fs
pub mod ProducerConsumer
pub mod BoxList
pub mod Protocol
pub mod Publisher
pub mod Subscriber
pub mod Manager
pub mod Broker
pub mod Clients
