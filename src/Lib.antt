-- ===== src/Lib.antt =====
-- dis-store is remote memory as swap space: Infiniswap, a block device of the kernel that keeps
-- pages in the memory of other machines over RDMA and on a local disk, with the daemon that lends
-- the memory, and the programs that measure it.
--
-- The driver (Infiniswap/infiniswap_bd) divides the device into gigabytes. Each may be mapped to
-- a chunk, a gigabyte in the memory of a server. A request is sent to the disk, and also to the
-- server if its gigabyte is mapped; a bitmap for each chunk records which pages the server holds.
-- The driver and the daemon (Infiniswap/infiniswap_daemon) exchange messages to ask for the free
-- memory, to bind chunks and to give them back.
--
-- The files, and what they model:
-- - Prelude and its children: the shared names, C arrays as lists, words of bits, signed
--   integers.
-- - Bitmap: IS_bitmap_set, IS_bitmap_clear, IS_bitmap_test, IS_bitmap_init, IS_bitmap_group_set,
--   IS_bitmap_group_clear of is_mq.c and bitmap_value of is_main.c. Bitmap/Pages has their laws.
-- - Wire: htonll and ntohll, of infiniswap.h and rdma-common.
-- - Session: the records of infiniswap.h. Session/Tables reads and writes them, Session/Links has
--   the invariant that ties a gigabyte to its chunk, Session/Create models IS_session_create and
--   kernel_cb_init, Session/Chunks models IS_single_chunk_init and IS_chunk_list_init.
-- - Request: IS_request of is_mq.c; Request/Routes says which requests go to a server,
--   Request/Clearing what a write over two gigabytes does to the bitmaps.
-- - Swap: requests carried to their completion (IS_rdma_write, client_write_done, IS_rdma_read,
--   client_read_done); Swap/Coherence and Swap/Memory compare the device with a memory.
-- - Session/Disconnect: IS_disconnect_handler, up to its calls of IS_single_chunk_map;
--   Session/Disconnect/Loss says what the loss of a server leaves.
-- - Session/Receive: client_recv, client_recv_evict and client_recv_stop; Session/Receive/Kept
--   says what a STOP marks, Session/Receive/Handled what a message keeps.
-- - Context: IS_ctx_init, IS_get_ctx, IS_insert_ctx of is_main.c; Context/Pool follows a pool
--   over time, Context/Search is the search for a free context over the connections,
--   Context/Transfer has IS_rdma_read, IS_rdma_write and their completions, and the drain of
--   IS_disconnect_handler.
-- - Backing: stackbd_make_request and its variants, stackbd_threadfn and the completions of
--   is_mq.c; Backing/Order says what reaches the disk.
-- - Selection: how IS_single_chunk_map chooses a server, in Selection/Random which servers are
--   asked and in Selection/Greatest which of them is bound to.
-- - Session/Bind: IS_single_chunk_map whole, with IS_send_query and IS_send_bind_single; what a
--   server answers is an input. Session/Bind/Answer and its siblings follow the exchange,
--   Session/Bind/Whole the call.
-- - Session/Evict: evict_handler with IS_send_activity and IS_send_done, up to its last loop;
--   Session/Evict/Stopping and its siblings follow a STOP. Session/Rebind: the last loops of
--   evict_handler and of IS_disconnect_handler, which bind gigabytes again, and evict_handler
--   from a STOP on, with its wait for transfers; Session/Rebind/Again follows them,
--   Session/Rebind/Stop a STOP from end to end.
-- - Session/Connect: IS_cma_event_handler, IS_bind_client, IS_connect_client, rdma_connect_upper,
--   rdma_connect_down; Session/Connect/Waits says when they wait.
-- - Session/Polled: rdma_cq_event_handler over the completions that it polls, with the bits that
--   client_write_done sets; Session/Polled/Handled says what it keeps, Session/Polled/Broken how
--   it breaks off.
-- - Context/Transfer/Quiet: IS_chunk_wait_in_flight_requests; Context/Transfer/Quiet/First says
--   when it returns.
-- - Trigger: one round of rdma_trigger over the gigabytes, with its calls of IS_single_chunk_map
--   listed; Trigger/Round says what it asks for.
-- - Device: IS_set_device_state, IS_create_device, IS_destroy_device, IS_file_find,
--   IS_register_block_device, IS_unregister_block_device, stackbd_start, where an input says
--   which calls of the kernel succeed; Device/Created has what a creation comes to.
-- - Configfs: IS_device_make_group, device_attr_store, IS_device_drop of is_configfs.c;
--   Configfs/Names and Configfs/Steps are about the names of devices. Configfs/Portals:
--   portal_attr_store, IS_session_find_by_portal and the head of IS_session_create.
-- - Portal: portal_parser, with strsep and the number format of sscanf; Portal/RoundTrip writes
--   the format.
-- - Daemon: the records of rdma-common.h; Daemon/Init models rdma_session_init, Daemon/Accounts
--   has the invariant on the daemon's counters, Daemon/Lend models send_single_mr, send_mr,
--   send_free_mem_size and recv_done of rdma-common.c, Daemon/Resize the part of evict_mem that
--   frees unmapped chunks and the part of free_mem that expands, Daemon/Evict the part of
--   evict_mem that asks the clients and stops the least active chunks, Daemon/Connect
--   build_connection and destroy_connection, Daemon/Completion on_completion. Daemon/Run is the
--   daemon over time: the events of infiniswap-daemon.c, completions, shrinking and growing as
--   steps; Daemon/Run/Owned and its siblings say who has which chunk, Daemon/Run/Kept what stays
--   so.
-- - Protocol: a STOP of the daemon carried out by the driver, and its DONE, from Session/Evict,
--   Session/Receive and Daemon/Lend; Protocol/Taken and Protocol/Stop say that both sides stay in
--   agreement.
-- - Samples and Witness: concrete sessions, and the theorems at them.
--
-- Integers: `unsigned long` sums wrap at 2^64 where the code forms them; an index that the code
-- initialises to -1 is an Option; counters that can go below zero are integers, and so is the
-- free memory that the choice of a server compares; what the servers answer in Session/Bind is
-- not negative. Loops over an array recur on the rounds left, so they need no fuel. The two
-- searches that the code repeats without bound, for a free context and for an open server, have
-- as many rounds as there are connections or servers, so that each is looked at once. A write
-- past the end of an array, which C leaves undefined, changes nothing in the model, and the
-- theorems keep inside by hypothesis.
--
-- Not modelled: the block layer, RDMA verbs, threads, locks and sleeping, the set-up of queue
-- pairs and buffers, the tables of attributes of configfs, module loading, logging, and the
-- benchmark programs under test/. Requests in Swap complete one after the other, and transfers in
-- it succeed.
pub mod Prelude
pub mod Bitmap
pub mod Wire
pub mod Session
pub mod Request
pub mod Swap
pub mod Context
pub mod Backing
pub mod Selection
pub mod Trigger
pub mod Daemon
pub mod Protocol
pub mod Device
pub mod Configfs
pub mod Portal
mod Samples
mod Witness
