-- ===== src/Daemon.antt =====
-- The state of the daemon that lends memory (Infiniswap/infiniswap_daemon/rdma-common.h). An entry
-- that the code initialises to -1, and a connection that may be NULL, is an `Option`; the counters
-- are integers. Handles of the RDMA library and addresses of regions have no part in it, but for
-- what a registered region gives to the client.
pub mod Init
pub mod Accounts
pub mod Lend
pub mod Resize
pub mod Connect
pub mod Completion
pub mod Evict
pub mod Run
use dis_store.Prelude.{ℕ, Bool, Option, none, List, [], get_or, set}
use dis_store.Prelude.Int.{ℤ, pos}
use dis_store.Session.{MessageType}

-- MAX_FREE_MEM_GB, which is also MAX_MR_SIZE_GB.
abbrev pub max_free_mem_gb : ℕ
max_free_mem_gb = 32

abbrev pub max_client : ℕ
max_client = 32

-- `struct message`, with the message types of the client.
pub record Message : Type 0 where
  pub buf : List ℕ
  pub rkey : List ℕ
  pub size_gb : ℤ
  pub type : MessageType

-- `server_state`
pub data ServerState : Type 0 where
  s_wait s_bind s_done : ServerState

-- `cq_qp_state`
pub data CqQpState : Type 0 where
  cq_qp_idle cq_qp_busy cq_qp_down : CqQpState

-- `struct connection`; a semaphore is its count.
pub record Connection : Type 0 where
  pub conn_index : ℕ
  pub sess_chunk_map : List (Option ℕ)
  pub mapped_chunk_size : ℤ
  pub evict_sem : ℕ
  pub stop_sem : ℕ
  pub connected : Bool
  pub recv_msg : Message
  pub send_msg : Message
  pub cq_qp_state : CqQpState
  pub server_state : ServerState

-- `struct rdma_remote_mem`; `malloc_map` is true at CHUNK_MALLOCED.
pub record RemoteMem : Type 0 where
  pub size_gb : ℤ
  pub mapped_size : ℤ
  pub conn_map : List (Option ℕ)
  pub malloc_map : List Bool
  pub conn_chunk_map : List (Option ℕ)

-- `enum conn_state`
pub data ConnState : Type 0 where
  conn_idle conn_connected conn_mapped conn_failed : ConnState

-- `struct rdma_session`
pub record RdmaSession : Type 0 where
  pub conns : List (Option Connection)
  pub conns_state : List ConnState
  pub conn_num : ℤ
  pub rdma_remote : RemoteMem

abbrev pub with_remote : RdmaSession → RemoteMem → RdmaSession
with_remote s m = record s { rdma_remote = m }
