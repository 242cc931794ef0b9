-- ===== src/Session.antt =====
-- The state of a swap session and of its servers (Infiniswap/infiniswap_bd/infiniswap.h), as far
-- as the driver decides by it. An entry of an index table that the code initialises to -1 is an
-- `Option`, with `none` for the -1. The counters that the code only adds to and subtracts from are
-- integers. Locks, wait queues, threads and the handles of the RDMA library have no part in it.
pub mod Tables
pub mod Create
pub mod Links
pub mod Chunks
pub mod Disconnect
pub mod Receive
pub mod Evict
pub mod Rebind
pub mod Bind
pub mod Connect
pub mod Polled
use dis_store.Prelude.{ℕ, Bool, Option, none, List}
use dis_store.Prelude.Int.{ℤ}
use dis_store.Bitmap.{Bitmap}

-- STACKBD_SIZE_G: the gigabytes of the device.
abbrev pub stackbd_size_g : ℕ
stackbd_size_g = 12

-- MAX_MR_SIZE_GB: the chunks of one server.
abbrev pub max_mr_size_gb : ℕ
max_mr_size_gb = 32

-- `type` of a message.
pub data MessageType : Type 0 where
  done info info_single free_size evict activity stop bind bind_single query : MessageType

-- `struct IS_rdma_info`. A message with a negative `size_gb` is outside the model.
pub record RdmaInfo : Type 0 where
  pub buf : List ℕ
  pub rkey : List ℕ
  pub size_gb : ℕ
  pub type : MessageType

-- `enum test_state`, in its order.
pub data TestState : Type 0 where
  idle connect_request addr_resolved route_resolved connected free_mem_recv : TestState
  after_free_mem rdma_buf_adv wait_ops recv_stop recv_evict rdma_write_running : TestState
  rdma_read_running send_done rdma_done rdma_read_adv rdma_write_adv : TestState
  cm_disconnect error : TestState

-- `struct remote_chunk_g`. `[]` stands for the null `bitmap_g`.
pub record Chunk : Type 0 where
  pub remote_rkey : ℕ
  pub remote_addr : ℕ
  pub bitmap_g : Bitmap

-- `enum chunk_list_state`.
pub data ChunkListState : Type 0 where
  c_idle c_ready c_evict c_stop : ChunkListState

-- The marks of `evict_chunk_map`: 0x00, 's' and 'a'.
pub data EvictMark : Type 0 where
  unmarked stopping unrelated : EvictMark

-- `struct remote_chunk_g_list`.
pub record ChunkTable : Type 0 where
  pub chunk_list : List Chunk
  pub remote_mapped : List Bool
  pub chunk_size_g : ℤ
  pub target_size_g : ℕ
  pub shrink_size_g : ℕ
  pub chunk_map : List (Option ℕ)
  pub evict_chunk_map : List EvictMark
  pub c_state : ChunkListState

-- `struct kernel_cb`: what the driver keeps of one server.
pub record Cb : Type 0 where
  pub cb_index : ℕ
  pub state : TestState
  pub recv_buf : RdmaInfo
  pub send_buf : RdmaInfo
  pub remote_chunk : ChunkTable

-- `enum cb_state`.
pub data CbState : Type 0 where
  cb_idle cb_connected cb_mapped cb_evicting cb_fail : CbState

-- `struct IS_session`.
pub record Session : Type 0 where
  pub mapped_cb_num : ℤ
  pub cb_list : List Cb
  pub cb_state_list : List CbState
  pub cb_index_map : List (Option ℕ)
  pub chunk_map_cb_chunk : List (Option ℕ)
  pub unmapped_chunk_list : List ℕ
  pub free_chunk_index : ℤ
  pub rdma_on : Bool
  pub write_ops : List ℕ
  pub read_ops : List ℕ
  pub last_ops : List ℕ
  pub trigger_threshold : ℕ
  pub w_weight : ℕ
  pub cur_weight : ℕ
  pub trigger_enable : Bool
