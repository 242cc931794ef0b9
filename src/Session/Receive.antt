-- ===== src/Session/Receive.antt =====
-- A message of a server comes in: client_recv, client_recv_evict and client_recv_stop
-- (Infiniswap/infiniswap_bd/is_main.c). Waking those who wait has no part in it.
pub mod Kept
pub mod Handled
use dis_store.Prelude.{
  ℕ, zero, suc, ◌+◌, Bool, true, false, Option, none, some, List, [], ◌∷◌, ◌==◌, if◌then◌else◌,
  get_or, set, not,
}
use dis_store.Session.{
  Session, Cb, ChunkTable, RdmaInfo, CbState, ChunkListState, EvictMark, unmarked, stopping,
  unrelated, max_mr_size_gb, MessageType, done, info, info_single, free_size, evict, activity, stop,
  bind, bind_single, query, TestState, idle, connect_request, addr_resolved, route_resolved,
  connected, free_mem_recv, after_free_mem, rdma_buf_adv, wait_ops, recv_stop, recv_evict,
  rdma_write_running, rdma_read_running, send_done, rdma_done, rdma_read_adv, rdma_write_adv,
  cm_disconnect, error,
}
use dis_store.Session.Tables.{cb_at, with_cb, with_table}
use dis_store.Session.Chunks.{single_chunk_init, chunk_list_init}

-- `state < CONNECTED`
abbrev pub before_connected : TestState → Bool
before_connected idle = true
before_connected connect_request = true
before_connected addr_resolved = true
before_connected route_resolved = true
before_connected _ = false

-- client_recv_evict
unfoldable pub client_recv_evict : Cb → Cb
client_recv_evict cb =
    if cb.recv_buf.size_gb == 0
    then cb
    else with_table cb (record (cb.remote_chunk) {
      shrink_size_g = cb.recv_buf.size_gb;
      c_state = ChunkListState.c_evict;
    })

-- The loop of client_recv_stop, from chunk `i` on with `n` rounds left.
unfoldable pub mark_from : ℕ → ℕ → List ℕ → List EvictMark → List EvictMark
mark_from zero i rkey marks = marks
mark_from (suc n) i rkey marks =
    mark_from n (i + 1) rkey
      (set marks i (if get_or rkey i 0 == 0 then EvictMark.unrelated else EvictMark.stopping))

-- client_recv_stop
unfoldable pub client_recv_stop : Cb → Cb
client_recv_stop cb =
    let t : ChunkTable = cb.remote_chunk in
    with_table cb (record t {
      shrink_size_g = cb.recv_buf.size_gb;
      c_state = ChunkListState.c_stop;
      evict_chunk_map =
          if cb.recv_buf.size_gb == 0
          then t.evict_chunk_map
          else mark_from max_mr_size_gb 0 cb.recv_buf.rkey t.evict_chunk_map;
    })

-- What client_recv comes to: 0, -1, or a fault of IS_chunk_list_init.
pub data Received : Type 0 where
  accepted : Session → Received
  refused fault : Received

abbrev pub with_state : Cb → TestState → Cb
with_state cb state = record cb { state = state }

-- CB_MAPPED and WAIT_OPS.
abbrev pub mapping : Session → ℕ → Session
mapping s c =
    let cb : Cb = cb_at s c in
    record (with_cb s c (with_state cb TestState.wait_ops)) {
      cb_state_list = set s.cb_state_list cb.cb_index CbState.cb_mapped;
    }

unfoldable pub or_fault : Option Session → Received
or_fault none = fault
or_fault (some s) = accepted s

-- The message of server `c`, of type `type`.
unfoldable pub recv_type : Session → ℕ → MessageType → Received
recv_type s c free_size =
    let cb : Cb = cb_at s c in
    accepted (
      with_cb s c (
        with_table (with_state cb TestState.free_mem_recv)
          (record (cb.remote_chunk) { target_size_g = cb.recv_buf.size_gb })))
recv_type s c info = or_fault (chunk_list_init (mapping s c) c)
recv_type s c info_single = accepted (single_chunk_init (mapping s c) c)
recv_type s c evict =
    accepted (with_cb s c (client_recv_evict (with_state (cb_at s c) TestState.recv_evict)))
recv_type s c stop =
    accepted (with_cb s c (client_recv_stop (with_state (cb_at s c) TestState.recv_stop)))
recv_type s c _ = refused

-- client_recv; `whole` says that the message has the size of one.
unfoldable pub client_recv : Session → ℕ → Bool → Received
client_recv s c whole =
    if whole
    then (if before_connected (cb_at s c).state
        then refused
        else recv_type s c (cb_at s c).recv_buf.type)
    else refused
