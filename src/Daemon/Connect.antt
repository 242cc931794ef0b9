-- ===== src/Daemon/Connect.antt =====
-- Connections come and go: build_connection and destroy_connection
-- (Infiniswap/infiniswap_daemon/rdma-common.c), but for the queue pair and the buffers.
pub mod Slots
pub mod Freed
pub mod Release
use dis_store.Prelude.{
  ℕ, zero, suc, ◌+◌, ◌&&◌, Bool, true, false, Option, none, some, List, [], ◌∷◌, if◌then◌else◌,
  get_or, set, replicate,
}
use dis_store.Prelude.Int.{ℤ, pos, ◌+ℤ◌, ◌-ℤ◌, is_zero, ltb_ℤ}
use dis_store.Daemon.{
  Connection, RdmaSession, RemoteMem, ConnState, conn_idle, conn_connected, conn_mapped,
  conn_failed, CqQpState, ServerState, max_free_mem_gb, max_client,
}

abbrev pub is_idle : ConnState → Bool
is_idle conn_idle = true
is_idle conn_connected = false
is_idle conn_mapped = false
is_idle conn_failed = false

-- The first idle place from `i` on, with `n` rounds left. A state past the list is not idle.
unfoldable pub idle_from : ℕ → ℕ → List ConnState → Option ℕ
idle_from zero i states = none
idle_from (suc n) i states =
    let rest = idle_from n (i + 1) states in
    if is_idle (get_or states i ConnState.conn_failed) then some i else rest

-- A connection as build_connection fills it; `c` is what malloc returned.
unfoldable pub fill_connection : Connection → Connection
fill_connection c = record c {
  server_state = ServerState.s_wait;
  connected = false;
  cq_qp_state = CqQpState.cq_qp_busy;
  stop_sem = 0;
  evict_sem = 0;
  sess_chunk_map = replicate max_free_mem_gb none;
  mapped_chunk_size = pos 0;
}

-- The session with the connection in place `i`.
unfoldable pub place : RdmaSession → ℕ → Connection → RdmaSession
place s i c = record s {
  conns = set s.conns i (some (record c { conn_index = i }));
  conns_state = set s.conns_state i ConnState.conn_connected;
}

-- build_connection
unfoldable pub build_connection : RdmaSession → Connection → RdmaSession
build_connection s c =
    let s' : RdmaSession = elim (idle_from max_client 0 s.conns_state) [
      | none ↦ s
      | some i ↦ place s i (fill_connection c)
    ] in
    record s' { conn_num = s'.conn_num +ℤ pos 1 }

-- The loop of destroy_connection, from index `i` on with `n` rounds left.
unfoldable pub release_from : ℕ → ℕ → List (Option ℕ) → RemoteMem → RemoteMem
release_from zero i sess_chunk_map m = m
release_from (suc n) i sess_chunk_map m =
    release_from n (i + 1) sess_chunk_map (elim (get_or sess_chunk_map i none) [
      | none ↦ m
      | some index ↦ record m {
        conn_map = set m.conn_map index none;
        conn_chunk_map = set m.conn_chunk_map index none;
      }
    ])

-- What destroy_connection does to the shared memory.
unfoldable pub release : RemoteMem → Connection → RemoteMem
release m c =
    let m' = release_from max_free_mem_gb 0 c.sess_chunk_map m in
    if ltb_ℤ (pos 0) c.mapped_chunk_size
    then record m' { mapped_size = m'.mapped_size -ℤ c.mapped_chunk_size }
    else m

-- destroy_connection: the session, and `running`.
unfoldable pub destroy_connection : RdmaSession → Connection → Bool → RdmaSession × Bool
destroy_connection s c running =
    let num = s.conn_num -ℤ pos 1 in
    (
      record s {
        rdma_remote = release s.rdma_remote c;
        conns = set s.conns c.conn_index none;
        conns_state = set s.conns_state c.conn_index ConnState.conn_idle;
        conn_num = num;
      },
      if is_zero num then false else running,
    )
