-- ===== src/Daemon/Init.antt =====
-- rdma_session_init (Infiniswap/infiniswap_daemon/rdma-common.c): how much memory the daemon takes
-- at the start, and how it is recorded.
use dis_store.Prelude.{
  ℕ, zero, suc, ◌+◌, ◌-◌, ◌/◌, Bool, true, false, none, List, ltb, if◌then◌else◌, set, replicate,
}
use dis_store.Prelude.Int.{pos}
use dis_store.Daemon.{RdmaSession, ConnState, max_free_mem_gb, max_client}

abbrev pub free_mem_evict_threshold : ℕ
free_mem_evict_threshold = 8

abbrev pub free_mem_expand_threshold : ℕ
free_mem_expand_threshold = 16

-- The gigabytes to take of `free_mem_g` that are free.
unfoldable pub initial_gb : ℕ → ℕ
initial_gb free_mem_g =
    let g : ℕ =
      if ltb free_mem_expand_threshold free_mem_g
      then free_mem_g - (free_mem_evict_threshold + free_mem_expand_threshold) / 2
      else (if ltb free_mem_evict_threshold free_mem_g
          then free_mem_g - free_mem_evict_threshold
          else 0) in
    if ltb max_free_mem_gb g then max_free_mem_gb else g

-- The loop that allocates, from chunk `i` on with `n` rounds left.
unfoldable pub malloc_from : ℕ → ℕ → List Bool → List Bool
malloc_from zero i malloc_map = malloc_map
malloc_from (suc n) i malloc_map = malloc_from n (i + 1) (set malloc_map i true)

-- `free_mem_g` is what get_free_mem() / ONE_MB says.
unfoldable pub rdma_session_init : ℕ → RdmaSession
rdma_session_init free_mem_g = record {
  conns = replicate max_client none;
  conns_state = replicate max_client ConnState.conn_idle;
  conn_num = pos 0;
  rdma_remote = record {
    size_gb = pos (initial_gb free_mem_g);
    mapped_size = pos 0;
    conn_map = replicate max_free_mem_gb none;
    malloc_map = malloc_from (initial_gb free_mem_g) 0 (replicate max_free_mem_gb false);
    conn_chunk_map = replicate max_free_mem_gb none;
  };
}
