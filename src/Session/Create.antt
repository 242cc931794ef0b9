-- ===== src/Session/Create.antt =====
-- IS_session_create and kernel_cb_init (Infiniswap/infiniswap_bd/is_main.c): the tables of a fresh
-- session and of a fresh server. The allocations are taken to succeed; `portals` is how many
-- servers the portal string names, and the connections, which the ctx pools hang on, are modelled
-- in Context.
pub mod Fresh
use dis_store.Prelude.{ℕ, zero, suc, ◌-◌, ◌+◌, true, false, none, List, [], ◌∷◌, replicate}
use dis_store.Prelude.Int.{pos, sub_ℕ}
use dis_store.Session.{
  Session, Cb, CbState, ChunkTable, TestState, ChunkListState, EvictMark, stackbd_size_g,
  max_mr_size_gb,
}
use dis_store.Session.Tables.{no_cb, no_chunk, with_table}

-- The loop that fills `unmapped_chunk_list`, from index `i` on with `n` rounds left.
unfoldable pub unmapped_from : ℕ → ℕ → ℕ → List ℕ
unmapped_from capacity_g zero i = []
unmapped_from capacity_g (suc n) i = (capacity_g - 1 - i) ∷ unmapped_from capacity_g n (i + 1)

-- A kernel_cb as kzalloc leaves it, with its index. Its state, 0 in C and so before all of the enum, is
-- IDLE here, which kernel_cb_init sets before the state is read.
unfoldable pub zeroed_cb : ℕ → Cb
zeroed_cb i = record no_cb { cb_index = i }

unfoldable pub zeroed_cbs : ℕ → ℕ → List Cb
unfolding zeroed_cb
zeroed_cbs zero i = []
zeroed_cbs (suc n) i = zeroed_cb i ∷ zeroed_cbs n (i + 1)

-- `kernel_cb_init`, up to `rdma_create_id`. The index and the buffers stay as they are.
unfoldable pub kernel_cb_init : Cb → Cb
kernel_cb_init cb = record cb {
  state = TestState.idle;
  remote_chunk = record (cb.remote_chunk) {
    chunk_size_g = pos 0;
    chunk_list = replicate max_mr_size_gb no_chunk;
    remote_mapped = replicate max_mr_size_gb false;
    chunk_map = replicate max_mr_size_gb none;
    evict_chunk_map = replicate max_mr_size_gb EvictMark.unmarked;
    c_state = ChunkListState.c_idle;
  };
}

unfoldable pub session_create : ℕ → Session
unfolding unmapped_from zeroed_cbs
session_create portals = record {
  mapped_cb_num = pos 0;
  cb_list = zeroed_cbs portals 0;
  cb_state_list = replicate portals CbState.cb_idle;
  cb_index_map = replicate stackbd_size_g none;
  chunk_map_cb_chunk = replicate stackbd_size_g none;
  unmapped_chunk_list = unmapped_from stackbd_size_g stackbd_size_g 0;
  free_chunk_index = sub_ℕ stackbd_size_g 1;
  rdma_on = false;
  write_ops = replicate stackbd_size_g 0;
  read_ops = replicate stackbd_size_g 0;
  last_ops = replicate stackbd_size_g 0;
  trigger_threshold = 0;
  w_weight = 50;
  cur_weight = 80;
  trigger_enable = true;
}
