-- ===== src/Session/Evict.antt =====
-- The evict thread of a server: evict_handler with IS_send_activity and IS_send_done
-- (Infiniswap/infiniswap_bd/is_main.c). The waits for EVICT and STOP are where the functions below
-- begin; the wait for the requests in flight is in Context/Transfer/Quiet. A message that is sent
-- is what `send_buf` holds then, and the result of ib_post_send is not looked at, as in the code.
pub mod Stopping
pub mod Cleared
pub mod Named
pub mod Stopped
use dis_store.Prelude.{
  ℕ, zero, suc, ◌+◌, ◌%◌, ◌^◌, Bool, true, false, Option, none, some, List, ◌==◌, if◌then◌else◌,
  get_or, set, replicate,
}
use dis_store.Prelude.Int.{ℤ, pos, ◌+ℤ◌, ◌-ℤ◌}
use dis_store.Bitmap.{bitmap_init}
use dis_store.Wire.{htonll}
use dis_store.Session.{
  Session, Cb, ChunkTable, RdmaInfo, CbState, ChunkListState, EvictMark, unmarked, stopping,
  unrelated, MessageType, stackbd_size_g, max_mr_size_gb,
}
use dis_store.Session.Tables.{no_chunk, cb_at, with_cb, with_table}
use dis_store.Session.Disconnect.{write_free}

-- `unsigned long` is of 64 bits.
abbrev pub ulong_mod : ℕ
ulong_mod = 2 ^ 64

-- What an ACTIVITY says of a chunk that is mapped to this gigabyte, or to none.
unfoldable pub activity_of : List ℕ → Option ℕ → ℕ
activity_of last_ops none = 0
activity_of last_ops (some k) = htonll ((get_or last_ops k 0 + 1) % ulong_mod)

-- The loop of IS_send_activity, from chunk `i` on with `n` rounds left.
unfoldable pub activity_from : ℕ → ℕ → List ℕ → List (Option ℕ) → List ℕ → List ℕ
activity_from zero i last_ops chunk_map buf = buf
activity_from (suc n) i last_ops chunk_map buf =
    activity_from n (i + 1) last_ops chunk_map
      (set buf i (activity_of last_ops (get_or chunk_map i none)))

-- IS_send_activity
unfoldable pub send_activity : List ℕ → Cb → Cb
send_activity last_ops cb = record cb {
  send_buf = record (cb.send_buf) {
    type = MessageType.activity;
    buf = activity_from max_mr_size_gb 0 last_ops cb.remote_chunk.chunk_map cb.send_buf.buf;
  };
}

-- IS_send_done
unfoldable pub send_done_msg : Cb → ℕ → Cb
send_done_msg cb num = record cb {
  send_buf = record (cb.send_buf) { type = MessageType.done; size_gb = num };
}

-- What the first loop writes: the server, the session's `cb_index_map`, and `evict_list`.
pub record Evicting : Type 0 where
  pub cb : Cb
  pub cb_index_map : List (Option ℕ)
  pub evict_list : List Bool

-- `evict_chunk_map[i] == 's'`
abbrev pub stops : EvictMark → Bool
stops unmarked = false
stops stopping = true
stops unrelated = false

-- `send_buf.rkey[i] = key`
abbrev pub with_rkey : Cb → ℕ → ℕ → Cb
with_rkey cb i key = record cb {
  send_buf = record (cb.send_buf) { rkey = set cb.send_buf.rkey i key };
}

abbrev pub without_gb : Cb → ℕ → Cb
without_gb cb i =
    with_table cb (record (cb.remote_chunk) { chunk_map = set cb.remote_chunk.chunk_map i none })

-- The first loop at chunk `i`, which is mapped to gigabyte `k` and has to stop.
unfoldable pub stop_chunk : Evicting → ℕ → ℕ → Evicting
stop_chunk e i k = record {
  cb = with_rkey (without_gb e.cb i) i 1;
  cb_index_map = set e.cb_index_map k none;
  evict_list = set e.evict_list k true;
}

-- A chunk that has to stop and is not mapped makes the code write at index -1: `none`.
unfoldable pub stop_round : Evicting → ℕ → Option Evicting
stop_round e i =
    if stops (get_or e.cb.remote_chunk.evict_chunk_map i EvictMark.unmarked)
    then elim (get_or e.cb.remote_chunk.chunk_map i none) [
      | none ↦ none
      | some k ↦ some (stop_chunk e i k)
    ]
    else some (record e { cb = with_rkey e.cb i 0 })

unfoldable pub stop_from : ℕ → ℕ → Evicting → Option Evicting
stop_from zero i e = some e
stop_from (suc n) i e = elim (stop_round e i) [ none ↦ none | some e' ↦ stop_from n (i + 1) e' ]

-- The second loop: the chunks that stopped get fresh bitmaps.
unfoldable pub unmap_stopped : ChunkTable → ℕ → ChunkTable
unmap_stopped t i =
    if stops (get_or t.evict_chunk_map i EvictMark.unmarked)
    then record t {
      chunk_list =
          set t.chunk_list i (record (get_or t.chunk_list i no_chunk) { bitmap_g = bitmap_init });
      remote_mapped = set t.remote_mapped i false;
    }
    else t

unfoldable pub unmap_stopped_from : ℕ → ℕ → ChunkTable → ChunkTable
unmap_stopped_from zero i t = t
unmap_stopped_from (suc n) i t = unmap_stopped_from n (i + 1) (unmap_stopped t i)

-- The counters of the table, and C_READY.
abbrev pub shrunk : ChunkTable → ℕ → ChunkTable
shrunk t size_g = record t {
  chunk_size_g = t.chunk_size_g -ℤ pos size_g;
  shrink_size_g = 0;
  c_state = ChunkListState.c_ready;
}

-- The server after the second loop, with DONE sent.
unfoldable pub finish_stop : Cb → Cb
finish_stop cb =
    let size_g = cb.remote_chunk.shrink_size_g in
    send_done_msg
      (with_table cb (shrunk (unmap_stopped_from max_mr_size_gb 0 cb.remote_chunk) size_g)) size_g

abbrev pub stop_start : Session → ℕ → Evicting
stop_start s c = record {
  cb = cb_at s c;
  cb_index_map = s.cb_index_map;
  evict_list = replicate stackbd_size_g false;
}

-- The session after the loops, with DONE sent and CB_EVICTING.
abbrev pub after_stop : Session → ℕ → Evicting → Session
after_stop s c e = record (with_cb s c (finish_stop e.cb)) {
  cb_index_map = e.cb_index_map;
  trigger_enable = false;
  mapped_cb_num = s.mapped_cb_num -ℤ pos (e.cb.remote_chunk.shrink_size_g);
  cb_state_list = set s.cb_state_list (cb_at s c).cb_index CbState.cb_evicting;
}

-- From a STOP of at least one gigabyte for server `c` to the last loop: the session and
-- `evict_list`.
unfoldable pub stop_chunks : Session → ℕ → Option (Session × List Bool)
stop_chunks s c = elim (stop_from max_mr_size_gb 0 (stop_start s c)) [
  | none ↦ none
  | some e ↦ some (after_stop s c e, e.evict_list)
]

-- The last loop at gigabyte `k`, up to IS_single_chunk_map.
unfoldable pub release_gb : Session → ℕ → Session
release_gb s k = record s {
  chunk_map_cb_chunk = set s.chunk_map_cb_chunk k none;
  free_chunk_index = s.free_chunk_index +ℤ pos 1;
  unmapped_chunk_list = write_free s.unmapped_chunk_list (s.free_chunk_index +ℤ pos 1) k;
}
