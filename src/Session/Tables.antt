-- ===== src/Session/Tables.antt =====
-- Reading and updating the tables of a session.
use dis_store.Prelude.{ℕ, Option, none, List, [], get_or, set}
use dis_store.Prelude.Int.{pos}
use dis_store.Session.{
  Session, Cb, Chunk, ChunkTable, RdmaInfo, MessageType, TestState, ChunkListState,
}

-- A `struct remote_chunk_g` as kzalloc leaves it.
abbrev pub no_chunk : Chunk
no_chunk = record { remote_rkey = 0; remote_addr = 0; bitmap_g = [] }

abbrev pub no_message : RdmaInfo
no_message = record { buf = []; rkey = []; size_gb = 0; type = MessageType.done }

abbrev pub no_table : ChunkTable
no_table = record {
  chunk_list = [];
  remote_mapped = [];
  chunk_size_g = pos 0;
  target_size_g = 0;
  shrink_size_g = 0;
  chunk_map = [];
  evict_chunk_map = [];
  c_state = ChunkListState.c_idle;
}

-- What stands in for a server past the end of `cb_list`.
abbrev pub no_cb : Cb
no_cb = record {
  cb_index = 0;
  state = TestState.idle;
  recv_buf = no_message;
  send_buf = no_message;
  remote_chunk = no_table;
}

-- `IS_sess->cb_list[c]`
abbrev pub cb_at : Session → ℕ → Cb
cb_at s c = get_or s.cb_list c no_cb

-- `IS_sess->cb_list[c]->remote_chunk.chunk_list[i]`
abbrev pub chunk_at : Session → ℕ → ℕ → Chunk
chunk_at s c i = get_or (cb_at s c).remote_chunk.chunk_list i no_chunk

abbrev pub with_cb : Session → ℕ → Cb → Session
with_cb s c cb = record s { cb_list = set s.cb_list c cb }

abbrev pub with_table : Cb → ChunkTable → Cb
with_table cb t = record cb { remote_chunk = t }

abbrev pub with_bitmap : ChunkTable → ℕ → List ℕ → ChunkTable
with_bitmap t i b = record t {
  chunk_list = set t.chunk_list i (record (get_or t.chunk_list i no_chunk) { bitmap_g = b });
}

-- The session with a new bitmap for chunk `i` of server `c`.
unfoldable pub with_chunk_bitmap : Session → ℕ → ℕ → List ℕ → Session
with_chunk_bitmap s c i b =
    with_cb s c (with_table (cb_at s c) (with_bitmap (cb_at s c).remote_chunk i b))

-- `cb_index_map[k]`, with a chunk past the end of the table unmapped.
abbrev pub cb_of : Session → ℕ → Option ℕ
cb_of s k = get_or s.cb_index_map k none

abbrev pub slot_of : Session → ℕ → Option ℕ
slot_of s k = get_or s.chunk_map_cb_chunk k none
