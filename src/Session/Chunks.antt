-- ===== src/Session/Chunks.antt =====
-- A server's answer to a bind: IS_single_chunk_init and IS_chunk_list_init
-- (Infiniswap/infiniswap_bd/is_mq.c).
pub mod Install
use dis_store.Prelude.{
  ℕ, zero, suc, ◌+◌, Bool, true, false, Option, none, some, List, ◌==◌, if◌then◌else◌, get_elem?,
  get_or, set,
}
use dis_store.Prelude.Int.{ℤ, pos, negsuc, ◌+ℤ◌, ◌-ℤ◌}
use dis_store.Bitmap.{bitmap_init}
use dis_store.Wire.{ntohl, ntohll}
use dis_store.Session.{Session, Cb, Chunk, ChunkTable, RdmaInfo, ChunkListState}
use dis_store.Session.Tables.{cb_at, with_cb, with_table}

-- The first index from `i` on, with `n` rounds left, whose rkey is not zero.
unfoldable pub first_rkey : List ℕ → ℕ → ℕ → Option ℕ
first_rkey rkey zero i = none
first_rkey rkey (suc n) i =
    let rest = first_rkey rkey n (i + 1) in if get_or rkey i 0 == 0 then rest else some i

-- The chunk that a message describes at index `i`, with a fresh bitmap.
unfoldable pub chunk_of : RdmaInfo → ℕ → Chunk
chunk_of m i = record {
  remote_rkey = ntohl (get_or m.rkey i 0);
  remote_addr = ntohll (get_or m.buf i 0);
  bitmap_g = bitmap_init;
}

-- What both functions write into the server's tables for chunk `i` and gigabyte `k`.
unfoldable pub install : ChunkTable → RdmaInfo → ℕ → ℕ → ChunkTable
install t m i k = record t {
  chunk_list = set t.chunk_list i (chunk_of m i);
  remote_mapped = set t.remote_mapped i true;
  chunk_map = set t.chunk_map i (some k);
}

-- What both write into the session's tables.
unfoldable pub map_gb : Session → ℕ → ℕ → ℕ → Session
map_gb s k c i = record s {
  free_chunk_index = s.free_chunk_index -ℤ pos 1;
  cb_index_map = set s.cb_index_map k (some c);
  chunk_map_cb_chunk = set s.chunk_map_cb_chunk k (some i);
}

-- IS_single_chunk_init for server `c`: the gigabyte is the one that the message names.
unfoldable pub single_chunk_init : Session → ℕ → Session
single_chunk_init s c =
    let cb : Cb = cb_at s c in
    let t = install cb.remote_chunk cb.recv_buf in
    elim (first_rkey cb.recv_buf.rkey 32 0) [
      | none ↦ s
      | some i ↦
          map_gb
            (with_cb s c (
              with_table cb (record (t i cb.recv_buf.size_gb) {
                chunk_size_g = cb.remote_chunk.chunk_size_g +ℤ pos 1;
                c_state = ChunkListState.c_ready;
              })))
            cb.recv_buf.size_gb cb.cb_index i
    ]

-- `unmapped_chunk_list[free_chunk_index]`; `none` is a read out of range.
unfoldable pub free_chunk : Session → Option ℕ
free_chunk s = elim s.free_chunk_index [
  | pos n ↦ get_elem? s.unmapped_chunk_list n
  | negsuc n ↦ none
]

-- The loop of IS_chunk_list_init from index `i` on, with `n` rounds left. `none` is a fault.
unfoldable pub list_init_from : ℕ → ℕ → ℕ → Session → Option Session
list_init_from c zero i s = some s
list_init_from c (suc n) i s =
    let cb : Cb = cb_at s c in
    let skip = list_init_from c n (i + 1) s in
    let taken = λ (k : ℕ). list_init_from c n (i + 1) (
      map_gb (with_cb s c (with_table cb (install cb.remote_chunk cb.recv_buf i k))) k cb.cb_index
        i) in
    if get_or cb.recv_buf.rkey i 0 == 0
    then skip
    else (elim (free_chunk s) [ none ↦ none | some k ↦ taken k ])

-- IS_chunk_list_init for server `c`.
unfoldable pub chunk_list_init : Session → ℕ → Option Session
chunk_list_init s c = elim (list_init_from c 32 0 s) [
  | none ↦ none
  | some s' ↦
      let cb : Cb = cb_at s' c in
      some (
        with_cb s' c (
          with_table cb (record (cb.remote_chunk) {
            chunk_size_g = cb.remote_chunk.chunk_size_g +ℤ pos cb.recv_buf.size_gb;
            c_state = ChunkListState.c_ready;
          })))
]
