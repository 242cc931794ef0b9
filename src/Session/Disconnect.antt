-- ===== src/Session/Disconnect.antt =====
-- The loss of a server: IS_disconnect_handler (Infiniswap/infiniswap_bd/is_main.c), up to the loop
-- that asks for new chunks with IS_single_chunk_map and turns the trigger on again. The contexts
-- are drained in Context/Transfer.
pub mod Tables
pub mod Holds
pub mod Loss
use dis_store.Prelude.{
  ℕ, zero, suc, ◌+◌, Bool, true, false, Option, none, some, List, [], ◌∷◌, ◌==◌, if◌then◌else◌,
  get_or, set, replicate,
}
use dis_store.Prelude.Int.{ℤ, pos, negsuc, ◌+ℤ◌}
use dis_store.Bitmap.{bitmap_init}
use dis_store.Session.{
  Session, Cb, Chunk, ChunkTable, CbState, cb_idle, cb_connected, cb_mapped, cb_evicting, cb_fail,
  stackbd_size_g, max_mr_size_gb,
}
use dis_store.Session.Tables.{cb_at, chunk_at, with_cb, with_table}
use dis_store.Session.Links.{gb_at}

-- `unmapped_chunk_list[index] = k`; a write below the list is undefined behaviour in C, and does
-- nothing here.
unfoldable pub write_free : List ℕ → ℤ → ℕ → List ℕ
write_free list (pos n) k = set list n k
write_free list (negsuc n) k = list

-- The first loop at chunk `i`, which is mapped to gigabyte `k`.
unfoldable pub unmap_chunk : Session → ℕ → ℕ → ℕ → Session
unmap_chunk s c i k =
    let t : ChunkTable = (cb_at s c).remote_chunk in
    record (with_cb s c (
      with_table (cb_at s c) (record t {
        chunk_list = set t.chunk_list i (record (chunk_at s c i) { bitmap_g = bitmap_init });
        remote_mapped = set t.remote_mapped i false;
      }))) { cb_index_map = set s.cb_index_map k none }

-- The first loop, from chunk `i` on with `n` rounds left. The gigabytes that lose their chunk are
-- marked in `evict_list`.
unfoldable pub unmap_from : ℕ → ℕ → ℕ → Session → Session
unmap_from zero i c s = s
unmap_from (suc n) i c s =
    unmap_from n (i + 1) c (elim (gb_at s c i) [ none ↦ s | some k ↦ unmap_chunk s c i k ])

unfoldable pub evict_from : ℕ → ℕ → List (Option ℕ) → List Bool → List Bool
evict_from zero i chunk_map evict_list = evict_list
evict_from (suc n) i chunk_map evict_list =
    evict_from n (i + 1) chunk_map
      (elim (get_or chunk_map i none) [ none ↦ evict_list | some k ↦ set evict_list k true ])

-- The second loop at chunk `i`.
unfoldable pub free_gb : Session → ℕ → ℕ → ℕ → Session
free_gb s c i k =
    let t : ChunkTable = (cb_at s c).remote_chunk in
    record (with_cb s c
      (with_table (cb_at s c) (record t { chunk_map = set t.chunk_map i none }))) {
        chunk_map_cb_chunk = set s.chunk_map_cb_chunk k none;
        free_chunk_index = s.free_chunk_index +ℤ pos 1;
        unmapped_chunk_list = write_free s.unmapped_chunk_list (s.free_chunk_index +ℤ pos 1) k;
      }

unfoldable pub free_from : ℕ → ℕ → ℕ → Session → Session
free_from zero i c s = s
free_from (suc n) i c s =
    free_from n (i + 1) c (elim (gb_at s c i) [ none ↦ s | some k ↦ free_gb s c i k ])

abbrev pub with_cb_state : Session → ℕ → CbState → Session
with_cb_state s c state = record s { cb_state_list = set s.cb_state_list c state }

-- Switching a session off, and `chunk_size_g = 0`.
abbrev pub switched_off : Session → ℕ → Session
switched_off s c = record (with_cb_state s c CbState.cb_fail) {
  rdma_on = false;
  trigger_enable = false;
}

abbrev pub with_no_chunks : Session → ℕ → Session
with_no_chunks s c =
    with_cb s c
      (with_table (cb_at s c) (record ((cb_at s c).remote_chunk) { chunk_size_g = pos 0 }))

-- A server with chunks: what is left of the session, with RDMA on again.
unfoldable pub lose_chunks : Session → ℕ → Session
lose_chunks s c =
    let unmapped = unmap_from max_mr_size_gb 0 c (switched_off s c) in
    record (free_from max_mr_size_gb 0 c (with_no_chunks unmapped c)) { rdma_on = true }

-- IS_disconnect_handler for server `c`: the session, and the gigabytes to ask new chunks for.
unfoldable pub disconnect : Session → ℕ → Session × List Bool
disconnect s c =
    let none_lost = replicate stackbd_size_g false in
    let lost : Session × List Bool =
      (lose_chunks s c, evict_from max_mr_size_gb 0 (cb_at s c).remote_chunk.chunk_map none_lost) in
    elim (get_or s.cb_state_list c CbState.cb_idle) [
      | cb_connected ↦ (with_cb_state s c CbState.cb_fail, none_lost)
      | cb_idle ↦ lost
      | cb_mapped ↦ lost
      | cb_evicting ↦ lost
      | cb_fail ↦ lost
    ]
