-- ===== src/Request.antt =====
-- The block requests of the swap device: IS_request and IS_queue_rq
-- (Infiniswap/infiniswap_bd/is_mq.c). `unsigned long` is taken modulo 2^64. A gigabyte past the
-- end of the device is outside the model: its counter is not there to be written, and it reads as
-- unmapped. What the disk, the RDMA transfer and the network do is named by the route.
pub mod Routes
pub mod Clearing
use dis_store.Prelude.{
  ℕ, ◌+◌, ◌-◌, ◌*◌, ◌/◌, ◌%◌, ◌^◌, Bool, true, false, Option, none, some, ◌==◌, if◌then◌else◌,
  get_or, set,
}
use dis_store.Bitmap.{page_size, one_gb, bitmap_test, group_clear}
use dis_store.Session.{Session}
use dis_store.Session.Tables.{cb_of, slot_of, chunk_at, with_chunk_bitmap}

-- `struct request`, as far as IS_request reads it: the direction, the sector, the bytes.
pub record Req : Type 0 where
  pub write : Bool
  pub pos : ℕ
  pub bytes : ℕ

-- Where a request goes: IS_mq_request_stackbd, or IS_transfer_chunk with its arguments.
pub data Route : Type 0 where
  to_disk : Route
  transfer : (cb_index chunk_index chunk_offset len : ℕ) → Route

-- `x % 2^64`
abbrev pub ulong : ℕ → ℕ
ulong x = x % 2 ^ 64

-- `blk_rq_pos(req) << IS_SECT_SHIFT`
abbrev pub start_of : Req → ℕ
start_of r = ulong (r.pos * 512)

abbrev pub gb_index_of : Req → ℕ
gb_index_of r = start_of r / 2 ^ 30

-- `(start + len - IS_PAGE_SIZE) >> ONE_GB_SHIFT`
abbrev pub end_index_of : Req → ℕ
end_index_of r = ulong (start_of r + r.bytes + 2 ^ 64 - page_size) / 2 ^ 30

-- `start & ONE_GB_MASK`
abbrev pub offset_of : Req → ℕ
offset_of r = start_of r % 2 ^ 30

-- The counters, which are counted before anything else.
unfoldable pub count_ops : Session → Req → Session
count_ops s r =
    if r.write
    then record s {
      write_ops =
          set s.write_ops (gb_index_of r) (ulong (get_or s.write_ops (gb_index_of r) 0 + 1));
    }
    else record s {
      read_ops = set s.read_ops (gb_index_of r) (ulong (get_or s.read_ops (gb_index_of r) 0 + 1));
    }

-- The bits of `len` bytes from `offset` on in the chunk behind gigabyte `k`, cleared if it is mapped.
-- A mapped gigabyte with no chunk recorded is undefined behaviour in C, and is left alone here.
unfoldable pub clear_part : Session → ℕ → ℕ → ℕ → Session
clear_part s k offset len = elim (cb_of s k) [
  | none ↦ s
  | some c ↦ elim (slot_of s k) [
    | none ↦ s
    | some i ↦ with_chunk_bitmap s c i (group_clear (chunk_at s c i).bitmap_g offset len)
  ]
]

-- The branch of a request over two gigabytes: a write clears the bits of both parts, and all goes
-- to disk.
unfoldable pub two_chunks : Session → Req → Session
two_chunks s r =
    if r.write
    then (let s' = clear_part s (gb_index_of r) (offset_of r) (one_gb - offset_of r) in
        clear_part s' (end_index_of r) 0 (ulong (offset_of r + r.bytes + 2 ^ 64 - one_gb)))
    else s

-- The branch of a request inside one gigabyte that is mapped to chunk `i` of server `c`.
unfoldable pub one_chunk : Session → Req → ℕ → ℕ → Route
one_chunk s r c i =
    if s.rdma_on
    then (if r.write
        then transfer c i (offset_of r) r.bytes
        else (if bitmap_test (chunk_at s c i).bitmap_g (offset_of r / page_size)
            then transfer c i (offset_of r) r.bytes
            else to_disk))
    else to_disk

unfoldable pub route_one : Session → Req → Route
unfolding one_chunk
route_one s r = elim (cb_of s (gb_index_of r)) [
  | none ↦ to_disk
  | some c ↦ elim (slot_of s (gb_index_of r)) [ none ↦ to_disk | some i ↦ one_chunk s r c i ]
]

-- IS_request: the route, and the session after it.
unfoldable pub is_request : Session → Req → Route × Session
is_request s r =
    let s' = count_ops s r in
    if gb_index_of r == end_index_of r then (route_one s' r, s') else (to_disk, two_chunks s' r)
