-- ===== src/Witness/Driver.antt =====
-- The theorems on the bitmap, the tables, the requests and the swapped memory at concrete inputs.
use dis_store.Prelude.{
  ℕ, ◌+◌, ◌-◌, ◌*◌, ◌/◌, ◌%◌, ◌≡◌, ◌<◌, ◌≤◌, ◌↔◌, length, refl, true, false, some, none, [], ◌∷◌,
  arith,
}
use dis_store.Bitmap.{bitmap_init, bitmap_set, bitmap_test, group_set, set_pages, page_size, one_gb}
use dis_store.Bitmap.Pages.{IsChunkMap, bitmap_init-IsChunkMap, test-group_set}
use dis_store.Prelude.Bits.{or_bits, and_bits}
use dis_store.Session.Tables.{with_chunk_bitmap, cb_of, slot_of, chunk_at, cb_at}
use dis_store.Session.Links.{Linked, bitmap_at}
use dis_store.Session.Create.{session_create}
use dis_store.Session.Create.Fresh.{session_create-Linked}
use dis_store.Session.Chunks.{single_chunk_init, chunk_of, free_chunk, map_gb, install, first_rkey}
use dis_store.Session.Chunks.Install.{single_chunk_init-Linked}
use dis_store.Request.{
  count_ops, route_one, one_chunk, transfer, is_request, offset_of, gb_index_of, end_index_of,
  two_chunks,
}
use dis_store.Request.Routes.{gb_pages, SentTo, transfer_iff, same_gb_iff}
use dis_store.Request.Clearing.{two_chunks-bit}
use dis_store.Swap.{
  World, write_by, write_done, remote_write, disk_write, request, write, read, run, run_memory,
  write_pages, store, load,
}
use dis_store.Swap.Coherence.{Coherent}
use dis_store.Swap.Memory.{write-Coherent, read-Coherent, run-eq-run_memory, stale_read, off_write}
use dis_store.Samples.{
  answered, answered-Linked, answered-Fits, answered-rkey, answered-free, device, device-Coherent,
  device_place, answered-size, mapped,
}

test-group_set_example :
    (bitmap_test (group_set bitmap_init (5 * page_size) (2 * page_size)) (24600 / page_size) ≡ true)
    × IsChunkMap (group_set bitmap_init (5 * page_size) (2 * page_size))
test-group_set_example = test-group_set bitmap_init 5 2 24600 bitmap_init-IsChunkMap.0 (omega arith)

session_create-Linked_example :
    Linked (session_create 2)
    × ((k : ℕ) → cb_of (session_create 2) k ≡ none)
    × ((c : ℕ) → c < 2 → (cb_at (session_create 2) c).cb_index ≡ c)
    × (length (session_create 2).cb_list ≡ 2)
    × (free_chunk (session_create 2) ≡ some 0)
session_create-Linked_example = session_create-Linked 2

single_chunk_init-Linked_example :
    Linked (single_chunk_init answered 0)
    × (cb_of (single_chunk_init answered 0) (cb_at answered 0).recv_buf.size_gb ≡ some 0)
    × (slot_of (single_chunk_init answered 0) (cb_at answered 0).recv_buf.size_gb ≡ some 1)
    × ((chunk_at (single_chunk_init answered 0) 0 1) ≡ chunk_of (cb_at answered 0).recv_buf 1)
    × ((page : ℕ) → bitmap_test (bitmap_at (single_chunk_init answered 0) 0 1) page ≡ false)
single_chunk_init-Linked_example =
    single_chunk_init-Linked answered 0 1 answered-Linked (rw answered-size answered-Fits)
      answered-rkey answered-free

transfer_iff_example :
    ((is_request device.session (request true (3 * gb_pages + 7) 2)).0
      ≡ transfer 0 1 (7 * page_size) (2 * page_size))
    ↔ (SentTo device.session true (3 * gb_pages + 7) 2 0 1
        × (7 * page_size ≡ (3 * gb_pages + 7) % gb_pages * page_size)
        × (2 * page_size ≡ 2 * page_size))
transfer_iff_example =
    transfer_iff device.session (request true (3 * gb_pages + 7) 2) (3 * gb_pages + 7) 2 0 1
      (7 * page_size) (2 * page_size) (omega arith)

same_gb_iff_example :
    (gb_index_of (request true 7 2) ≡ end_index_of (request true 7 2))
    ↔ (offset_of (request true 7 2) + 2 * page_size ≤ one_gb)
same_gb_iff_example = same_gb_iff (request true 7 2) 7 2 (omega arith)

two_chunks-bit_example :
    bitmap_test
      (bitmap_at (two_chunks device.session (request true (4 * gb_pages - 1) 2)) 0 1)
      (gb_pages - 1)
    ≡ false
two_chunks-bit_example =
    two_chunks-bit device.session (request true (4 * gb_pages - 1) 2) (4 * gb_pages - 1) 2 3 0 1
      (gb_pages - 1) device-Coherent.linked (omega arith) refl (omega arith) device_place.0
      device_place.1 (omega arith)

write-Coherent_example :
    Coherent
      (write device (request true (3 * gb_pages + 7) 2) (λ q. 5))
      (write_pages (λ q. 5) (3 * gb_pages + 7) 2 (λ q. q))
write-Coherent_example =
    write-Coherent device (λ q. q) (request true (3 * gb_pages + 7) 2) (3 * gb_pages + 7) 2 (λ q. 5)
      device-Coherent (omega arith) refl

read-Coherent_example :
    ((read device (request false 9 1)).0 ≡ 9)
    × Coherent (read device (request false 9 1)).1 (λ q. q)
read-Coherent_example =
    read-Coherent device (λ q. q) (request false 9 1) 9 device-Coherent (omega arith) refl

run-eq-run_memory_example :
    run device (store (3 * gb_pages) 2 (λ q. 5) ∷ load (3 * gb_pages + 1) ∷ load 8 ∷ [])
    ≡ 5 ∷ 8 ∷ []
unfolding run_memory
run-eq-run_memory_example =
    run-eq-run_memory (store (3 * gb_pages) 2 (λ q. 5) ∷ load (3 * gb_pages + 1) ∷ load 8 ∷ [])
      device (λ q. q) device-Coherent (omega arith)

-- The device with one page of gigabyte 3 written, and recorded at the server.
written : World ℕ
written = write device (request true (3 * gb_pages + 7) 1) (λ q. 5)

written_place :
    (cb_of written.session 3 ≡ some 0)
    × (slot_of written.session 3 ≡ some 1)
    × (bitmap_test (bitmap_at written.session 0 1) 7 ≡ true)
unfolding written device mapped answered single_chunk_init map_gb install chunk_of first_rkey write
    write_by write_done remote_write disk_write is_request count_ops route_one one_chunk
    with_chunk_bitmap group_set set_pages bitmap_set bitmap_test bitmap_init or_bits and_bits
written_place = (refl, refl, refl)

stale_read_example :
    ((read (off_write written (3 * gb_pages + 7) (λ q. 6)) (request false (3 * gb_pages + 7) 1)).0
      ≡ 5)
    × ((off_write written (3 * gb_pages + 7) (λ q. 6)).disk (3 * gb_pages + 7) ≡ 6)
unfolding written
stale_read_example =
    stale_read written (write_pages (λ q. 5) (3 * gb_pages + 7) 1 (λ q. q)) (3 * gb_pages + 7) 0 1
      (λ q. 6)
      (write-Coherent device (λ q. q) (request true (3 * gb_pages + 7) 1) (3 * gb_pages + 7) 1
        (λ q. 5) device-Coherent (omega arith) refl)
      (omega arith) written_place.0 written_place.1 written_place.2
