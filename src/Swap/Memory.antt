-- ===== src/Swap/Memory.antt =====
-- The device as the kernel sees it: a sequence of requests against a memory.
use dis_store.Prelude.{
  ℕ, ◌+◌, ◌*◌, ◌/◌, ◌%◌, ◌≡◌, ◌≢◌, ◌<◌, ◌≤◌, ◌⊎◌, inl, inr, refl, ◌∙◌, Bool, true, false, some,
  List, [], ◌∷◌, arith, Option-cases, ap, ap₂,
}
use native.Mathlib.Decide.{ℕ_discrete}
use dis_store.Bitmap.{page_size, bitmap_test}
use dis_store.Session.{Session, stackbd_size_g}
use dis_store.Session.Tables.{cb_of, slot_of}
use dis_store.Session.Links.{bitmap_at}
use dis_store.Request.{
  Req, Route, to_disk, transfer, gb_index_of, end_index_of, offset_of, start_of, is_request,
  two_chunks, count_ops, route_one,
}
use dis_store.Request.Routes.{gb_pages, IsPaged, GoesRemote, route_one-transfer, transfer-route_one}
use dis_store.Request.Clearing.{place_cases}
use dis_store.Swap.{
  World, Op, store, load, write, read, write_by, read_by, write_pages, disk_write, request,
  switch_rdma, run, run_memory,
}
use dis_store.Swap.Coherence.{
  Coherent, page_numbers, counted, counted-Coherent, unmapped-Coherent, two_chunks-Coherent,
  transfer-Coherent,
}

is_request-one :
    (s : Session) (r : Req)
    → gb_index_of r ≡ end_index_of r
    → is_request s r ≡ (route_one (count_ops s r) r, count_ops s r)
unfolding is_request
is_request-one s r e = ground arith

is_request-two :
    (s : Session) (r : Req)
    → gb_index_of r ≢ end_index_of r
    → is_request s r ≡ (to_disk, two_chunks (count_ops s r) r)
unfolding is_request
is_request-two s r e = ground arith

route_one-unmapped :
    (s : Session) (r : Req)
    → ((c i : ℕ) → cb_of s (gb_index_of r) ≡ some c → slot_of s (gb_index_of r) ≡ some i → ⊥)
    → route_one s r ≡ to_disk
unfolding route_one
route_one-unmapped s r n = elim (Option-cases (cb_of s (gb_index_of r))) [
  | inl e ↦ rw (e, route_one)
  | inr (c, e) ↦ elim (Option-cases (slot_of s (gb_index_of r))) [
    | inl f ↦ rw (e, f, route_one)
    | inr (i, f) ↦ absurd (n c i e f)
  ]
]

Route-cases :
    (x : Route)
    → (x ≡ to_disk) ⊎ ((c : ℕ) × (i : ℕ) × (offset : ℕ) × (len : ℕ) × (x ≡ transfer c i offset len))
Route-cases to_disk = inl refl
Route-cases (transfer c i offset len) = inr (c, i, offset, len, refl)

own_page :
    (r : Req) (page : ℕ)
    → IsPaged r page 1
    → gb_index_of r * gb_pages + offset_of r / page_size ≡ page
own_page r page p = omega arith

one_page : (r : Req) (page : ℕ) → IsPaged r page 1 → gb_index_of r ≡ end_index_of r
one_page r page p = omega arith

module _ {V : Type 0} where
  -- A write request of whole pages, with RDMA on, of a coherent device: what the disk and the
  -- servers hold afterwards is the memory with those pages stored, wherever the bitmaps and tables
  -- send a reader, and RDMA is still on.
  pub write-Coherent :
      (w : World V) (m : ℕ → V) (r : Req) (page count : ℕ) (v : ℕ → V)
      → Coherent w m
      → IsPaged r page count
      → r.write ≡ true
      → Coherent (write w r v) (write_pages v page count m)
  unfolding write
  write-Coherent w m r page count v h p d = elim (ℕ_discrete (gb_index_of r) (end_index_of r)) [
    | yes e ↦ elim (place_cases (counted w r).session (gb_index_of r)) [
      | inl n ↦
          rw (is_request-one w.session r e, route_one-unmapped (counted w r).session r n)
            (unfold write_by in unmapped-Coherent (counted w r) m r page count v k p e n)
      | inr (c, i, a, b) ↦
          rw
            (
              is_request-one w.session r e,
              transfer-route_one (counted w r).session r c i (goes c i e a b),
            )
            (transfer-Coherent (counted w r) m r page count v c i k p (goes c i e a b))
    ]
    | no ne ↦
        rw (is_request-two w.session r ne)
          (unfold write_by in two_chunks-Coherent (counted w r) m r page count v k p d ne)
  ]
    where
      k : Coherent (counted w r) m
      k = counted-Coherent w m r h

      goes :
          (c i : ℕ)
          → gb_index_of r ≡ end_index_of r
          → cb_of (counted w r).session (gb_index_of r) ≡ some c
          → slot_of (counted w r).session (gb_index_of r) ≡ some i
          → GoesRemote (counted w r).session r c i
      goes c i e a b = record { same_gb = e; mapped = a; slot = b; on = k.on; recorded = inl d }

  -- What a route returns, if it is the route of a read of one page.
  read_by-eq :
      (w : World V) (m : ℕ → V) (r : Req) (page : ℕ)
      → Coherent w m
      → IsPaged r page 1
      → r.write ≡ false
      → gb_index_of r ≡ end_index_of r
      → read_by w r (route_one w.session r) ≡ m page
  unfolding read_by
  read_by-eq w m r page h p d e = elim (Route-cases (route_one w.session r)) [
    | inl f ↦ ground (arith, f, h.disk page, page_numbers r page 1 p)
    | inr (c, i, offset, len, f) ↦
        let (g, o, l) = route_one-transfer w.session r c i offset len e f in
        ground (
          arith,
          f,
          o,
          g,
          h.remote (gb_index_of r) c i (offset_of r / page_size) g.mapped g.slot (omega arith),
          own_page r page p,
        )
  ]

  -- A read request of one page of a coherent device returns what the memory holds of that page, by
  -- whichever route it goes, and leaves the device coherent.
  pub read-Coherent :
      (w : World V) (m : ℕ → V) (r : Req) (page : ℕ)
      → Coherent w m
      → IsPaged r page 1
      → r.write ≡ false
      → ((read w r).0 ≡ m page) × Coherent (read w r).1 m
  unfolding read
  read-Coherent w m r page h p d =
      let e : gb_index_of r ≡ end_index_of r = one_page r page p in
      rw (is_request-one w.session r e) (
        read_by-eq (counted w r) m r page (counted-Coherent w m r h) p d e,
        counted-Coherent w m r h,
      )

-- The pages of the device.
abbrev pub device_pages : ℕ
device_pages = stackbd_size_g * gb_pages

store-IsPaged :
    (page count : ℕ)
    → 0 < count
    → count ≤ gb_pages
    → page + count ≤ device_pages
    → IsPaged (request true page count) page count
store-IsPaged page count a b c = omega arith

load-IsPaged : (page : ℕ) → page < device_pages → IsPaged (request false page 1) page 1
load-IsPaged page a = omega arith

route_one-off : (s : Session) (r : Req) → s.rdma_on ≡ false → route_one s r ≡ to_disk
unfolding route_one
route_one-off s r e = ground arith

-- Where the request for a page finds it.
request_place :
    (d : Bool) (page : ℕ)
    → page < device_pages
    → (gb_index_of (request d page 1) ≡ page / gb_pages)
      × (gb_index_of (request d page 1) ≡ end_index_of (request d page 1))
      × (offset_of (request d page 1) / page_size ≡ page % gb_pages)
      × (start_of (request d page 1) / page_size ≡ page)
request_place d page lt = omega arith

module _ {V : Type 0} where
  -- A request that the block layer makes of the device: some pages of it, at most a gigabyte.
  abbrev pub IsOp : Op V → Type 0
  IsOp (store page count v) = (0 < count) × (count ≤ gb_pages) × (page + count ≤ device_pages)
  IsOp (load page) = page < device_pages

  abbrev pub IsScript : List (Op V) → Type 0
  IsScript [] = Unit
  IsScript (op ∷ ops) = IsOp op × IsScript ops

  -- With RDMA on, no sequence of stores and loads of pages of the device, one after the other, tells
  -- a coherent device from a memory: each load returns what was last stored in its page.
  pub run-eq-run_memory :
      (ops : List (Op V)) (w : World V) (m : ℕ → V)
      → Coherent w m
      → IsScript ops
      → run w ops ≡ run_memory m ops
  unfolding run run_memory
  run-eq-run_memory [] w m h p = refl
  run-eq-run_memory (store page count v ∷ ops) w m h p =
      run-eq-run_memory ops (write w (request true page count) v) (write_pages v page count m)
        (write-Coherent w m (request true page count) page count v h
          (store-IsPaged page count p.0.0 p.0.1 p.0.2) refl)
        p.1
  run-eq-run_memory (load page ∷ ops) w m h p =
      let (e, h') = read-Coherent w m (request false page 1) page h (load-IsPaged page p.0) refl in
      ap₂ ◌∷◌ e (run-eq-run_memory ops _ m h' p.1)

  counted_off :
      (w : World V) (page : ℕ)
      → (counted (switch_rdma w false) (request true page 1)).session.rdma_on ≡ false
  unfolding count_ops
  counted_off w page = refl

  -- A write with RDMA off, and the switch turned on again.
  unfoldable pub off_write : World V → ℕ → (ℕ → V) → World V
  off_write w page v = switch_rdma (write (switch_rdma w false) (request true page 1) v) true

  off_write-eq :
      (w : World V) (page : ℕ) (v : ℕ → V)
      → page < device_pages
      → off_write w page v
        ≡ switch_rdma
            (disk_write
              (counted (switch_rdma w false) (request true page 1))
              (request true page 1)
              v)
            true
  unfolding off_write write write_by
  off_write-eq w page v lt =
      let off : World V = counted (switch_rdma w false) (request true page 1) in
      rw (
        is_request-one (switch_rdma w false).session (request true page 1)
            (request_place true page lt).1,
        route_one-off off.session (request true page 1) (counted_off w page),
      )

  -- The read of a page that a server has recorded, in a session with the same places and bits.
  recorded_read :
      (w w' : World V) (m : ℕ → V) (page c i : ℕ)
      → Coherent w m
      → page < device_pages
      → cb_of w.session (page / gb_pages) ≡ some c
      → slot_of w.session (page / gb_pages) ≡ some i
      → bitmap_test (bitmap_at w.session c i) (page % gb_pages) ≡ true
      → w'.session.cb_list ≡ w.session.cb_list
      → w'.session.cb_index_map ≡ w.session.cb_index_map
      → w'.session.chunk_map_cb_chunk ≡ w.session.chunk_map_cb_chunk
      → w'.session.rdma_on ≡ true
      → w'.remote ≡ w.remote
      → (read w' (request false page 1)).0 ≡ m page
  unfolding read read_by count_ops
  recorded_read w w' m page c i h lt a b bit cbs maps slots on rem =
      let (k, e, o, _) = request_place false page lt in
      let goes : GoesRemote (count_ops w'.session (request false page 1)) (request false page 1) c
          i =
        record {
          same_gb = e;
          mapped = rw (k, maps) a;
          slot = rw (k, slots) b;
          on = on;
          recorded = inr (rw (o, cbs) bit);
        } in
      rw
        (
          is_request-one w'.session (request false page 1) e,
          transfer-route_one (count_ops w'.session (request false page 1)) (request false page 1) c
              i goes,
        )
        (rw (o, rem)
          (h.remote (page / gb_pages) c i (page % gb_pages) a b (omega arith) bit
            ∙ ap m (omega arith)))

  -- While RDMA is off a write of a page goes to disk alone and its bit stays as it was. So if the
  -- page is recorded at a server, the read that follows once RDMA is on again returns what the
  -- page held before the write, although the disk has what was written.
  pub stale_read :
      (w : World V) (m : ℕ → V) (page c i : ℕ) (v : ℕ → V)
      → Coherent w m
      → page < device_pages
      → cb_of w.session (page / gb_pages) ≡ some c
      → slot_of w.session (page / gb_pages) ≡ some i
      → bitmap_test (bitmap_at w.session c i) (page % gb_pages) ≡ true
      → ((read (off_write w page v) (request false page 1)).0 ≡ m page)
        × ((off_write w page v).disk page ≡ v page)
  unfolding count_ops disk_write
  stale_read w m page c i v h lt a b bit = rw (off_write-eq w page v lt) (
    recorded_read w _ m page c i h lt a b bit refl refl refl refl refl,
    ground (arith, request_place true page lt),
  )
