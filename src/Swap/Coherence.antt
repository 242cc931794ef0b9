-- ===== src/Swap/Coherence.antt =====
-- With RDMA on the device is a memory: what a load returns is what was last stored.
use dis_store.Prelude.{
  ℕ, ◌+◌, ◌-◌, ◌*◌, ◌/◌, ◌%◌, ◌≡◌, ◌≢◌, ◌<◌, inl, inr, refl, ◌∙◌, true, false, ◌&&◌, some, ◌==◌,
  if◌then◌else◌, arith, Bool-cases,
}
use dis_store.Bitmap.{page_size, bitmap_test, group_set}
use dis_store.Bitmap.Pages.{among, group_set-page, length-group_set}
use dis_store.Session.{Session}
use dis_store.Session.Tables.{cb_of, slot_of, with_chunk_bitmap}
use dis_store.Session.Links.{
  bitmap_at, Linked, Tied, Linked-injective, Linked-frame, Linked-with_chunk_bitmap,
  bitmap_at-with_chunk_bitmap,
}
use dis_store.Request.{
  Req, transfer, gb_index_of, end_index_of, start_of, offset_of, two_chunks, count_ops,
}
use dis_store.Request.Routes.{gb_pages, IsPaged, GoesRemote}
use dis_store.Request.Clearing.{
  two_chunks-bit, two_chunks-Linked, two_chunks-SamePlaces, SamePlaces, first_part,
  with_chunk_bitmap-SamePlaces,
}
use dis_store.Swap.{World, write_by, write_pages, disk_write, remote_write, write_done}

pub page_numbers :
    (r : Req) (page count : ℕ)
    → IsPaged r page count
    → (start_of r / page_size ≡ page) × (r.bytes / page_size ≡ count)
page_numbers r page count p = omega arith

-- A request inside one gigabyte has no page of another one.
outside :
    (r : Req) (page count k q : ℕ)
    → IsPaged r page count
    → gb_index_of r ≡ end_index_of r
    → q < gb_pages
    → k ≢ gb_index_of r
    → among page count (k * gb_pages + q) ≡ false
outside r page count k q p e lt ne = ground arith

-- Inside its gigabyte the request's pages are those from its offset on.
inside :
    (r : Req) (page count k q : ℕ)
    → IsPaged r page count
    → gb_index_of r ≡ end_index_of r
    → q < gb_pages
    → k ≡ gb_index_of r
    → (among (offset_of r / page_size) count q ≡ among page count (k * gb_pages + q))
      × ((among page count (k * gb_pages + q) ≡ true)
          → page + (q - offset_of r / page_size) ≡ k * gb_pages + q)
inside r page count k q p e lt f = (ground arith, λ h. ground arith)

transfer_bit :
    (s : Session) (r : Req) (page count c i d j q : ℕ)
    → IsPaged r page count
    → gb_index_of r ≡ end_index_of r
    → Tied s (gb_index_of r) c i
    → bitmap_test
        (bitmap_at
          (with_chunk_bitmap s c i (group_set (bitmap_at s c i) (offset_of r) r.bytes))
          d
          j)
        q
      ≡ (if (c == d) && ((i == j) && among (offset_of r / page_size) count q)
          then true
          else bitmap_test (bitmap_at s d j) q)
transfer_bit s r page count c i d j q p e t = ground (
  arith,
  bitmap_at-with_chunk_bitmap s c i (group_set (bitmap_at s c i) (offset_of r) r.bytes) d j t.has,
  group_set-page (bitmap_at s c i) (page % gb_pages) count q t.full (omega arith),
  first_part r page count p,
)

module _ {V : Type 0} where
  -- The disk holds the memory, and so does a chunk wherever its bitmap says so.
  pub record Coherent (w : World V) (m : ℕ → V) : Type 0 where
    pub linked : Linked w.session
    pub on : w.session.rdma_on ≡ true
    pub disk : (q : ℕ) → w.disk q ≡ m q
    pub remote :
        (k c i q : ℕ)
        → cb_of w.session k ≡ some c
        → slot_of w.session k ≡ some i
        → q < gb_pages
        → bitmap_test (bitmap_at w.session c i) q ≡ true
        → w.remote c i q ≡ m (k * gb_pages + q)

  -- Counting a request changes neither where a page is nor what is recorded.
  abbrev pub counted : World V → Req → World V
  counted w r = record w { session = count_ops w.session r }

  pub counted-Coherent :
      (w : World V) (m : ℕ → V) (r : Req) → Coherent w m → Coherent (counted w r) m
  unfolding count_ops
  counted-Coherent w m r h = elim (Bool-cases r.write) [
    | inl d ↦ rw d (record {
      linked = Linked-frame w.session _ refl refl refl h.linked;
      on = h.on;
      disk = h.disk;
      remote = h.remote;
    })
    | inr d ↦ rw d (record {
      linked = Linked-frame w.session _ refl refl refl h.linked;
      on = h.on;
      disk = h.disk;
      remote = h.remote;
    })
  ]

  disk_write-disk :
      (w : World V) (m : ℕ → V) (r : Req) (page count : ℕ) (v : ℕ → V)
      → IsPaged r page count
      → ((q : ℕ) → w.disk q ≡ m q)
      → (q : ℕ) → (disk_write w r v).disk q ≡ write_pages v page count m q
  unfolding disk_write
  disk_write-disk w m r page count v p h q = ground (arith, h q, page_numbers r page count p)

  -- A write to a gigabyte that no server has goes to disk.
  pub unmapped-Coherent :
      (w : World V) (m : ℕ → V) (r : Req) (page count : ℕ) (v : ℕ → V)
      → Coherent w m
      → IsPaged r page count
      → gb_index_of r ≡ end_index_of r
      → ((c i : ℕ)
          → cb_of w.session (gb_index_of r) ≡ some c
          → slot_of w.session (gb_index_of r) ≡ some i
          → ⊥)
      → Coherent (disk_write w r v) (write_pages v page count m)
  unfolding disk_write
  unmapped-Coherent w m r page count v h p e none_there = record {
    linked = h.linked;
    on = h.on;
    disk = disk_write-disk w m r page count v p h.disk;
    remote = λ k c i q a b lt bit.
        ground
          (arith, h.remote k c i q a b lt bit, none_there c i, outside r page count k q p e lt);
  }

  -- A write over two gigabytes goes to disk, and what the servers hold of its pages is forgotten.
  pub two_chunks-Coherent :
      (w : World V) (m : ℕ → V) (r : Req) (page count : ℕ) (v : ℕ → V)
      → Coherent w m
      → IsPaged r page count
      → r.write ≡ true
      → gb_index_of r ≢ end_index_of r
      → Coherent
          (disk_write (record w { session = two_chunks w.session r }) r v)
          (write_pages v page count m)
  unfolding disk_write
  two_chunks-Coherent w m r page count v h p d ne =
      let same : SamePlaces w.session (two_chunks w.session r) =
        two_chunks-SamePlaces w.session r in
      record {
        linked = two_chunks-Linked w.session r h.linked;
        on = same.switch ∙ h.on;
        disk = disk_write-disk w m r page count v p h.disk;
        remote = λ k c i q a b lt bit.
            let a' : cb_of w.session k ≡ some c = rw (← same.cbs k) a in
            let b' : slot_of w.session k ≡ some i = rw (← same.slots k) b in
            ground (
              arith,
              h.remote k c i q a' b' lt,
              two_chunks-bit w.session r page count k c i q h.linked p d ne a' b' lt,
            );
      }

  -- A write that a server takes: on disk and at the server, and recorded there.
  pub transfer-Coherent :
      (w : World V) (m : ℕ → V) (r : Req) (page count : ℕ) (v : ℕ → V) (c i : ℕ)
      → Coherent w m
      → IsPaged r page count
      → GoesRemote w.session r c i
      → Coherent (write_by w r v (transfer c i (offset_of r) r.bytes)) (write_pages v page count m)
  unfolding write_by write_done remote_write disk_write
  transfer-Coherent w m r page count v c i h p g =
      let t : Tied w.session (gb_index_of r) c i = h.linked (gb_index_of r) c i g.mapped g.slot in
      let bits = group_set (bitmap_at w.session c i) (offset_of r) r.bytes in
      record {
        linked =
            Linked-with_chunk_bitmap w.session c i bits t.has
              (length-group_set (bitmap_at w.session c i) (offset_of r) r.bytes ∙ t.full) h.linked;
        on = (with_chunk_bitmap-SamePlaces w.session c i bits).switch ∙ h.on;
        disk = disk_write-disk w m r page count v p h.disk;
        remote = λ k d j q a b lt bit.
            let same : SamePlaces w.session (with_chunk_bitmap w.session c i bits) =
              with_chunk_bitmap-SamePlaces w.session c i bits in
            let a' : cb_of w.session k ≡ some d = rw (← same.cbs k) a in
            let b' : slot_of w.session k ≡ some j = rw (← same.slots k) b in
            ground (
              arith,
              h.remote k d j q a' b' lt,
              transfer_bit w.session r page count c i d j q p g.same_gb t,
              page_numbers r page count p,
              inside r page count k q p g.same_gb lt,
              outside r page count k q p g.same_gb lt,
              Linked-injective w.session k (gb_index_of r) d j h.linked a' b',
              g,
            );
      }
