-- ===== src/Request/Routes.antt =====
-- Which requests go to a server, and with which arguments.
use dis_store.Prelude.{
  inl, inr, sym, ap, ◌∙◌, Bool, ◌%◌, ℕ, ◌+◌, ◌*◌, ◌/◌, ◌^◌, ◌≡◌, ◌<◌, ◌≤◌, ◌↔◌, ◌⊎◌, true, some,
  arith,
}
use dis_store.Bitmap.{page_size, bitmap_test, one_gb}
use dis_store.Session.{Session}
use dis_store.Session.Tables.{cb_of, slot_of}
use dis_store.Session.Links.{bitmap_at}
use dis_store.Request.{
  Req, transfer, is_request, route_one, count_ops, gb_index_of, start_of, end_index_of, offset_of,
}

abbrev pub gb_pages : ℕ
gb_pages = 2 ^ 18

-- All that has to hold for a request to go to chunk `i` of server `c`.
pub record GoesRemote (s : Session) (r : Req) (c i : ℕ) : Type 0 where
  pub same_gb : gb_index_of r ≡ end_index_of r
  pub mapped : cb_of s (gb_index_of r) ≡ some c
  pub slot : slot_of s (gb_index_of r) ≡ some i
  pub on : s.rdma_on ≡ true
  pub recorded : (r.write ≡ true) ⊎ (bitmap_test (bitmap_at s c i) (offset_of r / page_size) ≡ true)

pub route_one-transfer :
    (s : Session) (r : Req) (c i offset len : ℕ)
    → gb_index_of r ≡ end_index_of r
    → route_one s r ≡ transfer c i offset len
    → GoesRemote s r c i × (offset ≡ offset_of r) × (len ≡ r.bytes)
unfolding route_one
route_one-transfer s r c i offset len e h = ground arith

pub transfer-route_one :
    (s : Session) (r : Req) (c i : ℕ)
    → GoesRemote s r c i
    → route_one s r ≡ transfer c i (offset_of r) r.bytes
unfolding route_one
transfer-route_one s r c i h = ground arith

pub route_one-count_ops : (s : Session) (r : Req) → route_one (count_ops s r) r ≡ route_one s r
unfolding route_one count_ops
route_one-count_ops s r = ground arith

-- `r` is for the `count` pages from page `page` on, at most a gigabyte of them, inside the first
-- 2^63 bytes.
pub record IsPaged (r : Req) (page count : ℕ) : Type 0 where
  pub first : start_of r ≡ page * page_size
  pub length : r.bytes ≡ count * page_size
  pub some_page : 0 < count
  pub at_most : r.bytes ≤ one_gb
  pub small : start_of r + r.bytes ≤ 2 ^ 63

-- For a request of whole pages, IS_request takes it as lying in one gigabyte exactly if its offset
-- and length together do not exceed a gigabyte.
pub same_gb_iff :
    (r : Req) (page count : ℕ)
    → IsPaged r page count
    → (gb_index_of r ≡ end_index_of r) ↔ (offset_of r + r.bytes ≤ one_gb)
same_gb_iff r page count p = (λ g. omega arith, λ g. omega arith)

-- The `count` pages from page `page` on are to go to chunk `i` of server `c`: they lie in one
-- gigabyte, which has that server and chunk, RDMA is on, and they are written or the first of them is
-- recorded in the chunk.
pub record SentTo (s : Session) (write : Bool) (page count c i : ℕ) : Type 0 where
  pub inside : page % gb_pages + count ≤ gb_pages
  pub mapped : cb_of s (page / gb_pages) ≡ some c
  pub slot : slot_of s (page / gb_pages) ≡ some i
  pub on : s.rdma_on ≡ true
  pub recorded : (write ≡ true) ⊎ (bitmap_test (bitmap_at s c i) (page % gb_pages) ≡ true)

-- The place of whole pages in the gigabytes.
paged_place :
    (r : Req) (page count : ℕ)
    → IsPaged r page count
    → (gb_index_of r ≡ page / gb_pages)
      × (offset_of r ≡ page % gb_pages * page_size)
      × (offset_of r / page_size ≡ page % gb_pages)
paged_place r page count p = (omega arith, omega arith, omega arith)

paged_inside :
    (r : Req) (page count : ℕ)
    → IsPaged r page count
    → (gb_index_of r ≡ end_index_of r) ↔ (page % gb_pages + count ≤ gb_pages)
paged_inside r page count p = (λ g. omega arith, λ g. omega arith)

GoesRemote-iff :
    (s : Session) (r : Req) (page count c i : ℕ)
    → IsPaged r page count
    → GoesRemote s r c i ↔ SentTo s r.write page count c i
GoesRemote-iff s r page count c i p =
    let (gb, offset, first) = paged_place r page count p in
    let (fits, one) = paged_inside r page count p in
    (
      λ g. record {
        inside = fits g.same_gb;
        mapped = ap (cb_of s) (sym gb) ∙ g.mapped;
        slot = ap (slot_of s) (sym gb) ∙ g.slot;
        on = g.on;
        recorded = elim g.recorded [
          | inl w ↦ inl w
          | inr b ↦ inr (ap (bitmap_test (bitmap_at s c i)) (sym first) ∙ b)
        ];
      },
      λ g. record {
        same_gb = one g.inside;
        mapped = ap (cb_of s) gb ∙ g.mapped;
        slot = ap (slot_of s) gb ∙ g.slot;
        on = g.on;
        recorded = elim g.recorded [
          | inl w ↦ inl w
          | inr b ↦ inr (ap (bitmap_test (bitmap_at s c i)) first ∙ b)
        ];
      },
    )

is_request-GoesRemote :
    (s : Session) (r : Req) (c i offset len : ℕ)
    → ((is_request s r).0 ≡ transfer c i offset len)
      ↔ (GoesRemote s r c i × (offset ≡ offset_of r) × (len ≡ r.bytes))
unfolding is_request
is_request-GoesRemote s r c i offset len = (
  λ h. ground (arith, route_one-count_ops s r, route_one-transfer s r c i offset len),
  λ h. ground (arith, route_one-count_ops s r, transfer-route_one s r c i h.0),
)

-- IS_request hands a request of whole pages, at most a gigabyte of them and inside the first 2^63
-- bytes, to IS_transfer_chunk exactly if the pages lie in one gigabyte that is mapped to the server
-- and chunk of the call, RDMA is on, and the request is a write or its first page is recorded in the
-- chunk; and then the call is for the bytes of these pages in that gigabyte.
pub transfer_iff :
    (s : Session) (r : Req) (page count c i offset len : ℕ)
    → IsPaged r page count
    → ((is_request s r).0 ≡ transfer c i offset len) ↔ (
        SentTo s r.write page count c i
        × (offset ≡ page % gb_pages * page_size)
        × (len ≡ count * page_size))
transfer_iff s r page count c i offset len p =
    let (gb, start, first) = paged_place r page count p in
    let (sent, goes) = GoesRemote-iff s r page count c i p in
    let (ran, runs) = is_request-GoesRemote s r c i offset len in
    (
      λ h. let (g, o, l) = ran h in (sent g, o ∙ start, l ∙ p.length),
      λ h. runs (goes h.0, h.1 ∙ sym start, h.2 ∙ sym p.length),
    )
