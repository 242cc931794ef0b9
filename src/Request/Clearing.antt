-- ===== src/Request/Clearing.antt =====
-- What the branch over two gigabytes does to the bitmaps.
use dis_store.Prelude.{
  ℕ, ◌+◌, ◌-◌, ◌*◌, ◌/◌, ◌%◌, ◌^◌, ◌≡◌, ◌<◌, ◌≤◌, ◌⊎◌, inl, inr, refl, ◌∙◌, true, false, ◌&&◌, ◌||◌,
  ◌≢◌, some, ◌==◌, if◌then◌else◌, arith, Option-cases, Bool-cases,
}
use dis_store.Bitmap.{Bitmap, page_size, bitmap_test, one_gb, group_clear}
use dis_store.Bitmap.Pages.{among, group_clear-page, length-group_clear}
use dis_store.Session.{Session}
use dis_store.Session.Tables.{cb_of, slot_of, with_chunk_bitmap}
use dis_store.Session.Links.{
  bitmap_at, Linked, Linked-injective, Linked-with_chunk_bitmap, bitmap_at-with_chunk_bitmap,
}
use dis_store.Request.Routes.{IsPaged, gb_pages}
use dis_store.Request.{Req, ulong, gb_index_of, end_index_of, offset_of, two_chunks, clear_part}

-- The tables that say where a gigabyte is, and the switch, are those of another session.
pub record SamePlaces (s t : Session) : Type 0 where
  pub cbs : (k : ℕ) → cb_of t k ≡ cb_of s k
  pub slots : (k : ℕ) → slot_of t k ≡ slot_of s k
  pub switch : t.rdma_on ≡ s.rdma_on

pub SamePlaces-refl : (s : Session) → SamePlaces s s
SamePlaces-refl s = record { cbs = λ k. refl; slots = λ k. refl; switch = refl }

pub SamePlaces-trans : {s t u : Session} → SamePlaces s t → SamePlaces t u → SamePlaces s u
SamePlaces-trans h k = record {
  cbs = λ l. k.cbs l ∙ h.cbs l;
  slots = λ l. k.slots l ∙ h.slots l;
  switch = k.switch ∙ h.switch;
}

pub with_chunk_bitmap-SamePlaces :
    (s : Session) (c i : ℕ) (b : Bitmap) → SamePlaces s (with_chunk_bitmap s c i b)
unfolding with_chunk_bitmap
with_chunk_bitmap-SamePlaces s c i b = record { cbs = λ k. refl; slots = λ k. refl; switch = refl }

-- A gigabyte is mapped to a chunk, or it has none.
pub place_cases :
    (s : Session) (k : ℕ)
    → ((c i : ℕ) → cb_of s k ≡ some c → slot_of s k ≡ some i → ⊥)
      ⊎ ((c : ℕ) × (i : ℕ) × (cb_of s k ≡ some c) × (slot_of s k ≡ some i))
place_cases s k = elim (Option-cases (cb_of s k)) [
  | inl e ↦ inl (λ c i a b. cc (e, a))
  | inr (c, e) ↦ elim (Option-cases (slot_of s k)) [
    | inl f ↦ inl (λ d i a b. cc (f, b))
    | inr (i, f) ↦ inr (c, i, e, f)
  ]
]

clear_part-mapped :
    (s : Session) (k offset len c i : ℕ)
    → cb_of s k ≡ some c
    → slot_of s k ≡ some i
    → clear_part s k offset len ≡ with_chunk_bitmap s c i (group_clear (bitmap_at s c i) offset len)
unfolding clear_part
clear_part-mapped s k offset len c i a b = ground arith

clear_part-unmapped :
    (s : Session) (k offset len : ℕ)
    → ((c i : ℕ) → cb_of s k ≡ some c → slot_of s k ≡ some i → ⊥)
    → clear_part s k offset len ≡ s
unfolding clear_part
clear_part-unmapped s k offset len no_place = elim (Option-cases (cb_of s k)) [
  | inl e ↦ rw (e, clear_part)
  | inr (c, e) ↦ elim (Option-cases (slot_of s k)) [
    | inl f ↦ rw (e, f, clear_part)
    | inr (i, f) ↦ absurd (no_place c i e f)
  ]
]

pub clear_part-SamePlaces :
    (s : Session) (k offset len : ℕ) → SamePlaces s (clear_part s k offset len)
clear_part-SamePlaces s k offset len = elim (place_cases s k) [
  | inl n ↦ rw (clear_part-unmapped s k offset len n) (SamePlaces-refl s)
  | inr (c, i, a, b) ↦
      rw (clear_part-mapped s k offset len c i a b)
        (with_chunk_bitmap-SamePlaces s c i (group_clear (bitmap_at s c i) offset len))
]

pub clear_part-Linked :
    (s : Session) (k offset len : ℕ) → Linked s → Linked (clear_part s k offset len)
clear_part-Linked s k offset len h = elim (place_cases s k) [
  | inl n ↦ rw (clear_part-unmapped s k offset len n) h
  | inr (c, i, a, b) ↦ rw (clear_part-mapped s k offset len c i a b) (
      Linked-with_chunk_bitmap s c i (group_clear (bitmap_at s c i) offset len) (h k c i a b).has
        (length-group_clear (bitmap_at s c i) offset len ∙ (h k c i a b).full) h)
]

-- After a part is cleared, the bit of page `q` of gigabyte `l` is as it was outside the part.
clear_part-bit :
    (s : Session) (k first count l c i q : ℕ)
    → Linked s
    → (first + count) * page_size ≤ one_gb
    → cb_of s l ≡ some c
    → slot_of s l ≡ some i
    → bitmap_test (bitmap_at (clear_part s k (first * page_size) (count * page_size)) c i) q
      ≡ (if (k == l) && among first count q then false else bitmap_test (bitmap_at s c i) q)
clear_part-bit s k first count l c i q h fits a b = elim (place_cases s k) [
  | inl n ↦ ground (arith, clear_part-unmapped s k (first * page_size) (count * page_size) n, n c i)
  | inr (d, j, e, f) ↦ ground (
    arith,
    clear_part-mapped s k (first * page_size) (count * page_size) d j e f,
    bitmap_at-with_chunk_bitmap s d j
        (group_clear (bitmap_at s d j) (first * page_size) (count * page_size)) c i
        (h k d j e f).has,
    group_clear-page (bitmap_at s d j) first count q (h k d j e f).full fits,
    Linked-injective s k l c i h,
  )
]

pub first_part :
    (r : Req) (page count : ℕ)
    → IsPaged r page count
    → (offset_of r ≡ page % gb_pages * page_size)
      × (one_gb - offset_of r ≡ (gb_pages - page % gb_pages) * page_size)
      × (gb_index_of r ≡ page / gb_pages)
first_part r page count p = omega arith

second_part :
    (r : Req) (page count : ℕ)
    → IsPaged r page count
    → gb_index_of r ≢ end_index_of r
    → (ulong (offset_of r + r.bytes + 2 ^ 64 - one_gb)
        ≡ (page % gb_pages + count - gb_pages) * page_size)
      × (end_index_of r ≡ page / gb_pages + 1)
      × (page % gb_pages + count ≤ 2 * gb_pages)
second_part r page count p ne = omega arith

spans :
    (r : Req) (page count : ℕ)
    → IsPaged r page count
    → gb_index_of r ≢ end_index_of r
    → gb_pages ≤ page % gb_pages + count
spans r page count p ne = omega arith

-- The pages of the two parts are the pages of the request.
parts :
    (page count l q : ℕ)
    → q < gb_pages
    → gb_pages ≤ page % gb_pages + count
    → page % gb_pages + count ≤ 2 * gb_pages
    → among page count (l * gb_pages + q) ≡ (
        ((page / gb_pages == l) && among (page % gb_pages) (gb_pages - page % gb_pages) q)
        || ((page / gb_pages + 1 == l) && among 0 (page % gb_pages + count - gb_pages) q))
parts page count l q h g f = ground arith

-- The session after both parts are cleared, in pages.
both_parts : Session → ℕ → ℕ → Session
both_parts s page count =
    let s' =
      clear_part s (page / gb_pages) (page % gb_pages * page_size)
        ((gb_pages - page % gb_pages) * page_size) in
    clear_part s' (page / gb_pages + 1) (0 * page_size)
      ((page % gb_pages + count - gb_pages) * page_size)

two_chunks-both_parts :
    (s : Session) (r : Req) (page count : ℕ)
    → IsPaged r page count
    → r.write ≡ true
    → gb_index_of r ≢ end_index_of r
    → two_chunks s r ≡ both_parts s page count
unfolding two_chunks both_parts
two_chunks-both_parts s r page count p w ne =
    ground (arith, first_part r page count p, second_part r page count p ne)

pub two_chunks-SamePlaces : (s : Session) (r : Req) → SamePlaces s (two_chunks s r)
unfolding two_chunks
two_chunks-SamePlaces s r = elim (Bool-cases r.write) [
  | inl w ↦ rw w (
      SamePlaces-trans
        (clear_part-SamePlaces s (gb_index_of r) (offset_of r) (one_gb - offset_of r))
        (clear_part-SamePlaces _ (end_index_of r) 0 _))
  | inr w ↦ rw w (SamePlaces-refl s)
]

pub two_chunks-Linked : (s : Session) (r : Req) → Linked s → Linked (two_chunks s r)
unfolding two_chunks
two_chunks-Linked s r h = elim (Bool-cases r.write) [
  | inl w ↦ rw w (
      clear_part-Linked _ (end_index_of r) 0 _
        (clear_part-Linked s (gb_index_of r) (offset_of r) (one_gb - offset_of r) h))
  | inr w ↦ rw w h
]

-- A write of whole pages over two gigabytes clears, in the chunks that its gigabytes are mapped to,
-- the bits of exactly its pages: the bit of page `q` of a mapped gigabyte `l` reads false afterwards
-- if that page is one of the request's, and as before if it is not.
pub two_chunks-bit :
    (s : Session) (r : Req) (page count l c i q : ℕ)
    → Linked s
    → IsPaged r page count
    → r.write ≡ true
    → gb_index_of r ≢ end_index_of r
    → cb_of s l ≡ some c
    → slot_of s l ≡ some i
    → q < gb_pages
    → bitmap_test (bitmap_at (two_chunks s r) c i) q
      ≡ (if among page count (l * gb_pages + q) then false else bitmap_test (bitmap_at s c i) q)
unfolding both_parts
two_chunks-bit s r page count l c i q h p w ne a b lt =
    let s' : Session =
      clear_part s (page / gb_pages) (page % gb_pages * page_size)
        ((gb_pages - page % gb_pages) * page_size) in
    let same : SamePlaces s s' = clear_part-SamePlaces s _ _ _ in
    ground (
      arith,
      two_chunks-both_parts s r page count p w ne,
      clear_part-bit s' (page / gb_pages + 1) 0 (page % gb_pages + count - gb_pages) l c i q
          (clear_part-Linked s _ _ _ h) (omega (arith, second_part r page count p ne))
          (same.cbs l ∙ a) (same.slots l ∙ b),
      clear_part-bit s (page / gb_pages) (page % gb_pages) (gb_pages - page % gb_pages) l c i q h
          (omega arith) a b,
      parts page count l q lt
          (omega (arith, second_part r page count p ne, spans r page count p ne))
          (omega (arith, second_part r page count p ne)),
    )
