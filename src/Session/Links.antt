-- ===== src/Session/Links.antt =====
-- The tables that tie a gigabyte of the device to a chunk of a server, and what writing a chunk's
-- bitmap leaves of them.
use dis_store.Prelude.{
  ℕ, ◌≡◌, ◌<◌, ◌&&◌, Option, none, some, ◌==◌, if◌then◌else◌, length, get_or, arith, length-set,
  get_or-set, ◌∙◌,
}
use dis_store.Bitmap.{Bitmap}
use dis_store.Bitmap.Pages.{IsChunkMap}
use dis_store.Session.{Session, Cb}
use dis_store.Session.Tables.{
  no_cb, no_chunk, cb_of, slot_of, cb_at, chunk_at, with_cb, with_table, with_bitmap,
  with_chunk_bitmap,
}

abbrev pub bitmap_at : Session → ℕ → ℕ → Bitmap
bitmap_at s c i = (chunk_at s c i).bitmap_g

-- `cb_list[c]->remote_chunk.chunk_map[i]`
abbrev pub gb_at : Session → ℕ → ℕ → Option ℕ
gb_at s c i = get_or (cb_at s c).remote_chunk.chunk_map i none

-- Chunk `i` of server `c` is there.
abbrev pub HasChunk : Session → ℕ → ℕ → Type 0
HasChunk s c i = (c < length s.cb_list) × (i < length (cb_at s c).remote_chunk.chunk_list)

pub cb_at-with_cb :
    (s : Session) (c : ℕ) (cb : Cb) (d : ℕ)
    → c < length s.cb_list
    → cb_at (with_cb s c cb) d ≡ (if c == d then cb else cb_at s d)
cb_at-with_cb s c cb d h = get_or-set s.cb_list c d cb no_cb h

-- Chunk `j` of a server whose chunk `i` got the bitmap `b`.
bitmap-with_bitmap :
    (cb : Cb) (i : ℕ) (b : Bitmap) (j : ℕ)
    → i < length cb.remote_chunk.chunk_list
    → (get_or (with_bitmap cb.remote_chunk i b).chunk_list j no_chunk).bitmap_g
      ≡ (if i == j then b else (get_or cb.remote_chunk.chunk_list j no_chunk).bitmap_g)
bitmap-with_bitmap cb i b j h = ground (
  arith,
  get_or-set cb.remote_chunk.chunk_list i j
      (record (get_or cb.remote_chunk.chunk_list i no_chunk) { bitmap_g = b }) no_chunk h,
)

-- A bitmap written for one chunk is read back there, and everywhere else nothing changes.
pub bitmap_at-with_chunk_bitmap :
    (s : Session) (c i : ℕ) (b : Bitmap) (d j : ℕ)
    → HasChunk s c i
    → bitmap_at (with_chunk_bitmap s c i b) d j
      ≡ (if (c == d) && (i == j) then b else bitmap_at s d j)
unfolding with_chunk_bitmap
bitmap_at-with_chunk_bitmap s c i b d j h = ground (
  arith,
  cb_at-with_cb s c (with_table (cb_at s c) (with_bitmap (cb_at s c).remote_chunk i b)) d h.0,
  bitmap-with_bitmap (cb_at s c) i b j h.1,
)

pub gb_at-with_chunk_bitmap :
    (s : Session) (c i : ℕ) (b : Bitmap) (d j : ℕ)
    → c < length s.cb_list
    → gb_at (with_chunk_bitmap s c i b) d j ≡ gb_at s d j
unfolding with_chunk_bitmap
gb_at-with_chunk_bitmap s c i b d j h = ground (
  arith,
  cb_at-with_cb s c (with_table (cb_at s c) (with_bitmap (cb_at s c).remote_chunk i b)) d h,
)

-- No chunk comes or goes with a bitmap.
pub HasChunk-with_chunk_bitmap :
    (s : Session) (c i : ℕ) (b : Bitmap) (d j : ℕ)
    → HasChunk s c i
    → HasChunk s d j
    → HasChunk (with_chunk_bitmap s c i b) d j
unfolding with_chunk_bitmap
HasChunk-with_chunk_bitmap s c i b d j h k = ground (
  arith,
  length-set s.cb_list c (with_table (cb_at s c) (with_bitmap (cb_at s c).remote_chunk i b)),
  cb_at-with_cb s c (with_table (cb_at s c) (with_bitmap (cb_at s c).remote_chunk i b)) d h.0,
  length-set (cb_at s c).remote_chunk.chunk_list i
      (record (get_or (cb_at s c).remote_chunk.chunk_list i no_chunk) { bitmap_g = b }),
)

-- A mapped gigabyte has its chunk, with a bitmap of full size, and that chunk is mapped to it.
pub record Tied (s : Session) (k c i : ℕ) : Type 0 where
  pub has : HasChunk s c i
  pub full : IsChunkMap (bitmap_at s c i)
  pub back : gb_at s c i ≡ some k

abbrev pub Linked : Session → Type 0
Linked s = (k c i : ℕ) → cb_of s k ≡ some c → slot_of s k ≡ some i → Tied s k c i

-- Two gigabytes do not share a chunk.
pub Linked-injective :
    (s : Session) (k l c i : ℕ)
    → Linked s
    → cb_of s k ≡ some c
    → slot_of s k ≡ some i
    → cb_of s l ≡ some c
    → slot_of s l ≡ some i
    → k ≡ l
Linked-injective s k l c i h a b a' b' = cc ((h k c i a b).back, (h l c i a' b').back)

pub Linked-with_chunk_bitmap :
    (s : Session) (c i : ℕ) (b : Bitmap)
    → HasChunk s c i
    → IsChunkMap b
    → Linked s
    → Linked (with_chunk_bitmap s c i b)
unfolding with_chunk_bitmap
Linked-with_chunk_bitmap s c i b has full h k d j p q =
    let t : Tied s k d j = h k d j p q in
    record {
      has = HasChunk-with_chunk_bitmap s c i b d j has t.has;
      full = ground (arith, bitmap_at-with_chunk_bitmap s c i b d j has, t.full);
      back = gb_at-with_chunk_bitmap s c i b d j has.0 ∙ t.back;
    }

-- Being linked is a matter of three tables.
pub Linked-frame :
    (s t : Session)
    → t.cb_list ≡ s.cb_list
    → t.cb_index_map ≡ s.cb_index_map
    → t.chunk_map_cb_chunk ≡ s.chunk_map_cb_chunk
    → Linked s
    → Linked t
Linked-frame s t e f g h k c i a b =
    let u : Tied s k c i = h k c i (rw f at a) (rw g at b) in
    record { has = rw e u.has; full = rw e u.full; back = rw e u.back }
