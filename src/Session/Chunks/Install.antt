-- ===== src/Session/Chunks/Install.antt =====
-- Mapping a gigabyte to a chunk keeps the tables linked.
use dis_store.Prelude.{
  ℕ, ◌≡◌, ◌<◌, false, ◌&&◌, none, some, ◌==◌, if◌then◌else◌, length, arith, length-set, get_or-set,
  get_or-set_self, get_or-set_ne, ◌≢◌, refl, sym, ap,
}
use dis_store.Prelude.Int.{pos, ◌+ℤ◌}
use dis_store.Bitmap.{bitmap_init, bitmap_test}
use dis_store.Bitmap.Pages.{bitmap_init-IsChunkMap}
use native.Mathlib.Decide.{ℕ_discrete}
use dis_store.Session.{Session, Cb, ChunkListState}
use dis_store.Session.Tables.{no_cb, no_chunk, cb_of, slot_of, cb_at, chunk_at, with_cb, with_table}
use dis_store.Session.Links.{bitmap_at, gb_at, HasChunk, Tied, Linked, cb_at-with_cb}
use dis_store.Session.Chunks.{first_rkey, chunk_of, install, map_gb, single_chunk_init}

-- Server `c` stands at its own index, and its tables and the session's reach to chunk `i` and to
-- gigabyte `k`.
pub record Fits (s : Session) (c i k : ℕ) : Type 0 where
  pub has : HasChunk s c i
  pub index : (cb_at s c).cb_index ≡ c
  pub map_size : i < length (cb_at s c).remote_chunk.chunk_map
  pub cbs_size : k < length s.cb_index_map
  pub slots_size : k < length s.chunk_map_cb_chunk

-- The tables of `s'` are those of `s` with gigabyte `k` on the fresh chunk `i` of server `c`.
pub record MapsTo (s s' : Session) (k c i : ℕ) : Type 0 where
  pub cbs : (l : ℕ) → cb_of s' l ≡ (if k == l then some c else cb_of s l)
  pub slots : (l : ℕ) → slot_of s' l ≡ (if k == l then some i else slot_of s l)
  pub chunks : (d j : ℕ) → HasChunk s d j → HasChunk s' d j
  pub bits :
      (d j : ℕ) → bitmap_at s' d j ≡ (if (c == d) && (i == j) then bitmap_init else bitmap_at s d j)
  pub backs : (d j : ℕ) → gb_at s' d j ≡ (if (c == d) && (i == j) then some k else gb_at s d j)

-- Mapping a gigabyte to a chunk that no gigabyte has keeps the tables linked.
pub MapsTo-Linked :
    (s s' : Session) (k c i : ℕ)
    → Linked s
    → HasChunk s c i
    → gb_at s c i ≡ none
    → MapsTo s s' k c i
    → Linked s'
MapsTo-Linked s s' k c i h has free m l d j a b = elim (ℕ_discrete k l) [
  | yes e ↦
      let dc : d ≡ c = ground (arith, m.cbs l) in
      let ji : j ≡ i = ground (arith, m.slots l) in
      rw (dc, ji, ← e)
        (record {
          has = m.chunks c i has;
          full = ground (arith, m.bits c i, bitmap_init-IsChunkMap.0);
          back = ground (arith, m.backs c i);
        })
  | no ne ↦
      let a' : cb_of s l ≡ some d = ground (arith, m.cbs l) in
      let b' : slot_of s l ≡ some j = ground (arith, m.slots l) in
      let t : Tied s l d j = h l d j a' b' in
      record {
        has = m.chunks d j t.has;
        full = ground (arith, m.bits d j, bitmap_init-IsChunkMap.0, t.full);
        back = ground (arith, m.backs d j, t.back);
      }
]

-- What IS_single_chunk_init does, once it has found an rkey.
installed : Session → ℕ → ℕ → Session
installed s c i =
    let cb : Cb = cb_at s c in
    map_gb
      (with_cb s c (
        with_table cb (record (install cb.remote_chunk cb.recv_buf i cb.recv_buf.size_gb) {
          chunk_size_g = cb.remote_chunk.chunk_size_g +ℤ pos 1;
          c_state = ChunkListState.c_ready;
        })))
      cb.recv_buf.size_gb cb.cb_index i

single_chunk_init-installed :
    (s : Session) (c i : ℕ)
    → first_rkey (cb_at s c).recv_buf.rkey 32 0 ≡ some i
    → single_chunk_init s c ≡ installed s c i
unfolding single_chunk_init installed
single_chunk_init-installed s c i e = rw (e, single_chunk_init)

installed-MapsTo :
    (s : Session) (c i : ℕ)
    → Fits s c i (cb_at s c).recv_buf.size_gb
    → MapsTo s (installed s c i) (cb_at s c).recv_buf.size_gb c i
unfolding installed map_gb install chunk_of
installed-MapsTo s c i f =
    let cb : Cb = cb_at s c in
    let k : ℕ = cb.recv_buf.size_gb in
    let t = install cb.remote_chunk cb.recv_buf i k in
    let new = with_table cb (record t {
      chunk_size_g = cb.remote_chunk.chunk_size_g +ℤ pos 1;
      c_state = ChunkListState.c_ready;
    }) in
    record {
      cbs = λ l.
          ground (arith, get_or-set s.cb_index_map k l (some cb.cb_index) none f.cbs_size, f.index);
      slots = λ l. get_or-set s.chunk_map_cb_chunk k l (some i) none f.slots_size;
      chunks = λ d j h. ground (
        arith,
        length-set s.cb_list c new,
        cb_at-with_cb s c new d f.has.0,
        length-set cb.remote_chunk.chunk_list i (chunk_of cb.recv_buf i),
      );
      bits = λ d j. ground (
        arith,
        cb_at-with_cb s c new d f.has.0,
        get_or-set cb.remote_chunk.chunk_list i j (chunk_of cb.recv_buf i) no_chunk f.has.1,
      );
      backs = λ d j. ground (
        arith,
        cb_at-with_cb s c new d f.has.0,
        get_or-set cb.remote_chunk.chunk_map i j (some k) none f.map_size,
      );
    }

installed-chunk :
    (s : Session) (c i : ℕ)
    → Fits s c i (cb_at s c).recv_buf.size_gb
    → chunk_at (installed s c i) c i ≡ chunk_of (cb_at s c).recv_buf i
unfolding installed map_gb install
installed-chunk s c i f =
    let cb : Cb = cb_at s c in
    let t = install cb.remote_chunk cb.recv_buf i cb.recv_buf.size_gb in
    let new = with_table cb (record t {
      chunk_size_g = cb.remote_chunk.chunk_size_g +ℤ pos 1;
      c_state = ChunkListState.c_ready;
    }) in
    ground (
      arith,
      cb_at-with_cb s c new c f.has.0,
      get_or-set cb.remote_chunk.chunk_list i i (chunk_of cb.recv_buf i) no_chunk f.has.1,
    )

fresh_bits :
    (s : Session) (c i : ℕ) {k : ℕ}
    → MapsTo s (installed s c i) k c i
    → (page : ℕ) → bitmap_test (bitmap_at (installed s c i) c i) page ≡ false
fresh_bits s c i m page = ground (arith, m.bits c i, bitmap_init-IsChunkMap.1 page)

pub single_chunk_init-MapsTo :
    (s : Session) (c i : ℕ)
    → Fits s c i (cb_at s c).recv_buf.size_gb
    → first_rkey (cb_at s c).recv_buf.rkey 32 0 ≡ some i
    → MapsTo s (single_chunk_init s c) (cb_at s c).recv_buf.size_gb c i
single_chunk_init-MapsTo s c i f found =
    rw (single_chunk_init-installed s c i found) (installed-MapsTo s c i f)

-- When a server answers a bind with an rkey at index `i`, the gigabyte that the answer names is
-- mapped to chunk `i` of that server, which records none of its pages and whose key and address are
-- those of the answer; and the tables stay linked, if no gigabyte had that chunk.
pub single_chunk_init-Linked :
    (s : Session) (c i : ℕ)
    → Linked s
    → Fits s c i (cb_at s c).recv_buf.size_gb
    → first_rkey (cb_at s c).recv_buf.rkey 32 0 ≡ some i
    → gb_at s c i ≡ none
    → Linked (single_chunk_init s c)
      × (cb_of (single_chunk_init s c) (cb_at s c).recv_buf.size_gb ≡ some c)
      × (slot_of (single_chunk_init s c) (cb_at s c).recv_buf.size_gb ≡ some i)
      × ((chunk_at (single_chunk_init s c) c i) ≡ chunk_of (cb_at s c).recv_buf i)
      × ((page : ℕ) → bitmap_test (bitmap_at (single_chunk_init s c) c i) page ≡ false)
single_chunk_init-Linked s c i h f found free =
    let k : ℕ = (cb_at s c).recv_buf.size_gb in
    let m : MapsTo s (installed s c i) k c i = installed-MapsTo s c i f in
    rw (single_chunk_init-installed s c i found) (
      MapsTo-Linked s (installed s c i) k c i h f.has free m,
      ground (arith, m.cbs k),
      ground (arith, m.slots k),
      installed-chunk s c i f,
      λ page. fresh_bits s c i m page,
    )

-- What IS_single_chunk_init leaves of the servers.
pub record SameServers (s s' : Session) (c : ℕ) : Type 0 where
  pub states : s'.cb_state_list ≡ s.cb_state_list
  pub size : length s'.cb_list ≡ length s.cb_list
  pub state : (cb_at s' c).state ≡ (cb_at s c).state
  pub others : (d : ℕ) → d ≢ c → cb_at s' d ≡ cb_at s d

installed-SameServers :
    (s : Session) (c i : ℕ) → c < length s.cb_list → SameServers s (installed s c i) c
unfolding installed map_gb
installed-SameServers s c i lt =
    let cb : Cb = cb_at s c in
    let new = with_table cb (record (install cb.remote_chunk cb.recv_buf i cb.recv_buf.size_gb) {
      chunk_size_g = cb.remote_chunk.chunk_size_g +ℤ pos 1;
      c_state = ChunkListState.c_ready;
    }) in
    record {
      states = refl;
      size = length-set s.cb_list c new;
      state = ap (λ x. x.state) (get_or-set_self s.cb_list c new no_cb lt);
      others = λ d ne. get_or-set_ne s.cb_list c d new no_cb (λ e. ne (sym e));
    }

pub single_chunk_init-SameServers :
    (s : Session) (c i : ℕ)
    → c < length s.cb_list
    → first_rkey (cb_at s c).recv_buf.rkey 32 0 ≡ some i
    → SameServers s (single_chunk_init s c) c
single_chunk_init-SameServers s c i lt e =
    rw (single_chunk_init-installed s c i e) (installed-SameServers s c i lt)
