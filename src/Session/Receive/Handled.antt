-- ===== src/Session/Receive/Handled.antt =====
-- The tables stay linked over a message of a server.
use dis_store.Prelude.{
  ℕ, ◌<◌, ◌≡◌, inl, inr, refl, sym, ap, ◌∙◌, true, false, none, some, List, ◌==◌, arith, length,
  get_or, length-set, get_or-set_self, get_or-set_ne, Bool-cases,
}
use native.Mathlib.Decide.{ℕ_discrete}
use mathlib.Core.Path.{subst}
use dis_store.Bitmap.Pages.{IsChunkMap}
use dis_store.Session.{
  TestState, Session, Cb, Chunk, MessageType, done, info, info_single, free_size, evict, activity,
  stop, bind, bind_single, query,
}
use dis_store.Session.Tables.{cb_at, with_cb, no_cb, no_chunk}
use dis_store.Session.Links.{Linked, Linked-frame, gb_at}
use dis_store.Session.Chunks.{first_rkey, single_chunk_init}
use dis_store.Session.Chunks.Install.{Fits, single_chunk_init-Linked}
use dis_store.Session.Receive.{
  client_recv, client_recv_stop, client_recv_evict, recv_type, accepted, mapping, with_state,
  before_connected,
}

-- What a server keeps: its chunks and its chunk map.
pub record SameChunks (cb cb' : Cb) : Type 0 where
  pub chunks : cb'.remote_chunk.chunk_list ≡ cb.remote_chunk.chunk_list
  pub map : cb'.remote_chunk.chunk_map ≡ cb.remote_chunk.chunk_map

cb_at-same :
    (s : Session) (c d : ℕ) (cb : Cb)
    → d < length s.cb_list
    → SameChunks (cb_at s c) cb
    → SameChunks (cb_at s d) (cb_at (with_cb s c cb) d)
cb_at-same s c d cb lt h = elim (ℕ_discrete c d) [
  | yes e ↦
      let there : cb_at (with_cb s c cb) d ≡ cb =
        ap (cb_at (with_cb s c cb)) (sym e) ∙ get_or-set_self s.cb_list c cb no_cb (omega arith) in
      record {
        chunks =
            ap (λ x. x.remote_chunk.chunk_list) there
            ∙ h.chunks
            ∙ ap (λ x. (cb_at s x).remote_chunk.chunk_list) e;
        map =
            ap (λ x. x.remote_chunk.chunk_map) there
            ∙ h.map
            ∙ ap (λ x. (cb_at s x).remote_chunk.chunk_map) e;
      }
  | no ne ↦
      let there : cb_at (with_cb s c cb) d ≡ cb_at s d = get_or-set_ne s.cb_list c d cb no_cb ne in
      record {
        chunks = ap (λ x. x.remote_chunk.chunk_list) there;
        map = ap (λ x. x.remote_chunk.chunk_map) there;
      }
]

pub Linked-with_cb :
    (s : Session) (c : ℕ) (cb : Cb) → SameChunks (cb_at s c) cb → Linked s → Linked (with_cb s c cb)
Linked-with_cb s c cb same h k d i a b =
    let t = h k d i a b in
    let u = cb_at-same s c d cb t.has.0 same in
    let size = length-set s.cb_list c cb in
    record {
      has = (omega (arith, size, t.has.0), omega (arith, ap length u.chunks, t.has.1));
      full =
          subst (λ (l : List Chunk). IsChunkMap (get_or l i no_chunk).bitmap_g) (sym u.chunks)
            t.full;
      back = ap (λ m. get_or m i none) u.map ∙ t.back;
    }

evict-SameChunks : (cb : Cb) → SameChunks cb (client_recv_evict cb)
unfolding client_recv_evict
evict-SameChunks cb = elim (Bool-cases (cb.recv_buf.size_gb == 0)) [
  | inl e ↦ record { chunks = rw (client_recv_evict, e) refl; map = rw (client_recv_evict, e) refl }
  | inr e ↦ record { chunks = rw (client_recv_evict, e) refl; map = rw (client_recv_evict, e) refl }
]

stop-SameChunks : (cb : Cb) → SameChunks cb (client_recv_stop cb)
unfolding client_recv_stop
stop-SameChunks cb = record { chunks = refl; map = refl }

pub mapping-Linked : (s : Session) (c : ℕ) → Linked s → Linked (mapping s c)
mapping-Linked s c h =
    Linked-frame (with_cb s c _) (mapping s c) refl refl refl
      (Linked-with_cb s c _ (record { chunks = refl; map = refl }) h)

-- What the tables need for a message of each type: an answer to a bind of one chunk comes with a
-- key, and the tables reach to its chunk and gigabyte, and the chunk is not mapped. An answer to a
-- bind of several chunks, and what only a server receives, are not among them.
abbrev pub Takes : Session → ℕ → MessageType → Type 0
Takes s c info = ⊥
Takes s c info_single =
    (i : ℕ) × Fits (mapping s c) c i (cb_at (mapping s c) c).recv_buf.size_gb
    × (first_rkey (cb_at (mapping s c) c).recv_buf.rkey 32 0 ≡ some i)
    × (gb_at (mapping s c) c i ≡ none)
Takes s c free_size = Unit
Takes s c evict = Unit
Takes s c stop = Unit
Takes s c _ = ⊥

recv_type-Linked :
    (s : Session) (c : ℕ) (type : MessageType)
    → Linked s
    → Takes s c type
    → (s' : Session) × (recv_type s c type ≡ accepted s') × Linked s'
unfolding recv_type
recv_type-Linked s c info h t = absurd t
recv_type-Linked s c info_single h (i, fits, key, unmapped) = (
  single_chunk_init (mapping s c) c,
  refl,
  (single_chunk_init-Linked (mapping s c) c i (mapping-Linked s c h) fits key unmapped).0,
)
recv_type-Linked s c free_size h t =
    (_, refl, Linked-with_cb s c _ (record { chunks = refl; map = refl }) h)
recv_type-Linked s c evict h t =
    let e = evict-SameChunks (with_state (cb_at s c) TestState.recv_evict) in
    (_, refl, Linked-with_cb s c _ (record { chunks = e.chunks; map = e.map }) h)
recv_type-Linked s c stop h t =
    let e = stop-SameChunks (with_state (cb_at s c) TestState.recv_stop) in
    (_, refl, Linked-with_cb s c _ (record { chunks = e.chunks; map = e.map }) h)
recv_type-Linked s c done h t = absurd t
recv_type-Linked s c activity h t = absurd t
recv_type-Linked s c bind h t = absurd t
recv_type-Linked s c bind_single h t = absurd t
recv_type-Linked s c query h t = absurd t

pub client_recv-recv_type :
    (s : Session) (c : ℕ)
    → before_connected (cb_at s c).state ≡ false
    → client_recv s c true ≡ recv_type s c (cb_at s c).recv_buf.type
unfolding client_recv
client_recv-recv_type s c e = rw e refl

-- If the tables are linked, a whole message of a connected server is taken by client_recv, and the
-- tables stay linked: the free memory, a request to evict or to stop, or an answer to a bind of one
-- chunk that has a key, for a chunk that is not mapped and that the tables reach.
pub client_recv-Linked :
    (s : Session) (c : ℕ)
    → Linked s
    → before_connected (cb_at s c).state ≡ false
    → Takes s c (cb_at s c).recv_buf.type
    → (s' : Session) × (client_recv s c true ≡ accepted s') × Linked s'
client_recv-Linked s c h e t =
    let (s', taken, linked) = recv_type-Linked s c (cb_at s c).recv_buf.type h t in
    (s', client_recv-recv_type s c e ∙ taken, linked)
