-- ===== src/Session/Evict/Stopped.antt =====
-- A server's STOP is carried out: which gigabytes are off it, what DONE tells the server, and that
-- the tables stay linked.
use dis_store.Prelude.{
  ℕ, ◌<◌, ◌≡◌, ◌≢◌, inl, inr, refl, sym, ap, ◌∙◌, Bool, true, false, ◌&&◌, none, some, List, ◌==◌,
  if◌then◌else◌, arith, length, get_or, set, length-set, get_or-set_self, get_or-set_ne, Bool-cases,
  length-replicate, get_or-replicate,
}
use native.Mathlib.Decide.{ℕ_discrete}
use mathlib.Core.Path.{subst}
use dis_store.Bitmap.{bitmap_init}
use dis_store.Bitmap.Pages.{IsChunkMap}
use dis_store.Session.{Session, Cb, MessageType, EvictMark, stackbd_size_g, max_mr_size_gb}
use dis_store.Session.Tables.{no_cb, no_chunk, cb_at, cb_of, slot_of}
use dis_store.Session.Links.{gb_at, bitmap_at, Tied, Linked}
use dis_store.Session.Disconnect.Tables.{within}
use dis_store.Session.Evict.{stops, stop_start, finish_stop, stop_chunks, send_done_msg, after_stop}
use dis_store.Session.Evict.Stopping.{mark_at, gb_of, evicts, stop_from-Stopped}
use dis_store.Session.Evict.Cleared.{unmap_stopped_from-Cleared}
use dis_store.Session.Evict.Named.{table_of, Stoppable, evicts-eq}

-- What the thread leaves before it asks for new chunks, against what there was.
pub record Evicted (s s' : Session) (c : ℕ) (asked : List Bool) : Type 0 where
  pub cbs : (k : ℕ) → cb_of s' k ≡ (if evicts 32 0 (table_of s c) k then none else cb_of s k)
  pub slots : s'.chunk_map_cb_chunk ≡ s.chunk_map_cb_chunk
  pub others : (d : ℕ) → d ≢ c → cb_at s' d ≡ cb_at s d
  pub size : length s'.cb_list ≡ length s.cb_list
  pub map :
      (j : ℕ)
      → gb_at s' c j
        ≡ (if within 0 32 j && stops (mark_at (table_of s c) j) then none else gb_at s c j)
  pub chunks : length (table_of s' c).chunk_list ≡ length (table_of s c).chunk_list
  pub bits :
      (j : ℕ)
      → j < length (table_of s c).chunk_list
      → bitmap_at s' c j ≡ (
          if within 0 32 j && stops (mark_at (table_of s c) j)
          then bitmap_init
          else bitmap_at s c j)
  pub list : (k : ℕ) → k < stackbd_size_g → get_or asked k false ≡ evicts 32 0 (table_of s c) k
  pub type : (cb_at s' c).send_buf.type ≡ MessageType.done
  pub num : (cb_at s' c).send_buf.size_gb ≡ (table_of s c).shrink_size_g
  pub keys :
      (j : ℕ)
      → j < max_mr_size_gb
      → get_or (cb_at s' c).send_buf.rkey j 0 ≡ (if stops (mark_at (table_of s c) j) then 1 else 0)
  pub off : s'.trigger_enable ≡ false

pub stop_chunks-Evicted :
    (s : Session) (c : ℕ)
    → Stoppable s c
    → (s' : Session) × (asked : List Bool) × (stop_chunks s c ≡ some (s', asked))
      × Evicted s s' c asked
unfolding stop_chunks finish_stop send_done_msg
stop_chunks-Evicted s c o =
    let (e, ran, f) = stop_from-Stopped 32 0 (stop_start s c) (omega (arith, o.keys)) o.mapped in
    let g = unmap_stopped_from-Cleared 32 0 e.cb.remote_chunk in
    let here : get_or (set s.cb_list c (finish_stop e.cb)) c no_cb ≡ finish_stop e.cb =
      get_or-set_self s.cb_list c (finish_stop e.cb) no_cb o.there in
    let marks = λ (j : ℕ). ap (λ l. stops (get_or l j EvictMark.unmarked)) f.marks in
    let size = ap (λ l. length l) f.chunks in
    (
      after_stop s c e,
      e.evict_list,
      rw (ran, stop_chunks) refl,
      record {
        cbs = f.cbs;
        slots = refl;
        others = λ d ne. get_or-set_ne s.cb_list c d (finish_stop e.cb) no_cb (λ p. ne (sym p));
        size = length-set s.cb_list c (finish_stop e.cb);
        map =
            λ j. ap (λ x. gb_of x.remote_chunk j) here ∙ ap (λ m. get_or m j none) g.map ∙ f.map j;
        chunks = ap (λ x. length x.remote_chunk.chunk_list) here ∙ g.size ∙ size;
        bits = λ j lt.
            ap (λ x. (get_or x.remote_chunk.chunk_list j no_chunk).bitmap_g) here
            ∙ g.bits j (omega (arith, size))
            ∙ ground (arith, marks j, ap (λ l. (get_or l j no_chunk).bitmap_g) f.chunks);
        list = λ k lt.
            f.list k (omega (arith, length-replicate {A = Bool} 12 false))
            ∙ ground (arith, get_or-replicate {A = Bool} 12 false k);
        type = ap (λ x. x.send_buf.type) here;
        num = ap (λ x. x.send_buf.size_gb) here ∙ f.shrink;
        keys = λ j lt. ap (λ x. get_or x.send_buf.rkey j 0) here ∙ f.keys j ∙ ground arith;
        off = refl;
      },
    )

pub Evicted-Linked :
    (s s' : Session) (c : ℕ) (asked : List Bool)
    → Linked s
    → Stoppable s c
    → Evicted s s' c asked
    → Linked s'
Evicted-Linked s s' c asked h o v k d i a b = elim (Bool-cases (evicts 32 0 (table_of s c) k)) [
  | inl e ↦ let gone : cb_of s' k ≡ none = ground (arith, v.cbs k, e) in absurd (cc (gone, a))
  | inr e ↦
      let on : cb_of s k ≡ some d = ground (arith, v.cbs k, e, a) in
      let place : slot_of s k ≡ some i = ap (λ l. get_or l k none) (sym v.slots) ∙ b in
      let t = h k d i on place in
      let stays = sym (evicts-eq s c k d i h o on place) ∙ e in
      elim (ℕ_discrete d c) [
        | yes p ↦
            let t' : Tied s k c i = subst (λ (x : ℕ). Tied s k x i) p t in
            let spared : stops (mark_at (table_of s c) i) ≡ false = ground (arith, stays, p) in
            let full : IsChunkMap (bitmap_at s' c i) =
              subst IsChunkMap (sym (v.bits i t'.has.1 ∙ ground (arith, spared))) t'.full in
            let tied : Tied s' k c i = record {
              has = (omega (arith, v.size, t'.has.0), omega (arith, v.chunks, t'.has.1));
              full = full;
              back = v.map i ∙ ground (arith, spared, t'.back);
            } in
            subst (λ (x : ℕ). Tied s' k x i) (sym p) tied
        | no ne ↦
            let same = v.others d ne in
            record {
              has = (omega (arith, v.size, t.has.0), rw same t.has.1);
              full =
                  subst
                    (λ (cb : Cb).
                      IsChunkMap (get_or cb.remote_chunk.chunk_list i no_chunk).bitmap_g)
                    (sym same) t.full;
              back = rw same t.back;
            }
      ]
]

-- If the tables are linked and a STOP names chunks of a server that are mapped, in tables of their
-- sizes, then evict_handler sends DONE with the number of gigabytes of the STOP and a key of 1 for
-- exactly the chunks that the STOP named, 0 for every other. A gigabyte on a chunk that the STOP
-- named has no server any more and is asked for again; every other keeps its server. A chunk that
-- was named has an empty bitmap and no gigabyte. No other server is touched, the trigger is off,
-- and the tables stay linked.
pub stop_chunks-Linked :
    (s : Session) (c : ℕ)
    → Linked s
    → Stoppable s c
    → (s' : Session) × (asked : List Bool) × (stop_chunks s c ≡ some (s', asked))
      × Linked s'
      × ((k d i : ℕ)
          → cb_of s k ≡ some d
          → slot_of s k ≡ some i
          → let gone = (d == c) && stops (mark_at (table_of s c) i) in
            (cb_of s' k ≡ (if gone then none else some d))
            × (k < stackbd_size_g → get_or asked k false ≡ gone))
      × ((k : ℕ) → cb_of s k ≡ none → cb_of s' k ≡ none)
      × ((j : ℕ)
          → j < max_mr_size_gb
          → j < length (table_of s c).chunk_list
          → stops (mark_at (table_of s c) j) ≡ true
          → (bitmap_at s' c j ≡ bitmap_init) × (gb_at s' c j ≡ none))
      × ((cb_at s' c).send_buf.type ≡ MessageType.done)
      × ((cb_at s' c).send_buf.size_gb ≡ (table_of s c).shrink_size_g)
      × ((j : ℕ)
          → j < max_mr_size_gb
          → get_or (cb_at s' c).send_buf.rkey j 0
            ≡ (if stops (mark_at (table_of s c) j) then 1 else 0))
      × ((d : ℕ) → d ≢ c → cb_at s' d ≡ cb_at s d)
      × (s'.trigger_enable ≡ false)
stop_chunks-Linked s c h o =
    let (s', asked, ran, v) = stop_chunks-Evicted s c o in
    (
      s',
      asked,
      ran,
      Evicted-Linked s s' c asked h o v,
      λ k d i on place.
          let e = evicts-eq s c k d i h o on place in
          (ground (arith, v.cbs k, e, on), λ lt. v.list k lt ∙ e),
      λ k off. ground (arith, v.cbs k, off),
      λ j lt has marked. (ground (arith, v.bits j has, marked), ground (arith, v.map j, marked)),
      v.type,
      v.num,
      v.keys,
      v.others,
      v.off,
    )
