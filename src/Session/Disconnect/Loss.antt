-- ===== src/Session/Disconnect/Loss.antt =====
-- A server is lost: which gigabytes are off it, which are kept, and which are asked for again.
use dis_store.Prelude.{
  ℕ, zero, suc, ◌+◌, ◌<◌, ◌≡◌, ◌≢◌, ◌↔◌, inl, inr, refl, sym, ap, ◌∙◌, Bool, true, false, ◌||◌,
  Option, none, some, List, if◌then◌else◌, arith, length, get_or, set, length-set, replicate,
  length-replicate, get_or-replicate, get_or-set_self, get_or-set_ne, Option-cases, Bool-cases,
}
use native.Mathlib.Decide.{ℕ_discrete}
use dis_store.Session.{
  Session, Cb, CbState, cb_idle, cb_connected, cb_mapped, cb_evicting, cb_fail, stackbd_size_g,
}
use mathlib.Core.Path.{subst}
use dis_store.Bitmap.Pages.{IsChunkMap}
use dis_store.Session.Tables.{no_chunk, cb_at, cb_of, slot_of, no_cb}
use dis_store.Session.Links.{gb_at, Linked}
use dis_store.Session.Disconnect.{
  unmap_from, lose_chunks, disconnect, evict_from, switched_off, with_no_chunks,
}
use dis_store.Session.Disconnect.Tables.{
  is_gb, holds, map_of, within, unmap_from-Unmapped, free_from-Freed,
}
use dis_store.Session.Disconnect.Holds.{Owns, get_or-some_lt, holds_iff}

-- What the loss leaves, against what there was.
pub record Lost (s s' : Session) (c : ℕ) (gone : ℕ → Bool) : Type 0 where
  pub cbs : (k : ℕ) → cb_of s' k ≡ (if gone k then none else cb_of s k)
  pub slots : (k : ℕ) → slot_of s' k ≡ (if gone k then none else slot_of s k)
  pub others : (d : ℕ) → d ≢ c → cb_at s' d ≡ cb_at s d
  pub map : (j : ℕ) → gb_at s' c j ≡ (if within 0 32 j then none else gb_at s c j)
  pub size : length s'.cb_list ≡ length s.cb_list
  pub on : s'.rdma_on ≡ true

no_chunks-map :
    (s : Session) (c : ℕ) → c < length s.cb_list → map_of (with_no_chunks s c) c ≡ map_of s c
no_chunks-map s c h = ap (λ cb. cb.remote_chunk.chunk_map) (get_or-set_self s.cb_list c _ no_cb h)

no_chunks-size : (s : Session) (c : ℕ) → length (with_no_chunks s c).cb_list ≡ length s.cb_list
no_chunks-size s c = length-set s.cb_list c _

no_chunks-others : (s : Session) (c d : ℕ) → d ≢ c → cb_at (with_no_chunks s c) d ≡ cb_at s d
no_chunks-others s c d ne = get_or-set_ne s.cb_list c d _ no_cb (λ e. ne (sym e))

lose_chunks-Lost :
    (s : Session) (c : ℕ)
    → c < length s.cb_list
    → Lost s (lose_chunks s c) c (holds 32 0 (map_of s c))
unfolding lose_chunks
lose_chunks-Lost s c h =
    let off = switched_off s c in
    let u = unmap_from 32 0 c off in
    let v = with_no_chunks u c in
    let first = unmap_from-Unmapped 32 0 c off h in
    let same : map_of v c ≡ map_of s c =
      no_chunks-map u c (omega (arith, first.size)) ∙ first.map in
    let second = free_from-Freed 32 0 c v (omega (arith, first.size, no_chunks-size u c)) in
    record {
      cbs = λ k. ap (λ t. get_or t k none) second.cbs ∙ first.cbs k;
      slots = λ k.
          second.slots k
          ∙ ap (λ m. if holds 32 0 m k then none else slot_of v k) same
          ∙ ap (λ t. if holds 32 0 (map_of s c) k then none else get_or t k none) first.slots;
      others = λ d ne. second.others d ne ∙ no_chunks-others u c d ne ∙ first.others d ne;
      map = λ j. second.map j ∙ ap (λ m. if within 0 32 j then none else get_or m j none) same;
      size = second.size ∙ no_chunks-size u c ∙ first.size;
      on = refl;
    }

-- A server that had chunks: what the handler is, but for the connected one.
disconnect-lose_chunks :
    (s : Session) (c : ℕ)
    → get_or s.cb_state_list c CbState.cb_idle ≢ CbState.cb_connected
    → disconnect s c
      ≡ (lose_chunks s c, evict_from 32 0 (map_of s c) (replicate stackbd_size_g false))
unfolding disconnect
disconnect-lose_chunks s c ne = go (get_or s.cb_state_list c CbState.cb_idle) ne refl
  where
    go :
        (state : CbState)
        → state ≢ CbState.cb_connected
        → get_or s.cb_state_list c CbState.cb_idle ≡ state
        → disconnect s c
          ≡ (lose_chunks s c, evict_from 32 0 (map_of s c) (replicate stackbd_size_g false))
    go cb_connected ne e = absurd (ne refl)
    go cb_idle ne e = rw (disconnect, e) refl
    go cb_mapped ne e = rw (disconnect, e) refl
    go cb_evicting ne e = rw (disconnect, e) refl
    go cb_fail ne e = rw (disconnect, e) refl

abbrev pub mark : List Bool → Option ℕ → List Bool
mark list o = elim o [ none ↦ list | some k ↦ set list k true ]

pub get_or-mark :
    (list : List Bool) (o : Option ℕ) (k : ℕ)
    → k < length list
    → (get_or (mark list o) k false ≡ (get_or list k false || is_gb o k))
      × (length (mark list o) ≡ length list)
get_or-mark list none k h = (ground arith, refl)
get_or-mark list (some l) k h = elim (ℕ_discrete l k) [
  | yes e ↦
      let at : get_or (set list l true) k false ≡ true =
        ap (λ t. get_or (set list l true) t false) (sym e)
        ∙ get_or-set_self list l true false (omega arith) in
      (ground (arith, at), length-set list l true)
  | no ne ↦
      let at : get_or (set list l true) k false ≡ get_or list k false =
        get_or-set_ne list l k true false ne in
      (ground (arith, at), length-set list l true)
]

evict_from-eq :
    (n i k : ℕ) (xs : List (Option ℕ)) (list : List Bool)
    → k < length list
    → get_or (evict_from n i xs list) k false ≡ (get_or list k false || holds n i xs k)
unfolding evict_from holds
evict_from-eq zero i k xs list h = ground arith
evict_from-eq (suc n) i k xs list h =
    let (at, size) = get_or-mark list (get_or xs i none) k h in
    ground
      (arith, at, evict_from-eq n (i + 1) k xs (mark list (get_or xs i none)) (omega (arith, size)))

asked_iff :
    (s : Session) (c k : ℕ)
    → Linked s
    → Owns s c
    → k < stackbd_size_g
    → (get_or (evict_from 32 0 (map_of s c) (replicate stackbd_size_g false)) k false ≡ true)
      ↔ (cb_of s k ≡ some c)
asked_iff s c k h o lt =
    let none_lost = replicate stackbd_size_g false in
    let at =
      evict_from-eq 32 0 k (map_of s c) none_lost
        (omega (arith, length-replicate {A = Bool} stackbd_size_g false)) in
    let at' : get_or (evict_from 32 0 (map_of s c) none_lost) k false ≡ holds 32 0 (map_of s c) k =
      ground (arith, at, get_or-replicate {A = Bool} stackbd_size_g false k) in
    rw at' (holds_iff s c k h o)

Lost-gone :
    (s s' : Session) (c k : ℕ)
    → Linked s
    → Owns s c
    → Lost s s' c (holds 32 0 (map_of s c))
    → cb_of s k ≡ some c
    → (cb_of s' k ≡ none) × (slot_of s' k ≡ none)
Lost-gone s s' c k h o l on =
    let e = (holds_iff s c k h o).1 on in (ground (arith, l.cbs k, e), ground (arith, l.slots k, e))

Lost-kept :
    (s s' : Session) (c k : ℕ)
    → Linked s
    → Owns s c
    → Lost s s' c (holds 32 0 (map_of s c))
    → cb_of s k ≢ some c
    → (cb_of s' k ≡ cb_of s k) × (slot_of s' k ≡ slot_of s k)
Lost-kept s s' c k h o l off = elim (Bool-cases (holds 32 0 (map_of s c) k)) [
  | inl e ↦ absurd (off ((holds_iff s c k h o).0 e))
  | inr e ↦ (ground (arith, l.cbs k, e), ground (arith, l.slots k, e))
]

Lost-Linked :
    (s s' : Session) (c : ℕ)
    → Linked s
    → Owns s c
    → Lost s s' c (holds 32 0 (map_of s c))
    → Linked s'
Lost-Linked s s' c h o l k d i a b = elim (Bool-cases (holds 32 0 (map_of s c) k)) [
  | inl e ↦ let gone : cb_of s' k ≡ none = ground (arith, l.cbs k, e) in absurd (cc (gone, a))
  | inr e ↦
      let on : cb_of s k ≡ some d = ground (arith, l.cbs k, e, a) in
      let place : slot_of s k ≡ some i = ground (arith, l.slots k, e, b) in
      let other : d ≢ c = λ p. absurd (cc ((holds_iff s c k h o).1 (on ∙ ap some p), e)) in
      let t = h k d i on place in
      let same = l.others d other in
      record {
        has = (omega (arith, l.size, t.has.0), rw same t.has.1);
        full =
            subst (λ (cb : Cb). IsChunkMap (get_or cb.remote_chunk.chunk_list i no_chunk).bitmap_g)
              (sym same) t.full;
        back = rw same t.back;
      }
]

Lost-unmapped :
    (s s' : Session) (c i : ℕ)
    → Owns s c
    → Lost s s' c (holds 32 0 (map_of s c))
    → gb_at s' c i ≡ none
Lost-unmapped s s' c i o l = elim (Option-cases (gb_at s c i)) [
  | inl e ↦ ground (arith, l.map i, e)
  | inr (k, e) ↦
      let bound : i < 32 = omega (arith, o.size, get_or-some_lt (map_of s c) i k e) in
      ground (arith, l.map i, bound)
]

-- If a server is lost that is not merely connected, whose chunk map agrees with the linked tables
-- of the session, IS_disconnect_handler takes exactly its gigabytes off: each has neither server
-- nor place afterwards, every other gigabyte keeps both, no chunk of the server is mapped, no other
-- server is touched, the tables stay linked, RDMA is on, and new chunks are asked for exactly for
-- the gigabytes that it had.
pub disconnect-Linked :
    (s : Session) (c : ℕ)
    → Linked s
    → Owns s c
    → get_or s.cb_state_list c CbState.cb_idle ≢ CbState.cb_connected
    → let (s', asked) = disconnect s c in
      Linked s'
      × ((k : ℕ) → cb_of s k ≡ some c → (cb_of s' k ≡ none) × (slot_of s' k ≡ none))
      × ((k : ℕ) → cb_of s k ≢ some c → (cb_of s' k ≡ cb_of s k) × (slot_of s' k ≡ slot_of s k))
      × ((i : ℕ) → gb_at s' c i ≡ none)
      × ((d : ℕ) → d ≢ c → cb_at s' d ≡ cb_at s d)
      × (s'.rdma_on ≡ true)
      × ((k : ℕ) → k < stackbd_size_g → (get_or asked k false ≡ true) ↔ (cb_of s k ≡ some c))
disconnect-Linked s c h o ne =
    let l = lose_chunks-Lost s c o.there in
    let s' = lose_chunks s c in
    rw (disconnect-lose_chunks s c ne) (
      Lost-Linked s s' c h o l,
      λ k on. Lost-gone s s' c k h o l on,
      λ k off. Lost-kept s s' c k h o l off,
      λ i. Lost-unmapped s s' c i o l,
      l.others,
      l.on,
      λ k lt. asked_iff s c k h o lt,
    )
