-- ===== src/Session/Bind/Bound.antt =====
-- A gigabyte is bound to the server that is chosen, and the tables stay linked.
use dis_store.Prelude.{
  ℕ, ◌<◌, ◌≡◌, ◌≢◌, refl, sym, ap, ◌∙◌, true, false, none, some, arith, length, get_or, length-set,
  set-set,
}
use mathlib.Core.Path.{subst}
use dis_store.Session.{Session, Cb, RdmaInfo, TestState, MessageType}
use dis_store.Session.Tables.{no_cb, cb_at, cb_of, slot_of, with_cb, chunk_at}
use dis_store.Session.Links.{Linked, Linked-frame, gb_at}
use dis_store.Session.Chunks.{first_rkey, chunk_of, single_chunk_init}
use dis_store.Session.Chunks.Install.{
  Fits, MapsTo, single_chunk_init-MapsTo, single_chunk_init-Linked,
}
use dis_store.Session.Receive.{
  client_recv, recv_type, accepted, mapping, with_state, before_connected,
}
use dis_store.Session.Receive.Handled.{Linked-with_cb, mapping-Linked, client_recv-recv_type}
use dis_store.Session.Bind.{bind_to, binding, answer_with, received, send_bind_single}
use dis_store.Session.Bind.Awaited.{cb_at-with_cb_self}
use dis_store.Session.Bind.Answer.{Ready}
use dis_store.Session.Chunks.Install.{single_chunk_init-SameServers}
use dis_store.Prelude.{◌⊎◌, inl, inr, set, get_or-set_ne, get_or-set_self}
use dis_store.Session.{CbState}
use dis_store.Session.Bind.{state_of}
use native.Mathlib.Decide.{ℕ_discrete}

-- The answer `m` of the connected server `d` to a bind of gigabyte `k`: its first key is that of
-- chunk `i`, which is not mapped, and the tables reach to both.
pub record Answers (s : Session) (d k i : ℕ) (m : RdmaInfo) : Type 0 where
  pub there : d < length s.cb_list
  pub index : (cb_at s d).cb_index ≡ d
  pub connected : before_connected (cb_at s d).state ≡ false
  pub chunk : i < length (cb_at s d).remote_chunk.chunk_list
  pub map : i < length (cb_at s d).remote_chunk.chunk_map
  pub cbs : k < length s.cb_index_map
  pub slots : k < length s.chunk_map_cb_chunk
  pub unmapped : gb_at s d i ≡ none
  pub type : m.type ≡ MessageType.info_single
  pub gb : m.size_gb ≡ k
  pub key : first_rkey m.rkey 32 0 ≡ some i

module _ (s : Session) (d k i : ℕ) (m : RdmaInfo) (a : Answers s d k i m) where
  bound_cb : Cb
  bound_cb = record (send_bind_single (cb_at s d) k) { recv_buf = m }

  -- The session when the answer is there.
  asked : Session
  unfolding bound_cb
  asked = record (with_cb s d bound_cb) { mapped_cb_num = (binding s d k).mapped_cb_num }

  asked_eq : with_cb (binding s d k) d (record (cb_at (binding s d k) d) { recv_buf = m }) ≡ asked
  unfolding asked
  asked_eq =
      ap (λ x. with_cb (binding s d k) d (record x { recv_buf = m }))
        (cb_at-with_cb_self s d (send_bind_single (cb_at s d) k) a.there)
      ∙ ap (λ l. record (binding s d k) { cb_list = l })
          (set-set s.cb_list d (send_bind_single (cb_at s d) k) bound_cb)

  asked_cb : cb_at asked d ≡ bound_cb
  unfolding asked
  asked_cb = cb_at-with_cb_self s d bound_cb a.there

  -- The same in CB_MAPPED.
  mapping_cb : cb_at (mapping asked d) d ≡ with_state bound_cb TestState.wait_ops
  unfolding asked
  mapping_cb =
      cb_at-with_cb_self asked d (with_state (cb_at asked d) TestState.wait_ops)
        (omega (arith, length-set s.cb_list d bound_cb, a.there))
      ∙ ap (λ x. with_state x TestState.wait_ops) asked_cb

  asked-Linked : Linked s → Linked asked
  unfolding asked bound_cb send_bind_single
  asked-Linked h =
      Linked-frame (with_cb s d bound_cb) asked refl refl refl
        (Linked-with_cb s d bound_cb (record { chunks = refl; map = refl }) h)

  bound_cb_parts :
      (bound_cb.remote_chunk ≡ (cb_at s d).remote_chunk)
      × (bound_cb.cb_index ≡ (cb_at s d).cb_index)
      × (bound_cb.recv_buf ≡ m)
      × (bound_cb.state ≡ (cb_at s d).state)
  unfolding bound_cb send_bind_single
  bound_cb_parts = (refl, refl, refl, refl)

  asked_sizes :
      (length asked.cb_list ≡ length s.cb_list)
      × (asked.cb_index_map ≡ s.cb_index_map)
      × (asked.chunk_map_cb_chunk ≡ s.chunk_map_cb_chunk)
  unfolding asked
  asked_sizes = (length-set s.cb_list d bound_cb, refl, refl)

  mapping_table : (cb_at (mapping asked d) d).remote_chunk ≡ (cb_at s d).remote_chunk
  mapping_table = ap (λ x. x.remote_chunk) mapping_cb ∙ bound_cb_parts.0

  mapping_recv : (cb_at (mapping asked d) d).recv_buf ≡ m
  mapping_recv = ap (λ x. x.recv_buf) mapping_cb ∙ bound_cb_parts.2

  mapping_gb : (cb_at (mapping asked d) d).recv_buf.size_gb ≡ k
  mapping_gb = ap (λ x. x.size_gb) mapping_recv ∙ a.gb

  mapping-Fits : Fits (mapping asked d) d i (cb_at (mapping asked d) d).recv_buf.size_gb
  mapping-Fits =
      let (size, cbs, slots) = asked_sizes in
      let chunks = ap (λ t. length t.chunk_list) mapping_table in
      let map = ap (λ t. length t.chunk_map) mapping_table in
      let written = length-set asked.cb_list d (with_state (cb_at asked d) TestState.wait_ops) in
      let gb = mapping_gb in
      record {
        has = (omega (arith, size, a.there, written), omega (arith, chunks, a.chunk));
        index = ap (λ x. x.cb_index) mapping_cb ∙ bound_cb_parts.1 ∙ a.index;
        map_size = omega (arith, map, a.map);
        cbs_size = omega (arith, gb, ap (λ l. length l) cbs, a.cbs);
        slots_size = omega (arith, gb, ap (λ l. length l) slots, a.slots);
      }

  mapping_states : (mapping asked d).cb_state_list ≡ set s.cb_state_list d CbState.cb_mapped
  unfolding asked
  mapping_states =
      ap (λ x. set s.cb_state_list x CbState.cb_mapped)
        (ap (λ x. x.cb_index) asked_cb ∙ bound_cb_parts.1 ∙ a.index)

  mapping_others : (e : ℕ) → e ≢ d → cb_at (mapping asked d) e ≡ cb_at s e
  unfolding asked
  mapping_others e ne =
      get_or-set_ne asked.cb_list d e (with_state (cb_at asked d) TestState.wait_ops) no_cb
        (λ q. ne (sym q))
      ∙ get_or-set_ne s.cb_list d e bound_cb no_cb (λ q. ne (sym q))

  -- What client_recv does with the answer.
  bind_to-single_chunk_init :
      bind_to s d k m ≡ some (record (single_chunk_init (mapping asked d) d) { rdma_on = true })
  unfolding bind_to answer_with recv_type
  bind_to-single_chunk_init =
      let taken : client_recv asked d true ≡ accepted (single_chunk_init (mapping asked d) d) =
        client_recv-recv_type asked d (
          ap (λ x. before_connected x.state) asked_cb
          ∙ ap before_connected bound_cb_parts.3
          ∙ a.connected)
        ∙ ap (λ x. recv_type asked d x.recv_buf.type) asked_cb
        ∙ ap (λ x. recv_type asked d x.type) bound_cb_parts.2
        ∙ ap (recv_type asked d) a.type in
      rw (bind_to, ap (λ x. received (client_recv x d true)) asked_eq ∙ ap received taken) refl

  mapping-MapsTo : MapsTo (mapping asked d) (single_chunk_init (mapping asked d) d) k d i
  mapping-MapsTo =
      subst (λ (x : ℕ). MapsTo (mapping asked d) (single_chunk_init (mapping asked d) d) x d i)
        mapping_gb
        (single_chunk_init-MapsTo (mapping asked d) d i mapping-Fits
          (ap (λ x. first_rkey x.rkey 32 0) mapping_recv ∙ a.key))

-- If the tables are linked and the chosen server answers a bind of gigabyte `k` with the key of a
-- chunk that is not mapped, the wait ends, the gigabyte is on that chunk of that server, which has
-- the key and the address of the answer and an empty bitmap, every other gigabyte is where it was,
-- the tables stay linked, and RDMA is on.
pub bind_to-Linked :
    (s : Session) (d k i : ℕ) (m : RdmaInfo)
    → Linked s
    → Answers s d k i m
    → (s' : Session) × (bind_to s d k m ≡ some s')
      × Linked s'
      × (cb_of s' k ≡ some d)
      × (slot_of s' k ≡ some i)
      × (chunk_at s' d i ≡ chunk_of m i)
      × ((l : ℕ) → l ≢ k → (cb_of s' l ≡ cb_of s l) × (slot_of s' l ≡ slot_of s l))
      × (s'.rdma_on ≡ true)
bind_to-Linked s d k i m h a =
    let mp = mapping (asked s d k i m a) d in
    let s1 = single_chunk_init mp d in
    let s' = record s1 { rdma_on = true } in
    let maps : MapsTo mp s1 k d i = mapping-MapsTo s d k i m a in
    let recv = mapping_recv s d k i m a in
    let (size, cbs, slots) = asked_sizes s d k i m a in
    let free : gb_at mp d i ≡ none =
      ap (λ t. get_or t.chunk_map i none) (mapping_table s d k i m a) ∙ a.unmapped in
    let (linked, on, place, chunk, bits) =
      single_chunk_init-Linked mp d i
        (mapping-Linked (asked s d k i m a) d (asked-Linked s d k i m a h))
        (mapping-Fits s d k i m a) (ap (λ x. first_rkey x.rkey 32 0) recv ∙ a.key) free in
    (
      s',
      bind_to-single_chunk_init s d k i m a,
      Linked-frame s1 s' refl refl refl linked,
      ground (arith, maps.cbs k),
      ground (arith, maps.slots k),
      chunk ∙ ap (λ x. chunk_of x i) recv,
      λ l ne. (
        ground (arith, maps.cbs l, λ (e : k ≡ l). ne (sym e)) ∙ ap (λ x. get_or x l none) cbs,
        ground (arith, maps.slots l, λ (e : k ≡ l). ne (sym e)) ∙ ap (λ x. get_or x l none) slots,
      ),
      refl,
    )

some_eq {ℓ} : {A : Type ℓ} (a b : A) → some a ≡ some b → a ≡ b
some_eq a b e = cc

mapped_server-Ready :
    (s s' : Session) (d : ℕ)
    → Ready s
    → d < length s.cb_list
    → Linked s'
    → s'.cb_state_list ≡ set s.cb_state_list d CbState.cb_mapped
    → length s'.cb_list ≡ length s.cb_list
    → (cb_at s' d).state ≡ TestState.wait_ops
    → ((e : ℕ) → e ≢ d → cb_at s' e ≡ cb_at s e)
    → ((l e : ℕ) → cb_of s' l ≡ some e → (e ≡ d) ⊎ (cb_of s l ≡ some e))
    → Ready s'
mapped_server-Ready s s' d r lt linked states size state others moves =
    let lt' : d < length s.cb_state_list = omega (arith, r.states) in
    let here : state_of s' d ≡ CbState.cb_mapped =
      ap (λ t. get_or t d CbState.cb_idle) states
      ∙ get_or-set_self s.cb_state_list d CbState.cb_mapped CbState.cb_idle lt' in
    let else' = λ (e : ℕ) (ne : e ≢ d).
      ap (λ t. get_or t e CbState.cb_idle) states
      ∙ get_or-set_ne s.cb_state_list d e CbState.cb_mapped CbState.cb_idle (λ q. ne (sym q)) in
    record {
      linked = linked;
      idle = λ l e on. elim (ℕ_discrete e d) [
        | yes p ↦ λ q. absurd (cc (here, p, q))
        | no ne ↦ elim (moves l e on) [
          | inl p ↦ absurd (ne p)
          | inr before ↦ λ q. r.idle l e before (sym (else' e ne) ∙ q)
        ]
      ];
      known = λ e awake. elim (ℕ_discrete e d) [
        | yes p ↦ ap (λ x. before_connected (cb_at s' x).state) p ∙ ap before_connected state
        | no ne ↦
            ap (λ x. before_connected x.state) (others e ne)
            ∙ r.known e (λ q. awake (else' e ne ∙ q))
      ];
      states =
          ap length states ∙ length-set s.cb_state_list d CbState.cb_mapped ∙ r.states ∙ sym size;
    }

-- The session is ready for the next call.
pub bind_to-Ready :
    (s : Session) (d k i : ℕ) (m : RdmaInfo)
    → Ready s
    → Answers s d k i m
    → (s' : Session) → bind_to s d k m ≡ some s'
    → Linked s'
    → (cb_of s' k ≡ some d)
    → ((l : ℕ) → l ≢ k → cb_of s' l ≡ cb_of s l)
    → Ready s'
bind_to-Ready s d k i m r a s' ran linked on others =
    let mp = mapping (asked s d k i m a) d in
    let t : Session = record (single_chunk_init mp d) { rdma_on = true } in
    let same : t ≡ s' = some_eq t s' (sym (bind_to-single_chunk_init s d k i m a) ∙ ran) in
    let (size, _, _) = asked_sizes s d k i m a in
    let written =
      length-set (asked s d k i m a).cb_list d
        (with_state (cb_at (asked s d k i m a) d) TestState.wait_ops) in
    let f =
      single_chunk_init-SameServers mp d i (omega (arith, written, size, a.there))
        (ap (λ x. first_rkey x.rkey 32 0) (mapping_recv s d k i m a) ∙ a.key) in
    let back = sym same in
    mapped_server-Ready s s' d r a.there linked
      (ap (λ x. x.cb_state_list) back ∙ f.states ∙ mapping_states s d k i m a)
      (ap (λ x. length x.cb_list) back ∙ f.size ∙ written ∙ size)
      (ap (λ x. (cb_at x d).state) back ∙ f.state ∙ ap (λ x. x.state) (mapping_cb s d k i m a))
      (λ e ne. ap (λ x. cb_at x e) back ∙ f.others e ne ∙ mapping_others s d k i m a e ne)
      (λ l e now. elim (ℕ_discrete l k) [
        | yes p ↦ inl (cc (on, now, p))
        | no ne ↦ inr (sym (others l ne) ∙ now)
      ])
