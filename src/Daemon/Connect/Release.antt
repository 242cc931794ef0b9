-- ===== src/Daemon/Connect/Release.antt =====
-- A connection goes: what becomes of its chunks and of its place.
use dis_store.Prelude.{
  ℕ, zero, suc, ◌+◌, ◌≤◌, ◌<◌, ◌≡◌, ◌⊎◌, inl, inr, refl, sym, ap, ap₂, ◌∙◌, Bool, true, false,
  Option, none, List, ◌==◌, if◌then◌else◌, arith, length, get_or, set, length-set, get_or-set,
  Bool-cases, Option-cases,
}
use native.Mathlib.Decide.{ℕ_discrete}
use dis_store.Prelude.Int.{pos, ◌-ℤ◌, pos--ℤ, is_zero, ltb_ℤ}
use dis_store.Prelude.Counts.{count_true, count_some, is_some, bit_of_bool, count_some-set}
use dis_store.Daemon.{Connection, RdmaSession, RemoteMem, ConnState, max_free_mem_gb, max_client}
use dis_store.Daemon.Accounts.{Accounted}
use dis_store.Daemon.Connect.{release_from, release, destroy_connection}
use dis_store.Daemon.Connect.Slots.{Tracked}
use dis_store.Daemon.Connect.Freed.{count_held, HoldsLent, Released, Gone, release_from-Released}

-- The connection stands in its place, its table names the chunks that it was lent, and it counts
-- them.
pub record Known (s : RdmaSession) (c : Connection) : Type 0 where
  pub placed : is_some (get_or s.conns c.conn_index none) ≡ true
  pub index : c.conn_index < max_client
  pub held : HoldsLent s.rdma_remote c.sess_chunk_map 32 0
  pub counts : c.mapped_chunk_size ≡ pos (count_held 32 0 c.sess_chunk_map)

not_positive : (n : ℕ) → ltb_ℤ (pos 0) (pos n) ≡ false → n ≡ 0
not_positive n h = ground arith

no_bit : (b : Bool) → bit_of_bool b ≡ 0 → b ≡ false
no_bit b h = ground arith

count_held-none :
    (n i j : ℕ) (held : List (Option ℕ))
    → count_held n i held ≡ 0
    → i ≤ j
    → j < i + n
    → is_some (get_or held j none) ≡ false
unfolding count_held
count_held-none zero i j held h a b = absurd (omega arith)
count_held-none (suc n) i j held h a b = elim (ℕ_discrete i j) [
  | yes p ↦
      ap (λ x. is_some (get_or held x none)) (sym p)
      ∙ no_bit (is_some (get_or held i none)) (omega arith)
  | no ne ↦ count_held-none n (i + 1) j held (omega arith) (omega arith) (omega arith)
]

release-cases :
    (m : RemoteMem) (c : Connection)
    → c.mapped_chunk_size ≡ pos (count_held 32 0 c.sess_chunk_map)
    → let m' = release_from 32 0 c.sess_chunk_map m in
      ((release m c ≡ record m' { mapped_size = m'.mapped_size -ℤ c.mapped_chunk_size }))
      ⊎ ((release m c ≡ m) × (count_held 32 0 c.sess_chunk_map ≡ 0))
unfolding release
release-cases m c e = elim (Bool-cases (ltb_ℤ (pos 0) c.mapped_chunk_size)) [
  | inl t ↦ inl (rw (release, t) refl)
  | inr f ↦ inr (rw (release, f) refl, not_positive (count_held 32 0 c.sess_chunk_map) (rw e at f))
]

Released-Accounted :
    (m m' : RemoteMem) (c : Connection)
    → Accounted m
    → Released m m' (count_held 32 0 c.sess_chunk_map)
    → c.mapped_chunk_size ≡ pos (count_held 32 0 c.sess_chunk_map)
    → Accounted (record m' { mapped_size = m'.mapped_size -ℤ c.mapped_chunk_size })
Released-Accounted m m' c h r e =
    let held = count_held 32 0 c.sess_chunk_map in
    record {
      malloc_size = ap length r.mallocs ∙ h.malloc_size;
      conn_size = r.size;
      size = r.same_size ∙ h.size ∙ ap (λ t. pos (count_true t)) (sym r.mallocs);
      mapped =
          ap₂ (λ x y. x -ℤ y) (r.same_mapped ∙ h.mapped) e
          ∙ pos--ℤ (count_some m.conn_map) held (omega (arith, r.count))
          ∙ ap pos (omega (arith, r.count));
      lent = λ i t. elim (Option-cases (get_or m.conn_map i none)) [
        | inl off ↦ absurd (cc (r.fewer i off, t))
        | inr (k, on) ↦ ap (λ x. get_or x i false) r.mallocs ∙ h.lent i (ap is_some on)
      ];
    }

release-Accounted :
    (m : RemoteMem) (c : Connection)
    → Accounted m
    → HoldsLent m c.sess_chunk_map 32 0
    → c.mapped_chunk_size ≡ pos (count_held 32 0 c.sess_chunk_map)
    → Accounted (release m c)
      × ((release m c).malloc_map ≡ m.malloc_map)
      × (count_some (release m c).conn_map + count_held 32 0 c.sess_chunk_map
          ≡ count_some m.conn_map)
      × ((j : ℕ) → j < max_free_mem_gb → Gone (release m c) c.sess_chunk_map j)
release-Accounted m c h held e = elim (release-cases m c e) [
  | inr (same, zero_held) ↦ rw same (
    h,
    refl,
    omega (arith, zero_held),
    λ j lt t.
        absurd
          (cc (count_held-none 32 0 j c.sess_chunk_map zero_held (omega arith) (omega arith), t)),
  )
  | inl same ↦
      let (r, gone) =
        release_from-Released 32 0 c.sess_chunk_map m h.conn_size (omega arith) held in
      rw same (
        Released-Accounted m (release_from 32 0 c.sess_chunk_map m) c h r e,
        r.mallocs,
        r.count,
        λ j lt. gone j (omega arith) (omega arith),
      )
]

displaced-Tracked :
    (s : RdmaSession) (m : RemoteMem) (k : ℕ)
    → Tracked s
    → k < max_client
    → is_some (get_or s.conns k none) ≡ true
    → Tracked (record s {
      rdma_remote = m;
      conns = set s.conns k none;
      conns_state = set s.conns_state k ConnState.conn_idle;
      conn_num = s.conn_num -ℤ pos 1;
    })
displaced-Tracked s m k h lt on =
    let lt' : k < length s.conns = omega (arith, h.conns_size) in
    let lt'' : k < length s.conns_state = omega (arith, h.states_size) in
    let count : count_some (set s.conns k none) + 1 ≡ count_some s.conns =
      ground (arith, count_some-set s.conns k none lt', on) in
    record {
      conns_size = length-set s.conns k none ∙ h.conns_size;
      states_size = length-set s.conns_state k ConnState.conn_idle ∙ h.states_size;
      num =
          ap (λ z. z -ℤ pos 1) h.num
          ∙ pos--ℤ (count_some s.conns) 1 (omega (arith, count))
          ∙ ap pos (omega (arith, count));
      idle = λ i l. ground (
        arith,
        get_or-set s.conns k i none none lt',
        get_or-set s.conns_state k i ConnState.conn_idle ConnState.conn_failed lt'',
        h.idle i l,
      );
    }

-- If the books are right, the connections are tracked and this one is known, destroy_connection
-- keeps the books right and the connections tracked, lends none of the connection's chunks any
-- more and frees none, and the daemon stops exactly if no connection is left.
pub destroy_connection-Accounted :
    (s : RdmaSession) (c : Connection) (running : Bool)
    → Accounted s.rdma_remote
    → Tracked s
    → Known s c
    → let (s', running') = destroy_connection s c running in
      Accounted s'.rdma_remote
      × Tracked s'
      × (s'.rdma_remote.malloc_map ≡ s.rdma_remote.malloc_map)
      × ((j : ℕ) → j < max_free_mem_gb → Gone s'.rdma_remote c.sess_chunk_map j)
      × (running' ≡ (if count_some s'.conns == 0 then false else running))
unfolding destroy_connection
destroy_connection-Accounted s c running h t k =
    let (books, mallocs, count, gone) = release-Accounted s.rdma_remote c h k.held k.counts in
    let tracked = displaced-Tracked s (release s.rdma_remote c) c.conn_index t k.index k.placed in
    (
      books,
      tracked,
      mallocs,
      gone,
      ap (λ z. if is_zero z then false else running) tracked.num ∙ ground arith,
    )
