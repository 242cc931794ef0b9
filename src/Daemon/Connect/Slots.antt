-- ===== src/Daemon/Connect/Slots.antt =====
-- The places of the connections.
use dis_store.Prelude.{
  ℕ, zero, suc, ◌+◌, ◌<◌, ◌≡◌, inl, inr, refl, sym, ap, ◌∙◌, true, false, not, Option, none, some,
  List, arith, length, get_or, set, length-set, get_or-set, Bool-cases,
}
use dis_store.Prelude.Int.{pos, ◌+ℤ◌, pos-+ℤ}
use dis_store.Prelude.Counts.{count_some, is_some, count_some-set}
use dis_store.Daemon.{Connection, RdmaSession, ConnState, max_client}
use dis_store.Daemon.Connect.{is_idle, idle_from, fill_connection, place, build_connection}

-- `conn_num` counts the connections, and a place is idle exactly if it has none.
pub record Tracked (s : RdmaSession) : Type 0 where
  pub conns_size : length s.conns ≡ max_client
  pub states_size : length s.conns_state ≡ max_client
  pub num : s.conn_num ≡ pos (count_some s.conns)
  pub idle :
      (i : ℕ)
      → i < max_client
      → is_idle (get_or s.conns_state i ConnState.conn_failed)
        ≡ not (is_some (get_or s.conns i none))

idle_from_found :
    (n i k : ℕ) (states : List ConnState)
    → idle_from n i states ≡ some k
    → (is_idle (get_or states k ConnState.conn_failed) ≡ true) × (k < i + n)
unfolding idle_from
idle_from_found zero i k states h = absurd (cc)
idle_from_found (suc n) i k states h =
    elim (Bool-cases (is_idle (get_or states i ConnState.conn_failed))) [
      | inl e ↦ ground arith
      | inr e ↦ ground (arith, idle_from_found n (i + 1) k states)
    ]

build-place :
    (s : RdmaSession) (c : Connection) (k : ℕ)
    → idle_from 32 0 s.conns_state ≡ some k
    → build_connection s c
      ≡ (let s' = place s k (fill_connection c) in record s' { conn_num = s'.conn_num +ℤ pos 1 })
unfolding build_connection
build-place s c k e = rw e refl

build-nowhere :
    (s : RdmaSession) (c : Connection)
    → idle_from 32 0 s.conns_state ≡ none
    → build_connection s c ≡ record s { conn_num = s.conn_num +ℤ pos 1 }
unfolding build_connection
build-nowhere s c e = rw e refl

placed-Tracked :
    (s : RdmaSession) (c : Connection) (k : ℕ)
    → Tracked s
    → is_idle (get_or s.conns_state k ConnState.conn_failed) ≡ true
    → k < max_client
    → let s' = record (place s k c) { conn_num = (place s k c).conn_num +ℤ pos 1 } in
      Tracked s'
      × (get_or s.conns k none ≡ none)
      × (get_or s'.conns k none ≡ some (record c { conn_index = k }))
      × (count_some s'.conns ≡ count_some s.conns + 1)
unfolding place
placed-Tracked s c k h idle lt =
    let new : Option Connection = some (record c { conn_index = k }) in
    let lt' : k < length s.conns = omega (arith, h.conns_size) in
    let lt'' : k < length s.conns_state = omega (arith, h.states_size) in
    let empty : is_some (get_or s.conns k none) ≡ false = ground (arith, h.idle k lt, idle) in
    let count : count_some (set s.conns k new) ≡ count_some s.conns + 1 =
      ground (arith, count_some-set s.conns k new lt', empty) in
    (
      record {
        conns_size = length-set s.conns k new ∙ h.conns_size;
        states_size = length-set s.conns_state k ConnState.conn_connected ∙ h.states_size;
        num = ap (λ z. z +ℤ pos 1) h.num ∙ pos-+ℤ (count_some s.conns) 1 ∙ ap pos (sym count);
        idle = λ i l. ground (
          arith,
          get_or-set s.conns k i new none lt',
          get_or-set s.conns_state k i ConnState.conn_connected ConnState.conn_failed lt'',
          h.idle i l,
        );
      },
      ground (arith, empty),
      ground (arith, get_or-set s.conns k k new none lt'),
      count,
    )

-- If a place is idle, build_connection puts the connection into the first one, which had none, and
-- `conn_num` still counts the connections.
pub build_connection-Tracked :
    (s : RdmaSession) (c : Connection) (k : ℕ)
    → Tracked s
    → idle_from 32 0 s.conns_state ≡ some k
    → let s' = build_connection s c in
      Tracked s'
      × (get_or s.conns k none ≡ none)
      × (get_or s'.conns k none ≡ some (record (fill_connection c) { conn_index = k }))
      × (count_some s'.conns ≡ count_some s.conns + 1)
build_connection-Tracked s c k h e =
    let (idle, lt) = idle_from_found 32 0 k s.conns_state e in
    rw (build-place s c k e) (placed-Tracked s (fill_connection c) k h idle (omega arith))

-- What else it leaves: the memory, and the other places.
pub build_connection-places :
    (s : RdmaSession) (c : Connection) (k : ℕ)
    → idle_from 32 0 s.conns_state ≡ some k
    → let s' = build_connection s c in
      (s'.conns ≡ set s.conns k (some (record (fill_connection c) { conn_index = k })))
      × (s'.rdma_remote ≡ s.rdma_remote)
unfolding place
build_connection-places s c k e = rw (build-place s c k e) (refl, refl)

miscounted : (s : RdmaSession) → Tracked s → ¬ Tracked (record s { conn_num = s.conn_num +ℤ pos 1 })
miscounted s h after = ground (arith, after.num, h.num, pos-+ℤ (count_some s.conns) 1)

-- If no place is idle, build_connection puts the connection nowhere, and counts it all the same, so
-- that a count that was right is wrong after it.
pub build_connection-full :
    (s : RdmaSession) (c : Connection)
    → Tracked s
    → idle_from 32 0 s.conns_state ≡ none
    → let s' = build_connection s c in
      (s'.conns ≡ s.conns) × (s'.conns_state ≡ s.conns_state) × ¬ Tracked s'
build_connection-full s c h e =
    let wrong = miscounted s h in rw (build-nowhere s c e) (refl, refl, wrong)
