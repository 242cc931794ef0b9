-- ===== src/Session/Connect/Waits.antt =====
-- When a wait for the connection manager ends, and in which state.
use dis_store.Prelude.{
  ◌≤◌, ◌≡◌, ◌≢◌, ◌⊎◌, inl, inr, refl, sym, ap, ◌∙◌, true, ◌&&◌, some, List, [], ◌∷◌, arith,
  Bool-cases,
}
use dis_store.Session.{TestState}
use dis_store.Session.Connect.{
  rank, CmEvent, address_resolved, route_found, request, established, address_error, route_error,
  connect_error, unreachable, rejected, disconnected, device_removal, other, cma_event, reached,
  same_state, sleep, wait_event, going, waiting, expect, unless_error, bind_client, connect_client,
  connect_upper, connect_down, connect_server,
}

-- The event ends every wait of connecting: an error, or an established connection.
abbrev pub Ends : CmEvent → Type 0
Ends established = Unit
Ends address_error = Unit
Ends route_error = Unit
Ends connect_error = Unit
Ends unreachable = Unit
Ends rejected = Unit
Ends _ = ⊥

-- The event ends no wait of a server that is not yet connected.
abbrev pub Quiet : CmEvent → Type 0
Quiet (address_resolved b) = Unit
Quiet request = Unit
Quiet device_removal = Unit
Quiet other = Unit
Quiet _ = ⊥

abbrev pub Any : (CmEvent → Type 0) → List CmEvent → Type 0
Any P [] = ⊥
Any P (e ∷ events) = P e ⊎ Any P events

abbrev pub All : (CmEvent → Type 0) → List CmEvent → Type 0
All P [] = Unit
All P (e ∷ events) = P e × All P events

Ends-cma_event :
    (e : CmEvent) (state : TestState)
    → Ends e
    → ((cma_event e state).1 ≡ true) × (5 ≤ rank (cma_event e state).0)
unfolding cma_event rank
Ends-cma_event established state h = (refl, omega arith)
Ends-cma_event address_error state h = (refl, omega arith)
Ends-cma_event route_error state h = (refl, omega arith)
Ends-cma_event connect_error state h = (refl, omega arith)
Ends-cma_event unreachable state h = (refl, omega arith)
Ends-cma_event rejected state h = (refl, omega arith)
Ends-cma_event (address_resolved b) state h = absurd h
Ends-cma_event route_found state h = absurd h
Ends-cma_event request state h = absurd h
Ends-cma_event disconnected state h = absurd h
Ends-cma_event device_removal state h = absurd h
Ends-cma_event other state h = absurd h

-- A sleep ends at the latest with an event that ends it.
sleep-Ends :
    (least : TestState) (events : List CmEvent) (state : TestState)
    → rank least ≤ 5
    → Any Ends events
    → (s : TestState) × (rest : List CmEvent) × (sleep least events state ≡ some (s, rest))
      × (rank least ≤ rank s)
unfolding sleep
sleep-Ends least [] state le h = absurd h
sleep-Ends least (e ∷ events) state le h =
    let after = cma_event e state in
    elim (Bool-cases (after.1 && reached least after.0)) [
      | inl t ↦ (after.0, events, rw t refl, ground (arith, t))
      | inr f ↦
          let rest : Any Ends events = elim h [
            | inl here ↦
                let (woke, at) = Ends-cma_event e state here in
                absurd (ground (arith, f, woke, at, le))
            | inr later ↦ later
          ] in
          rw f (sleep-Ends least events after.0 le rest)
    ]

wait_event-Ends :
    (least : TestState) (events : List CmEvent) (state : TestState)
    → rank least ≤ 5
    → Any Ends events
    → (s : TestState) × (rest : List CmEvent) × (wait_event least events state ≡ some (s, rest))
      × (rank least ≤ rank s)
unfolding wait_event
wait_event-Ends least events state le h = elim (Bool-cases (reached least state)) [
  | inl e ↦ (state, events, rw e refl, ground (arith, e))
  | inr e ↦ rw e (sleep-Ends least events state le h)
]

expect-ends :
    (target : TestState) (s : TestState) (rest : List CmEvent)
    → expect target (some (s, rest)) ≢ waiting
unfolding expect
expect-ends target s rest h = elim (Bool-cases (same_state s target)) [
  | inl e ↦ absurd (cc (rw e at h))
  | inr e ↦ absurd (cc (rw e at h))
]

unless_error-ends : (s : TestState) (rest : List CmEvent) → unless_error (some (s, rest)) ≢ waiting
unfolding unless_error
unless_error-ends s rest h = elim (Bool-cases (same_state s TestState.error)) [
  | inl e ↦ absurd (cc (rw e at h))
  | inr e ↦ absurd (cc (rw e at h))
]

-- Once the connection manager reports that the connection is established or an error, both waits of
-- connecting have come to their end, whatever else was reported before: IS_bind_client and
-- IS_connect_client return.
pub connecting-Ends :
    (events : List CmEvent) (state : TestState)
    → Any Ends events
    → (bind_client true events state ≢ waiting) × (connect_client true events state ≢ waiting)
unfolding bind_client connect_client rank
connecting-Ends events state h =
    let (s, rest, e, le) = wait_event-Ends TestState.route_resolved events state (omega arith) h in
    let (t, rest', f, le') = wait_event-Ends TestState.connected events state (omega arith) h in
    (
      λ w.
          expect-ends TestState.route_resolved s rest
            (ap (expect TestState.route_resolved) (sym e) ∙ w),
      λ w. unless_error-ends t rest' (ap unless_error (sym f) ∙ w),
    )

-- A server is connected, when no call fails and the manager resolves the address and the route and
-- then establishes the connection; what is reported later is left.
pub connect_server-connected :
    (events : List CmEvent)
    → connect_server
        (record {
          resolve_addr = true;
          setup_qp = true;
          setup_buffers = true;
          post_recv = true;
          connect = true;
        })
        (address_resolved true ∷ route_found ∷ established ∷ events)
        TestState.idle
      ≡ going TestState.connected events
unfolding connect_server connect_upper connect_down bind_client connect_client wait_event sleep
    expect unless_error cma_event rank
connect_server-connected events = refl
