-- ===== src/Session/Polled/Broken.antt =====
-- A completion that fails ends the handling, for good.
use dis_store.Prelude.{
  ℕ, Bool, none, some, ◌<◌, ◌≡◌, refl, ap, ◌∙◌, false, List, [], ◌∷◌, ◌++◌, length, if◌then◌else◌,
}
use dis_store.Session.{Session, TestState}
use dis_store.Session.Tables.{cb_at}
use dis_store.Session.Receive.{with_state}
use dis_store.Session.Bind.Awaited.{cb_at-with_cb_self}
use dis_store.Session.Connect.{rank, same_state}
use dis_store.Session.Polled.{
  Status, success, flushed, broken, Work, receive, send_work, read_work, write_work, unknown_work,
  write_recorded, Completion, next, work_done, polled, in_error, poll_all, cq_event_handler,
}

-- A completion that leaves the session: flushed, or neither a message nor a write into a chunk.
abbrev pub NoMessage : Completion → Type 0
NoMessage w = elim w.status [
  | success ↦ elim w.work [
    | receive m whole ↦ ⊥
    | send_work ↦ Unit
    | read_work ↦ Unit
    | write_work w ↦ elim w [ none ↦ Unit | some x ↦ ⊥ ]
    | unknown_work ↦ ⊥
  ]
  | flushed ↦ Unit
  | broken ↦ ⊥
]

abbrev pub AllNoMessage : List Completion → Type 0
AllNoMessage [] = Unit
AllNoMessage (w ∷ ws) = NoMessage w × AllNoMessage ws

polled-next :
    (s : Session) (c : ℕ) (status : Status) (w : Work)
    → NoMessage (record { status = status; work = w })
    → polled s c (record { status = status; work = w }) ≡ next s
unfolding polled work_done write_recorded
polled-next s c flushed w h = refl
polled-next s c broken w h = absurd h
polled-next s c success (receive m whole) h = absurd h
polled-next s c success send_work h = refl
polled-next s c success read_work h = refl
polled-next s c success (write_work none) h = refl
polled-next s c success (write_work (some w)) h = absurd h
polled-next s c success unknown_work h = absurd h

cq_event_handler-in_error :
    (s : Session) (c : ℕ) (ws : List Completion) (poll_error : Bool)
    → (cb_at s c).state ≡ TestState.error
    → cq_event_handler s c ws poll_error ≡ s
unfolding cq_event_handler rank
cq_event_handler-in_error s c ws poll_error e =
    ap (λ x. if same_state x TestState.error then s else poll_all poll_error s c ws) e

poll_all-broken :
    (poll_error : Bool) (s : Session) (c : ℕ) (before after : List Completion) (w : Work)
    → AllNoMessage before
    → poll_all poll_error s c (before ++ record { status = broken; work = w } ∷ after)
      ≡ in_error s c
unfolding poll_all polled
poll_all-broken poll_error s c [] after w h = refl
poll_all-broken poll_error s c (x ∷ xs) after w (first, rest) =
    rw (poll_all, polled-next s c x.status x.work first)
      (poll_all-broken poll_error s c xs after w rest)

-- A completion that has failed puts its server in ERROR, and no later one is looked at; from then
-- on the handler does nothing for that server.
pub cq_event_handler-broken :
    (s : Session) (c : ℕ) (before after more : List Completion) (w : Work) (poll_error : Bool)
    → c < length s.cb_list
    → same_state (cb_at s c).state TestState.error ≡ false
    → AllNoMessage before
    → let s' =
        cq_event_handler s c (before ++ record { status = broken; work = w } ∷ after) poll_error in
      (s' ≡ in_error s c)
      × ((cb_at s' c).state ≡ TestState.error)
      × (cq_event_handler s' c more poll_error ≡ s')
unfolding cq_event_handler
cq_event_handler-broken s c before after more w poll_error lt going h =
    let s' =
      cq_event_handler s c (before ++ record { status = broken; work = w } ∷ after) poll_error in
    let ran : s' ≡ in_error s c =
      rw (cq_event_handler, going) (poll_all-broken poll_error s c before after w h) in
    let state : (cb_at s' c).state ≡ TestState.error =
      ap (λ x. (cb_at x c).state) ran
      ∙ ap (λ x. x.state) (cb_at-with_cb_self s c (with_state (cb_at s c) TestState.error) lt) in
    (ran, state, cq_event_handler-in_error s' c more poll_error state)
