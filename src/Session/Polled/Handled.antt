-- ===== src/Session/Polled/Handled.antt =====
-- The tables stay linked over completions that they can take.
use dis_store.Prelude.{
  ℕ, Bool, ◌||◌, none, some, ◌≡◌, ◌⊎◌, inl, inr, refl, sym, ap, ◌∙◌, true, false, List, [], ◌∷◌,
  Bool-cases,
}
use dis_store.Session.{Session, RdmaInfo, TestState}
use dis_store.Session.Tables.{cb_at}
use mathlib.Core.Path.{subst}
use dis_store.Session.Links.{Linked, HasChunk, bitmap_at, Linked-with_chunk_bitmap}
use dis_store.Bitmap.{group_set}
use dis_store.Bitmap.Pages.{IsChunkMap, length-group_set}
use dis_store.Session.Receive.{client_recv, refused, before_connected}
use dis_store.Session.Receive.Handled.{Linked-with_cb, Takes, client_recv-Linked}
use dis_store.Session.Connect.{same_state}
use dis_store.Session.Polled.{
  Status, success, flushed, broken, Work, receive, send_work, read_work, write_work, unknown_work,
  write_recorded, Completion, Round, next, broken_off, arrived, recv_outcome, work_done, polled,
  in_error, poll_all, cq_event_handler,
}

-- A message is refused, or the tables can take it: see `Takes`. A write names a chunk that its server
-- has, with a whole bitmap.
abbrev pub Fine : Session → ℕ → Work → Type 0
Fine s c (receive m whole) =
    (client_recv (arrived s c m) c whole ≡ refused)
    ⊎ (whole ≡ true)
      × (before_connected (cb_at (arrived s c m) c).state ≡ false)
      × Takes (arrived s c m) c (cb_at (arrived s c m) c).recv_buf.type
Fine s c (write_work none) = Unit
Fine s c (write_work (some w)) = HasChunk s c w.chunk × IsChunkMap (bitmap_at s c w.chunk)
Fine s c send_work = Unit
Fine s c read_work = Unit
Fine s c unknown_work = Unit

abbrev FineRound : Session → ℕ → Completion → Type 0
FineRound s c w = elim w.status [ success ↦ Fine s c w.work | flushed ↦ Unit | broken ↦ Unit ]

abbrev after_round : Round → Session
after_round (next s) = s
after_round (broken_off s) = s

in_error-Linked : (s : Session) (c : ℕ) → Linked s → Linked (in_error s c)
in_error-Linked s c h = Linked-with_cb s c _ (record { chunks = refl; map = refl }) h

arrived-Linked : (s : Session) (c : ℕ) (m : RdmaInfo) → Linked s → Linked (arrived s c m)
arrived-Linked s c m h = Linked-with_cb s c _ (record { chunks = refl; map = refl }) h

work_done-Linked :
    (s : Session) (c : ℕ) (w : Work)
    → Linked s
    → Fine s c w
    → Linked (after_round (work_done s c w))
unfolding work_done recv_outcome write_recorded
work_done-Linked s c (receive m whole) h (inl no_one) = rw no_one (arrived-Linked s c m h)
work_done-Linked s c (receive m whole) h (inr (all, state, takes)) =
    let (s', ran, linked) =
      client_recv-Linked (arrived s c m) c (arrived-Linked s c m h) state takes in
    rw (all, ran) linked
work_done-Linked s c send_work h f = h
work_done-Linked s c read_work h f = h
work_done-Linked s c (write_work none) h f = h
work_done-Linked s c (write_work (some w)) h (has, full) =
    Linked-with_chunk_bitmap s c w.chunk (group_set (bitmap_at s c w.chunk) w.offset w.len) has
      (length-group_set (bitmap_at s c w.chunk) w.offset w.len ∙ full) h
work_done-Linked s c unknown_work h f = h

polled-Linked :
    (s : Session) (c : ℕ) (status : Status) (w : Work)
    → Linked s
    → FineRound s c (record { status = status; work = w })
    → Linked (after_round (polled s c (record { status = status; work = w })))
unfolding polled
polled-Linked s c success w h f = work_done-Linked s c w h f
polled-Linked s c flushed w h f = h
polled-Linked s c broken w h f = h

-- Each completion finds the session in which it is fine.
unfoldable pub AllFine : Session → ℕ → List Completion → Type 0
AllFine s c [] = Unit
AllFine s c (w ∷ ws) = FineRound s c w × AllFine (after_round (polled s c w)) c ws

poll_all-Linked :
    (poll_error : Bool) (s : Session) (c : ℕ) (ws : List Completion)
    → Linked s
    → AllFine s c ws
    → Linked (poll_all poll_error s c ws)
unfolding poll_all AllFine
poll_all-Linked true s c [] h f = in_error-Linked s c h
poll_all-Linked false s c [] h f = h
poll_all-Linked poll_error s c (w ∷ ws) h (first, rest) =
    go (polled s c w) refl (polled-Linked s c w.status w.work h first)
      (λ s' l f. poll_all-Linked poll_error s' c ws l f)
  where
    go :
        (r : Round)
        → polled s c w ≡ r
        → Linked (after_round r)
        → ((s' : Session) → Linked s' → AllFine s' c ws → Linked (poll_all poll_error s' c ws))
        → Linked (poll_all poll_error s c (w ∷ ws))
    go (next s') e l later =
        rw (poll_all, e) (later s' l (subst (λ x. AllFine (after_round x) c ws) e rest))
    go (broken_off s') e l later = rw (poll_all, e) (in_error-Linked s' c l)

-- A completion that fails, or is of an unknown kind.
abbrev pub fails_one : Completion → Bool
fails_one w = elim w.status [
  | success ↦ elim w.work [
    | receive m whole ↦ false
    | write_work x ↦ false
    | send_work ↦ false
    | read_work ↦ false
    | unknown_work ↦ true
  ]
  | flushed ↦ false
  | broken ↦ true
]

-- One of the completions does.
abbrev pub fails : List Completion → Bool
fails [] = false
fails (w ∷ ws) = fails_one w || fails ws

fails_one-next :
    (s s' : Session) (c : ℕ) (status : Status) (w : Work)
    → polled s c (record { status = status; work = w }) ≡ next s'
    → fails_one (record { status = status; work = w }) ≡ false
unfolding polled work_done
fails_one-next s s' c flushed w e = refl
fails_one-next s s' c broken w e = absurd (cc)
fails_one-next s s' c success (receive m whole) e = refl
fails_one-next s s' c success (write_work x) e = refl
fails_one-next s s' c success send_work e = refl
fails_one-next s s' c success read_work e = refl
fails_one-next s s' c success unknown_work e = absurd (cc)

poll_all-fails :
    (poll_error : Bool) (s : Session) (c : ℕ) (ws : List Completion)
    → (fails ws || poll_error) ≡ true
    → (t : Session) × (poll_all poll_error s c ws ≡ in_error t c)
unfolding poll_all
poll_all-fails true s c [] e = (s, refl)
poll_all-fails false s c [] e = absurd (cc)
poll_all-fails poll_error s c (w ∷ ws) e =
    go (polled s c w) refl (λ s' h. poll_all-fails poll_error s' c ws h)
  where
    go :
        (r : Round)
        → polled s c w ≡ r
        → ((s' : Session)
            → (fails ws || poll_error) ≡ true
            → (t : Session) × (poll_all poll_error s' c ws ≡ in_error t c))
        → (t : Session) × (poll_all poll_error s c (w ∷ ws) ≡ in_error t c)
    go (next s') now later =
        let fine = fails_one-next s s' c w.status w.work now in
        let (t, ends) = later s' (sym (ap (λ b. (b || fails ws) || poll_error) fine) ∙ e) in
        (t, rw (poll_all, now) ends)
    go (broken_off s') now later = (s', rw (poll_all, now) refl)

-- If the tables are linked, rdma_cq_event_handler keeps them linked, also when it breaks off and when
-- polling ends with an error, over completions each of which, in the session that it finds, is one of
-- these: flushed, failed, a send, a read, or of an unknown kind; a write without a chunk, or into a
-- chunk that its server has with a whole bitmap, the bits of which are set; a message that client_recv
-- refuses; or a whole message to a server that is connected which says FREE_SIZE, EVICT or STOP, or
-- INFO_SINGLE with a key, for a chunk that is not mapped and a gigabyte that the tables reach. INFO,
-- the answer to a bind of several chunks, is not among them. And if a completion fails or is of an
-- unknown kind, or polling ends with an error, the last that the handler does is to put the server in
-- ERROR, where it was not in ERROR before.
pub cq_event_handler-Linked :
    (s : Session) (c : ℕ) (ws : List Completion) (poll_error : Bool)
    → Linked s
    → AllFine s c ws
    → Linked (cq_event_handler s c ws poll_error)
      × (((fails ws || poll_error) ≡ false)
          ⊎ ((same_state (cb_at s c).state TestState.error ≡ true)
              ⊎ ((t : Session) × (cq_event_handler s c ws poll_error ≡ in_error t c))))
unfolding cq_event_handler
cq_event_handler-Linked s c ws poll_error h f =
    elim (Bool-cases (same_state (cb_at s c).state TestState.error)) [
      | inl e ↦ (rw e h, inr (inl e))
      | inr e ↦ (
        rw e (poll_all-Linked poll_error s c ws h f),
        elim (Bool-cases (fails ws || poll_error)) [
          | inl bad ↦
              let (t, ends) = poll_all-fails poll_error s c ws bad in
              inr (inr (t, rw (cq_event_handler, e) ends))
          | inr good ↦ inl good
        ],
      )
    ]
