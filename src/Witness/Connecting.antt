-- ===== src/Witness/Connecting.antt =====
-- Connecting to a server, and its completions.
use dis_store.Prelude.{◌⊎◌, ◌||◌, ◌≡◌, ◌≢◌, inl, inr, true, false, [], ◌∷◌}
use dis_store.Session.{Session, TestState}
use dis_store.Session.Tables.{cb_at}
use dis_store.Session.Links.{Linked}
use dis_store.Session.Connect.{CmEvent, bind_client, connect_client, waiting, same_state}
use dis_store.Session.Connect.Waits.{connecting-Ends}
use dis_store.Session.Polled.{Completion, Status, Work, cq_event_handler, in_error}
use dis_store.Session.Polled.Handled.{fails, cq_event_handler-Linked}
use dis_store.Samples.{answer}
use dis_store.Samples.Hearing.{hearing, hearing-Linked, hearing-Fine}

connecting-Ends_example :
    let events = CmEvent.address_resolved true ∷ CmEvent.unreachable ∷ [] in
    (bind_client true events TestState.idle ≢ waiting)
    × (connect_client true events TestState.idle ≢ waiting)
connecting-Ends_example =
    connecting-Ends (CmEvent.address_resolved true ∷ CmEvent.unreachable ∷ []) TestState.idle
      (inr (inl tt))

abbrev came : Completion
came = record { status = Status.success; work = Work.receive answer true }

cq_event_handler-Linked_example :
    Linked (cq_event_handler hearing 0 (came ∷ []) true)
    × (((fails (came ∷ []) || true) ≡ false)
        ⊎ ((same_state (cb_at hearing 0).state TestState.error ≡ true)
            ⊎ ((t : Session) × (cq_event_handler hearing 0 (came ∷ []) true ≡ in_error t 0))))
cq_event_handler-Linked_example =
    cq_event_handler-Linked hearing 0 (came ∷ []) true hearing-Linked hearing-Fine

abbrev flush : Completion
flush = record { status = Status.flushed; work = Work.send_work }
