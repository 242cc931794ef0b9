-- ===== src/Samples/Hearing.antt =====
-- A connected server whose answer to a bind is in.
use dis_store.Prelude.{
  ℕ, ◌≡◌, refl, inr, true, false, Option, none, some, [], ◌∷◌, arith, get_or-replicate,
}
use dis_store.Session.{Session, TestState}
use dis_store.Session.Tables.{cb_at, no_cb}
use dis_store.Session.Links.{Linked, gb_at}
use dis_store.Session.Create.{session_create, kernel_cb_init}
use dis_store.Session.Create.Fresh.{Unmapped-Linked}
use dis_store.Session.Chunks.{first_rkey}
use dis_store.Session.Chunks.Install.{Fits}
use dis_store.Session.Receive.{mapping, before_connected}
use dis_store.Session.Receive.Handled.{Takes}
use dis_store.Session.Polled.{Status, Work}
use dis_store.Session.Polled.Handled.{AllFine}
use dis_store.Samples.{answer}

unfoldable pub hearing : Session
unfolding session_create kernel_cb_init
hearing = record (session_create 1) {
  cb_list = record (kernel_cb_init no_cb) { recv_buf = answer; state = TestState.connected } ∷ [];
}

pub hearing-Linked : Linked hearing
unfolding hearing session_create
hearing-Linked = Unmapped-Linked hearing (λ k. get_or-replicate {A = Option ℕ} 12 none k)

hearing_connected : before_connected (cb_at hearing 0).state ≡ false
unfolding hearing
hearing_connected = refl

hearing-Fits : Fits (mapping hearing 0) 0 1 3
unfolding hearing session_create kernel_cb_init
hearing-Fits = omega arith

hearing_key : first_rkey (cb_at (mapping hearing 0) 0).recv_buf.rkey 32 0 ≡ some 1
unfolding hearing first_rkey
hearing_key = refl

hearing_free : gb_at (mapping hearing 0) 0 1 ≡ none
unfolding hearing kernel_cb_init
hearing_free = refl

hearing-Takes : Takes hearing 0 (cb_at hearing 0).recv_buf.type
unfolding hearing
hearing-Takes = (1, hearing-Fits, hearing_key, hearing_free)

-- The answer comes in as a completion.
pub hearing-Fine :
    AllFine hearing 0 (record { status = Status.success; work = Work.receive answer true } ∷ [])
unfolding hearing AllFine
hearing-Fine = (inr (refl, hearing_connected, hearing-Takes), tt)
