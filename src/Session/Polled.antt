-- ===== src/Session/Polled.antt =====
-- The completions of a server's queue: rdma_cq_event_handler with client_send
-- (Infiniswap/infiniswap_bd/is_main.c). A completion carries what the handler reads of it, a received
-- one the message that came with it, and a write the chunk of its context with the bytes written.
-- What client_read_done and client_write_done do to contexts and requests is in Context; here are the
-- bits that client_write_done sets. The posting of the next receive is taken to succeed.
pub mod Handled
pub mod Broken
use dis_store.Prelude.{Bool, true, false, ℕ, Option, none, some, List, [], ◌∷◌, ◌==◌, if◌then◌else◌}
use dis_store.Session.{Session, Cb, RdmaInfo, TestState}
use dis_store.Session.Tables.{cb_at, with_cb, chunk_at, with_chunk_bitmap}
use dis_store.Bitmap.{group_set}
use dis_store.Session.Receive.{client_recv, Received, accepted, refused, fault, with_state}
use dis_store.Session.Connect.{same_state}

-- `wc.status`: 0, IB_WC_WR_FLUSH_ERR, or another.
pub data Status : Type 0 where
  success flushed broken : Status

-- `chunk_ptr`, `offset` and `len` of the context of a write.
pub record Written : Type 0 where
  pub chunk : ℕ
  pub offset : ℕ
  pub len : ℕ

-- `wc.opcode`; `whole` says that a received message has the size of one. The context of a write may
-- have no chunk any more.
pub data Work : Type 0 where
  receive : RdmaInfo → Bool → Work
  write_work : Option Written → Work
  send_work read_work unknown_work : Work

pub record Completion : Type 0 where
  pub status : Status
  pub work : Work

-- A round of the loop: it goes on with a session, or to the label `error`.
pub data Round : Type 0 where
  next : Session → Round
  broken_off : Session → Round

abbrev pub arrived : Session → ℕ → RdmaInfo → Session
arrived s c m = with_cb s c (record (cb_at s c) { recv_buf = m })

-- What client_recv came to; after a refusal the session is the one before.
unfoldable pub recv_outcome : Session → Received → Round
recv_outcome s (accepted s') = next s'
recv_outcome s refused = broken_off s
recv_outcome s fault = broken_off s

-- client_write_done, as far as it changes the session: IS_bitmap_group_set.
unfoldable pub write_recorded : Session → ℕ → Option Written → Session
write_recorded s c none = s
write_recorded s c (some w) =
    with_chunk_bitmap s c w.chunk (group_set (chunk_at s c w.chunk).bitmap_g w.offset w.len)

unfoldable pub work_done : Session → ℕ → Work → Round
work_done s c (receive m whole) = recv_outcome (arrived s c m) (client_recv (arrived s c m) c whole)
work_done s c send_work = next s
work_done s c read_work = next s
work_done s c (write_work w) = next (write_recorded s c w)
work_done s c unknown_work = broken_off s

unfoldable pub polled : Session → ℕ → Completion → Round
polled s c w = elim w.status [
  | success ↦ work_done s c w.work
  | flushed ↦ next s
  | broken ↦ broken_off s
]

-- `cb->state = ERROR`
abbrev pub in_error : Session → ℕ → Session
in_error s c = with_cb s c (with_state (cb_at s c) TestState.error)

-- The loop over the completions that ib_poll_cq gives, until it gives none: `poll_error` says that its
-- last result is not 0.
unfoldable pub poll_all : Bool → Session → ℕ → List Completion → Session
poll_all poll_error s c [] = if poll_error then in_error s c else s
poll_all poll_error s c (w ∷ ws) = elim (polled s c w) [
  | next s' ↦ poll_all poll_error s' c ws
  | broken_off s' ↦ in_error s' c
]

-- rdma_cq_event_handler
unfoldable pub cq_event_handler : Session → ℕ → List Completion → Bool → Session
cq_event_handler s c ws poll_error =
    if same_state (cb_at s c).state TestState.error then s else poll_all poll_error s c ws
