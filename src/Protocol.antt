-- ===== src/Protocol.antt =====
-- The driver and the daemon together: a STOP of the daemon, from send_stop
-- (Infiniswap/infiniswap_daemon/rdma-common.c) through client_recv and evict_handler
-- (Infiniswap/infiniswap_bd/is_main.c) to recv_done of the daemon.
pub mod Taken
pub mod Stop
use dis_store.Prelude.{ℕ, Bool, true, Option, none, some, List}
use dis_store.Prelude.Int.{pos, pos_part}
use dis_store.Session.{Session, RdmaInfo}
use dis_store.Session.Tables.{cb_at, with_cb}
use dis_store.Session.Bind.{answer_with}
use dis_store.Session.Evict.{stop_chunks}
use dis_store.Daemon.{Message}
use dis_store.Daemon.Lend.{Lending, recv_done}

-- A message of the daemon as the driver reads it, and one of the driver as the daemon reads it:
-- `struct message` and `struct IS_rdma_info` have the same layout.
-- `size_gb` is an int in both; in a STOP and in a DONE it is a count of chunks, never negative.
unfoldable pub to_client : Message → RdmaInfo
to_client m = record { buf = m.buf; rkey = m.rkey; size_gb = pos_part m.size_gb; type = m.type }

unfoldable pub to_daemon : RdmaInfo → Message
to_daemon m = record { buf = m.buf; rkey = m.rkey; size_gb = pos m.size_gb; type = m.type }

-- DONE is there for the daemon.
abbrev pub with_recv : Lending → Message → Lending
with_recv l m = record l { conn = record (l.conn) { recv_msg = m } }

-- The daemon's last message, a STOP, goes to the driver; what evict_handler sends comes back.
unfoldable pub stop_exchange : Session → ℕ → Lending → Option (Session × List Bool × Lending)
stop_exchange s c l = elim (answer_with s c (to_client l.conn.send_msg)) [
  | none ↦ none
  | some s1 ↦ elim (stop_chunks s1 c) [
    | none ↦ none
    | some (s2, asked) ↦ some (s2, asked, recv_done (with_recv l (to_daemon (cb_at s2 c).send_buf)))
  ]
]
