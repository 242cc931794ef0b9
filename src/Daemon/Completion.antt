-- ===== src/Daemon/Completion.antt =====
-- What the daemon does with a completed work request: on_completion
-- (Infiniswap/infiniswap_daemon/rdma-common.c). `none` is the end of the program by `die`. The wait
-- for the connection in send_message has no part in it; a number of gigabytes in a message that is
-- negative is taken as 0.
pub mod Handled
use dis_store.Prelude.{
  ℕ, suc, Bool, true, false, Option, none, some, List, ◌%◌, ◌^◌, set, if◌then◌else◌,
}
use dis_store.Prelude.Int.{pos_part}
use dis_store.Session.{
  MessageType, done, info, info_single, free_size, evict, activity, stop, bind, bind_single, query,
}
use dis_store.Daemon.{CqQpState, ServerState, ConnState}
use dis_store.Daemon.Lend.{Lending, send_free_mem_size, send_mr, send_single_mr, recv_done}

-- `wc->status == IBV_WC_SUCCESS`, and `wc->opcode == IBV_WC_RECV`.
pub record Wc : Type 0 where
  pub success : Bool
  pub recv : Bool

abbrev pub with_cq : Lending → CqQpState → Lending
with_cq l state = record l { conn = record (l.conn) { cq_qp_state = state } }

abbrev pub busy : Lending → Lending
busy l = with_cq l CqQpState.cq_qp_busy

-- `server_state = S_BIND`, before the chunks are sent.
abbrev pub binding : Lending → Lending
binding l = record (busy l) {
  conn = record (l.conn) { cq_qp_state = CqQpState.cq_qp_busy; server_state = ServerState.s_bind };
}

-- `conns_state[conn_index] = CONN_MAPPED`, after.
abbrev pub bound : Lending → Lending
bound l = record l { conns_state = set l.conns_state l.conn.conn_index ConnState.conn_mapped }

module _ (reg : ℕ → ℕ × ℕ) where
  -- A message of type `type`.
  unfoldable pub on_message : Lending → MessageType → Option Lending
  on_message l query = some (send_free_mem_size (busy l))
  on_message l bind = some (bound (send_mr reg (binding l) (pos_part l.conn.recv_msg.size_gb)))
  on_message l bind_single =
      some (bound (send_single_mr reg (binding l) (pos_part l.conn.recv_msg.size_gb)))
  on_message l activity =
      some (record l { conn = record (l.conn) { evict_sem = suc l.conn.evict_sem } })
  on_message l done = some (recv_done (busy l))
  on_message l info = none
  on_message l info_single = none
  on_message l free_size = none
  on_message l evict = none
  on_message l stop = none

  unfoldable pub on_completion : Lending → Wc → Option Lending
  on_completion l wc =
      if wc.success
      then (if wc.recv
          then on_message l l.conn.recv_msg.type
          else some (with_cq l CqQpState.cq_qp_idle))
      else none
