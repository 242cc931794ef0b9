-- ===== src/Samples/Lender.antt =====
-- A daemon that has just started and one of its connections.
use dis_store.Prelude.{
  ℕ, zero, suc, ◌+◌, ◌≡◌, refl, true, not, ◌==◌, Option, none, some, [], ◌∷◌, replicate,
  length-replicate, get_or,
}
use dis_store.Prelude.Int.{pos}
use dis_store.Session.{MessageType}
use dis_store.Daemon.{Connection, ConnState, Message, CqQpState, ServerState}
use dis_store.Daemon.Init.{rdma_session_init, initial_gb, malloc_from}
use dis_store.Daemon.Accounts.{Accounted, rdma_session_init-Accounted}
use dis_store.Daemon.Completion.Handled.{Expected}
use dis_store.Daemon.Lend.{
  lend_first, lend_chunk, start_message, finish_message, zero_rkeys, Lending, send_single_mr,
}
use dis_store.Daemon.Lend.Books.{first_free, Sized, send_single_mr-lends}
use dis_store.Daemon.Lend.Return.{NamesHeld, count_named}

-- What registering chunk `i` gives here.
abbrev pub region : ℕ → ℕ × ℕ
region i = (i + 4096, i + 77)

abbrev pub empty_message : Message
empty_message = record {
  buf = replicate 32 0;
  rkey = replicate 32 0;
  size_gb = pos 0;
  type = MessageType.done;
}

-- Connection 5, before anything is lent to it.
abbrev pub fresh_conn : Connection
fresh_conn = record {
  conn_index = 5;
  sess_chunk_map = replicate 32 none;
  mapped_chunk_size = pos 0;
  evict_sem = 0;
  stop_sem = 0;
  connected = true;
  recv_msg = empty_message;
  send_msg = empty_message;
  cq_qp_state = CqQpState.cq_qp_idle;
  server_state = ServerState.s_wait;
}

-- The daemon that found `free` gigabytes free.
unfoldable pub started : ℕ → Lending
started free = record {
  conn = fresh_conn;
  conns_state = replicate 32 ConnState.conn_connected;
  remote = (rdma_session_init free).rdma_remote;
  sent = none;
}

pub started-Accounted : (free : ℕ) → Accounted (started free).remote
unfolding started
started-Accounted free = (rdma_session_init-Accounted free).0

pub started-Sized : (free : ℕ) → Sized (started free).conn
unfolding started
started-Sized free = record {
  map_size = length-replicate {A = Option ℕ} 32 none;
  rkey_size = length-replicate {A = ℕ} 32 0;
  buf_size = length-replicate {A = ℕ} 32 0;
}

pub started_free : first_free 32 0 (started 20).remote ≡ some 0
unfolding started first_free rdma_session_init initial_gb malloc_from
started_free = refl

pub started_full : first_free 32 0 (started 8).remote ≡ none
unfolding started first_free rdma_session_init initial_gb malloc_from
started_full = refl

-- Chunk 0 is lent to the connection, and its client is done with it.
unfoldable pub lent : Lending
lent =
    let l = send_single_mr region (started 20) 3 in
    record l {
      conn = record (l.conn) {
        recv_msg = record { buf = []; rkey = 1 ∷ []; size_gb = pos 1; type = MessageType.done };
      };
    }

pub lent-Accounted : Accounted lent.remote
unfolding lent
lent-Accounted =
    (send_single_mr-lends region (started 20) 3 0 (started-Accounted 20) (started-Sized 20)
      started_free).0

only_first : (j : ℕ) → not (get_or {A = ℕ} (1 ∷ []) j 0 == 0) ≡ true → j ≡ 0
only_first zero h = refl
only_first (suc j) h = absurd (cc)

pub lent-NamesHeld : NamesHeld lent 32 0
unfolding lent NamesHeld
lent-NamesHeld j a b t =
    let given =
      send_single_mr-lends region (started 20) 3 0 (started-Accounted 20) (started-Sized 20)
        started_free in
    rw (only_first j t) (given.3.0, rw (given.2) refl)

pub lent_says : lent.conn.recv_msg.size_gb ≡ pos (count_named lent 32 0)
unfolding lent count_named
lent_says = refl

pub lent-Sized : Sized lent.conn
unfolding lent started send_single_mr lend_first lend_chunk start_message finish_message zero_rkeys
    rdma_session_init initial_gb malloc_from
lent-Sized = record { map_size = refl; rkey_size = refl; buf_size = refl }

pub lent-Expected : Expected lent lent.conn.recv_msg.type
unfolding lent
lent-Expected = (lent-NamesHeld, lent_says)
