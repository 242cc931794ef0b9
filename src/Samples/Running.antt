-- ===== src/Samples/Running.antt =====
-- A run of the daemon: a client comes, binds a chunk and goes.
use dis_store.Prelude.{
  ℕ, ◌≡◌, ◌∙◌, refl, ap, true, none, some, get_or, get_or-set_self, length, arith, length-replicate,
}
use dis_store.Prelude.Int.{pos}
use dis_store.Session.{MessageType}
use dis_store.Daemon.{Connection, RdmaSession, Message, max_client}
use dis_store.Daemon.Init.{rdma_session_init, initial_gb, malloc_from}
use dis_store.Daemon.Lend.{Lending, send_single_mr}
use dis_store.Daemon.Lend.Books.{first_free}
use dis_store.Daemon.Connect.{fill_connection, build_connection, destroy_connection}
use dis_store.Daemon.Connect.Slots.{build_connection-Tracked, build_connection-places}
use dis_store.Daemon.Completion.{on_completion, on_message, binding, bound}
use dis_store.Daemon.Run.{
  lending_of, with_lending, with_msg, Reach, started, next, requested, completed, disconnected,
}
use dis_store.Samples.Lender.{region, fresh_conn, empty_message}
use dis_store.Samples.Clients.{init-Tracked, init_idle}

abbrev client : Connection
client = record (fill_connection fresh_conn) { conn_index = 0 }

-- The client has come.
abbrev pub came : RdmaSession
came = build_connection (rdma_session_init 20) fresh_conn

came_there : get_or came.conns 0 none ≡ some client
came_there = (build_connection-Tracked (rdma_session_init 20) fresh_conn 0 init-Tracked init_idle).2

came_size : length came.conns ≡ max_client
came_size =
    (build_connection-Tracked (rdma_session_init 20) fresh_conn 0 init-Tracked
      init_idle).0.conns_size

came_remote : came.rdma_remote ≡ (rdma_session_init 20).rdma_remote
came_remote = (build_connection-places (rdma_session_init 20) fresh_conn 0 init_idle).1

init_free : first_free 32 0 (rdma_session_init 20).rdma_remote ≡ some 0
unfolding first_free rdma_session_init initial_gb malloc_from
init_free = refl

came_free : first_free 32 0 came.rdma_remote ≡ some 0
came_free = ap (first_free 32 0) came_remote ∙ init_free

-- It asks for a chunk for its gigabyte 3, and has got one.
abbrev asks : Message
asks = record empty_message { size_gb = pos 3; type = MessageType.bind_single }

unfoldable pub got : Lending
got = bound (send_single_mr region (binding (lending_of came (with_msg client asks))) 3)

handled :
    on_completion region
      (lending_of came (with_msg client asks))
      (record { success = true; recv = true })
    ≡ some got
unfolding on_completion on_message got
handled = refl

unfoldable pub served : RdmaSession
served = with_lending came 0 got

served_there : get_or served.conns 0 none ≡ some got.conn
unfolding served
served_there = get_or-set_self came.conns 0 (some got.conn) none (omega (arith, came_size))

-- It has gone.
unfoldable pub left : RdmaSession
left = (destroy_connection served got.conn true).0

pub left-Reach : Reach region 20 left
unfolding left served
left-Reach =
    let r0 = next (rdma_session_init 20) came started (
      requested fresh_conn 0 (length-replicate {A = ℕ} 32 0, length-replicate {A = ℕ} 32 0)
        init_idle) in
    let r1 = next came served r0 (
      completed 0 client asks (record { success = true; recv = true }) got came_there
        (λ e. (0, came_free)) handled) in
    next served left r1 (disconnected 0 got.conn true served_there)
