-- ===== src/Samples/Clients.antt =====
-- The daemon of Samples/Lender with its clients: none, and one that has chunk 0.
use dis_store.Prelude.{
  ℕ, ◌≡◌, ◌∙◌, refl, sym, ap, true, Option, none, some, arith, replicate, length-replicate,
  length-set, get_or, set, get_or-set, get_or-replicate, get_or-replicate_lt,
}
use dis_store.Prelude.Int.{pos, ◌+ℤ◌}
use dis_store.Prelude.Counts.{is_some}
use dis_store.Daemon.{Connection, RdmaSession, ConnState}
use dis_store.Daemon.Init.{rdma_session_init, initial_gb, malloc_from}
use dis_store.Daemon.Accounts.{Accounted}
use dis_store.Daemon.Lend.{send_single_mr, start_message, finish_message, lend_first, lend_chunk}
use dis_store.Daemon.Connect.{idle_from}
use dis_store.Daemon.Connect.Slots.{Tracked}
use dis_store.Daemon.Connect.Release.{Known}
use dis_store.Daemon.Connect.Freed.{HoldsLent, count_held}
use dis_store.Samples.Lender.{lent, lent-Accounted, started}

-- No client yet.
pub init-Tracked : Tracked (rdma_session_init 20)
unfolding rdma_session_init
init-Tracked = record {
  conns_size = length-replicate {A = Option Connection} 32 none;
  states_size = length-replicate {A = ConnState} 32 ConnState.conn_idle;
  num = refl;
  idle = λ i lt. ground (
    arith,
    get_or-replicate {A = Option Connection} 32 none i,
    get_or-replicate_lt {A = ConnState} 32 ConnState.conn_idle ConnState.conn_failed i lt,
  );
}

pub init_idle : idle_from 32 0 (rdma_session_init 20).conns_state ≡ some 0
unfolding rdma_session_init idle_from
init_idle = refl

-- Client 5 has chunk 0.
unfoldable pub serving : RdmaSession
serving = record {
  conns = set (replicate 32 none) 5 (some lent.conn);
  conns_state = set (replicate 32 ConnState.conn_idle) 5 ConnState.conn_mapped;
  conn_num = pos 1;
  rdma_remote = lent.remote;
}

pub serving-Accounted : Accounted serving.rdma_remote
unfolding serving
serving-Accounted = lent-Accounted

pub serving-Tracked : Tracked serving
unfolding serving
serving-Tracked = record {
  conns_size = length-set {A = Option Connection} (replicate 32 none) 5 (some lent.conn);
  states_size = length-set (replicate 32 ConnState.conn_idle) 5 ConnState.conn_mapped;
  num = refl;
  idle = λ i lt. ground (
    arith,
    get_or-set {A = Option Connection} (replicate 32 none) 5 i (some lent.conn) none (omega arith),
    get_or-set (replicate 32 ConnState.conn_idle) 5 i ConnState.conn_mapped ConnState.conn_failed
        (omega arith),
    get_or-replicate {A = Option Connection} 32 none i,
    get_or-replicate_lt {A = ConnState} 32 ConnState.conn_idle ConnState.conn_failed i lt,
  );
}

lent_tables :
    (lent.conn.sess_chunk_map ≡ set (replicate 32 none) 0 (some 0))
    × (is_some (get_or lent.remote.conn_map 0 none) ≡ true)
    × (lent.conn.conn_index ≡ 5)
    × (lent.conn.mapped_chunk_size ≡ pos 1)
unfolding lent started send_single_mr lend_first lend_chunk start_message finish_message
    rdma_session_init initial_gb malloc_from ◌+ℤ◌
lent_tables = (refl, refl, refl, refl)

only_chunk_0 :
    (j k : ℕ)
    → get_or (set (replicate {A = Option ℕ} 32 none) 0 (some 0)) j none ≡ some k
    → (j ≡ 0) × (k ≡ 0)
only_chunk_0 j k e = ground (
  arith,
  get_or-set {A = Option ℕ} (replicate 32 none) 0 j (some 0) none (omega arith),
  get_or-replicate {A = Option ℕ} 32 none j,
)

serving-HoldsLent : HoldsLent serving.rdma_remote lent.conn.sess_chunk_map 32 0
unfolding serving
serving-HoldsLent j k a b t =
    let (j0, k0) = only_chunk_0 j k (ap (λ l. get_or l j none) (sym lent_tables.0) ∙ t) in
    rw (j0, k0) (refl, lent_tables.1)

held_one : 1 ≡ count_held 32 0 lent.conn.sess_chunk_map
unfolding count_held
held_one = rw (lent_tables.0) refl

pub serving-Known : Known serving lent.conn
unfolding serving
serving-Known = record {
  placed = rw (lent_tables.2) refl;
  index = rw (lent_tables.2) (omega arith);
  held = serving-HoldsLent;
  counts = lent_tables.3 ∙ ap pos held_one;
}
