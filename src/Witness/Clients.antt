-- ===== src/Witness/Clients.antt =====
-- Connections that come and go, at a daemon with no client, one, and as many as it takes.
use dis_store.Prelude.{ℕ, ◌≡◌, ◌<◌, ◌==◌, true, false, if◌then◌else◌}
use dis_store.Prelude.Counts.{count_some}
use dis_store.Daemon.{max_free_mem_gb}
use dis_store.Daemon.Accounts.{Accounted}
use dis_store.Daemon.Connect.{destroy_connection}
use dis_store.Daemon.Connect.Slots.{Tracked}
use dis_store.Daemon.Connect.Release.{destroy_connection-Accounted}
use dis_store.Daemon.Connect.Freed.{Gone}
use dis_store.Samples.Lender.{lent}
use dis_store.Samples.Clients.{serving, serving-Accounted, serving-Tracked, serving-Known}

destroy_connection-Accounted_example :
    let (s', running') = destroy_connection serving lent.conn true in
    Accounted s'.rdma_remote
    × Tracked s'
    × (s'.rdma_remote.malloc_map ≡ serving.rdma_remote.malloc_map)
    × ((j : ℕ) → j < max_free_mem_gb → Gone s'.rdma_remote lent.conn.sess_chunk_map j)
    × (running' ≡ (if count_some s'.conns == 0 then false else true))
destroy_connection-Accounted_example =
    destroy_connection-Accounted serving lent.conn true serving-Accounted serving-Tracked
      serving-Known
