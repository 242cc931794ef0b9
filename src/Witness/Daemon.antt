-- ===== src/Witness/Daemon.antt =====
-- The theorems on the daemon's books at a daemon that has found 20 gigabytes free, or 8.
use dis_store.Prelude.{ℕ, ◌+◌, ◌-◌, ◌≡◌, ◌≢◌, ◌<◌, ◌≤◌, ◌%◌, ◌^◌, true, some, none, get_or}
use dis_store.Prelude.Int.{pos, ◌+ℤ◌, ◌-ℤ◌}
use dis_store.Prelude.Counts.{count_some}
use dis_store.Wire.{ntohl, htonll}
use dis_store.Daemon.{max_free_mem_gb}
use dis_store.Daemon.Init.{rdma_session_init, initial_gb}
use dis_store.Daemon.Accounts.{Accounted, rdma_session_init-Accounted}
use dis_store.Daemon.Lend.{send_single_mr, recv_done, is_free}
use dis_store.Daemon.Lend.Books.{send_single_mr-lends, send_single_mr-none}
use dis_store.Daemon.Lend.Return.{recv_done-Accounted, count_named}
use dis_store.Prelude.{◌⊎◌, false}
use dis_store.Prelude.Counts.{count_true}
use dis_store.Daemon.Resize.{free_unmapped}
use dis_store.Daemon.Resize.Shrink.{free_unmapped-Accounted}
use native.Mathlib.Omega.{arith}
use dis_store.Samples.Lender.{
  region, started, started-Accounted, started-Sized, started_free, started_full, lent,
  lent-Accounted, lent-NamesHeld, lent_says,
}

rdma_session_init-Accounted_example :
    let s = rdma_session_init 20 in
    Accounted s.rdma_remote
    × (s.rdma_remote.size_gb ≡ pos (initial_gb 20))
    × (initial_gb 20 ≤ max_free_mem_gb)
    × (initial_gb 20 ≤ 20 - 8)
    × (count_some s.conns ≡ 0)
    × (s.rdma_remote.mapped_size ≡ pos 0)
    × ((i : ℕ) → get_or s.rdma_remote.conn_map i none ≡ none)
rdma_session_init-Accounted_example = rdma_session_init-Accounted 20

send_single_mr-lends_example :
    let a = send_single_mr region (started 20) 3 in
    Accounted a.remote
    × (is_free (started 20).remote 0 ≡ true)
    × (get_or a.remote.conn_map 0 none ≡ some (started 20).conn.conn_index)
    × ((get_or a.conn.sess_chunk_map 0 none ≡ some 0)
        × (a.conn.mapped_chunk_size ≡ (started 20).conn.mapped_chunk_size +ℤ pos 1)
        × (a.conn.send_msg.size_gb ≡ pos 3)
        × (a.sent ≡ some (a.conn.send_msg)))
    × ((get_or a.conn.send_msg.rkey 0 0 ≡ ntohl ((region 0).1 % 2 ^ 32))
        × ((j : ℕ) → j < max_free_mem_gb → j ≢ 0 → get_or a.conn.send_msg.rkey j 0 ≡ 0)
        × (get_or a.conn.send_msg.buf 0 0 ≡ htonll (region 0).0))
send_single_mr-lends_example =
    send_single_mr-lends region (started 20) 3 0 (started-Accounted 20) (started-Sized 20)
      started_free

send_single_mr-none_example :
    let a = send_single_mr region (started 8) 3 in
    (a.remote.conn_map ≡ (started 8).remote.conn_map)
    × (a.conn.sess_chunk_map ≡ (started 8).conn.sess_chunk_map)
    × ((j : ℕ) → j < max_free_mem_gb → get_or a.conn.send_msg.rkey j 0 ≡ 0)
    × (a.sent ≡ some (a.conn.send_msg))
    × (a.remote.mapped_size ≡ (started 8).remote.mapped_size +ℤ pos 1)
    × ¬ Accounted a.remote
send_single_mr-none_example =
    send_single_mr-none region (started 8) 3 (started-Accounted 8) started_full

recv_done-Accounted_example :
    let l' = recv_done lent in
    Accounted l'.remote
    × (count_some l'.remote.conn_map + count_named lent 32 0 ≡ count_some lent.remote.conn_map)
    × (l'.conn.mapped_chunk_size ≡ lent.conn.mapped_chunk_size -ℤ pos (count_named lent 32 0))
recv_done-Accounted_example = recv_done-Accounted lent lent-Accounted lent-NamesHeld lent_says

free_unmapped-Accounted_example :
    let (m', left) = free_unmapped (started 20).remote 3 in
    Accounted m'
    × (m'.conn_map ≡ (started 20).remote.conn_map)
    × (count_true m'.malloc_map + (3 - left) ≡ count_true (started 20).remote.malloc_map)
    × (left ≤ 3)
    × ((left ≡ 0) ⊎ ((j : ℕ) → j < max_free_mem_gb → is_free m' j ≡ false))
free_unmapped-Accounted_example =
    free_unmapped-Accounted (started 20).remote 3 (started-Accounted 20) (omega arith)
