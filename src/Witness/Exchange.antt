-- ===== src/Witness/Exchange.antt =====
-- A STOP at the sample driver and daemon.
use dis_store.Prelude.{
  ℕ, ◌+◌, ◌<◌, ◌≡◌, ◌≢◌, ◌&&◌, Bool, true, false, none, some, List, if◌then◌else◌, ◌==◌, length,
  get_or,
}
use dis_store.Prelude.Counts.{count_some}
use dis_store.Bitmap.{bitmap_init}
use dis_store.Session.{Session, MessageType, stackbd_size_g, max_mr_size_gb}
use dis_store.Session.Tables.{cb_at, cb_of, slot_of}
use dis_store.Session.Links.{Linked, gb_at, bitmap_at}
use dis_store.Session.Evict.{stop_chunks, stops}
use dis_store.Session.Evict.Stopping.{mark_at}
use dis_store.Session.Evict.Stopped.{stop_chunks-Linked}
use dis_store.Session.Evict.Named.{table_of}
use dis_store.Daemon.Accounts.{Accounted}
use dis_store.Daemon.Lend.{Lending}
use dis_store.Protocol.{stop_exchange}
use dis_store.Protocol.Taken.{count_keys}
use dis_store.Protocol.Stop.{
  Agrees, stop_exchange-Agrees, stopped, stopped-Stoppable, stopped-Linked,
}
use dis_store.Samples.Using.{
  using, using-Linked, stopping, stopping-Agrees, stopping-Stops, stopping-Accounted,
}

stop_exchange-Agrees_example :
    (s' : Session) × (asked : List Bool) × (l' : Lending) × (stop_exchange using 0 stopping
      ≡ some (s', asked, l'))
    × Linked s'
    × Agrees s' 0 l'
    × Accounted l'.remote
    × (count_some l'.remote.conn_map + count_keys 32 0 stopping.conn.send_msg.rkey
        ≡ count_some stopping.remote.conn_map)
stop_exchange-Agrees_example =
    stop_exchange-Agrees using 0 stopping using-Linked stopping-Agrees stopping-Accounted
      stopping-Stops

stop_chunks-Linked_example :
    let s = stopped using 0 stopping stopping-Stops in
    (s' : Session) × (asked : List Bool) × (stop_chunks s 0 ≡ some (s', asked))
    × Linked s'
    × ((k d i : ℕ)
        → cb_of s k ≡ some d
        → slot_of s k ≡ some i
        → let gone = (d == 0) && stops (mark_at (table_of s 0) i) in
          (cb_of s' k ≡ (if gone then none else some d))
          × (k < stackbd_size_g → get_or asked k false ≡ gone))
    × ((k : ℕ) → cb_of s k ≡ none → cb_of s' k ≡ none)
    × ((j : ℕ)
        → j < max_mr_size_gb
        → j < length (table_of s 0).chunk_list
        → stops (mark_at (table_of s 0) j) ≡ true
        → (bitmap_at s' 0 j ≡ bitmap_init) × (gb_at s' 0 j ≡ none))
    × ((cb_at s' 0).send_buf.type ≡ MessageType.done)
    × ((cb_at s' 0).send_buf.size_gb ≡ (table_of s 0).shrink_size_g)
    × ((j : ℕ)
        → j < max_mr_size_gb
        → get_or (cb_at s' 0).send_buf.rkey j 0
          ≡ (if stops (mark_at (table_of s 0) j) then 1 else 0))
    × ((d : ℕ) → d ≢ 0 → cb_at s' d ≡ cb_at s d)
    × (s'.trigger_enable ≡ false)
stop_chunks-Linked_example =
    stop_chunks-Linked (stopped using 0 stopping stopping-Stops) 0
      (stopped-Linked using 0 stopping stopping-Stops using-Linked)
      (stopped-Stoppable using 0 stopping stopping-Stops)
