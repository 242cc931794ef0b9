-- ===== src/Daemon/Evict.antt =====
-- The second part of evict_mem (Infiniswap/infiniswap_daemon/rdma-common.c): whom to ask, which
-- chunks to stop, and the messages of send_evict and send_stop. The random numbers and the clients'
-- ACTIVITY messages are inputs; `none` is a read or a write out of range. The wait in send_stop is
-- where a client's DONE is handled, in Daemon/Lend.
pub mod Least
pub mod Marks
use dis_store.Prelude.{
  ℕ, zero, suc, ◌+◌, Bool, true, false, Option, none, some, List, [], ◌∷◌, ◌++◌, ◌==◌, ltb,
  if◌then◌else◌, get_or, set, length, map, replicate,
}
use dis_store.Prelude.Int.{ℤ, pos, ◌+ℤ◌}
use dis_store.Prelude.Counts.{is_some}
use dis_store.Wire.{ntohll}
use dis_store.Session.{MessageType}
use dis_store.Selection.{choose}
use dis_store.Daemon.{
  Connection, ConnState, conn_idle, conn_connected, conn_mapped, conn_failed, RdmaSession, Message,
  max_client, max_free_mem_gb,
}
use dis_store.Daemon.Lend.{zero_rkeys}

-- An entry of `send_list`: -1, 1 and 2.
pub data Sending : Type 0 where
  not_sent evict_sent to_stop : Sending

-- `struct chunk_activity`
pub record ChunkActivity : Type 0 where
  pub activity : ℕ
  pub chunk_index : ℕ

abbrev pub is_mapped : ConnState → Bool
is_mapped conn_idle = false
is_mapped conn_connected = false
is_mapped conn_mapped = true
is_mapped conn_failed = false

-- The loop that asks every client with chunks.
unfoldable pub ask_mapped : List ConnState → List Sending
ask_mapped states = map (λ st. if is_mapped st then Sending.evict_sent else Sending.not_sent) states

-- The clients of the chunks `chosen` are asked. A chunk is chosen among those that are lent.
unfoldable pub ask_owners : List (Option ℕ) → List ℕ → List Sending → List Sending
ask_owners conn_map [] send_list = send_list
ask_owners conn_map (chunk ∷ chunks) send_list =
    ask_owners conn_map chunks (elim (get_or conn_map chunk none) [
      | none ↦ send_list
      | some conn ↦ set send_list conn Sending.evict_sent
    ])

-- `random_chunk_select[i]`: the chunks that are lent.
abbrev pub lent_chunks : List (Option ℕ) → List Bool
lent_chunks conn_map = map is_some conn_map

-- EXTRA_CHUNK_NUM
abbrev pub extra_chunk_num : ℕ
extra_chunk_num = 2

-- Whom to ask to evict `evict_g` gigabytes, of `mapped_size` that are lent, and how many to stop.
-- There is one random number for each of the `evict_g + EXTRA_CHUNK_NUM` chunks that are drawn.
unfoldable pub ask : RdmaSession → ℕ → ℕ → List ℕ → Option (List Sending × ℕ)
ask s mapped_size evict_g randoms =
    let conn_map = s.rdma_remote.conn_map in
    if ltb mapped_size (evict_g + extra_chunk_num)
    then some (ask_mapped s.conns_state, if ltb mapped_size evict_g then mapped_size else evict_g)
    else (elim (choose randoms (lent_chunks conn_map)) [
      | none ↦ none
      | some chosen ↦
          some (ask_owners conn_map chosen (replicate max_client Sending.not_sent), evict_g)
    ])

-- send_evict: the message of a connection.
unfoldable pub send_evict : Connection → ℕ → Connection
send_evict conn n = record conn {
  send_msg = record (conn.send_msg) {
    type = MessageType.evict;
    size_gb = pos n;
    rkey = zero_rkeys max_free_mem_gb 0 conn.send_msg.rkey;
  };
}

-- send_stop, up to its wait.
unfoldable pub send_stop : Connection → ℤ → Connection
send_stop conn n = record conn {
  send_msg = record (conn.send_msg) { type = MessageType.stop; size_gb = n };
}

-- The entries that one client's ACTIVITY gives, from chunk `m` on with `n` rounds left.
unfoldable pub activities_from : ℕ → ℕ → List ℕ → List ChunkActivity
activities_from zero m buf = []
activities_from (suc n) m buf =
    let rest = activities_from n (m + 1) buf in
    if get_or buf m 0 == 0
    then rest
    else record { activity = ntohll (get_or buf m 0); chunk_index = m } ∷ rest

-- A round of the sort: the entry at position `n` against all behind it, exchanged in place.
unfoldable pub sweep : ChunkActivity → List ChunkActivity → ChunkActivity × List ChunkActivity
sweep a [] = (a, [])
sweep a (b ∷ bs) =
    let exchanged = sweep b bs in
    let kept = sweep a bs in
    if ltb b.activity a.activity then (exchanged.0, a ∷ exchanged.1) else (kept.0, b ∷ kept.1)

-- The first `j` positions after their rounds, and what stands behind them. Marking the chunks,
-- which the code does between the rounds, does not touch the list.
unfoldable pub least : ℕ → List ChunkActivity → Option (List ChunkActivity × List ChunkActivity)
least zero l = some ([], l)
least (suc j) [] = none
least (suc j) (a ∷ l) = elim (least j (sweep a l).1) [
  | none ↦ none
  | some (chosen, rest) ↦ some ((sweep a l).0 ∷ chosen, rest)
]

-- The connections, `send_list`, and the connection that was marked last.
pub record Marking : Type 0 where
  pub conns : List (Option Connection)
  pub send_list : List Sending
  pub conn_index : Option ℕ

-- The message of a client names one more chunk to stop.
unfoldable pub mark_stop : Connection → ℕ → Connection
mark_stop conn chunk = record conn {
  send_msg = record (conn.send_msg) {
    rkey = set conn.send_msg.rkey chunk 1;
    size_gb = conn.send_msg.size_gb +ℤ pos 1;
  };
}

abbrev pub stop_sending : Sending → Sending
stop_sending not_sent = Sending.not_sent
stop_sending evict_sent = Sending.to_stop
stop_sending to_stop = Sending.to_stop

-- Chunk `chunk` is marked with the client that it is lent to.
unfoldable pub mark_chunk : List (Option ℕ) → Marking → ℕ → Option Marking
mark_chunk conn_map m chunk = elim (get_or conn_map chunk none) [
  | none ↦ none
  | some c ↦ elim (get_or m.conns c none) [
    | none ↦ none
    | some conn ↦ some (record {
      conns = set m.conns c (some (mark_stop conn chunk));
      send_list = set m.send_list c (stop_sending (get_or m.send_list c Sending.not_sent));
      conn_index = some c;
    })
  ]
]

unfoldable pub mark_chunks : List (Option ℕ) → List ChunkActivity → Marking → Option Marking
mark_chunks conn_map [] m = some m
mark_chunks conn_map (a ∷ chosen) m = elim (mark_chunk conn_map m a.chunk_index) [
  | none ↦ none
  | some m' ↦ mark_chunks conn_map chosen m'
]

-- `session.conns[c]->...`; `none` is a null pointer.
abbrev pub on_conn :
    List (Option Connection) → ℕ → (Connection → Connection) → Option (List (Option Connection))
on_conn conns c f = elim (get_or conns c none) [
  | none ↦ none
  | some conn ↦ some (set conns c (some (f conn)))
]

abbrev pub asked_at : List Sending → ℕ → Bool
asked_at send_list c = elim (get_or send_list c Sending.not_sent) [
  | not_sent ↦ false
  | evict_sent ↦ true
  | to_stop ↦ false
]

-- The loop that sends EVICT, from client `i` on with `n` rounds left.
unfoldable pub send_evict_from :
    ℕ → ℕ → List Sending → ℕ → List (Option Connection) → Option (List (Option Connection))
send_evict_from zero i send_list j conns = some conns
send_evict_from (suc n) i send_list j conns =
    let skip = send_evict_from n (i + 1) send_list j conns in
    let next = λ (l : List (Option Connection)). send_evict_from n (i + 1) send_list j l in
    if asked_at send_list i
    then (elim (on_conn conns i (λ conn. send_evict conn j)) [ none ↦ none | some l ↦ next l ])
    else skip

-- A client's ACTIVITY has come, and the message for its STOP is empty.
abbrev pub heard : List ℕ → Connection → Connection
heard buf conn = record conn {
  recv_msg = record (conn.recv_msg) { buf = buf };
  send_msg = record (conn.send_msg) {
    size_gb = pos 0;
    rkey = zero_rkeys max_free_mem_gb 0 conn.send_msg.rkey;
  };
}

-- The loop that waits for the ACTIVITY messages, `buf c` being that of client `c`: the connections,
-- and the entries in their order.
unfoldable pub hear_from :
    ℕ
    → ℕ
    → List Sending
    → (ℕ → List ℕ)
    → List (Option Connection)
    → Option (List (Option Connection) × List ChunkActivity)
hear_from zero i send_list buf conns = some (conns, [])
hear_from (suc n) i send_list buf conns =
    let skip = hear_from n (i + 1) send_list buf conns in
    let next = λ (l : List (Option Connection)). hear_from n (i + 1) send_list buf l in
    if asked_at send_list i
    then (elim (on_conn conns i (heard (buf i))) [
      | none ↦ none
      | some l ↦ elim (next l) [
        | none ↦ none
        | some (l', entries) ↦ some (l', activities_from max_free_mem_gb 0 (buf i) ++ entries)
      ]
    ])
    else skip

-- The count of the connection that was marked last, which every STOP takes.
abbrev pub last_count : Marking → Option ℤ
last_count m = elim m.conn_index [
  | none ↦ none
  | some c ↦ elim (get_or m.conns c none) [ none ↦ none | some conn ↦ some conn.send_msg.size_gb ]
]

-- What is sent to client `c` at the end.
unfoldable pub stop_msg : Marking → ℕ → Option (List (Option Connection))
stop_msg m c = elim (get_or m.send_list c Sending.not_sent) [
  | not_sent ↦ some m.conns
  | evict_sent ↦ on_conn m.conns c (λ conn. send_stop conn (pos 0))
  | to_stop ↦ elim (last_count m) [
    | none ↦ none
    | some n ↦ on_conn m.conns c (λ conn. send_stop conn n)
  ]
]

-- The last loop, from client `i` on with `n` rounds left.
unfoldable pub stops_from : ℕ → ℕ → Marking → Option (List (Option Connection))
stops_from zero i m = some m.conns
stops_from (suc n) i m = elim (stop_msg m i) [
  | none ↦ none
  | some l ↦ stops_from n (i + 1) (record m { conns = l })
]

-- The entries are sorted as far as `j`, the least active chunks are marked, and STOP is sent.
unfoldable pub stop_least :
    List (Option ℕ)
    → List Sending
    → ℕ
    → List (Option Connection)
    → List ChunkActivity
    → Option (List (Option Connection))
stop_least conn_map send_list j conns entries = elim (least j entries) [
  | none ↦ none
  | some (chosen, rest) ↦
      elim (mark_chunks conn_map chosen
        (record { conns = conns; send_list = send_list; conn_index = none })) [
          | none ↦ none
          | some m ↦ stops_from max_client 0 m
        ]
]

-- The part of evict_mem from the choice of the clients on, for `evict_g` gigabytes that are left to
-- evict: the connections with what was sent last to each.
unfoldable pub evict_lent :
    RdmaSession → ℕ → ℕ → List ℕ → (ℕ → List ℕ) → Option (List (Option Connection))
evict_lent s mapped_size evict_g randoms buf = elim (ask s mapped_size evict_g randoms) [
  | none ↦ none
  | some (send_list, j) ↦ elim (send_evict_from max_client 0 send_list j s.conns) [
    | none ↦ none
    | some asked ↦ elim (hear_from max_client 0 send_list buf asked) [
      | none ↦ none
      | some (conns, entries) ↦ stop_least s.rdma_remote.conn_map send_list j conns entries
    ]
  ]
]
