-- ===== src/Session/Bind.antt =====
-- A gigabyte gets a chunk of a server: the rest of IS_single_chunk_map
-- (Infiniswap/infiniswap_bd/is_main.c), around the choice in Selection, with IS_send_query and
-- IS_send_bind_single. A server's answer is the message that its next wait ends with; client_recv
-- takes it. A connection to an idle server is taken to be made. The contexts of a new server are
-- set up in Context.
pub mod Awaited
pub mod Answer
pub mod Asked
pub mod Bound
pub mod Whole
use dis_store.Prelude.{
  ℕ, Bool, true, Option, none, some, List, [], ◌∷◌, ◌==◌, if◌then◌else◌, get_or, set,
}
use dis_store.Prelude.Int.{ℤ, pos, ◌+ℤ◌}
use dis_store.Session.{
  Session, Cb, RdmaInfo, CbState, cb_idle, cb_connected, cb_mapped, cb_evicting, cb_fail, TestState,
  MessageType,
}
use dis_store.Session.Tables.{cb_at, with_cb}
use dis_store.Session.Create.{kernel_cb_init}
use dis_store.Session.Receive.{client_recv, Received, accepted, refused, fault, with_state}
use dis_store.Selection.{select, open_servers, server_for}

abbrev pub state_of : Session → ℕ → CbState
state_of s d = get_or s.cb_state_list d CbState.cb_idle

-- `send_buf.type = QUERY`
unfoldable pub send_query : Cb → Cb
send_query cb = record cb { send_buf = record (cb.send_buf) { type = MessageType.query } }

unfoldable pub send_bind_single : Cb → ℕ → Cb
send_bind_single cb select_chunk = record cb {
  send_buf = record (cb.send_buf) { type = MessageType.bind_single; size_gb = select_chunk };
}

-- A message that is refused does not end the wait for it.
unfoldable pub received : Received → Option Session
received (accepted s) = some s
received refused = none
received fault = none

-- Server `d` answers with `m`.
unfoldable pub answer_with : Session → ℕ → RdmaInfo → Option Session
unfolding received
answer_with s d m =
    received (client_recv (with_cb s d (record (cb_at s d) { recv_buf = m })) d true)

-- The message with which a server says how much memory it has.
abbrev pub free_answer : Session → ℕ → ℕ → RdmaInfo
free_answer s d free = record ((cb_at s d).recv_buf) {
  type = MessageType.free_size;
  size_gb = free;
}

abbrev pub after_free_mem : Session → ℕ → Session
after_free_mem s d = with_cb s d (with_state (cb_at s d) TestState.after_free_mem)

-- The server before its answer: asked, or connected.
abbrev pub queried : Session → ℕ → Session
queried s d = with_cb s d (send_query (cb_at s d))

abbrev pub connected_now : Session → ℕ → Session
connected_now s d = with_cb s d (with_state (kernel_cb_init (cb_at s d)) TestState.connected)

-- A wait for FREE_MEM_RECV ends.
unfoldable pub await_free : Session → ℕ → RdmaInfo → Option Session
await_free s d m = elim (answer_with s d m) [ none ↦ none | some s' ↦ some (after_free_mem s' d) ]

abbrev pub now_connected : Session → ℕ → Session
now_connected s d = record s { cb_state_list = set s.cb_state_list d CbState.cb_connected }

-- The query of server `d`, which has `free` gigabytes. A server in CB_FAIL, which is selected only if
-- it fails after the selection, is passed over; in the code its entry of free_mem stays -1 then, and
-- the theorems keep to servers that are open.
unfoldable pub query_cb : Session → ℕ → ℕ → Option Session
query_cb s d free =
    let asked : Option Session = await_free (queried s d) d (free_answer s d free) in
    elim (state_of s d) [
      | cb_idle ↦ elim (await_free (connected_now s d) d (free_answer s d free)) [
        | none ↦ none
        | some s' ↦ some (now_connected s' d)
      ]
      | cb_connected ↦ asked
      | cb_mapped ↦ asked
      | cb_evicting ↦ asked
      | cb_fail ↦ some s
    ]

-- The loop over the selected servers.
unfoldable pub query_from : (ℕ → ℕ) → List ℕ → Session → Option Session
query_from free [] s = some s
query_from free (d ∷ ds) s = elim (query_cb s d (free d)) [
  | none ↦ none
  | some s' ↦ query_from free ds s'
]

-- The bind of gigabyte `k` to server `d`, which answers with `m`.
abbrev pub binding : Session → ℕ → ℕ → Session
binding s d k = record (with_cb s d (send_bind_single (cb_at s d) k)) {
  mapped_cb_num = elim (state_of s d) [
    | cb_connected ↦ s.mapped_cb_num +ℤ pos 1
    | cb_idle ↦ s.mapped_cb_num
    | cb_mapped ↦ s.mapped_cb_num
    | cb_evicting ↦ s.mapped_cb_num
    | cb_fail ↦ s.mapped_cb_num
  ];
}

unfoldable pub bind_to : Session → ℕ → ℕ → RdmaInfo → Option Session
bind_to s d k m = elim (answer_with (binding s d k) d m) [
  | none ↦ none
  | some s' ↦ some (record s' { rdma_on = true })
]

-- What IS_single_chunk_map comes to: -1, the gigabyte mapped on a server, or a wait without end.
pub data Mapped : Type 0 where
  unmapped : Session → Mapped
  mapped_on : ℕ → Session → Mapped
  waits : Mapped

-- Answers as ints.
abbrev pub ints : (ℕ → ℕ) → ℕ → ℤ
ints free d = pos (free d)

-- The answers of the servers: their free memory, which is taken not to be negative here, and what they send for a bind.
pub record Servers : Type 0 where
  pub free : ℕ → ℕ
  pub info : ℕ → RdmaInfo

unfoldable pub free_mem : Session → ℕ → ℕ
free_mem s d = (cb_at s d).remote_chunk.target_size_g

-- The end of IS_single_chunk_map, when all selected servers have answered.
unfoldable pub bind_best : Servers → List ℕ → Session → ℕ → Mapped
bind_best servers selected s k = elim (server_for (ints (free_mem s)) selected) [
  | none ↦ unmapped s
  | some d ↦ elim (bind_to s d k (servers.info d)) [ none ↦ waits | some s' ↦ mapped_on d s' ]
]

-- IS_single_chunk_map for gigabyte `k`, with the random numbers that it draws.
unfoldable pub single_chunk_map : Servers → ℕ → List ℕ → Session → ℕ → Mapped
single_chunk_map servers select_num randoms s k =
    elim (select select_num randoms (open_servers s.cb_state_list)) [
      | none ↦ waits
      | some selected ↦ elim (query_from servers.free selected s) [
        | none ↦ waits
        | some s' ↦ bind_best servers selected s' k
      ]
    ]
