-- ===== src/Protocol/Stop.antt =====
-- A STOP and its DONE: the driver gives the chunks up before the daemon takes them back.
use dis_store.Prelude.{
  ℕ, ◌+◌, ◌≤◌, ◌<◌, ◌≡◌, ◌≢◌, ◌↔◌, inl, inr, refl, sym, ap, ◌∙◌, Bool, true, false, not, ◌&&◌, none,
  some, List, ◌==◌, arith, length, get_or, length-set, Bool-cases,
}
use dis_store.Prelude.Int.{pos, pos_part}
use dis_store.Prelude.Counts.{count_some, is_some}
use dis_store.Session.{
  Session, Cb, RdmaInfo, EvictMark, MessageType, TestState, unmarked, stopping, unrelated,
  max_mr_size_gb,
}
use dis_store.Session.Tables.{cb_at, cb_of, slot_of, with_cb}
use dis_store.Session.Links.{gb_at, Linked}
use mathlib.Core.Path.{subst}
use dis_store.Session.Disconnect.Tables.{within}
use dis_store.Session.Receive.{
  client_recv, client_recv_stop, recv_type, accepted, with_state, before_connected,
}
use dis_store.Session.Receive.Kept.{client_recv_stop-marks}
use dis_store.Session.Receive.Handled.{Linked-with_cb, client_recv-recv_type}
use dis_store.Session.Disconnect.Holds.{get_or-some_lt}
use dis_store.Session.Bind.{answer_with, received}
use dis_store.Session.Bind.Awaited.{cb_at-with_cb_self, with_cb-with_cb}
use dis_store.Session.Evict.{stops}
use dis_store.Session.Evict.Stopping.{mark_at}
use dis_store.Session.Evict.Stopped.{Evicted, stop_chunks-Evicted, Evicted-Linked}
use dis_store.Session.Evict.Named.{table_of, Stoppable}
use dis_store.Daemon.Accounts.{Accounted}
use dis_store.Daemon.Lend.{Lending, recv_done}
use dis_store.Daemon.Lend.Return.{named, count_named, NamesHeld, recv_done-Accounted}
use dis_store.Protocol.{to_client, to_daemon, with_recv, stop_exchange}
use dis_store.Protocol.Taken.{recv_done-SameChunk, count_keys, count_named-count_keys}

-- Every chunk of server `c` that the driver uses is lent to it by the daemon.
abbrev pub Agrees : Session → ℕ → Lending → Type 0
Agrees s c l =
    (i k : ℕ)
    → gb_at s c i ≡ some k
    → (get_or l.conn.sess_chunk_map i none ≡ some i)
      × (is_some (get_or l.remote.conn_map i none) ≡ true)

-- The driver's tables for server `c` have their sizes, its chunk map names the gigabytes that are
-- on it at their places, and the daemon's last message is a STOP that says how many chunks it
-- names, at least one, all of them in use.
pub record Stops (s : Session) (c : ℕ) (l : Lending) : Type 0 where
  pub there : c < length s.cb_list
  pub keys : length (cb_at s c).send_buf.rkey ≡ max_mr_size_gb
  pub size : length (table_of s c).chunk_map ≤ max_mr_size_gb
  pub marks : length (table_of s c).evict_chunk_map ≡ max_mr_size_gb
  pub mine : (i k : ℕ) → gb_at s c i ≡ some k → (cb_of s k ≡ some c) × (slot_of s k ≡ some i)
  pub connected : before_connected (cb_at s c).state ≡ false
  pub type : l.conn.send_msg.type ≡ MessageType.stop
  pub count : l.conn.send_msg.size_gb ≡ pos (count_keys 32 0 l.conn.send_msg.rkey)
  pub some_gb : count_keys 32 0 l.conn.send_msg.rkey ≢ 0
  pub used :
      (j : ℕ)
      → j < max_mr_size_gb
      → get_or l.conn.send_msg.rkey j 0 ≢ 0
      → (k : ℕ) × (gb_at s c j ≡ some k)

stops_iff : (x : EvictMark) (n : ℕ) → (x ≡ EvictMark.stopping) ↔ (n ≢ 0) → stops x ≡ not (n == 0)
stops_iff unmarked n (to, from) = elim (Bool-cases (n == 0)) [
  | inl e ↦ rw e refl
  | inr e ↦ absurd (cc (from (λ z. absurd (ground (arith, e, z)))))
]
stops_iff stopping n (to, from) = elim (Bool-cases (n == 0)) [
  | inl e ↦ absurd (to refl (ground (arith, e)))
  | inr e ↦ rw e refl
]
stops_iff unrelated n (to, from) = elim (Bool-cases (n == 0)) [
  | inl e ↦ rw e refl
  | inr e ↦ absurd (cc (from (λ z. absurd (ground (arith, e, z)))))
]

module _ (s : Session) (c : ℕ) (l : Lending) (h : Stops s c l) where
  abbrev msg : RdmaInfo
  msg = to_client l.conn.send_msg

  abbrev with_msg : Cb
  with_msg = record (cb_at s c) { recv_buf = msg }

  stopped_cb : Cb
  stopped_cb = client_recv_stop (with_state with_msg TestState.recv_stop)

  -- The driver has taken the STOP.
  pub stopped : Session
  stopped = with_cb s c stopped_cb

  answer_with-stop : answer_with s c msg ≡ some stopped
  unfolding answer_with stopped stopped_cb recv_type to_client
  answer_with-stop =
      let s0 = with_cb s c with_msg in
      let here : cb_at s0 c ≡ with_msg = cb_at-with_cb_self s c with_msg h.there in
      let taken : client_recv s0 c true ≡ accepted stopped =
        client_recv-recv_type s0 c (ap (λ x. before_connected x.state) here ∙ h.connected)
        ∙ ap (λ x. recv_type s0 c x.recv_buf.type) here
        ∙ ap (recv_type s0 c) h.type
        ∙ ap (λ x. accepted (with_cb s0 c (client_recv_stop (with_state x TestState.recv_stop))))
            here
        ∙ ap accepted (with_cb-with_cb s c with_msg stopped_cb) in
      ap received taken

  stopped-cb : cb_at stopped c ≡ stopped_cb
  unfolding stopped
  stopped-cb = cb_at-with_cb_self s c stopped_cb h.there

  stopped_size : pos_part l.conn.send_msg.size_gb ≢ 0
  stopped_size = λ e. h.some_gb (ap pos_part (sym h.count) ∙ e)

  -- What client_recv_stop leaves of the server.
  record StoppedTable : Type 0 where
    marks :
        (j : ℕ)
        → j < max_mr_size_gb
        → stops (mark_at (table_of stopped c) j) ≡ not (get_or l.conn.send_msg.rkey j 0 == 0)
    shrink : (table_of stopped c).shrink_size_g ≡ count_keys 32 0 l.conn.send_msg.rkey
    map : (table_of stopped c).chunk_map ≡ (table_of s c).chunk_map
    keys : (cb_at stopped c).send_buf ≡ (cb_at s c).send_buf
    linked : Linked s → Linked stopped

  stopped_table : StoppedTable
  unfolding stopped stopped_cb to_client client_recv_stop
  stopped_table =
      let (marks, state, shrink, chunks, map) =
        client_recv_stop-marks (with_state with_msg TestState.recv_stop) h.marks stopped_size in
      let here = stopped-cb in
      record {
        marks = λ j lt.
            ap (λ x. stops (mark_at x.remote_chunk j)) here
            ∙ stops_iff (mark_at stopped_cb.remote_chunk j) (get_or l.conn.send_msg.rkey j 0)
                (marks j lt);
        shrink = ap (λ x. x.remote_chunk.shrink_size_g) here ∙ shrink ∙ ap pos_part h.count;
        map = ap (λ x. x.remote_chunk.chunk_map) here ∙ map;
        keys = ap (λ x. x.send_buf) here;
        linked = λ p. Linked-with_cb s c stopped_cb (record { chunks = chunks; map = map }) p;
      }

  stopped-gb : (i : ℕ) → gb_at stopped c i ≡ gb_at s c i
  stopped-gb i = ap (λ m. get_or m i none) stopped_table.map

  pub stopped-Stoppable : Stoppable stopped c
  unfolding stopped
  stopped-Stoppable = record {
    there = omega (arith, length-set s.cb_list c stopped_cb, h.there);
    keys = ap (λ m. length m.rkey) stopped_table.keys ∙ h.keys;
    size = omega (arith, ap (λ m. length m) stopped_table.map, h.size);
    mine = λ i k on. h.mine i k (sym (stopped-gb i) ∙ on);
    mapped = λ j a b marked.
        let key : not (get_or l.conn.send_msg.rkey j 0 == 0) ≡ true =
          sym (stopped_table.marks j (omega (arith, b))) ∙ marked in
        let (k, on) = h.used j (omega (arith, b)) (λ z. absurd (ground (arith, key, z))) in
        (k, stopped-gb j ∙ on);
  }

  pub stopped-Linked : Linked s → Linked stopped
  stopped-Linked = stopped_table.linked

  module _ (s' : Session) (asked : List Bool) (v : Evicted stopped s' c asked) where
    -- DONE is there for the daemon.
    done_there : Lending
    done_there = with_recv l (to_daemon (cb_at s' c).send_buf)

    done_parts :
        (done_there.conn.recv_msg.rkey ≡ (cb_at s' c).send_buf.rkey)
        × (done_there.conn.recv_msg.size_gb ≡ pos ((cb_at s' c).send_buf.size_gb))
        × (done_there.conn.sess_chunk_map ≡ l.conn.sess_chunk_map)
        × (done_there.remote ≡ l.remote)
    unfolding done_there to_daemon
    done_parts = (refl, refl, refl, refl)

    -- DONE names what STOP named.
    named-stop :
        (j : ℕ)
        → j < max_mr_size_gb
        → named done_there j ≡ not (get_or l.conn.send_msg.rkey j 0 == 0)
    named-stop j lt =
        ground (arith, ap (λ m. get_or m j 0) done_parts.0, v.keys j lt, stopped_table.marks j lt)

    named-gb :
        (j : ℕ) → j < max_mr_size_gb → named done_there j ≡ true → (k : ℕ) × (gb_at s c j ≡ some k)
    named-gb j lt on =
        let key : not (get_or l.conn.send_msg.rkey j 0 == 0) ≡ true = sym (named-stop j lt) ∙ on in
        h.used j lt (λ z. absurd (ground (arith, key, z)))

    done-NamesHeld : Agrees s c l → NamesHeld done_there 32 0
    unfolding NamesHeld
    done-NamesHeld agree j a b on =
        let (k, at) = named-gb j (omega (arith, b)) on in
        let (held, lent) = agree j k at in
        (
          ap (λ m. get_or m j none) done_parts.2 ∙ held,
          ap (λ m. is_some (get_or m.conn_map j none)) done_parts.3 ∙ lent,
        )

    done-count : count_named done_there 32 0 ≡ count_keys 32 0 l.conn.send_msg.rkey
    done-count =
        count_named-count_keys 32 0 done_there l.conn.send_msg.rkey
          (λ j a b. named-stop j (omega (arith, b)))

    done-size : done_there.conn.recv_msg.size_gb ≡ pos (count_named done_there 32 0)
    done-size = done_parts.1 ∙ ap pos (v.num ∙ stopped_table.shrink ∙ sym done-count)

    -- What the driver still uses was not named.
    kept_gb :
        (i k : ℕ) → gb_at s' c i ≡ some k → (gb_at s c i ≡ some k) × (named done_there i ≡ false)
    kept_gb i k on = elim (Bool-cases (within 0 32 i && stops (mark_at (table_of stopped c) i))) [
      | inl e ↦
          let gone : gb_at s' c i ≡ none = ground (arith, v.map i, e) in absurd (cc (gone, on))
      | inr e ↦
          let before : gb_at stopped c i ≡ some k = ground (arith, v.map i, e, on) in
          let was = sym (stopped-gb i) ∙ before in
          let lt : i < 32 =
            omega (arith, h.size, get_or-some_lt (table_of s c).chunk_map i k was) in
          (was, ground (arith, e, lt, named-stop i lt, stopped_table.marks i lt))
    ]

    done-Agrees : Agrees s c l → Agrees s' c (recv_done done_there)
    unfolding NamesHeld
    done-Agrees agree i k on =
        let (was, off) = kept_gb i k on in
        let (held, lent) = agree i k was in
        let same =
          recv_done-SameChunk done_there i (λ j a b x. (done-NamesHeld agree j a b x).0) off in
        (
          same.held ∙ ap (λ m. get_or m i none) done_parts.2 ∙ held,
          ap is_some same.lent ∙ ap (λ m. is_some (get_or m.conn_map i none)) done_parts.3 ∙ lent,
        )

-- The driver and the daemon stay in agreement over a STOP. If the driver's tables are linked, every
-- chunk that it uses of the server is lent to it, the daemon's books are right, and the STOP says
-- how many chunks it names, at least one, all in use, then the exchange comes to its end: every
-- chunk that the driver still uses is still lent to it, its tables are linked, the daemon's books
-- are right, and as many chunks fewer are lent as the STOP named.
pub stop_exchange-Agrees :
    (s : Session) (c : ℕ) (l : Lending)
    → Linked s
    → Agrees s c l
    → Accounted l.remote
    → Stops s c l
    → (s' : Session) × (asked : List Bool) × (l' : Lending) × (stop_exchange s c l
        ≡ some (s', asked, l'))
      × Linked s'
      × Agrees s' c l'
      × Accounted l'.remote
      × (count_some l'.remote.conn_map + count_keys 32 0 l.conn.send_msg.rkey
          ≡ count_some l.remote.conn_map)
unfolding stop_exchange done_there
stop_exchange-Agrees s c l linked agree books h =
    let s1 = stopped s c l h in
    let ok = stopped-Stoppable s c l h in
    let (s', asked, ran, v) = stop_chunks-Evicted s1 c ok in
    let d = done_there s c l h s' asked v in
    let remote = (done_parts s c l h s' asked v).3 in
    let count = done-count s c l h s' asked v in
    let (books', fewer, chunks) =
      recv_done-Accounted d (subst Accounted (sym remote) books)
        (done-NamesHeld s c l h s' asked v agree) (done-size s c l h s' asked v) in
    (
      s',
      asked,
      recv_done d,
      rw (answer_with-stop s c l h, ran, stop_exchange) refl,
      Evicted-Linked s1 s' c asked ((stopped_table s c l h).linked linked) ok v,
      done-Agrees s c l h s' asked v agree,
      books',
      omega (arith, fewer, count, ap (λ m. count_some m.conn_map) remote),
    )
