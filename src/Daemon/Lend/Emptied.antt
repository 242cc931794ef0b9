-- ===== src/Daemon/Lend/Emptied.antt =====
-- What recv_done leaves of the connection's own table.
use dis_store.Prelude.{
  ℕ, zero, suc, ◌+◌, ◌≤◌, ◌<◌, ◌≡◌, inl, inr, refl, ap, ◌∙◌, true, false, none, some, ap₂, ◌⊎◌,
  ◌==◌, arith, length, get_or, set, length-set, get_or-set_default, Bool-cases,
}
use native.Mathlib.Decide.{ℕ_discrete}
use dis_store.Prelude.Counts.{count_some, count_some-set}
use dis_store.Prelude.Int.{◌-ℤ◌, is_zero}
use dis_store.Daemon.{ConnState, max_free_mem_gb}
use dis_store.Daemon.Lend.{Lending, take_back_from, recv_done}
use dis_store.Daemon.Lend.Return.{
  named, count_named, NamesHeld, taken, round_skip, round_take, Kept, NamesHeld-taken,
  taken-TookBack,
}

-- From `l` to `l'` the chunks named from `i` on, among `n`, have left both tables.
pub record Emptied (n i : ℕ) (l l' : Lending) : Type 0 where
  pub size : length l'.conn.sess_chunk_map ≡ length l.conn.sess_chunk_map
  pub count :
      count_some l'.conn.sess_chunk_map + count_named l n i ≡ count_some l.conn.sess_chunk_map
  pub gone :
      (j : ℕ)
      → i ≤ j
      → j < i + n
      → named l j ≡ true
      → (get_or l'.conn.sess_chunk_map j none ≡ none) × (get_or l'.remote.conn_map j none ≡ none)
  pub fewer :
      (j : ℕ)
      → (get_or l.conn.sess_chunk_map j none ≡ none → get_or l'.conn.sess_chunk_map j none ≡ none)
        × (get_or l.remote.conn_map j none ≡ none → get_or l'.remote.conn_map j none ≡ none)
  pub index : l'.conn.conn_index ≡ l.conn.conn_index
  pub states : l'.conns_state ≡ l.conns_state
  pub message : l'.conn.send_msg ≡ l.conn.send_msg

-- Chunk `i` taken back, and the rest.
Emptied-taken :
    (n i : ℕ) (l l' : Lending)
    → Kept l.remote
    → length l.conn.sess_chunk_map ≡ max_free_mem_gb
    → i < max_free_mem_gb
    → get_or l.conn.sess_chunk_map i none ≡ some i
    → count_named l (suc n) i ≡ 1 + count_named (taken l i) n (i + 1)
    → Emptied n (i + 1) (taken l i) l'
    → Emptied (suc n) i l l'
Emptied-taken n i l l' kept size lt mine count t =
    let ls : i < length l.conn.sess_chunk_map = omega (arith, size) in
    let lc : i < length l.remote.conn_map = omega (arith, kept.conn_size) in
    record {
      size = t.size ∙ length-set l.conn.sess_chunk_map i none;
      count = ground (arith, t.count, count, count_some-set l.conn.sess_chunk_map i none ls, mine);
      gone = λ j a b e. elim (ℕ_discrete i j) [
        | yes p ↦ (
          (t.fewer j).0 (get_or-set_default l.conn.sess_chunk_map i j none ∙ ground arith),
          (t.fewer j).1 (get_or-set_default l.remote.conn_map i j none ∙ ground arith),
        )
        | no ne ↦ t.gone j (omega arith) (omega arith) e
      ];
      fewer = λ j. (
        λ e. (t.fewer j).0 (get_or-set_default l.conn.sess_chunk_map i j none ∙ ground (arith, e)),
        λ e. (t.fewer j).1 (get_or-set_default l.remote.conn_map i j none ∙ ground (arith, e)),
      );
      index = t.index;
      states = t.states;
      message = t.message;
    }

Emptied-skip :
    (n i : ℕ) (l l' : Lending)
    → named l i ≡ false
    → count_named l (suc n) i ≡ count_named l n (i + 1)
    → Emptied n (i + 1) l l'
    → Emptied (suc n) i l l'
Emptied-skip n i l l' off count t = record {
  size = t.size;
  count = omega (arith, t.count, count);
  gone = λ j a b e. elim (ℕ_discrete i j) [
    | yes p ↦ absurd (cc (ap (named l) p, off, e))
    | no ne ↦ t.gone j (omega arith) (omega arith) e
  ];
  fewer = t.fewer;
  index = t.index;
  states = t.states;
  message = t.message;
}

take_back_from-Emptied :
    (n i : ℕ) (l : Lending)
    → Kept l.remote
    → length l.conn.sess_chunk_map ≡ max_free_mem_gb
    → NamesHeld l n i
    → i + n ≤ max_free_mem_gb
    → Emptied n i l (take_back_from n i l)
unfolding NamesHeld take_back_from count_named
take_back_from-Emptied zero i l kept size held le = record {
  size = refl;
  count = omega arith;
  gone = λ j a b. absurd (omega arith);
  fewer = λ j. (λ e. e, λ e. e);
  index = refl;
  states = refl;
  message = refl;
}
take_back_from-Emptied (suc n) i l kept size held le =
    elim (Bool-cases (get_or l.conn.recv_msg.rkey i 0 == 0)) [
      | inl e ↦
          let (loop, count) = round_skip n i l e in
          rw loop (
            Emptied-skip n i l (take_back_from n (i + 1) l) (rw e refl) count (
              take_back_from-Emptied n (i + 1) l kept size
                (λ j a b. held j (omega arith) (omega arith)) (omega arith)))
      | inr e ↦
          let (mine, lent) = held i (omega arith) (omega arith) (rw e refl) in
          let (loop, count) = round_take n i l e mine in
          let first = taken-TookBack l i kept (omega arith) lent in
          rw loop (
            Emptied-taken n i l (take_back_from n (i + 1) (taken l i)) kept size (omega arith) mine
              count
              (take_back_from-Emptied n (i + 1) (taken l i) first.kept
                (length-set l.conn.sess_chunk_map i none ∙ size) (NamesHeld-taken l n i kept held)
                (omega arith)))
    ]

-- If the message of a client names chunks that the connection holds and that are lent, then after
-- recv_done exactly these have left the connection's table and the daemon's.
pub recv_done-Emptied :
    (l : Lending)
    → Kept l.remote
    → length l.conn.sess_chunk_map ≡ max_free_mem_gb
    → NamesHeld l 32 0
    → let l' = recv_done l in
      (length l'.conn.sess_chunk_map ≡ max_free_mem_gb)
      × (count_some l'.conn.sess_chunk_map + count_named l 32 0 ≡ count_some l.conn.sess_chunk_map)
      × ((j : ℕ)
          → j < 32
          → named l j ≡ true
          → (get_or l'.conn.sess_chunk_map j none ≡ none)
            × (get_or l'.remote.conn_map j none ≡ none))
      × (l'.conn.conn_index ≡ l.conn.conn_index)
      × (l'.conn.send_msg ≡ l.conn.send_msg)
unfolding recv_done
recv_done-Emptied l kept size held =
    let t = take_back_from-Emptied 32 0 l kept size held (omega arith) in
    (t.size ∙ size, t.count, λ j lt e. t.gone j (omega arith) (omega arith) e, t.index, t.message)

-- It leaves the states of the connections, or puts this one's back to CONN_CONNECTED.
pub recv_done-states :
    (l : Lending)
    → Kept l.remote
    → length l.conn.sess_chunk_map ≡ max_free_mem_gb
    → NamesHeld l 32 0
    → ((recv_done l).conns_state ≡ l.conns_state)
      ⊎ ((recv_done l).conns_state ≡ set l.conns_state l.conn.conn_index ConnState.conn_connected)
unfolding recv_done
recv_done-states l kept size held =
    let t = take_back_from-Emptied 32 0 l kept size held (omega arith) in
    let l' = take_back_from 32 0 l in
    elim (Bool-cases (is_zero (l'.conn.mapped_chunk_size -ℤ l.conn.recv_msg.size_gb))) [
      | inl e ↦
          rw e (inr (ap₂ (λ states k. set states k ConnState.conn_connected) t.states t.index))
      | inr e ↦ rw e (inl t.states)
    ]
