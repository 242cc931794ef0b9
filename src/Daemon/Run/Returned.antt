-- ===== src/Daemon/Run/Returned.antt =====
-- Chunks are given back: what recv_done leaves of who has which chunk.
use dis_store.Prelude.{
  ℕ, zero, suc, ◌≤◌, ◌<◌, ◌≡◌, ◌≢◌, ◌⊎◌, [], ◌∷◌, inl, inr, refl, sym, ap, ◌∙◌, true, false, Option,
  none, some, List, arith, length, get_or, set, Bool-cases,
}
use mathlib.Core.Path.{subst}
use dis_store.Prelude.Int.{pos, ◌-ℤ◌, pos--ℤ}
use dis_store.Prelude.Counts.{count_some}
use dis_store.Daemon.{ConnState}
use dis_store.Daemon.Lend.{Lending, recv_done}
use dis_store.Daemon.Lend.Return.{NamesHeld, named, count_named, Kept, recv_done-Accounted}
use dis_store.Daemon.Lend.Emptied.{recv_done-Emptied, recv_done-states}
use dis_store.Daemon.Run.Owned.{Owned, Placed, SameLent}
use dis_store.Protocol.Taken.{recv_done-SameChunk}
use dis_store.Daemon.Run.Lent.{Ready, Worked, Placed-refl, Placed-set}

lt_or_le : (a b : ℕ) → (a < b) ⊎ (b ≤ a)
lt_or_le a b = ground arith

past_end : (xs : List (Option ℕ)) (j : ℕ) → length xs ≤ j → get_or xs j none ≡ none
past_end [] j h = refl
past_end (x ∷ xs) zero h = absurd (omega arith)
past_end (x ∷ xs) (suc j) h = past_end xs j (omega arith)

-- A message that says which chunks the client has given back.
module _ (i : ℕ) (l : Lending) (r : Ready i l) (held : NamesHeld l 32 0)
    (says : l.conn.recv_msg.size_gb ≡ pos (count_named l 32 0)) where
  kept : Kept l.remote
  kept = record {
    malloc_size = r.books.malloc_size;
    conn_size = r.books.conn_size;
    lent = r.books.lent;
  }

  -- What is so at an index that the message does not name, and at one that it names.
  unnamed :
      (j : ℕ)
      → named l j ≡ false
      → (get_or (recv_done l).conn.sess_chunk_map j none ≡ get_or l.conn.sess_chunk_map j none)
        × (get_or (recv_done l).remote.conn_map j none ≡ get_or l.remote.conn_map j none)
  unfolding NamesHeld
  unnamed j off =
      let t = recv_done-SameChunk l j (λ x a b e. (held x a b e).0) off in (t.held, t.lent)

  named_before : (j : ℕ) → j < 32 → named l j ≡ true → get_or l.remote.conn_map j none ≡ some i
  unfolding NamesHeld
  named_before j lt on = (r.owned.held j j (held j (omega arith) (omega arith) on).0).1

  recv_done-Owned : Owned (recv_done l).remote i (recv_done l).conn
  recv_done-Owned =
      let (books, _, mapped) = recv_done-Accounted l r.books held says in
      let (size, count, gone, index, message) =
        recv_done-Emptied l kept r.owned.sized.map_size held in
      let n = count_named l 32 0 in
      let l' = recv_done l in
      record {
        index = index ∙ r.owned.index;
        sized = record {
          map_size = size;
          rkey_size = ap (λ m. length m.rkey) message ∙ r.owned.sized.rkey_size;
          buf_size = ap (λ m. length m.buf) message ∙ r.owned.sized.buf_size;
        };
        counts =
            mapped
            ∙ ap (λ z. z -ℤ pos n) r.owned.counts
            ∙ pos--ℤ (count_some l.conn.sess_chunk_map) n (omega (arith, count))
            ∙ ap pos (omega (arith, count));
        held = λ j k e. elim (Bool-cases (named l j)) [
          | inl on ↦ elim (lt_or_le j 32) [
            | inl lt ↦ absurd (cc ((gone j lt on).0, e))
            | inr le ↦ absurd (cc (past_end l'.conn.sess_chunk_map j (omega (arith, size, le)), e))
          ]
          | inr off ↦
              let (same_held, same_lent) = unnamed j off in
              let (mine, lent) = r.owned.held j k (sym same_held ∙ e) in (mine, same_lent ∙ lent)
        ];
        lent = λ j e. elim (Bool-cases (named l j)) [
          | inl on ↦ elim (lt_or_le j 32) [
            | inl lt ↦ absurd (cc ((gone j lt on).1, e))
            | inr le ↦
                absurd (cc (past_end l'.remote.conn_map j (omega (arith, books.conn_size, le)), e))
          ]
          | inr off ↦
              let (same_held, same_lent) = unnamed j off in
              same_held ∙ r.owned.lent j (sym same_lent ∙ e)
        ];
      }

  recv_done-others : (k : ℕ) → k ≢ i → SameLent l.remote (recv_done l).remote k
  recv_done-others k ne j =
      let (books, _, _) = recv_done-Accounted l r.books held says in
      let (size, count, gone, index, message) =
        recv_done-Emptied l kept r.owned.sized.map_size held in
      elim (Bool-cases (named l j)) [
        | inr off ↦
            let (_, same_lent) = unnamed j off in (λ e. same_lent ∙ e, λ e. sym same_lent ∙ e)
        | inl on ↦ elim (lt_or_le j 32) [
          | inl lt ↦
              let before = named_before j lt on in
              (λ e. absurd (ne (cc)), λ e. absurd (cc ((gone j lt on).1, e)))
          | inr le ↦
              let old = past_end l.remote.conn_map j (omega (arith, r.books.conn_size, le)) in
              let new =
                past_end (recv_done l).remote.conn_map j (omega (arith, books.conn_size, le)) in
              (λ e. absurd (cc (old, e)), λ e. absurd (cc (new, e)))
        ]
      ]

  recv_done-Placed : Placed l.conns_state (recv_done l).conns_state i
  recv_done-Placed = elim (recv_done-states l kept r.owned.sized.map_size held) [
    | inl e ↦ subst (λ t. Placed l.conns_state t i) (sym e) (Placed-refl l.conns_state i r.placed)
    | inr e ↦
        subst (λ t. Placed l.conns_state t i)
          (sym (e ∙ ap (λ x. set l.conns_state x ConnState.conn_connected) r.owned.index))
          (Placed-set l.conns_state i ConnState.conn_connected r.in_states refl)
  ]

  pub recv_done-Worked : Worked i l (recv_done l)
  recv_done-Worked = record {
    placed = recv_done-Placed;
    owned = recv_done-Owned;
    others = recv_done-others;
  }
