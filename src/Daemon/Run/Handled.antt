-- ===== src/Daemon/Run/Handled.antt =====
-- What a completion leaves of who has which chunk.
use dis_store.Prelude.{
  ℕ, suc, ◌≡◌, inl, inr, refl, sym, ap, ◌∙◌, true, none, some, arith, length, get_or, Bool-cases,
}
use mathlib.Core.Path.{subst}
use dis_store.Prelude.Int.{pos, pos_part}
use dis_store.Prelude.Counts.{count_some}
use dis_store.Session.{
  MessageType, done, info, info_single, free_size, evict, activity, stop, bind, bind_single, query,
}
use dis_store.Daemon.{CqQpState}
use dis_store.Daemon.Accounts.{Accounted}
use dis_store.Daemon.Lend.{Lending, send_free_mem_size, send_single_mr, recv_done}
use dis_store.Daemon.Lend.Books.{send_single_mr-lends}
use dis_store.Daemon.Lend.Return.{recv_done-Accounted}
use dis_store.Daemon.Completion.{Wc, on_message, on_completion, busy, binding, bound, with_cq}
use dis_store.Daemon.Completion.Handled.{Expected, busy-NamesHeld, busy-count_named, binding-Sized}
use dis_store.Daemon.Run.Owned.{Placed}
use dis_store.Daemon.Run.Lent.{Ready, Worked, Placed-refl, bind_single-Worked}
use dis_store.Daemon.Run.Returned.{recv_done-Worked}

-- Work that touches neither the tables nor the states, and keeps the size of the message.
pub untouched :
    (i : ℕ) (l l' : Lending)
    → Ready i l
    → l'.remote ≡ l.remote
    → l'.conns_state ≡ l.conns_state
    → l'.conn.conn_index ≡ l.conn.conn_index
    → l'.conn.sess_chunk_map ≡ l.conn.sess_chunk_map
    → l'.conn.mapped_chunk_size ≡ l.conn.mapped_chunk_size
    → (length l'.conn.send_msg.rkey ≡ length l.conn.send_msg.rkey)
      × (length l'.conn.send_msg.buf ≡ length l.conn.send_msg.buf)
    → Accounted l'.remote × Worked i l l'
untouched i l l' r remote states index table mapped (rkeys, bufs) =
    let at = λ (j : ℕ). ap (λ m. get_or m.conn_map j none) remote in
    let held = λ (j : ℕ). ap (λ t. get_or t j none) table in
    (
      subst Accounted (sym remote) r.books,
      record {
        placed =
            subst (λ t. Placed l.conns_state t i) (sym states)
              (Placed-refl l.conns_state i r.placed);
        owned = record {
          index = index ∙ r.owned.index;
          sized = record {
            map_size = ap length table ∙ r.owned.sized.map_size;
            rkey_size = rkeys ∙ r.owned.sized.rkey_size;
            buf_size = bufs ∙ r.owned.sized.buf_size;
          };
          counts = mapped ∙ r.owned.counts ∙ ap (λ t. pos (count_some t)) (sym table);
          held = λ j k e.
              let (mine, lent) = r.owned.held j k (sym (held j) ∙ e) in (mine, at j ∙ lent);
          lent = λ j e. held j ∙ r.owned.lent j (sym (at j) ∙ e);
        };
        others = λ k ne j. (λ e. at j ∙ e, λ e. sym (at j) ∙ e);
      },
    )

pub send_free_mem_size-Worked :
    (i : ℕ) (l : Lending)
    → Ready i l
    → Accounted (send_free_mem_size l).remote × Worked i l (send_free_mem_size l)
unfolding send_free_mem_size
send_free_mem_size-Worked i l r =
    untouched i l (send_free_mem_size l) r refl refl refl refl refl (refl, refl)

busy-Ready : (i : ℕ) (l : Lending) → Ready i l → Ready i (busy l)
busy-Ready i l r = record {
  books = r.books;
  owned = record {
    index = r.owned.index;
    sized = record {
      map_size = r.owned.sized.map_size;
      rkey_size = r.owned.sized.rkey_size;
      buf_size = r.owned.sized.buf_size;
    };
    counts = r.owned.counts;
    held = r.owned.held;
    lent = r.owned.lent;
  };
  placed = r.placed;
  in_states = r.in_states;
}

from_busy : (i : ℕ) (l l' : Lending) → Worked i (busy l) l' → Worked i l l'
from_busy i l l' w = record { placed = w.placed; owned = w.owned; others = w.others }

on_message-Worked :
    (reg : ℕ → ℕ × ℕ) (i : ℕ) (l : Lending) (type : MessageType)
    → Ready i l
    → Expected l type
    → (l' : Lending) × (on_message reg l type ≡ some l') × Accounted l'.remote × Worked i l l'
unfolding on_message
on_message-Worked reg i l query r e =
    let (books, w) = send_free_mem_size-Worked i (busy l) (busy-Ready i l r) in
    (send_free_mem_size (busy l), refl, books, from_busy i l (send_free_mem_size (busy l)) w)
on_message-Worked reg i l activity r e =
    let l' : Lending = record l { conn = record (l.conn) { evict_sem = suc l.conn.evict_sem } } in
    let (books, w) = untouched i l l' r refl refl refl refl refl (refl, refl) in
    (l', refl, books, w)
on_message-Worked reg i l bind_single r (k, e) =
    let asked = pos_part l.conn.recv_msg.size_gb in
    let l' = bound (send_single_mr reg (binding l) asked) in
    (
      l',
      refl,
      (send_single_mr-lends reg (binding l) asked k r.books (binding-Sized l r.owned.sized) e).0,
      bind_single-Worked reg i k asked l r e,
    )
on_message-Worked reg i l done r (held, says) =
    let held' = busy-NamesHeld l 32 0 held in
    let says' = says ∙ ap pos (sym (busy-count_named l 32 0)) in
    let r' = busy-Ready i l r in
    (
      recv_done (busy l),
      refl,
      (recv_done-Accounted (busy l) r.books held' says').0,
      from_busy i l (recv_done (busy l)) (recv_done-Worked i (busy l) r' held' says'),
    )
on_message-Worked reg i l bind r e = absurd e
on_message-Worked reg i l info r e = absurd e
on_message-Worked reg i l info_single r e = absurd e
on_message-Worked reg i l free_size r e = absurd e
on_message-Worked reg i l evict r e = absurd e
on_message-Worked reg i l stop r e = absurd e

-- A completion that the daemon comes to the end of.
pub on_completion-Worked :
    (reg : ℕ → ℕ × ℕ) (i : ℕ) (l l' : Lending) (wc : Wc)
    → Ready i l
    → (wc.recv ≡ true → Expected l l.conn.recv_msg.type)
    → on_completion reg l wc ≡ some l'
    → Accounted l'.remote × Worked i l l'
unfolding on_completion
on_completion-Worked reg i l l' wc r expected e = elim (Bool-cases wc.success) [
  | inr bad ↦ absurd (ground (arith, bad))
  | inl good ↦ elim (Bool-cases wc.recv) [
    | inr sent ↦
        let same_l : with_cq l CqQpState.cq_qp_idle ≡ l' = ground (arith, good, sent) in
        subst (λ t. Accounted t.remote × Worked i l t) same_l
          (untouched i l (with_cq l CqQpState.cq_qp_idle) r refl refl refl refl refl (refl, refl))
    | inl received ↦
        let (x, handled, books, w) =
          on_message-Worked reg i l l.conn.recv_msg.type r (expected received) in
        let same_l : x ≡ l' = ground (arith, good, received, handled) in
        subst (λ t. Accounted t.remote × Worked i l t) same_l (books, w)
  ]
]
