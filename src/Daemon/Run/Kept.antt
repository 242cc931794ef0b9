-- ===== src/Daemon/Run/Kept.antt =====
-- What stays so over any run of the daemon.
use dis_store.Prelude.{
  ℕ, ◌<◌, ◌≡◌, ◌≢◌, refl, sym, ap, ◌∙◌, true, not, Option, none, some, arith, length, get_or,
  length-replicate, get_or-replicate, get_or-replicate_lt, get_or-set_ne,
}
use mathlib.Core.Path.{subst}
use native.Mathlib.Decide.{ℕ_discrete}
use dis_store.Prelude.Int.{pos}
use dis_store.Prelude.Counts.{count_true, count_some, is_some, count_some-replicate}
use dis_store.Daemon.{Connection, RdmaSession, RemoteMem, ConnState, Message, max_client}
use dis_store.Daemon.Accounts.{Accounted, rdma_session_init-Accounted}
use dis_store.Daemon.Init.{rdma_session_init}
use dis_store.Daemon.Lend.{Lending, send_free_mem_size}
use dis_store.Daemon.Connect.{is_idle, idle_from, fill_connection, build_connection}
use dis_store.Daemon.Connect.Slots.{build_connection-Tracked, build_connection-places}
use dis_store.Daemon.Completion.{Wc, on_completion}
use dis_store.Daemon.Resize.{free_unmapped, expand, expand_size}
use dis_store.Daemon.Resize.Shrink.{free_unmapped-Accounted}
use dis_store.Daemon.Resize.Grow.{expand-Accounted}
use dis_store.Daemon.Run.{
  lending_of, with_lending, on_connection, with_msg, SizedMessage, Step, requested, established,
  completed, disconnected, shrunk, grown, Reach, started, next,
}
use dis_store.Daemon.Completion.Handled.{Expected}
use dis_store.Daemon.Run.Owned.{
  Placed, Owned, Consistent, SameLent, in_range, with_remote-Consistent, with_lending-Consistent,
}
use dis_store.Daemon.Run.Lent.{Ready, Worked}
use dis_store.Daemon.Run.Handled.{send_free_mem_size-Worked, on_completion-Worked}
use dis_store.Daemon.Run.Left.{destroy_connection-Consistent}

-- The start.
started-Consistent : (free : ℕ) → Consistent (rdma_session_init free)
unfolding rdma_session_init
started-Consistent free = record {
  books = (rdma_session_init-Accounted free).0;
  tracked = record {
    conns_size = length-replicate {A = Option Connection} 32 none;
    states_size = length-replicate 32 ConnState.conn_idle;
    num = refl;
    idle = λ i lt.
        ap is_idle (get_or-replicate_lt 32 ConnState.conn_idle ConnState.conn_failed i lt)
        ∙ sym (ap (λ o. not (is_some o)) (get_or-replicate {A = Option Connection} 32 none i));
  };
  owned = λ i c e. absurd (cc (get_or-replicate {A = Option Connection} 32 none i, e));
  there = λ j i e. absurd (cc (get_or-replicate {A = Option ℕ} 32 none j, e));
}

-- A connection that is there, before work on it, whatever message came in.
there-Ready :
    (s : RdmaSession) (i : ℕ) (c : Connection) (l : Lending)
    → Consistent s
    → get_or s.conns i none ≡ some c
    → l.remote ≡ s.rdma_remote
    → l.conns_state ≡ s.conns_state
    → Owned l.remote i l.conn
    → Ready i l
there-Ready s i c l h e remote states own =
    let lt : i < length s.conns = in_range s.conns i (ap is_some e) in
    let small : i < max_client = omega (arith, h.tracked.conns_size) in
    record {
      books = subst Accounted (sym remote) h.books;
      owned = own;
      placed =
          ap (λ t. is_idle (get_or t i ConnState.conn_failed)) states
          ∙ h.tracked.idle i small
          ∙ ap (λ o. not (is_some o)) e;
      in_states = omega (arith, ap length states, h.tracked.states_size);
    }

copied-Owned :
    (s : RdmaSession) (i : ℕ) (c c' : Connection)
    → Owned s.rdma_remote i c
    → c'.conn_index ≡ c.conn_index
    → c'.sess_chunk_map ≡ c.sess_chunk_map
    → c'.mapped_chunk_size ≡ c.mapped_chunk_size
    → c'.send_msg ≡ c.send_msg
    → Owned s.rdma_remote i c'
copied-Owned s i c c' h index table mapped message = record {
  index = index ∙ h.index;
  sized = record {
    map_size = ap length table ∙ h.sized.map_size;
    rkey_size = ap (λ m. length m.rkey) message ∙ h.sized.rkey_size;
    buf_size = ap (λ m. length m.buf) message ∙ h.sized.buf_size;
  };
  counts = mapped ∙ h.counts ∙ ap (λ t. pos (count_some t)) (sym table);
  held = λ j k e. h.held j k (ap (λ t. get_or t j none) (sym table) ∙ e);
  lent = λ j e. ap (λ t. get_or t j none) table ∙ h.lent j e;
}

Worked-Consistent :
    (s : RdmaSession) (i : ℕ) (c : Connection) (l l' : Lending)
    → Consistent s
    → get_or s.conns i none ≡ some c
    → l.remote ≡ s.rdma_remote
    → l.conns_state ≡ s.conns_state
    → Accounted l'.remote
    → Worked i l l'
    → Consistent (with_lending s i l')
Worked-Consistent s i c l l' h e remote states books w =
    with_lending-Consistent s i c l' h e books
      (subst (λ t. Placed t l'.conns_state i) states w.placed) w.owned
      (λ k ne. subst (λ m. SameLent m l'.remote k) remote (w.others k ne))

established-Consistent :
    (s : RdmaSession) (i : ℕ) (c : Connection)
    → Consistent s
    → get_or s.conns i none ≡ some c
    → Consistent (on_connection s i c)
unfolding on_connection
established-Consistent s i c h e =
    let c' : Connection = record c { connected = true } in
    let l = lending_of s c' in
    let r =
      there-Ready s i c l h e refl refl
        (copied-Owned s i c c' (h.owned i c e) refl refl refl refl) in
    let (books, w) = send_free_mem_size-Worked i l r in
    Worked-Consistent s i c l (send_free_mem_size l) h e refl refl books w

completed-Consistent :
    (reg : ℕ → ℕ × ℕ) (s : RdmaSession) (i : ℕ) (c : Connection) (msg : Message) (wc : Wc)
    (l' : Lending)
    → Consistent s
    → get_or s.conns i none ≡ some c
    → (wc.recv ≡ true → Expected (lending_of s (with_msg c msg)) msg.type)
    → on_completion reg (lending_of s (with_msg c msg)) wc ≡ some l'
    → Consistent (with_lending s i l')
completed-Consistent reg s i c msg wc l' h e expected done =
    let l = lending_of s (with_msg c msg) in
    let r =
      there-Ready s i c l h e refl refl
        (copied-Owned s i c (with_msg c msg) (h.owned i c e) refl refl refl refl) in
    let (books, w) = on_completion-Worked reg i l l' wc r expected done in
    Worked-Consistent s i c l l' h e refl refl books w

-- A new connection, to which nothing is lent.
new-Owned :
    (m : RemoteMem) (c : Connection) (k : ℕ)
    → SizedMessage c
    → ((j : ℕ) → get_or m.conn_map j none ≢ some k)
    → Owned m k (record (fill_connection c) { conn_index = k })
unfolding fill_connection
new-Owned m c k (rkeys, bufs) nobody = record {
  index = refl;
  sized = record {
    map_size = length-replicate {A = Option ℕ} 32 none;
    rkey_size = rkeys;
    buf_size = bufs;
  };
  counts = ap pos (sym (count_some-replicate 32));
  held = λ j x e. absurd (cc (get_or-replicate {A = Option ℕ} 32 none j, e));
  lent = λ j e. absurd (nobody j e);
}

requested-Consistent :
    (s : RdmaSession) (c : Connection) (k : ℕ)
    → Consistent s
    → SizedMessage c
    → idle_from 32 0 s.conns_state ≡ some k
    → Consistent (build_connection s c)
unfolding fill_connection
requested-Consistent s c k h (rkeys, bufs) e =
    let (tracked, empty, placed, count) = build_connection-Tracked s c k h.tracked e in
    let (conns, remote) = build_connection-places s c k e in
    let c' : Connection = record (fill_connection c) { conn_index = k } in
    let m = s.rdma_remote in
    let nobody : (j : ℕ) → get_or m.conn_map j none ≢ some k =
      λ j x. absurd (cc (h.there j k x, ap is_some empty)) in
    let other = λ (i : ℕ) (ne : k ≢ i).
      ap (λ t. get_or t i none) conns ∙ get_or-set_ne s.conns k i (some c') none ne in
    record {
      books = subst Accounted (sym remote) h.books;
      tracked = tracked;
      owned = λ i d at.
          subst (λ x. Owned x i d) (sym remote)
            (elim (ℕ_discrete k i) [
              | yes p ↦
                  let here : some c' ≡ some d =
                    sym placed ∙ ap (λ x. get_or (build_connection s c).conns x none) p ∙ at in
                  let same_conn : c' ≡ d = cc in
                  subst (λ x. Owned m x d) p
                    (subst (Owned m k) same_conn (new-Owned m c k (rkeys, bufs) nobody))
              | no ne ↦ h.owned i d (sym (other i ne) ∙ at)
            ]);
      there = λ j i at.
          let before : get_or m.conn_map j none ≡ some i =
            ap (λ x. get_or x.conn_map j none) (sym remote) ∙ at in
          let ne : k ≢ i = λ p. nobody j (before ∙ ap some (sym p)) in
          ap is_some (other i ne) ∙ h.there j i before;
    }

-- What each step keeps.
Step-Consistent :
    (reg : ℕ → ℕ × ℕ) (s s' : RdmaSession) → Consistent s → Step reg s s' → Consistent s'
Step-Consistent reg s s' h (requested c k sized e) = requested-Consistent s c k h sized e
Step-Consistent reg s s' h (established i c e) = established-Consistent s i c h e
Step-Consistent reg s s' h (completed i c msg wc l e expected ran) =
    completed-Consistent reg s i c msg wc l h e expected ran
Step-Consistent reg s s' h (disconnected i c running e) =
    destroy_connection-Consistent s c running h
      (ap (λ x. get_or s.conns x none) (h.owned i c e).index ∙ e)
Step-Consistent reg s s' h (shrunk stop_g more) =
    let t = free_unmapped-Accounted s.rdma_remote stop_g h.books more in
    with_remote-Consistent s (free_unmapped s.rdma_remote stop_g).0 h t.0 t.1
Step-Consistent reg s s' h (grown last more) =
    let t = expand-Accounted s.rdma_remote last h.books more in
    let size = expand_size last (count_true s.rdma_remote.malloc_map) in
    with_remote-Consistent s (expand s.rdma_remote size) h t.0 t.1

-- Over any run of the daemon, where connections are asked for only while a place is idle, and each
-- message that comes in is what the daemon counts on: the books are right, the connections are
-- tracked, each connection's table has exactly the chunks that the daemon has lent to it and counts
-- them, and nothing is lent to a connection that is gone.
pub Reach-Consistent :
    (reg : ℕ → ℕ × ℕ) (free : ℕ) (s : RdmaSession) → Reach reg free s → Consistent s
Reach-Consistent reg free s started = started-Consistent free
Reach-Consistent reg free s (next t _ r step) =
    Step-Consistent reg t s (Reach-Consistent reg free t r) step
