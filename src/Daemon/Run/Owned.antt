-- ===== src/Daemon/Run/Owned.antt =====
-- Who has which chunk: the table of each connection and the table of the daemon agree.
use dis_store.Prelude.{
  ℕ, zero, suc, ◌+◌, ◌<◌, ◌≡◌, ◌≢◌, refl, sym, ap, ◌∙◌, true, false, not, Option, none, some, List,
  [], ◌∷◌, arith, length, get_or, set, length-set, get_or-set_self, get_or-set_ne,
}
use mathlib.Core.Path.{subst}
use native.Mathlib.Decide.{ℕ_discrete}
use dis_store.Prelude.Int.{pos}
use dis_store.Prelude.Counts.{count_some, is_some, bit_of_bool}
use dis_store.Daemon.{Connection, RdmaSession, RemoteMem, ConnState}
use dis_store.Daemon.Accounts.{Accounted}
use dis_store.Daemon.Lend.{Lending}
use dis_store.Daemon.Lend.Books.{Sized}
use dis_store.Daemon.Connect.{is_idle}
use dis_store.Daemon.Connect.Slots.{Tracked}
use dis_store.Daemon.Run.{with_lending}

-- Connection `c` stands in place `i`, its table has exactly the chunks that the daemon's table says
-- it has, each at its own index, and it counts them.
pub record Owned (m : RemoteMem) (i : ℕ) (c : Connection) : Type 0 where
  pub index : c.conn_index ≡ i
  pub sized : Sized c
  pub counts : c.mapped_chunk_size ≡ pos (count_some c.sess_chunk_map)
  pub held :
      (j k : ℕ)
      → get_or c.sess_chunk_map j none ≡ some k
      → (k ≡ j) × (get_or m.conn_map j none ≡ some i)
  pub lent : (j : ℕ) → get_or m.conn_map j none ≡ some i → get_or c.sess_chunk_map j none ≡ some j

-- The books are right, the connections are tracked, each has what the daemon says it has, and what
-- is lent is lent to a connection that is there.
pub record Consistent (s : RdmaSession) : Type 0 where
  pub books : Accounted s.rdma_remote
  pub tracked : Tracked s
  pub owned : (i : ℕ) (c : Connection) → get_or s.conns i none ≡ some c → Owned s.rdma_remote i c
  pub there :
      (j i : ℕ)
      → get_or s.rdma_remote.conn_map j none ≡ some i
      → is_some (get_or s.conns i none) ≡ true

-- Both tables of the daemon lend the same chunks to `i`.
abbrev pub SameLent : RemoteMem → RemoteMem → ℕ → Type 0
SameLent m m' i =
    (j : ℕ)
    → (get_or m.conn_map j none ≡ some i → get_or m'.conn_map j none ≡ some i)
      × (get_or m'.conn_map j none ≡ some i → get_or m.conn_map j none ≡ some i)

pub Owned-SameLent :
    (m m' : RemoteMem) (i : ℕ) (c : Connection) → SameLent m m' i → Owned m i c → Owned m' i c
Owned-SameLent m m' i c same h = record {
  index = h.index;
  sized = h.sized;
  counts = h.counts;
  held = λ j k e. let (mine, on) = h.held j k e in (mine, (same j).0 on);
  lent = λ j e. h.lent j ((same j).1 e);
}

-- Nothing but the memory has changed, and it is lent as before.
pub with_remote-Consistent :
    (s : RdmaSession) (m : RemoteMem)
    → Consistent s
    → Accounted m
    → m.conn_map ≡ s.rdma_remote.conn_map
    → Consistent (record s { rdma_remote = m })
with_remote-Consistent s m h books same =
    let at = λ (j : ℕ). ap (λ t. get_or t j none) same in
    record {
      books = books;
      tracked = record {
        conns_size = h.tracked.conns_size;
        states_size = h.tracked.states_size;
        num = h.tracked.num;
        idle = h.tracked.idle;
      };
      owned = λ i c e.
          Owned-SameLent s.rdma_remote m i c (λ j. (λ x. at j ∙ x, λ x. sym (at j) ∙ x))
            (h.owned i c e);
      there = λ j i e. h.there j i (sym (at j) ∙ e);
    }

-- The states of the connections after work on the one in place `i`.
pub record Placed (states states' : List ConnState) (i : ℕ) : Type 0 where
  pub size : length states' ≡ length states
  pub busy : is_idle (get_or states' i ConnState.conn_failed) ≡ false
  pub others :
      (j : ℕ)
      → j ≢ i
      → get_or states' j ConnState.conn_failed ≡ get_or states j ConnState.conn_failed

set-get :
    (conns : List (Option Connection)) (i j : ℕ) (c : Connection)
    → is_some (get_or conns i none) ≡ true
    → is_some (get_or (set conns i (some c)) j none) ≡ is_some (get_or conns j none)
set-get [] i j c h = refl
set-get (x ∷ xs) zero zero c h = sym h
set-get (x ∷ xs) zero (suc j) c h = refl
set-get (x ∷ xs) (suc i) zero c h = refl
set-get (x ∷ xs) (suc i) (suc j) c h = set-get xs i j c h

set-count :
    (conns : List (Option Connection)) (i : ℕ) (c : Connection)
    → is_some (get_or conns i none) ≡ true
    → count_some (set conns i (some c)) ≡ count_some conns
set-count [] i c h = refl
set-count (x ∷ xs) zero c h = ground (arith, h)
set-count (x ∷ xs) (suc i) c h = ap (λ n. bit_of_bool (is_some x) + n) (set-count xs i c h)

pub in_range {ℓ} :
    {A : Type ℓ} (conns : List (Option A)) (i : ℕ)
    → is_some (get_or conns i none) ≡ true
    → i < length conns
in_range [] i h = absurd (cc)
in_range (x ∷ xs) zero h = omega arith
in_range (x ∷ xs) (suc i) h = omega (arith, in_range xs i h)

pub with_lending-Consistent :
    (s : RdmaSession) (i : ℕ) (c : Connection) (l : Lending)
    → Consistent s
    → get_or s.conns i none ≡ some c
    → Accounted l.remote
    → Placed s.conns_state l.conns_state i
    → Owned l.remote i l.conn
    → ((i' : ℕ) → i' ≢ i → SameLent s.rdma_remote l.remote i')
    → Consistent (with_lending s i l)
with_lending-Consistent s i c l h e books placed own same =
    let on : is_some (get_or s.conns i none) ≡ true = ap is_some e in
    record {
      books = books;
      tracked = record {
        conns_size = length-set s.conns i (some l.conn) ∙ h.tracked.conns_size;
        states_size = placed.size ∙ h.tracked.states_size;
        num = h.tracked.num ∙ ap pos (sym (set-count s.conns i l.conn on));
        idle = λ j lt. elim (ℕ_discrete j i) [
          | yes p ↦
              ap (λ x. is_idle (get_or l.conns_state x ConnState.conn_failed)) p
              ∙ placed.busy
              ∙ sym (
                  ap not (
                    set-get s.conns i j l.conn on
                    ∙ ap (λ x. is_some (get_or s.conns x none)) p
                    ∙ on))
          | no ne ↦
              ap is_idle (placed.others j ne)
              ∙ h.tracked.idle j lt
              ∙ sym (ap not (set-get s.conns i j l.conn on))
        ];
      };
      owned = λ j d at. elim (ℕ_discrete j i) [
        | yes p ↦
            let mine : some l.conn ≡ some d =
              sym (get_or-set_self s.conns i (some l.conn) none (in_range s.conns i on))
              ∙ ap (λ x. get_or (set s.conns i (some l.conn)) x none) (sym p)
              ∙ at in
            let same_conn : l.conn ≡ d = cc in
            subst (λ x. Owned l.remote x d) (sym p) (subst (Owned l.remote i) same_conn own)
        | no ne ↦ Owned-SameLent s.rdma_remote l.remote j d (same j ne) (
            h.owned j d (sym (get_or-set_ne s.conns i j (some l.conn) none (λ q. ne (sym q))) ∙ at))
      ];
      there = λ k j at. set-get s.conns i j l.conn on ∙ (elim (ℕ_discrete j i) [
        | yes p ↦ ap (λ x. is_some (get_or s.conns x none)) p ∙ on
        | no ne ↦ h.there k j ((same j ne k).1 at)
      ]);
    }
