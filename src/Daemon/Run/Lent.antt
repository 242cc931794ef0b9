-- ===== src/Daemon/Run/Lent.antt =====
-- A chunk is lent: what send_single_mr leaves of who has which chunk.
use dis_store.Prelude.{
  ℕ, ◌+◌, ◌<◌, ◌≡◌, ◌≢◌, inl, inr, refl, sym, ap, ap₂, ◌∙◌, true, false, none, some, List, arith,
  length, get_or, set, length-set, get_or-set_self, get_or-set_ne, Option-cases,
}
use mathlib.Core.Path.{subst}
use native.Mathlib.Decide.{ℕ_discrete}
use dis_store.Prelude.Int.{pos, ◌+ℤ◌, pos-+ℤ}
use dis_store.Prelude.Counts.{count_some, is_some, count_some-set}
use dis_store.Daemon.{Connection, RemoteMem, ConnState, max_free_mem_gb}
use dis_store.Daemon.Accounts.{Accounted}
use dis_store.Daemon.Lend.{Lending, is_free, send_single_mr}
use dis_store.Daemon.Lend.Books.{Sized, first_free, first_free_found, send_single_mr-tables}
use dis_store.Daemon.Connect.{is_idle}
use dis_store.Daemon.Completion.{binding, bound}
use dis_store.Daemon.Run.Owned.{Owned, Placed, SameLent}

-- The state before work on the connection in place `i`.
pub record Ready (i : ℕ) (l : Lending) : Type 0 where
  pub books : Accounted l.remote
  pub owned : Owned l.remote i l.conn
  pub placed : is_idle (get_or l.conns_state i ConnState.conn_failed) ≡ false
  pub in_states : i < length l.conns_state

-- What the work leaves.
pub record Worked (i : ℕ) (l l' : Lending) : Type 0 where
  pub placed : Placed l.conns_state l'.conns_state i
  pub owned : Owned l'.remote i l'.conn
  pub others : (k : ℕ) → k ≢ i → SameLent l.remote l'.remote k

pub Placed-refl :
    (states : List ConnState) (i : ℕ)
    → is_idle (get_or states i ConnState.conn_failed) ≡ false
    → Placed states states i
Placed-refl states i h = record { size = refl; busy = h; others = λ j ne. refl }

pub Placed-set :
    (states : List ConnState) (i : ℕ) (state : ConnState)
    → i < length states
    → is_idle state ≡ false
    → Placed states (set states i state) i
Placed-set states i state lt h = record {
  size = length-set states i state;
  busy = ap is_idle (get_or-set_self states i state ConnState.conn_failed lt) ∙ h;
  others = λ j ne. get_or-set_ne states i j state ConnState.conn_failed (λ e. ne (sym e));
}

pub same : (m : RemoteMem) (k : ℕ) → SameLent m m k
same m k j = (λ e. e, λ e. e)

-- Chunk `k`, which was free, is lent to the connection.
lent_to-Owned :
    (i k : ℕ) (m m' : RemoteMem) (c c' : Connection)
    → Accounted m
    → Owned m i c
    → is_free m k ≡ true
    → k < max_free_mem_gb
    → c'.sess_chunk_map ≡ set c.sess_chunk_map k (some k)
    → m'.conn_map ≡ set m.conn_map k (some i)
    → c'.conn_index ≡ c.conn_index
    → c'.mapped_chunk_size ≡ c.mapped_chunk_size +ℤ pos 1
    → Sized c'
    → Owned m' i c'
lent_to-Owned i k m m' c c' books h free lt table conns index mapped sized =
    let ls : k < length c.sess_chunk_map = omega (arith, h.sized.map_size) in
    let lc : k < length m.conn_map = omega (arith, books.conn_size) in
    let off : get_or m.conn_map k none ≡ none = ground arith in
    let unheld : is_some (get_or c.sess_chunk_map k none) ≡ false =
      elim (Option-cases (get_or c.sess_chunk_map k none)) [
        | inl e ↦ ap is_some e
        | inr (x, e) ↦ absurd (cc ((h.held k x e).1, off))
      ] in
    let count : count_some c'.sess_chunk_map ≡ count_some c.sess_chunk_map + 1 =
      ap count_some table ∙ ground (arith, count_some-set c.sess_chunk_map k (some k) ls, unheld) in
    let at = λ (j : ℕ). ap (λ t. get_or t j none) table in
    let on = λ (j : ℕ). ap (λ t. get_or t j none) conns in
    record {
      index = index ∙ h.index;
      sized = sized;
      counts =
          mapped
          ∙ ap (λ z. z +ℤ pos 1) h.counts
          ∙ pos-+ℤ (count_some c.sess_chunk_map) 1
          ∙ ap pos (sym count);
      held = λ j x e. elim (ℕ_discrete k j) [
        | yes p ↦
            let mine : get_or c'.sess_chunk_map j none ≡ some k =
              at j
              ∙ ap (λ y. get_or (set c.sess_chunk_map k (some k)) y none) (sym p)
              ∙ get_or-set_self c.sess_chunk_map k (some k) none ls in
            let found : some k ≡ some x = sym mine ∙ e in
            let named_k : k ≡ x = cc in
            (
              sym named_k ∙ p,
              on j
                  ∙ ap (λ y. get_or (set m.conn_map k (some i)) y none) (sym p)
                  ∙ get_or-set_self m.conn_map k (some i) none lc,
            )
        | no ne ↦
            let (mine, lent) =
              h.held j x
                (sym (get_or-set_ne c.sess_chunk_map k j (some k) none ne) ∙ sym (at j) ∙ e) in
            (mine, on j ∙ get_or-set_ne m.conn_map k j (some i) none ne ∙ lent)
      ];
      lent = λ j e. elim (ℕ_discrete k j) [
        | yes p ↦
            at j
            ∙ ap (λ y. get_or (set c.sess_chunk_map k (some k)) y none) (sym p)
            ∙ get_or-set_self c.sess_chunk_map k (some k) none ls
            ∙ ap some p
        | no ne ↦
            at j
            ∙ get_or-set_ne c.sess_chunk_map k j (some k) none ne
            ∙ h.lent j (sym (get_or-set_ne m.conn_map k j (some i) none ne) ∙ sym (on j) ∙ e)
      ];
    }

-- No other connection has got or lost a chunk.
lent_to-SameLent :
    (i k i' : ℕ) (m m' : RemoteMem)
    → Accounted m
    → is_free m k ≡ true
    → k < max_free_mem_gb
    → m'.conn_map ≡ set m.conn_map k (some i)
    → i' ≢ i
    → SameLent m m' i'
lent_to-SameLent i k i' m m' books free lt conns ne j =
    let lc : k < length m.conn_map = omega (arith, books.conn_size) in
    let off : get_or m.conn_map k none ≡ none = ground arith in
    let on = ap (λ t. get_or t j none) conns in
    elim (ℕ_discrete k j) [
      | yes p ↦
          let now : get_or m'.conn_map j none ≡ some i =
            on
            ∙ ap (λ y. get_or (set m.conn_map k (some i)) y none) (sym p)
            ∙ get_or-set_self m.conn_map k (some i) none lc in
          let before : get_or m.conn_map j none ≡ none =
            ap (λ y. get_or m.conn_map y none) (sym p) ∙ off in
          (λ e. absurd (cc), λ e. absurd (ne (cc)))
      | no np ↦
          let keep = on ∙ get_or-set_ne m.conn_map k j (some i) none np in
          (λ e. keep ∙ e, λ e. sym keep ∙ e)
    ]

-- A bind of one chunk.
pub bind_single-Worked :
    (reg : ℕ → ℕ × ℕ) (i k asked : ℕ) (l : Lending)
    → Ready i l
    → first_free 32 0 l.remote ≡ some k
    → Worked i l (bound (send_single_mr reg (binding l) asked))
bind_single-Worked reg i k asked l r found =
    let (table, conns, states, index, mapped, rkeys, bufs) =
      send_single_mr-tables reg (binding l) asked k found in
    let (free, lt) = first_free_found 32 0 k l.remote found in
    let a = send_single_mr reg (binding l) asked in
    let here : a.conn.conn_index ≡ i = index ∙ r.owned.index in
    let lent : a.remote.conn_map ≡ set l.remote.conn_map k (some i) =
      conns ∙ ap (λ x. set l.remote.conn_map k (some x)) r.owned.index in
    let states' : (bound a).conns_state ≡ set l.conns_state i ConnState.conn_mapped =
      ap₂ (λ t x. set t x ConnState.conn_mapped) states here in
    record {
      placed =
          subst (λ t. Placed l.conns_state t i) (sym states')
            (Placed-set l.conns_state i ConnState.conn_mapped r.in_states refl);
      owned =
          lent_to-Owned i k l.remote a.remote l.conn a.conn r.books r.owned free (omega arith) table
            lent index mapped
            (record {
              map_size =
                  ap length table
                  ∙ length-set l.conn.sess_chunk_map k (some k)
                  ∙ r.owned.sized.map_size;
              rkey_size = rkeys ∙ r.owned.sized.rkey_size;
              buf_size = bufs ∙ r.owned.sized.buf_size;
            });
      others = λ x ne. lent_to-SameLent i k x l.remote a.remote r.books free (omega arith) lent ne;
    }
