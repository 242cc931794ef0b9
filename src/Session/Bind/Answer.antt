-- ===== src/Session/Bind/Answer.antt =====
-- A server is asked for its free memory: its answer is taken, and no gigabyte moves.
use dis_store.Prelude.{
  ℕ, ◌<◌, ◌≡◌, ◌≢◌, ◌⊎◌, inl, inr, refl, sym, ap, ◌∙◌, false, some, ◌==◌, if◌then◌else◌, arith,
  length, get_or, length-set, get_or-set, get_or-set_ne,
}
use native.Mathlib.Decide.{ℕ_discrete}
use mathlib.Core.Path.{subst}
use dis_store.Bitmap.Pages.{IsChunkMap}
use dis_store.Session.{
  Session, Cb, RdmaInfo, CbState, cb_idle, cb_connected, cb_mapped, cb_evicting, cb_fail, TestState,
}
use dis_store.Session.Tables.{no_cb, no_chunk, cb_at, cb_of, with_cb}
use dis_store.Session.Links.{Linked, Linked-frame}
use dis_store.Session.Create.{kernel_cb_init}
use dis_store.Session.Receive.{with_state, before_connected}
use dis_store.Session.Receive.Handled.{Linked-with_cb}
use dis_store.Session.Bind.{
  state_of, send_query, free_answer, await_free, queried, now_connected, query_cb, free_mem,
}
use dis_store.Session.Bind.Awaited.{settled, cb_at-with_cb_self, await_free-free}

-- The tables are linked, an idle server has no gigabyte, and what the session takes for connected
-- has got that far.
pub record Ready (s : Session) : Type 0 where
  pub linked : Linked s
  pub idle : (k d : ℕ) → cb_of s k ≡ some d → state_of s d ≢ CbState.cb_idle
  pub known : (d : ℕ) → state_of s d ≢ CbState.cb_idle → before_connected (cb_at s d).state ≡ false
  pub states : length s.cb_state_list ≡ length s.cb_list

-- One server has answered with its free memory; the gigabytes, and the other servers, are as they
-- were.
pub record Answered (s s' : Session) (d free : ℕ) : Type 0 where
  pub ready : Ready s'
  pub cbs : s'.cb_index_map ≡ s.cb_index_map
  pub slots : s'.chunk_map_cb_chunk ≡ s.chunk_map_cb_chunk
  pub size : length s'.cb_list ≡ length s.cb_list
  pub mem : free_mem s' d ≡ free
  pub others : (e : ℕ) → e ≢ d → cb_at s' e ≡ cb_at s e
  pub states :
      (e : ℕ)
      → (state_of s' e ≡ state_of s e)
        ⊎ ((state_of s e ≡ CbState.cb_idle) × (state_of s' e ≡ CbState.cb_connected))

-- A server that no gigabyte is on may get any table.
Linked-with_free_cb :
    (s : Session) (d : ℕ) (cb : Cb)
    → ((k : ℕ) → cb_of s k ≢ some d)
    → Linked s
    → Linked (with_cb s d cb)
Linked-with_free_cb s d cb free h k c i a b =
    let t = h k c i a b in
    let ne : d ≢ c = λ e. free k (a ∙ ap some (sym e)) in
    let same : cb_at (with_cb s d cb) c ≡ cb_at s c = get_or-set_ne s.cb_list d c cb no_cb ne in
    record {
      has = (omega (arith, length-set s.cb_list d cb, t.has.0), rw same t.has.1);
      full =
          subst (λ (x : Cb). IsChunkMap (get_or x.remote_chunk.chunk_list i no_chunk).bitmap_g)
            (sym same) t.full;
      back = rw same t.back;
    }

-- A connected server is put in its place.
known-with_cb :
    (s : Session) (d : ℕ) (cb : Cb) (e : ℕ)
    → d < length s.cb_list
    → before_connected cb.state ≡ false
    → (e ≢ d → before_connected (cb_at s e).state ≡ false)
    → before_connected (cb_at (with_cb s d cb) e).state ≡ false
known-with_cb s d cb e lt state other = elim (ℕ_discrete d e) [
  | yes p ↦
      ap (λ x. before_connected (cb_at (with_cb s d cb) x).state) (sym p)
      ∙ ap (λ x. before_connected x.state) (cb_at-with_cb_self s d cb lt)
      ∙ state
  | no ne ↦
      ap (λ x. before_connected x.state) (get_or-set_ne s.cb_list d e cb no_cb ne)
      ∙ other (λ p. ne (sym p))
]

query_known-state :
    (s : Session) (d : ℕ)
    → before_connected (cb_at s d).state ≡ false
    → before_connected (send_query (cb_at s d)).state ≡ false
unfolding send_query
query_known-state s d h = h

query_known-Answered :
    (s : Session) (d free : ℕ)
    → Ready s
    → d < length s.cb_list
    → state_of s d ≢ CbState.cb_idle
    → let cb = settled (send_query (cb_at s d)) (free_answer s d free) in
      Answered s (with_cb s d cb) d free
unfolding free_mem send_query
query_known-Answered s d free r lt ne =
    let cb = settled (send_query (cb_at s d)) (free_answer s d free) in
    record {
      ready = record {
        linked = Linked-with_cb s d cb (record { chunks = refl; map = refl }) r.linked;
        idle = r.idle;
        known = λ e h. known-with_cb s d cb e lt refl (λ q. r.known e h);
        states = r.states ∙ sym (length-set s.cb_list d cb);
      };
      cbs = refl;
      slots = refl;
      size = length-set s.cb_list d cb;
      mem = ap (λ x. x.remote_chunk.target_size_g) (cb_at-with_cb_self s d cb lt);
      others = λ e ne. get_or-set_ne s.cb_list d e cb no_cb (λ p. ne (sym p));
      states = λ e. inl refl;
    }

idle-ne_connected : CbState.cb_connected ≢ CbState.cb_idle
idle-ne_connected e = absurd (cc)

-- The states after one server is connected.
state_of-now_connected :
    (s : Session) (d e : ℕ)
    → d < length s.cb_state_list
    → state_of (now_connected s d) e ≡ (if d == e then CbState.cb_connected else state_of s e)
state_of-now_connected s d e lt =
    get_or-set s.cb_state_list d e CbState.cb_connected CbState.cb_idle lt

query_idle-Answered :
    (s : Session) (d free : ℕ)
    → Ready s
    → d < length s.cb_list
    → state_of s d ≡ CbState.cb_idle
    → let cb =
        settled
          (with_state (kernel_cb_init (cb_at s d)) TestState.connected)
          (free_answer s d free) in
      Answered s (now_connected (with_cb s d cb) d) d free
unfolding free_mem
query_idle-Answered s d free r lt idle =
    let cb =
      settled (with_state (kernel_cb_init (cb_at s d)) TestState.connected)
        (free_answer s d free) in
    let fits : d < length s.cb_state_list = omega (arith, r.states) in
    let off = λ (k : ℕ) (on : cb_of s k ≡ some d). r.idle k d on idle in
    let s' = now_connected (with_cb s d cb) d in
    let state = λ (e : ℕ). state_of-now_connected (with_cb s d cb) d e fits in
    record {
      ready = record {
        linked =
            Linked-frame (with_cb s d cb) s' refl refl refl
              (Linked-with_free_cb s d cb off r.linked);
        idle = λ k e on. elim (ℕ_discrete d e) [
          | yes p ↦ λ q. off k (on ∙ ap some (sym p))
          | no ne ↦ λ q. r.idle k e on (ground (arith, state e, q))
        ];
        known = λ e h.
            known-with_cb s d cb e lt refl
              (λ q. r.known e (λ i. h (ground (arith, state e, q, i))));
        states =
            length-set s.cb_state_list d CbState.cb_connected
            ∙ r.states
            ∙ sym (length-set s.cb_list d cb);
      };
      cbs = refl;
      slots = refl;
      size = length-set s.cb_list d cb;
      mem = ap (λ x. x.remote_chunk.target_size_g) (cb_at-with_cb_self s d cb lt);
      others = λ e ne. get_or-set_ne s.cb_list d e cb no_cb (λ p. ne (sym p));
      states = λ e. elim (ℕ_discrete d e) [
        | yes p ↦ inr (ap (state_of s) (sym p) ∙ idle, ground (arith, state e, p))
        | no ne ↦ inl (ground (arith, state e))
      ];
    }

pub query_cb-Answered :
    (s : Session) (d free : ℕ)
    → Ready s
    → d < length s.cb_list
    → state_of s d ≢ CbState.cb_fail
    → (s' : Session) × (query_cb s d free ≡ some s') × Answered s s' d free
unfolding query_cb
query_cb-Answered s d free r lt ne = go (state_of s d) refl
  where
    m : RdmaInfo
    m = free_answer s d free

    known : Cb
    known = send_query (cb_at s d)

    fresh : Cb
    fresh = with_state (kernel_cb_init (cb_at s d)) TestState.connected

    asked :
        state_of s d ≢ CbState.cb_idle
        → await_free (queried s d) d m ≡ some (with_cb s d (settled known m))
    asked h = await_free-free s d known m lt (query_known-state s d (r.known d h)) refl

    go :
        (state : CbState)
        → state_of s d ≡ state
        → (s' : Session) × (query_cb s d free ≡ some s') × Answered s s' d free
    go cb_idle e = (
      now_connected (with_cb s d (settled fresh m)) d,
      rw (query_cb, e, await_free-free s d fresh m lt refl refl) refl,
      query_idle-Answered s d free r lt e,
    )
    go cb_connected e =
        let h : state_of s d ≢ CbState.cb_idle = λ i. absurd (cc (e, i)) in
        (_, rw (query_cb, e) (asked h), query_known-Answered s d free r lt h)
    go cb_mapped e =
        let h : state_of s d ≢ CbState.cb_idle = λ i. absurd (cc (e, i)) in
        (_, rw (query_cb, e) (asked h), query_known-Answered s d free r lt h)
    go cb_evicting e =
        let h : state_of s d ≢ CbState.cb_idle = λ i. absurd (cc (e, i)) in
        (_, rw (query_cb, e) (asked h), query_known-Answered s d free r lt h)
    go cb_fail e = absurd (ne e)
