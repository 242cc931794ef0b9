-- ===== src/Samples/Marked.antt =====
-- The driver of Samples/Using with a second server, idle, when a STOP has marked chunk 0 of the first;
-- and the answers for the bind after it, by which gigabyte 3 goes to the second.
use dis_store.Prelude.{
  ℕ, zero, suc, ◌≡◌, ◌≢◌, ◌<◌, refl, sym, ap, ◌∙◌, Bool, true, false, Option, none, some, List, [],
  ◌∷◌, ◌+◌, arith, get_or, set, replicate, get_or-set, get_or-replicate,
}
use mathlib.Core.Path.{subst}
use dis_store.Bitmap.Pages.{bitmap_init-IsChunkMap}
use dis_store.Context.{CtxPool, ctx_init}
use dis_store.Context.Transfer.Quiet.{
  wait_in_flight, look_holds_up, pool_holds_up, in_flight_and, cancelled,
}
use dis_store.Session.{Session, Cb, CbState, EvictMark, stackbd_size_g}
use dis_store.Session.Tables.{cb_at, no_cb}
use dis_store.Session.Links.{Linked, Tied}
use dis_store.Session.Chunks.{first_rkey}
use dis_store.Session.Receive.{before_connected, client_recv, recv_type}
use dis_store.Session.Create.{kernel_cb_init}
use dis_store.Session.Evict.{
  stops, stop_chunks, stop_from, stop_round, stop_chunk, finish_stop, send_done_msg, unmap_stopped,
  unmap_stopped_from, release_gb,
}
use dis_store.Session.Evict.Stopping.{mark_at, gb_of}
use dis_store.Session.Evict.Named.{table_of, Stoppable}
use dis_store.Session.Bind.{ints, state_of, query_from, query_cb, await_free, answer_with}
use dis_store.Session.Bind.Answer.{Ready}
use dis_store.Session.Bind.Asked.{AllOpen}
use dis_store.Session.Bind.Bound.{Answers}
use dis_store.Session.Bind.Whole.{Serves}
use dis_store.Session.Rebind.{Asking, waits_out}
use dis_store.Session.Rebind.Again.{AllWelcome, Welcome}
use dis_store.Selection.{select, open_servers, open_from, server_for, promote}
use dis_store.Samples.{answer}
use dis_store.Samples.Using.{using, using_cb, using_place, using_mine}
use dis_store.Samples.Asking.{one_server}

abbrev idle_server : Cb
idle_server = record no_cb { cb_index = 1 }

unfoldable pub marked : Session
unfolding using
marked = record using {
  cb_list =
      record using_cb {
        remote_chunk = record (using_cb.remote_chunk) {
          evict_chunk_map = EvictMark.stopping ∷ [];
          shrink_size_g = 1;
        };
      }
      ∷ (idle_server ∷ []);
  cb_state_list = CbState.cb_mapped ∷ (CbState.cb_idle ∷ []);
}

marked-Tied : Tied marked 3 0 0
unfolding marked using using_cb
marked-Tied = record {
  has = (omega arith, omega arith);
  full = bitmap_init-IsChunkMap.0;
  back = refl;
}

marked-Linked : Linked marked
unfolding marked using
marked-Linked k c i a b =
    let (on, at) = using_place k in
    let is_3 : k ≡ 3 = ground (arith, on, a) in
    let is_0 : c ≡ 0 = ground (arith, on, a) in
    let chunk : i ≡ 0 = ground (arith, at, b) in rw (is_3, is_0, chunk) marked-Tied

any_server :
    (d : ℕ) → state_of marked d ≢ CbState.cb_idle → before_connected (cb_at marked d).state ≡ false
unfolding marked using using_cb
any_server zero awake = refl
any_server (suc zero) awake = absurd (awake refl)
any_server (suc (suc d)) awake = absurd (awake refl)

pub marked-Ready : Ready marked
unfolding marked using using_cb kernel_cb_init
marked-Ready = record {
  linked = marked-Linked;
  idle = λ k d on q.
      let is_0 : d ≡ 0 = ground (arith, (using_place k).0, on) in
      absurd (
        cc (
          ap (λ x. get_or (CbState.cb_mapped ∷ (CbState.cb_idle ∷ [])) x CbState.cb_idle) is_0,
          q,
        ));
  known = λ d awake. any_server d awake;
  states = refl;
}

marked_chunk :
    (j : ℕ)
    → stops (mark_at (table_of marked 0) j) ≡ true
    → (k : ℕ) × (gb_of (table_of marked 0) j ≡ some k)
unfolding marked using using_cb
marked_chunk zero e = (3, refl)
marked_chunk (suc j) e = absurd (cc)

pub marked-Stoppable : Stoppable marked 0
unfolding marked using using_cb
marked-Stoppable = record {
  there = omega arith;
  keys = refl;
  size = omega arith;
  mine = using_mine;
  mapped = λ j a b e. marked_chunk j e;
}

pub marked_state :
    ((cb_at marked 0).cb_index ≡ 0) × (before_connected (cb_at marked 0).state ≡ false)
unfolding marked using using_cb kernel_cb_init
marked_state = (refl, refl)

-- The idle server has 5 gigabytes, and answers with its chunk 1.
abbrev pub asking : ℕ → Asking
asking k = record { servers = one_server; select_num = 3; randoms = [] }

abbrev pub chosen : ℕ → List ℕ
chosen k = 1 ∷ []

-- One look at a pool in which nothing is in flight.
abbrev pub looks : List (List CtxPool)
looks = (ctx_init ∷ []) ∷ []

-- What the first loops leave.
abbrev first_or : Session → Option (Session × List Bool) → Session × List Bool
first_or s none = (s, [])
first_or s (some p) = p

abbrev stopped : Session × List Bool
stopped = first_or marked (stop_chunks marked 0)

stopped_list : stopped.1 ≡ set (replicate 12 false) 3 true
unfolding marked using using_cb kernel_cb_init stop_chunks stop_from stop_round stop_chunk
stopped_list = refl

only_3 : (k : ℕ) → get_or (set (replicate 12 false) 3 true) k false ≡ true → k ≡ 3
only_3 k on =
    let at = get_or-set (replicate {A = Bool} 12 false) 3 k true false (omega arith) in
    ground (arith, at, get_or-replicate {A = Bool} 12 false k, on)

waited : waits_out looks stopped.0 0 ≡ true
unfolding marked using using_cb kernel_cb_init stop_chunks stop_from stop_round stop_chunk
    finish_stop send_done_msg unmap_stopped_from unmap_stopped wait_in_flight look_holds_up
    pool_holds_up in_flight_and cancelled ctx_init
waited = refl

-- The session that the bind of gigabyte 3 finds.
abbrev released : Session
released = release_gb stopped.0 3

released_select : select 3 [] (open_servers released.cb_state_list) ≡ some (1 ∷ [])
unfolding marked using using_cb kernel_cb_init stop_chunks stop_from stop_round stop_chunk
    finish_stop send_done_msg release_gb select open_from
released_select = refl

released-AllOpen : AllOpen released (1 ∷ [])
unfolding marked using using_cb kernel_cb_init stop_chunks stop_from stop_round stop_chunk
    finish_stop send_done_msg release_gb
released-AllOpen = (omega arith, λ e. absurd (cc), tt)

abbrev the : Option Session → Session
the none = released
the (some s) = s

released-Answers : Answers (the (query_from one_server.free (1 ∷ []) released)) 1 3 1 answer
unfolding marked using using_cb kernel_cb_init stop_chunks stop_from stop_round stop_chunk
    finish_stop send_done_msg release_gb query_from query_cb await_free answer_with client_recv
    recv_type first_rkey
released-Answers = record {
  there = omega arith;
  index = refl;
  connected = refl;
  chunk = omega arith;
  map = omega arith;
  cbs = omega arith;
  slots = omega arith;
  unmapped = refl;
  type = refl;
  gb = refl;
  key = refl;
}

best_is_1 : server_for (ints one_server.free) (1 ∷ []) ≡ some 1
unfolding server_for promote
best_is_1 = refl

some_inj : (a b : ℕ) → some a ≡ some b → a ≡ b
some_inj a b e = cc

released-Serves : Serves one_server (1 ∷ []) released 3
released-Serves asked ran d best =
    let is_1 : 1 ≡ d = some_inj 1 d (sym best_is_1 ∙ best) in
    (
      1,
      subst (λ (x : ℕ). Answers asked x 3 1 answer) is_1
          (subst (λ (x : Session). Answers x 1 3 1 answer) (ap the ran) released-Answers),
    )

released-Welcome : Welcome (asking 3) (chosen 3) released 3
released-Welcome = record {
  chosen = released_select;
  all_open = released-AllOpen;
  serves = released-Serves;
}

-- Past gigabyte 3 none is on the list.
past-AllWelcome :
    (n k : ℕ) (t : Session)
    → 3 < k
    → AllWelcome asking chosen (set (replicate 12 false) 3 true) n k t
unfolding AllWelcome
past-AllWelcome zero k t far = tt
past-AllWelcome (suc n) k t far = (
  λ on. absurd (omega (arith, only_3 k on, far)),
  λ off. past-AllWelcome n (k + 1) t (omega arith),
)

to_3-AllWelcome :
    (n k : ℕ) → AllWelcome asking chosen (set (replicate 12 false) 3 true) n k stopped.0
unfolding AllWelcome
to_3-AllWelcome zero k = tt
to_3-AllWelcome (suc n) k = (
  λ on.
      let is_3 = only_3 k on in
      (
        subst (λ (x : ℕ). Welcome (asking x) (chosen x) (release_gb stopped.0 x) x) (sym is_3)
            released-Welcome,
        λ s' ends. past-AllWelcome n (k + 1) s' (omega (arith, is_3)),
      ),
  λ off. to_3-AllWelcome n (k + 1),
)

pub marked-AllWelcome :
    (s' : Session) (asked : List Bool)
    → stop_chunks marked 0 ≡ some (s', asked)
    → (waits_out looks s' 0 ≡ true) × AllWelcome asking chosen asked stackbd_size_g 0 s'
marked-AllWelcome s' asked ran =
    let same = ap (first_or marked) ran in
    subst
      (λ (p : Session × List Bool).
        (waits_out looks p.0 0 ≡ true) × AllWelcome asking chosen p.1 stackbd_size_g 0 p.0)
      same
      (
        waited,
        subst (λ (l : List Bool). AllWelcome asking chosen l stackbd_size_g 0 stopped.0)
            (sym stopped_list) (to_3-AllWelcome 12 0),
      )
