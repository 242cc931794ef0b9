-- ===== src/Context/Transfer/Quiet.antt =====
-- IS_chunk_wait_in_flight_requests (Infiniswap/infiniswap_bd/is_main.c): evict_handler waits until
-- no transfer is in flight to a chunk that it has taken out of the chunk map. A look is one round of
-- the loop: the pools of the connections, each as the round finds it. A context in flight without a
-- chunk, a read before the array in C, is not waited for here; there is at least one connection.
pub mod First
use dis_store.Prelude.{
  ℕ, zero, suc, ◌+◌, ◌≤◌, ◌<◌, ◌≡◌, ◌≢◌, ◌↔◌, inl, inr, refl, sym, ap, ◌∙◌, Bool, true, false, not,
  ◌||◌, ◌&&◌, Option, none, some, List, [], ◌∷◌, if◌then◌else◌, arith, get_or, Bool-cases,
  Option-cases,
}
use native.Mathlib.Decide.{ℕ_discrete}
use dis_store.Context.{
  CtxPool, Ctx, InFlight, ctx_idle, ctx_r_in_flight, ctx_w_in_flight, queue_depth,
}
use dis_store.Context.Transfer.{ctx_at}

abbrev pub is_none {ℓ} : {A : Type ℓ} → Option A → Bool
is_none none = true
is_none (some x) = false

-- chunk_map[ctx->chunk_index] == -1
unfoldable pub cancelled : List (Option ℕ) → Option ℕ → Bool
cancelled chunk_map none = false
cancelled chunk_map (some i) = is_none (get_or chunk_map i none)

-- The `switch` over the state of a context.
unfoldable pub in_flight_and : InFlight → Bool → Bool
in_flight_and ctx_idle gone = false
in_flight_and ctx_r_in_flight gone = gone
in_flight_and ctx_w_in_flight gone = gone

-- Whether the round stops at a context.
abbrev pub holds_up : List (Option ℕ) → Ctx → Bool
holds_up chunk_map c = in_flight_and c.in_flight (cancelled chunk_map c.chunk_index)

-- The round over one pool, from context `x` on with `n` of them left: whether it stops there.
unfoldable pub pool_holds_up : List (Option ℕ) → ℕ → ℕ → CtxPool → Bool
pool_holds_up chunk_map zero x p = false
pool_holds_up chunk_map (suc n) x p =
    let rest = pool_holds_up chunk_map n (x + 1) p in holds_up chunk_map (ctx_at p x) || rest

-- The round over the connections.
unfoldable pub look_holds_up : List (Option ℕ) → List CtxPool → Bool
look_holds_up chunk_map [] = false
look_holds_up chunk_map (p ∷ ps) =
    let rest = look_holds_up chunk_map ps in pool_holds_up chunk_map queue_depth 0 p || rest

-- IS_chunk_wait_in_flight_requests over the looks that it gets: those that are left when it
-- returns, which is always 0, or `none` while it waits.
unfoldable pub wait_in_flight : List (Option ℕ) → List (List CtxPool) → Option (List (List CtxPool))
wait_in_flight chunk_map [] = none
wait_in_flight chunk_map (look ∷ looks) =
    let later = wait_in_flight chunk_map looks in
    if look_holds_up chunk_map look then later else some looks
