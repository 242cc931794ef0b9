-- ===== src/Context/Transfer/Drain.antt =====
-- The drain of IS_disconnect_handler: every context of the pool, once.
use dis_store.Prelude.{
  ◌⊎◌, inl, inr, ℕ, zero, suc, ◌+◌, ◌≤◌, ◌<◌, ◌≡◌, refl, ap, ap₂, ◌∙◌, ◌==◌, if◌then◌else◌, Option,
  none, some, List, [], ◌∷◌, ◌++◌, arith, length, get_or, set, get_or-set, length-set,
}
use native.Mathlib.Decide.{ℕ_discrete}
use dis_store.Context.{CtxPool, Ctx, InFlight, ctx_idle, ctx_r_in_flight, ctx_w_in_flight, idle_ctx}
use dis_store.Context.Transfer.{
  Effect, to_disk, end_request, ctx_at, with_ctx, drained_request, drain_of, drain,
}

-- What is to leave the driver for a context: a read in flight goes to disk, a write in flight is
-- ended, and nothing leaves without a request.
pub outcome : InFlight → Option ℕ → List Effect
outcome ctx_idle req = []
outcome ctx_r_in_flight none = []
outcome ctx_r_in_flight (some req) = to_disk req ∷ []
outcome ctx_w_in_flight none = []
outcome ctx_w_in_flight (some req) = end_request req ∷ []

abbrev outcome_of : Ctx → List Effect
outcome_of c = outcome c.in_flight c.req

-- What is to leave the driver for the contexts from `x` on, as they stand in `pool`.
pub outcomes : ℕ → ℕ → List Ctx → List Effect
outcomes zero x pool = []
outcomes (suc n) x pool = outcome_of (get_or pool x idle_ctx) ++ outcomes n (x + 1) pool

drained_request-outcome :
    (f : InFlight) (req : Option ℕ) (c : Ctx)
    → c.in_flight ≡ f
    → c.req ≡ req
    → drained_request c ≡ outcome f req
unfolding drained_request outcome
drained_request-outcome ctx_idle req c e r = rw (drained_request, e) refl
drained_request-outcome ctx_r_in_flight none c e r = rw (drained_request, e, r) refl
drained_request-outcome ctx_r_in_flight (some req) c e r = rw (drained_request, e, r) refl
drained_request-outcome ctx_w_in_flight none c e r = rw (drained_request, e, r) refl
drained_request-outcome ctx_w_in_flight (some req) c e r = rw (drained_request, e, r) refl

abbrev pub idled : Ctx → Ctx
idled c = record c { in_flight = InFlight.ctx_idle }

with_ctx-at :
    (p : CtxPool) (x j : ℕ) (c : Ctx)
    → x < length p.ctx_pool
    → (ctx_at (with_ctx p x c) j ≡ (if x == j then c else ctx_at p j))
      × (length (with_ctx p x c).ctx_pool ≡ length p.ctx_pool)
with_ctx-at p x j c h = (get_or-set p.ctx_pool x j c idle_ctx h, length-set p.ctx_pool x c)

if_same : (p : CtxPool) (x j : ℕ) → ctx_at p j ≡ (if x == j then ctx_at p x else ctx_at p j)
if_same p x j = ground arith

InFlight-cases :
    (f : InFlight)
    → (f ≡ InFlight.ctx_idle) ⊎ ((f ≡ InFlight.ctx_r_in_flight) ⊎ (f ≡ InFlight.ctx_w_in_flight))
InFlight-cases ctx_idle = inl refl
InFlight-cases ctx_r_in_flight = inr (inl refl)
InFlight-cases ctx_w_in_flight = inr (inr refl)

-- All that the drain does to the contexts of the pool.
drain_of-pool :
    (p : CtxPool) (x : ℕ) (c : Ctx)
    → ((drain_of p x c).ctx_pool ≡ set p.ctx_pool x (idled c))
      ⊎ (((drain_of p x c).ctx_pool ≡ p.ctx_pool) × (c.in_flight ≡ InFlight.ctx_idle))
unfolding drain_of
drain_of-pool p x c = elim (InFlight-cases c.in_flight) [
  | inl e ↦ inr (rw (drain_of, e) refl, e)
  | inr (inl e) ↦ inl (rw (drain_of, e) refl)
  | inr (inr e) ↦ inl (rw (drain_of, e) refl)
]

idled_same : (c : Ctx) → c.in_flight ≡ InFlight.ctx_idle → c ≡ idled c
idled_same c e = λ i. record {
  req = c.req;
  chunk_index = c.chunk_index;
  offset = c.offset;
  len = c.len;
  chunk_ptr = c.chunk_ptr;
  in_flight = e i;
}

drain_of-at :
    (p : CtxPool) (x j : ℕ)
    → x < length p.ctx_pool
    → (ctx_at (drain_of p x (ctx_at p x)) j ≡ (if x == j then idled (ctx_at p x) else ctx_at p j))
      × (length (drain_of p x (ctx_at p x)).ctx_pool ≡ length p.ctx_pool)
drain_of-at p x j h = elim (drain_of-pool p x (ctx_at p x)) [
  | inl e ↦ (
    ap (λ l. get_or l j idle_ctx) e ∙ get_or-set p.ctx_pool x j (idled (ctx_at p x)) idle_ctx h,
    ap length e ∙ length-set p.ctx_pool x (idled (ctx_at p x)),
  )
  | inr (e, idle) ↦ (
    ap (λ l. get_or l j idle_ctx) e
        ∙ if_same p x j
        ∙ ap (λ c. if x == j then c else ctx_at p j) (idled_same (ctx_at p x) idle),
    ap length e,
  )
]

outcomes-from :
    (n x : ℕ) (p q : List Ctx)
    → ((j : ℕ) → x ≤ j → get_or p j idle_ctx ≡ get_or q j idle_ctx)
    → outcomes n x p ≡ outcomes n x q
unfolding outcomes
outcomes-from zero x p q h = refl
outcomes-from (suc n) x p q h =
    ap₂ (λ c rest. outcome_of c ++ rest) (h x (omega arith))
      (outcomes-from n (x + 1) p q (λ j le. h j (omega arith)))

-- After IS_disconnect_handler's loop over the contexts from `x` on, `n` of them, each of these is
-- idle and holds what it held, no other has changed, and what has left the driver is, in their
-- order, one effect for each request in flight: a request that is read has gone to disk, one that is
-- written is ended.
pub drain-outcomes :
    (n x : ℕ) (p : CtxPool)
    → x + n ≤ length p.ctx_pool
    → ((drain n x p).1 ≡ outcomes n x p.ctx_pool)
      × ((j : ℕ) → x ≤ j → j < x + n → ctx_at (drain n x p).0 j ≡ idled (ctx_at p j))
      × ((j : ℕ) → j < x ⊎ x + n ≤ j → ctx_at (drain n x p).0 j ≡ ctx_at p j)
unfolding drain outcomes
drain-outcomes zero x p h = (refl, λ j a b. absurd (omega arith), λ j o. refl)
drain-outcomes (suc n) x p h =
    let p' = drain_of p x (ctx_at p x) in
    let step = λ (j : ℕ). drain_of-at p x j (omega arith) in
    let (effects, inside, outside) = drain-outcomes n (x + 1) p' (omega (arith, (step 0).1)) in
    (
      ap₂ (λ now rest. now ++ rest)
          (drained_request-outcome (ctx_at p x).in_flight (ctx_at p x).req (ctx_at p x) refl refl)
          (effects
            ∙ outcomes-from n (x + 1) p'.ctx_pool p.ctx_pool (λ j le. ground (arith, (step j).0))),
      λ j a b. elim (ℕ_discrete x j) [
        | yes e ↦ outside j (inl (omega arith)) ∙ ground (arith, (step j).0)
        | no ne ↦
            let same : ctx_at p' j ≡ ctx_at p j = ground (arith, (step j).0) in
            inside j (omega arith) (omega arith) ∙ ap idled same
      ],
      λ j o. outside j (ground arith) ∙ ground (arith, (step j).0),
    )
