-- ===== src/Context/Transfer/Quiet/First.antt =====
-- What the wait for the requests in flight waits for.
use dis_store.Prelude.{
  ℕ, zero, suc, ◌+◌, ◌≤◌, ◌<◌, ◌≡◌, ◌≢◌, ◌↔◌, inl, inr, refl, ◌∙◌, Bool, true, false, Option, none,
  some, List, [], ◌∷◌, arith, get_or, Bool-cases, Option-cases,
}
use native.Mathlib.Decide.{ℕ_discrete}
use dis_store.Context.{
  CtxPool, Ctx, InFlight, ctx_idle, ctx_r_in_flight, ctx_w_in_flight, queue_depth,
}
use dis_store.Context.Transfer.{ctx_at}
use mathlib.Core.Path.{subst}
use dis_store.Context.Transfer.Quiet.{
  cancelled, in_flight_and, holds_up, pool_holds_up, look_holds_up, wait_in_flight,
}

-- A transfer is in flight to a chunk that is not in the chunk map.
pub record Pending (chunk_map : List (Option ℕ)) (c : Ctx) : Type 0 where
  moving : c.in_flight ≢ InFlight.ctx_idle
  chunk : ℕ
  of_ctx : c.chunk_index ≡ some chunk
  gone : get_or chunk_map chunk none ≡ none

cancelled_chunk :
    (chunk_map : List (Option ℕ)) (o : Option ℕ)
    → cancelled chunk_map o ≡ true
    → (i : ℕ) × (o ≡ some i) × (get_or chunk_map i none ≡ none)
unfolding cancelled
cancelled_chunk chunk_map none e = absurd (cc)
cancelled_chunk chunk_map (some i) e = (
  i,
  refl,
  elim (Option-cases (get_or chunk_map i none)) [ inl n ↦ n | inr (k, h) ↦ absurd (cc) ],
)

in_flight_and-true :
    (f : InFlight) (gone : Bool)
    → in_flight_and f gone ≡ true
    → (f ≢ InFlight.ctx_idle) × (gone ≡ true)
unfolding in_flight_and
in_flight_and-true ctx_idle gone e = absurd (cc)
in_flight_and-true ctx_r_in_flight gone e = (λ h. absurd (cc), e)
in_flight_and-true ctx_w_in_flight gone e = (λ h. absurd (cc), e)

in_flight_and-moving :
    (f : InFlight) (gone : Bool) → f ≢ InFlight.ctx_idle → in_flight_and f gone ≡ gone
unfolding in_flight_and
in_flight_and-moving ctx_idle gone ne = absurd (ne refl)
in_flight_and-moving ctx_r_in_flight gone ne = refl
in_flight_and-moving ctx_w_in_flight gone ne = refl

holds_up-Pending :
    (chunk_map : List (Option ℕ)) (c : Ctx) → holds_up chunk_map c ≡ true → Pending chunk_map c
holds_up-Pending chunk_map c h =
    let (moving, b) = in_flight_and-true c.in_flight (cancelled chunk_map c.chunk_index) h in
    let (i, e, n) = cancelled_chunk chunk_map c.chunk_index b in
    record { moving = moving; chunk = i; of_ctx = e; gone = n }

Pending-holds_up :
    (chunk_map : List (Option ℕ)) (c : Ctx) → Pending chunk_map c → holds_up chunk_map c ≡ true
unfolding cancelled
Pending-holds_up chunk_map c p =
    in_flight_and-moving c.in_flight (cancelled chunk_map c.chunk_index) p.moving
    ∙ (rw (cancelled, p.of_ctx, p.gone) refl)

-- No context from `x` on, `n` of them, has such a transfer.
StillFrom : List (Option ℕ) → ℕ → ℕ → CtxPool → Type 0
StillFrom chunk_map n x p = (j : ℕ) → x ≤ j → j < x + n → ¬ Pending chunk_map (ctx_at p j)

pool_holds_up-false :
    (chunk_map : List (Option ℕ)) (n x : ℕ) (p : CtxPool)
    → pool_holds_up chunk_map n x p ≡ false
    → StillFrom chunk_map n x p
unfolding pool_holds_up StillFrom
pool_holds_up-false chunk_map zero x p e j a b = absurd (omega arith)
pool_holds_up-false chunk_map (suc n) x p e j a b = λ q. elim (ℕ_discrete x j) [
  | yes same ↦ absurd (ground (arith, Pending-holds_up chunk_map (ctx_at p j) q))
  | no ne ↦ pool_holds_up-false chunk_map n (x + 1) p (ground arith) j (omega arith) (omega arith) q
]

StillFrom-pool_holds_up :
    (chunk_map : List (Option ℕ)) (n x : ℕ) (p : CtxPool)
    → StillFrom chunk_map n x p
    → pool_holds_up chunk_map n x p ≡ false
unfolding pool_holds_up StillFrom
StillFrom-pool_holds_up chunk_map zero x p f = refl
StillFrom-pool_holds_up chunk_map (suc n) x p f =
    let rest =
      StillFrom-pool_holds_up chunk_map n (x + 1) p (λ j a b. f j (omega arith) (omega arith)) in
    elim (Bool-cases (holds_up chunk_map (ctx_at p x))) [
      | inl h ↦ absurd (f x (omega arith) (omega arith) (holds_up-Pending chunk_map (ctx_at p x) h))
      | inr h ↦ ground (arith, h, rest)
    ]

-- No pool of a look has a context with such a transfer.
pub data Quiet (chunk_map : List (Option ℕ)) : List CtxPool → Type 0 where
  no_pools : Quiet chunk_map []
  one_more :
      (p : CtxPool) (ps : List CtxPool)
      → ((x : ℕ) → x < queue_depth → ¬ Pending chunk_map (ctx_at p x))
      → Quiet chunk_map ps
      → Quiet chunk_map (p ∷ ps)

look_holds_up-false :
    (chunk_map : List (Option ℕ)) (look : List CtxPool)
    → look_holds_up chunk_map look ≡ false
    → Quiet chunk_map look
unfolding look_holds_up StillFrom
look_holds_up-false chunk_map [] e = no_pools
look_holds_up-false chunk_map (p ∷ ps) e =
    one_more p ps
      (λ x lt.
        pool_holds_up-false chunk_map queue_depth 0 p (ground arith) x (omega arith) (omega arith))
      (look_holds_up-false chunk_map ps (ground arith))

Quiet-look_holds_up :
    (chunk_map : List (Option ℕ)) (look : List CtxPool)
    → Quiet chunk_map look
    → look_holds_up chunk_map look ≡ false
unfolding look_holds_up StillFrom
Quiet-look_holds_up chunk_map look no_pools = refl
Quiet-look_holds_up chunk_map look (one_more p ps h q) =
    let a = StillFrom-pool_holds_up chunk_map queue_depth 0 p (λ j le lt. h j (omega arith)) in
    let b = Quiet-look_holds_up chunk_map ps q in ground (arith, a, b)

-- `rest` are the looks behind the first quiet one.
pub data FirstQuiet (chunk_map : List (Option ℕ)) (rest : List (List CtxPool))
    : List (List CtxPool) → Type 0 where
  found : (look : List CtxPool) → Quiet chunk_map look → FirstQuiet chunk_map rest (look ∷ rest)
  behind :
      (look : List CtxPool) (looks : List (List CtxPool))
      → ¬ Quiet chunk_map look
      → FirstQuiet chunk_map rest looks
      → FirstQuiet chunk_map rest (look ∷ looks)

wait_in_flight-FirstQuiet :
    (chunk_map : List (Option ℕ)) (looks rest : List (List CtxPool))
    → wait_in_flight chunk_map looks ≡ some rest
    → FirstQuiet chunk_map rest looks
unfolding wait_in_flight
wait_in_flight-FirstQuiet chunk_map [] rest e = absurd (cc)
wait_in_flight-FirstQuiet chunk_map (look ∷ looks) rest e =
    elim (Bool-cases (look_holds_up chunk_map look)) [
      | inl h ↦
          behind look looks (λ q. absurd (ground (arith, Quiet-look_holds_up chunk_map look q)))
            (wait_in_flight-FirstQuiet chunk_map looks rest (ground arith))
      | inr h ↦
          let same : looks ≡ rest = ground (arith, h) in
          subst (λ r. FirstQuiet chunk_map r (look ∷ looks)) same
            (found look (look_holds_up-false chunk_map look h))
    ]

FirstQuiet-wait_in_flight :
    (chunk_map : List (Option ℕ)) (rest looks : List (List CtxPool))
    → FirstQuiet chunk_map rest looks
    → wait_in_flight chunk_map looks ≡ some rest
unfolding wait_in_flight
FirstQuiet-wait_in_flight chunk_map rest looks (found look q) =
    ground (arith, Quiet-look_holds_up chunk_map look q)
FirstQuiet-wait_in_flight chunk_map rest looks (behind look more n f) =
    elim (Bool-cases (look_holds_up chunk_map look)) [
      | inl h ↦ ground (arith, h, FirstQuiet-wait_in_flight chunk_map rest more f)
      | inr h ↦ absurd (n (look_holds_up-false chunk_map look h))
    ]

-- IS_chunk_wait_in_flight_requests returns at the first look at which no connection has a transfer
-- in flight to a chunk that is not in the chunk map any more, whatever else is in flight, and waits
-- as long as every look has such a transfer.
pub wait_in_flight_iff :
    (chunk_map : List (Option ℕ)) (looks rest : List (List CtxPool))
    → wait_in_flight chunk_map looks ≡ some rest ↔ FirstQuiet chunk_map rest looks
wait_in_flight_iff chunk_map looks rest =
    (wait_in_flight-FirstQuiet chunk_map looks rest, FirstQuiet-wait_in_flight chunk_map rest looks)
