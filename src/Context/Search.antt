-- ===== src/Context/Search.antt =====
-- The search for a free context over the connections, at the start of IS_rdma_read and
-- IS_rdma_write (Infiniswap/infiniswap_bd/is_main.c). The loop of the code has no end while every
-- pool is empty; here it has rounds, and `none` says that they are used up.
use dis_store.Prelude.{
  ℕ, zero, suc, ◌+◌, ◌-◌, ◌≤◌, ◌<◌, ◌%◌, ◌≡◌, ◌≢◌, ◌⊎◌, inl, inr, refl, ap, ◌∙◌, Option, none, some,
  List, [], arith, length, get_or, Option-cases,
}
use native.Mathlib.Nat.{mod-eq_of_lt, mod-add-mod, mod-lt, add-mod_right}
use dis_store.Context.{FreePool, get_ctx}

abbrev pub no_pool : FreePool
no_pool = record { ctx_list = []; tail = none }

-- The pools of the `length pools` connections for one server, from connection `conn_id` on.
unfoldable pub find_ctx : ℕ → List FreePool → ℕ → Option (ℕ × ℕ × FreePool)
find_ctx zero pools conn_id = none
find_ctx (suc n) pools conn_id =
    let next = find_ctx n pools ((conn_id + 1) % length pools) in
    let (ctx, left) = get_ctx (get_or pools conn_id no_pool) in
    elim ctx [ none ↦ next | some x ↦ some (conn_id, x, left) ]

-- A pool with a free context.
abbrev pub HasFree : List FreePool → ℕ → Type 0
HasFree pools j = (get_ctx (get_or pools j no_pool)).0 ≢ none

-- The search has found context `x` of connection `j`, and its pool without it.
abbrev pub Found : ℕ → List FreePool → ℕ → Type 0
Found n pools conn_id =
    (j : ℕ) × (x : ℕ) × (left : FreePool) × (find_ctx n pools conn_id ≡ some (j, x, left))
    × (get_ctx (get_or pools j no_pool) ≡ (some x, left))

find_here :
    (n : ℕ) (pools : List FreePool) (conn_id x : ℕ)
    → (get_ctx (get_or pools conn_id no_pool)).0 ≡ some x
    → find_ctx (suc n) pools conn_id ≡ some (conn_id, x, (get_ctx (get_or pools conn_id no_pool)).1)
unfolding find_ctx
find_here n pools conn_id x e = rw (find_ctx, e) refl

find_further :
    (n : ℕ) (pools : List FreePool) (conn_id : ℕ)
    → (get_ctx (get_or pools conn_id no_pool)).0 ≡ none
    → find_ctx (suc n) pools conn_id ≡ find_ctx n pools ((conn_id + 1) % length pools)
unfolding find_ctx
find_further n pools conn_id e = rw (find_ctx, e) refl

-- With nothing free at `conn_id`, what is free is one connection nearer to the next.
one_closer :
    (pools : List FreePool) (conn_id d : ℕ)
    → conn_id < length pools
    → HasFree pools ((conn_id + d) % length pools)
    → (get_ctx (get_or pools conn_id no_pool)).0 ≡ none
    → (d' : ℕ) × (d' < d) × HasFree pools (((conn_id + 1) % length pools + d') % length pools)
one_closer pools conn_id zero c free e =
    let same : (conn_id + 0) % length pools ≡ conn_id =
      ap (λ k. k % length pools) (omega arith) ∙ mod-eq_of_lt c in
    absurd (free (ap (λ k. (get_ctx (get_or pools k no_pool)).0) same ∙ e))
one_closer pools conn_id (suc d) c free e =
    let turn : ((conn_id + 1) % length pools + d) % length pools
        ≡ (conn_id + suc d) % length pools =
      mod-add-mod (conn_id + 1) (length pools) d ∙ ap (λ k. k % length pools) (omega arith) in
    (d, omega arith, rw turn free)

-- A free context at `d` connections further on, cyclically, is reached in more than `d` rounds.
find_ctx-further :
    (n d : ℕ) (pools : List FreePool) (conn_id : ℕ)
    → conn_id < length pools
    → d < n
    → HasFree pools ((conn_id + d) % length pools)
    → Found n pools conn_id
find_ctx-further zero d pools conn_id c h free = absurd (omega arith)
find_ctx-further (suc n) d pools conn_id c h free =
    elim (Option-cases (get_ctx (get_or pools conn_id no_pool)).0) [
      | inr (x, e) ↦ (
        conn_id,
        x,
        (get_ctx (get_or pools conn_id no_pool)).1,
        find_here n pools conn_id x e,
        ap (λ o. (o, (get_ctx (get_or pools conn_id no_pool)).1)) e,
      )
      | inl e ↦
          let (d', h', free') = one_closer pools conn_id d c free e in
          rw (find_further n pools conn_id e) (
            find_ctx-further n d' pools ((conn_id + 1) % length pools)
              (mod-lt (conn_id + 1) (omega arith)) (omega arith) free')
    ]

le_or_lt : (a b : ℕ) → (a ≤ b) ⊎ (b < a)
le_or_lt a b = ground arith

-- How far it is from one connection to another, cyclically.
pub distance : (c k n : ℕ) → c < n → k < n → (d : ℕ) × (d < n) × ((c + d) % n ≡ k)
distance c k n hc hk = elim (le_or_lt c k) [
  | inl le ↦ (k - c, omega arith, ap (λ t. t % n) (omega arith) ∙ mod-eq_of_lt hk)
  | inr lt ↦
      (k + n - c, omega arith, ap (λ t. t % n) (omega arith) ∙ add-mod_right k n ∙ mod-eq_of_lt hk)
]

-- If some connection has a free context, one round over the connections finds a context, from
-- whichever connection it starts, and takes it from the pool of the connection that it names.
pub find_ctx-finds :
    (pools : List FreePool) (conn_id k : ℕ)
    → conn_id < length pools
    → k < length pools
    → HasFree pools k
    → Found (length pools) pools conn_id
find_ctx-finds pools conn_id k hc hk free =
    let (d, hd, e) = distance conn_id k (length pools) hc hk in
    find_ctx-further (length pools) d pools conn_id hc hd (rw e free)
