-- ===== src/Context.antt =====
-- The contexts of RDMA transfers (Infiniswap/infiniswap_bd/is_main.c): for each connection and
-- server a pool of them, and a stack of those that are free. A context is its place in `ctx_pool`.
-- `tail`, the index of the last free one, is -1 when there is none, and is an `Option`.
pub mod Pool
pub mod Transfer
pub mod Search
use dis_store.Prelude.{
  ℕ, zero, suc, ◌+◌, ◌%◌, Bool, true, false, Option, none, some, List, [], ◌∷◌, ◌==◌, if◌then◌else◌,
  get_or, set, replicate,
}

-- IS_QUEUE_DEPTH
abbrev pub queue_depth : ℕ
queue_depth = 256

-- CTX_IDLE, CTX_R_IN_FLIGHT, CTX_W_IN_FLIGHT
pub data InFlight : Type 0 where
  ctx_idle ctx_r_in_flight ctx_w_in_flight : InFlight

-- `struct rdma_ctx`, of which `req` and `chunk_ptr` may be null and `chunk_index` -1. A request is
-- a number; a chunk is its place in the server's list.
pub record Ctx : Type 0 where
  pub req : Option ℕ
  pub chunk_index : Option ℕ
  pub offset : ℕ
  pub len : ℕ
  pub chunk_ptr : Option ℕ
  pub in_flight : InFlight

-- `struct free_ctx_pool`
pub record FreePool : Type 0 where
  pub ctx_list : List ℕ
  pub tail : Option ℕ

-- `struct ctx_pool_list`
pub record CtxPool : Type 0 where
  pub ctx_pool : List Ctx
  pub free_ctxs : FreePool

abbrev pub idle_ctx : Ctx
idle_ctx = record {
  req = none;
  chunk_index = none;
  offset = 0;
  len = 0;
  chunk_ptr = none;
  in_flight = InFlight.ctx_idle;
}

-- The numbers from `i` on, `n` of them.
unfoldable pub from_up : ℕ → ℕ → List ℕ
from_up zero i = []
from_up (suc n) i = i ∷ from_up n (i + 1)

-- IS_ctx_init
unfoldable pub ctx_init : CtxPool
ctx_init = record {
  ctx_pool = replicate queue_depth idle_ctx;
  free_ctxs = record { ctx_list = from_up queue_depth 0; tail = some 255 };
}

-- `tail - 1` and `tail + 1`
abbrev pub tail_down : ℕ → Option ℕ
tail_down zero = none
tail_down (suc k) = some k

abbrev pub tail_up : Option ℕ → ℕ
tail_up none = 0
tail_up (some k) = suc k

-- IS_get_ctx
unfoldable pub get_ctx : FreePool → Option ℕ × FreePool
get_ctx p = elim p.tail [
  | none ↦ (none, p)
  | some k ↦ (some (get_or p.ctx_list k 0), record p { tail = tail_down k })
]

-- IS_insert_ctx. Past IS_QUEUE_DEPTH - 1 the code logs an error after it has written past the array.
unfoldable pub insert_ctx : ℕ → FreePool → FreePool
insert_ctx x p = record p {
  tail = some (tail_up p.tail);
  ctx_list = set p.ctx_list (tail_up p.tail) x;
}
