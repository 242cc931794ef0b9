-- ===== src/Context/Transfer.antt =====
-- Transfers over the contexts of one server (Infiniswap/infiniswap_bd/is_main.c): the second half
-- of IS_rdma_read and IS_rdma_write, from the context `x` on, their completions client_read_done
-- and client_write_done, the completion IS_stackbd_end_io3 of the copy on disk, and the drain of
-- IS_disconnect_handler. ib_post_send is taken to succeed. What leaves the driver is an effect.
pub mod Completion
pub mod Drain
pub mod Quiet
use dis_store.Prelude.{
  ℕ, zero, suc, ◌+◌, Bool, true, false, Option, none, some, List, [], ◌∷◌, ◌++◌, if◌then◌else◌,
  get_or, set,
}
use dis_store.Context.{
  CtxPool, Ctx, InFlight, ctx_idle, ctx_r_in_flight, ctx_w_in_flight, idle_ctx, insert_ctx,
}

-- IS_mq_request_stackbd2, stackbd_bio_generate, ib_post_send of a write and of a read,
-- IS_bitmap_group_set of a chunk, memcpy into the request, blk_mq_end_request.
pub data Effect : Type 0 where
  to_disk : (req : ℕ) → Effect
  copy_to_disk : (ctx req : ℕ) → Effect
  post_write : (ctx chunk offset len : ℕ) → Effect
  post_read : (ctx chunk offset len : ℕ) → Effect
  record_pages : (chunk offset len : ℕ) → Effect
  fill_request : (req : ℕ) → Effect
  end_request : (req : ℕ) → Effect

abbrev pub ctx_at : CtxPool → ℕ → Ctx
ctx_at p x = get_or p.ctx_pool x idle_ctx

abbrev pub with_ctx : CtxPool → ℕ → Ctx → CtxPool
with_ctx p x c = record p { ctx_pool = set p.ctx_pool x c }

abbrev pub give_back : CtxPool → ℕ → CtxPool
give_back p x = record p { free_ctxs = insert_ctx x p.free_ctxs }

-- IS_rdma_read with context `x`.
unfoldable pub rdma_read : Bool → CtxPool → ℕ → ℕ → ℕ → ℕ → ℕ → CtxPool × List Effect
rdma_read rdma_on p x req chunk offset len =
    let c : Ctx = record (ctx_at p x) {
      req = some req;
      chunk_index = some chunk;
      in_flight = if rdma_on then InFlight.ctx_r_in_flight else InFlight.ctx_idle;
    } in
    if rdma_on
    then (with_ctx p x c, post_read x chunk offset len ∷ [])
    else (give_back (with_ctx p x c) x, to_disk req ∷ [])

-- IS_rdma_write with context `x`.
unfoldable pub rdma_write : Bool → CtxPool → ℕ → ℕ → ℕ → ℕ → ℕ → CtxPool × List Effect
rdma_write rdma_on p x req chunk offset len =
    let c : Ctx = record {
      req = some req;
      chunk_index = some chunk;
      offset = offset;
      len = len;
      chunk_ptr = some chunk;
      in_flight = if rdma_on then InFlight.ctx_w_in_flight else InFlight.ctx_idle;
    } in
    if rdma_on
    then (with_ctx p x c, copy_to_disk x req ∷ (post_write x chunk offset len ∷ []))
    else (give_back (with_ctx p x c) x, to_disk req ∷ [])

-- blk_mq_end_request of a request that may be null, where the code tests it.
abbrev pub end_if : Option ℕ → List Effect
end_if none = []
end_if (some req) = end_request req ∷ []

-- client_read_done of context `x`, which holds `c`. A context without a request, a fault in C, has
-- no effect here.
unfoldable pub read_done_of : CtxPool → ℕ → Ctx → CtxPool × List Effect
read_done_of p x c =
    let c' : Ctx = record c { in_flight = InFlight.ctx_idle; chunk_index = none; req = none } in
    elim c.req [
      | none ↦ (p, [])
      | some req ↦ (give_back (with_ctx p x c') x, fill_request req ∷ (end_request req ∷ []))
    ]

unfoldable pub client_read_done : CtxPool → ℕ → CtxPool × List Effect
client_read_done p x = read_done_of p x (ctx_at p x)

-- client_write_done of context `x`, which holds `c`.
unfoldable pub write_done_of : CtxPool → ℕ → Ctx → CtxPool × List Effect
write_done_of p x c =
    let c' : Ctx = record c {
      in_flight = InFlight.ctx_idle;
      chunk_index = none;
      chunk_ptr = none;
      req = none;
    } in
    elim c.chunk_ptr [
      | none ↦ (p, [])
      | some chunk ↦ (with_ctx p x c', record_pages chunk c.offset c.len ∷ end_if c.req)
    ]

unfoldable pub client_write_done : CtxPool → ℕ → CtxPool × List Effect
client_write_done p x = write_done_of p x (ctx_at p x)

-- IS_stackbd_end_io3
unfoldable pub end_io3 : CtxPool → ℕ → CtxPool
end_io3 p x = give_back p x

-- What becomes of the request of a context that is drained: a read goes to disk, a write is ended.
-- A read in flight without a request, a fault in C, sends nothing to disk here.
unfoldable pub drained_request : Ctx → List Effect
drained_request c = elim c.in_flight [
  | ctx_idle ↦ []
  | ctx_r_in_flight ↦ elim c.req [ none ↦ [] | some req ↦ to_disk req ∷ [] ]
  | ctx_w_in_flight ↦ end_if c.req
]

-- What IS_disconnect_handler does with context `x`, which holds `c`.
unfoldable pub drain_of : CtxPool → ℕ → Ctx → CtxPool
drain_of p x c =
    let idle = with_ctx p x (record c { in_flight = InFlight.ctx_idle }) in
    elim c.in_flight [ ctx_idle ↦ p | ctx_r_in_flight ↦ give_back idle x | ctx_w_in_flight ↦ idle ]

-- Its loop over the pool of one connection, from context `x` on with `n` rounds left.
unfoldable pub drain : ℕ → ℕ → CtxPool → CtxPool × List Effect
drain zero x p = (p, [])
drain (suc n) x p =
    let (p', later) = drain n (x + 1) (drain_of p x (ctx_at p x)) in
    (p', drained_request (ctx_at p x) ++ later)
