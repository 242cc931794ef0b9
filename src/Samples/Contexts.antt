-- ===== src/Samples/Contexts.antt =====
-- Pools of contexts in use.
use dis_store.Prelude.{
  ◌≡◌, ◌<◌, ◌≤◌, ◌+◌, refl, true, [], ◌∷◌, arith, length, length-replicate, length-set,
}
use dis_store.Context.{CtxPool, Ctx, ctx_init, from_up, get_ctx, idle_ctx, tail_up}
use dis_store.Context.Pool.{Reach, fresh, next, taken}
use dis_store.Context.Transfer.{rdma_write}

-- The fresh pool with its last context taken.
unfoldable pub one_taken : CtxPool
one_taken = record ctx_init { free_ctxs = (get_ctx ctx_init.free_ctxs).1 }

pub one_taken-Reach : Reach one_taken.free_ctxs (255 ∷ [])
unfolding one_taken ctx_init get_ctx from_up
one_taken-Reach = next fresh (taken 255 refl)

pub one_taken_size : 256 ≤ length one_taken.ctx_pool
unfolding one_taken ctx_init
one_taken_size = omega (arith, length-replicate {A = Ctx} 256 idle_ctx)

pub one_taken_room : tail_up one_taken.free_ctxs.tail < length one_taken.free_ctxs.ctx_list
unfolding one_taken ctx_init get_ctx from_up
one_taken_room = omega arith

-- With a write of request 40 in flight in that context.
unfoldable pub one_writing : CtxPool
one_writing = (rdma_write true one_taken 255 40 6 8192 4096).0

length_one_writing : length one_writing.ctx_pool ≡ length one_taken.ctx_pool
unfolding one_writing rdma_write
length_one_writing = length-set one_taken.ctx_pool 255 _

pub one_writing_size : 0 + 256 ≤ length one_writing.ctx_pool
one_writing_size = omega (arith, one_taken_size, length_one_writing)
