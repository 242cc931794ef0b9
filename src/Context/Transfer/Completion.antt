-- ===== src/Context/Transfer/Completion.antt =====
-- Transfers from start to completion, and in an order that the code does not exclude.
use dis_store.Prelude.{
  ℕ, ◌<◌, ◌≡◌, refl, ap, ◌∙◌, true, none, some, [], ◌∷◌, arith, length, get_or, get_or-set_self,
  length-set,
}
use dis_store.Context.{CtxPool, Ctx, FreePool, InFlight, idle_ctx, get_ctx, insert_ctx, tail_up}
use dis_store.Context.Transfer.{
  copy_to_disk, post_write, record_pages, end_request, ctx_at, with_ctx, rdma_write,
  client_write_done, write_done_of, end_io3,
}

-- A context that was given back is the next to be given out.
pub get_ctx-insert_ctx :
    (x : ℕ) (p : FreePool)
    → tail_up p.tail < length p.ctx_list
    → (get_ctx (insert_ctx x p)).0 ≡ some x
unfolding get_ctx insert_ctx
get_ctx-insert_ctx x p h = ap some (get_or-set_self p.ctx_list (tail_up p.tail) x 0 h)

ctx_at-with_ctx :
    (p : CtxPool) (x : ℕ) (c : Ctx) → x < length p.ctx_pool → ctx_at (with_ctx p x c) x ≡ c
ctx_at-with_ctx p x c h = get_or-set_self p.ctx_pool x c idle_ctx h

-- The context of a write that was started.
abbrev writing : ℕ → ℕ → ℕ → ℕ → Ctx
writing req chunk offset len = record {
  req = some req;
  chunk_index = some chunk;
  offset = offset;
  len = len;
  chunk_ptr = some chunk;
  in_flight = InFlight.ctx_w_in_flight;
}

ctx_at-rdma_write :
    (p : CtxPool) (x req chunk offset len : ℕ)
    → x < length p.ctx_pool
    → ctx_at (rdma_write true p x req chunk offset len).0 x ≡ writing req chunk offset len
unfolding rdma_write
ctx_at-rdma_write p x req chunk offset len h = ctx_at-with_ctx p x _ h

abbrev ended : ℕ → ℕ → Ctx
ended offset len = record {
  req = none;
  chunk_index = none;
  offset = offset;
  len = len;
  chunk_ptr = none;
  in_flight = InFlight.ctx_idle;
}

write_done-writing :
    (p : CtxPool) (x req chunk offset len : ℕ)
    → ctx_at p x ≡ writing req chunk offset len
    → client_write_done p x
      ≡ (with_ctx p x (ended offset len), record_pages chunk offset len ∷ (end_request req ∷ []))
unfolding client_write_done write_done_of
write_done-writing p x req chunk offset len e = ap (write_done_of p x) e

write_done-ended :
    (p : CtxPool) (x offset len : ℕ)
    → ctx_at p x ≡ ended offset len
    → client_write_done p x ≡ (p, [])
unfolding client_write_done write_done_of
write_done-ended p x offset len e = ap (write_done_of p x) e

ended_idle : (offset len : ℕ) → (ended offset len).in_flight ≡ InFlight.ctx_idle
ended_idle offset len = refl

writing_flight :
    (req chunk offset len : ℕ) → (writing req chunk offset len).in_flight ≡ InFlight.ctx_w_in_flight
writing_flight req chunk offset len = refl

rdma_write_effects :
    (p : CtxPool) (x req chunk offset len : ℕ)
    → (rdma_write true p x req chunk offset len).1
      ≡ copy_to_disk x req ∷ (post_write x chunk offset len ∷ [])
unfolding rdma_write
rdma_write_effects p x req chunk offset len = refl

rdma_write_size :
    (p : CtxPool) (x req chunk offset len : ℕ)
    → x < length p.ctx_pool
    → x < length (rdma_write true p x req chunk offset len).0.ctx_pool
unfolding rdma_write
rdma_write_size p x req chunk offset len h =
    omega (arith, h, length-set p.ctx_pool x (writing req chunk offset len))

freed_context :
    (p : CtxPool) (x req chunk offset len : ℕ)
    → x < length p.ctx_pool
    → tail_up p.free_ctxs.tail < length p.free_ctxs.ctx_list
    → let started = rdma_write true p x req chunk offset len in
      ((end_io3 started.0 x).ctx_pool ≡ started.0.ctx_pool)
      × ((get_ctx (end_io3 started.0 x).free_ctxs).0 ≡ some x)
unfolding end_io3 rdma_write
freed_context p x req chunk offset len h room = (refl, get_ctx-insert_ctx x p.free_ctxs room)

-- What a completion of a write in context `x` does, and a second one.
write_done_twice :
    (p : CtxPool) (x req chunk offset len : ℕ)
    → x < length p.ctx_pool
    → ctx_at p x ≡ writing req chunk offset len
    → let done = client_write_done p x in
      (done.1 ≡ record_pages chunk offset len ∷ (end_request req ∷ []))
      × ((ctx_at done.0 x).in_flight ≡ InFlight.ctx_idle)
      × (client_write_done done.0 x ≡ (done.0, []))
write_done_twice p x req chunk offset len h at =
    let p' = with_ctx p x (ended offset len) in
    let at' : ctx_at p' x ≡ ended offset len = ctx_at-with_ctx p x (ended offset len) h in
    rw (write_done-writing p x req chunk offset len at) (
      refl,
      ap (λ c. c.in_flight) at' ∙ ended_idle offset len,
      write_done-ended p' x offset len at',
    )

-- A write over RDMA copies to disk and posts its transfer; its completion records exactly its
-- pages, ends its request and leaves the context idle, and a second completion does nothing.
pub write_completes :
    (p : CtxPool) (x req chunk offset len : ℕ)
    → x < length p.ctx_pool
    → let started = rdma_write true p x req chunk offset len in
      let done = client_write_done started.0 x in
      (started.1 ≡ copy_to_disk x req ∷ (post_write x chunk offset len ∷ []))
      × (done.1 ≡ record_pages chunk offset len ∷ (end_request req ∷ []))
      × ((ctx_at done.0 x).in_flight ≡ InFlight.ctx_idle)
      × (client_write_done done.0 x ≡ (done.0, []))
write_completes p x req chunk offset len h =
    let twice =
      write_done_twice (rdma_write true p x req chunk offset len).0 x req chunk offset len
        (rdma_write_size p x req chunk offset len h)
        (ctx_at-rdma_write p x req chunk offset len h) in
    (rdma_write_effects p x req chunk offset len, twice.0, twice.1, twice.2)

-- If the copy on disk of a write is completed before its transfer, IS_stackbd_end_io3 frees the
-- context while the transfer is in flight, and IS_get_ctx gives it out next. A second write that
-- takes it is ended by the completion of the first transfer, its pages recorded as held by the
-- server; the completion of its own transfer then does nothing, and the first request is never
-- ended.
pub reused_in_flight :
    (p : CtxPool) (x r1 c1 o1 l1 r2 c2 o2 l2 : ℕ)
    → x < length p.ctx_pool
    → tail_up p.free_ctxs.tail < length p.free_ctxs.ctx_list
    → let freed = end_io3 (rdma_write true p x r1 c1 o1 l1).0 x in
      let p' = record freed { free_ctxs = (get_ctx freed.free_ctxs).1 } in
      let second = rdma_write true p' x r2 c2 o2 l2 in
      let done = client_write_done second.0 x in
      ((get_ctx freed.free_ctxs).0 ≡ some x)
      × ((ctx_at freed x).in_flight ≡ InFlight.ctx_w_in_flight)
      × (done.1 ≡ record_pages c2 o2 l2 ∷ (end_request r2 ∷ []))
      × (client_write_done done.0 x ≡ (done.0, []))
reused_in_flight p x r1 c1 o1 l1 r2 c2 o2 l2 h room =
    let freed = end_io3 (rdma_write true p x r1 c1 o1 l1).0 x in
    let p' : CtxPool = record freed { free_ctxs = (get_ctx freed.free_ctxs).1 } in
    let (pool, given) = freed_context p x r1 c1 o1 l1 h room in
    let size : x < length p'.ctx_pool = rw pool (rdma_write_size p x r1 c1 o1 l1 h) in
    let twice =
      write_done_twice (rdma_write true p' x r2 c2 o2 l2).0 x r2 c2 o2 l2
        (rdma_write_size p' x r2 c2 o2 l2 size) (ctx_at-rdma_write p' x r2 c2 o2 l2 size) in
    (
      given,
      ap (λ l. (get_or l x idle_ctx).in_flight) pool
          ∙ ap (λ c. c.in_flight) (ctx_at-rdma_write p x r1 c1 o1 l1 h)
          ∙ writing_flight r1 c1 o1 l1,
      twice.0,
      twice.2,
    )
