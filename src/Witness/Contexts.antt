-- ===== src/Witness/Contexts.antt =====
-- The theorems on contexts and transfers at a pool with one context taken.
use dis_store.Prelude.{ℕ, ◌+◌, ◌≡◌, ◌<◌, ◌≤◌, ◌↔◌, ◌⊎◌, length, true, some, none, [], ◌∷◌, arith}
use dis_store.Context.{FreePool, InFlight, get_ctx, queue_depth, tail_up}
use dis_store.Context.Pool.{occurs, get_ctx-unheld}
use dis_store.Context.Transfer.{
  rdma_write, client_write_done, end_io3, ctx_at, drain, record_pages, end_request,
}
use dis_store.Context.Transfer.Completion.{reused_in_flight}
use dis_store.Context.Transfer.Drain.{drain-outcomes, outcomes, idled}
use dis_store.Context.Transfer.Quiet.{wait_in_flight}
use dis_store.Context.Transfer.Quiet.First.{FirstQuiet, wait_in_flight_iff}
use dis_store.Samples.Contexts.{
  one_taken, one_taken-Reach, one_taken_size, one_taken_room, one_writing, one_writing_size,
}

get_ctx-unheld_example :
    ((x : ℕ) (p' : FreePool)
      → get_ctx one_taken.free_ctxs ≡ (some x, p')
      → (occurs x (255 ∷ []) ≡ 0) × (x < queue_depth))
    × ((get_ctx one_taken.free_ctxs).0 ≡ none ↔ (length {A = ℕ} (255 ∷ []) ≡ queue_depth))
    × (0 < length {A = ℕ} (255 ∷ [])
        → tail_up one_taken.free_ctxs.tail < length one_taken.free_ctxs.ctx_list)
get_ctx-unheld_example = get_ctx-unheld one_taken.free_ctxs (255 ∷ []) one_taken-Reach

reused_in_flight_example :
    let freed = end_io3 (rdma_write true one_taken 255 40 6 8192 4096).0 255 in
    let p' = record freed { free_ctxs = (get_ctx freed.free_ctxs).1 } in
    let second = rdma_write true p' 255 41 2 0 8192 in
    let done = client_write_done second.0 255 in
    ((get_ctx freed.free_ctxs).0 ≡ some 255)
    × ((ctx_at freed 255).in_flight ≡ InFlight.ctx_w_in_flight)
    × (done.1 ≡ record_pages 2 0 8192 ∷ (end_request 41 ∷ []))
    × (client_write_done done.0 255 ≡ (done.0, []))
reused_in_flight_example =
    reused_in_flight one_taken 255 40 6 8192 4096 41 2 0 8192 (omega (arith, one_taken_size))
      one_taken_room

drain-outcomes_example :
    ((drain 256 0 one_writing).1 ≡ outcomes 256 0 one_writing.ctx_pool)
    × ((j : ℕ)
        → 0 ≤ j
        → j < 0 + 256
        → ctx_at (drain 256 0 one_writing).0 j ≡ idled (ctx_at one_writing j))
    × ((j : ℕ) → j < 0 ⊎ 0 + 256 ≤ j → ctx_at (drain 256 0 one_writing).0 j ≡ ctx_at one_writing j)
drain-outcomes_example = drain-outcomes 256 0 one_writing one_writing_size

wait_in_flight_iff_example :
    wait_in_flight [] ((one_writing ∷ []) ∷ ((one_taken ∷ []) ∷ [])) ≡ some []
    ↔ FirstQuiet [] [] ((one_writing ∷ []) ∷ ((one_taken ∷ []) ∷ []))
wait_in_flight_iff_example = wait_in_flight_iff [] ((one_writing ∷ []) ∷ ((one_taken ∷ []) ∷ [])) []
