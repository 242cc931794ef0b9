-- ===== src/Daemon/Resize.antt =====
-- How the daemon's memory shrinks and grows (Infiniswap/infiniswap_daemon/rdma-common.c): the first
-- part of evict_mem, which frees chunks that are lent to nobody, and one round of free_mem, up to
-- its call of the rest of evict_mem. The free memory of each round is an input.
pub mod Shrink
pub mod Grow
use dis_store.Prelude.{
  ℕ, zero, suc, ◌+◌, ◌-◌, Bool, true, false, Option, none, some, List, [], ◌∷◌, ◌==◌, ltb,
  if◌then◌else◌, get_or, set,
}
use dis_store.Prelude.Int.{ℤ, pos, ◌+ℤ◌, ◌-ℤ◌, ltb_ℤ}
use dis_store.Daemon.{RemoteMem, max_free_mem_gb}
use dis_store.Daemon.Init.{free_mem_expand_threshold}
use dis_store.Daemon.Lend.{is_free}

-- Chunk `i` freed, and chunk `i` allocated.
abbrev pub with_malloc : RemoteMem → ℕ → Bool → RemoteMem
with_malloc m i b = record m { malloc_map = set m.malloc_map i b }

-- The loop of evict_mem from chunk `i` on with `n` rounds left, after `freed_g` chunks: the memory
-- and how many chunks are freed at its end. The early return is the end of it.
unfoldable pub free_chunks_from : ℕ → ℕ → ℕ → ℕ → RemoteMem → RemoteMem × ℕ
free_chunks_from zero i freed_g evict_g m = (m, freed_g)
free_chunks_from (suc n) i freed_g evict_g m =
    let m' = with_malloc m i false in
    let next = free_chunks_from n (i + 1) (freed_g + 1) evict_g m' in
    let rest = free_chunks_from n (i + 1) freed_g evict_g m in
    if is_free m i then (if freed_g + 1 == evict_g then (m', freed_g + 1) else next) else rest

-- The first part of evict_mem: the memory, and what is left to evict.
unfoldable pub free_unmapped : RemoteMem → ℕ → RemoteMem × ℕ
free_unmapped m stop_g =
    let (m', freed_g) = free_chunks_from max_free_mem_gb 0 0 stop_g m in
    (record m' { size_gb = m'.size_gb -ℤ pos freed_g }, stop_g - freed_g)

-- The loop of free_mem that allocates, after `j` chunks.
unfoldable pub expand_from : ℕ → ℕ → ℕ → ℕ → RemoteMem → RemoteMem
expand_from zero i j expand_size_g m = m
expand_from (suc n) i j expand_size_g m =
    let m' = with_malloc m i true in
    let next = expand_from n (i + 1) (j + 1) expand_size_g m' in
    let rest = expand_from n (i + 1) j expand_size_g m in
    if get_or m.malloc_map i false then rest else (if j + 1 == expand_size_g then m' else next)

-- `expand_size_g` for filtered free memory above the threshold. The memory of the daemon is taken
-- to be no more than its tables hold.
unfoldable pub expand_size : ℕ → ℕ → ℕ
expand_size last_free_mem_g size_gb =
    let g = last_free_mem_g - free_mem_expand_threshold in
    if ltb max_free_mem_gb (g + size_gb) then max_free_mem_gb - size_gb else g

-- The part of free_mem that expands.
unfoldable pub expand : RemoteMem → ℕ → RemoteMem
expand m expand_size_g =
    let m' = expand_from max_free_mem_gb 0 0 expand_size_g m in
    record m' { size_gb = m'.size_gb +ℤ pos expand_size_g }
