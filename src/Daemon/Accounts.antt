-- ===== src/Daemon/Accounts.antt =====
-- The daemon's books: the counters say how many chunks are allocated and how many are lent.
use dis_store.Prelude.{
  ℕ, zero, suc, ◌+◌, ◌-◌, ◌≤◌, ◌≡◌, refl, ◌∙◌, Bool, true, false, Option, none, List, arith, length,
  get_or, set, replicate, length-replicate, length-set, get_or-replicate, get_or-set,
}
use dis_store.Prelude.Int.{pos}
use dis_store.Prelude.Counts.{
  count_true, count_some, bit_of_bool, is_some, count_true-set, count_some-replicate,
  count_true-replicate,
}
use dis_store.Daemon.{RemoteMem, max_free_mem_gb}
use dis_store.Daemon.Init.{rdma_session_init, malloc_from, initial_gb}

-- The tables have their sizes, `size_gb` counts the allocated chunks, `mapped_size` the lent ones,
-- and only an allocated chunk is lent.
pub record Accounted (m : RemoteMem) : Type 0 where
  pub malloc_size : length m.malloc_map ≡ max_free_mem_gb
  pub conn_size : length m.conn_map ≡ max_free_mem_gb
  pub size : m.size_gb ≡ pos (count_true m.malloc_map)
  pub mapped : m.mapped_size ≡ pos (count_some m.conn_map)
  pub lent :
      (i : ℕ) → is_some (get_or m.conn_map i none) ≡ true → get_or m.malloc_map i false ≡ true

length-malloc_from : (n i : ℕ) (m : List Bool) → length (malloc_from n i m) ≡ length m
unfolding malloc_from
length-malloc_from zero i m = refl
length-malloc_from (suc n) i m = length-malloc_from n (i + 1) (set m i true) ∙ length-set m i true

-- From chunk `i` on nothing is allocated yet.
count-malloc_from :
    (n i : ℕ) (m : List Bool)
    → i + n ≤ length m
    → ((j : ℕ) → i ≤ j → get_or m j false ≡ false)
    → count_true (malloc_from n i m) ≡ count_true m + n
unfolding malloc_from
count-malloc_from zero i m h free = omega arith
count-malloc_from (suc n) i m h free = omega (
  arith,
  count-malloc_from n (i + 1) (set m i true) (omega (arith, length-set m i true))
      (λ j le. ground (arith, get_or-set m i j true false (omega arith), free j)),
  count_true-set m i true (omega arith),
  ground_free,
)
  where
    ground_free : bit_of_bool (get_or m i false) ≡ 0
    ground_free = ground (arith, free i)

-- The gigabytes taken at the start leave the lower threshold free, and fit the tables.
pub initial_gb_bounds :
    (free : ℕ) → (initial_gb free ≤ max_free_mem_gb) × (initial_gb free ≤ free - 8)
unfolding initial_gb
initial_gb_bounds free = ground arith

-- At the start the books are right: as many chunks are allocated as `size_gb` says, no chunk has a
-- connection that it is lent to, the count of lent chunks is 0, no connection is known; and the daemon took at most what lies above the lower threshold of the
-- free memory, and at most what its tables hold.
pub rdma_session_init-Accounted :
    (free : ℕ)
    → let s = rdma_session_init free in
      Accounted s.rdma_remote
      × (s.rdma_remote.size_gb ≡ pos (initial_gb free))
      × (initial_gb free ≤ max_free_mem_gb)
      × (initial_gb free ≤ free - 8)
      × (count_some s.conns ≡ 0)
      × (s.rdma_remote.mapped_size ≡ pos 0)
      × ((i : ℕ) → get_or s.rdma_remote.conn_map i none ≡ none)
unfolding rdma_session_init
rdma_session_init-Accounted free =
    let (fits, leaves) = initial_gb_bounds free in
    let zero_size = length-replicate {A = Bool} 32 false in
    (
      record {
        malloc_size = length-malloc_from (initial_gb free) 0 (replicate 32 false) ∙ zero_size;
        conn_size = length-replicate {A = Option ℕ} 32 none;
        size = ground (
          arith,
          count-malloc_from (initial_gb free) 0 (replicate 32 false) (omega (arith, zero_size))
              (λ j le. get_or-replicate {A = Bool} 32 false j),
          count_true-replicate 32,
        );
        mapped = ground (arith, count_some-replicate 32);
        lent = λ i h. ground (arith, get_or-replicate {A = Option ℕ} 32 none i);
      },
      refl,
      fits,
      leaves,
      refl,
      refl,
      λ i. get_or-replicate {A = Option ℕ} 32 none i,
    )
