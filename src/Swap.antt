-- ===== src/Swap.antt =====
-- Swapping as a whole: a request of IS_request carried out on the disk and on the servers' memory,
-- one request after the other (Infiniswap/infiniswap_bd/is_main.c). `V` is what a page holds. The
-- disk stores what it is given, an RDMA write stores into the chunk that it names, and an RDMA read
-- returns what the chunk holds; a transfer is taken to succeed.
pub mod Coherence
pub mod Memory
use dis_store.Prelude.{
  ℕ, ◌+◌, ◌-◌, ◌*◌, ◌/◌, Bool, true, false, ◌&&◌, List, [], ◌∷◌, ◌==◌, if◌then◌else◌,
}
use dis_store.Bitmap.{page_size, group_set}
use dis_store.Bitmap.Pages.{among}
use dis_store.Session.{Session}
use dis_store.Session.Tables.{with_chunk_bitmap}
use dis_store.Session.Links.{bitmap_at}
use dis_store.Request.{Req, Route, to_disk, transfer, start_of, is_request}

-- `disk` by page of the device; `remote` by server, chunk of the server, page of the chunk.
pub record World (V : Type 0) : Type 0 where
  pub session : Session
  pub disk : ℕ → V
  pub remote : ℕ → ℕ → ℕ → V

module _ {V : Type 0} where
  -- The memory `m` with the `count` pages from `first` on taken from `v`.
  abbrev pub write_pages : (ℕ → V) → ℕ → ℕ → (ℕ → V) → ℕ → V
  write_pages v first count m q = if among first count q then v q else m q

  -- What stackbd_make_request2, or the clone of stackbd_bio_generate, does to the disk.
  unfoldable pub disk_write : World V → Req → (ℕ → V) → World V
  disk_write w r v = record w {
    disk = write_pages v (start_of r / page_size) (r.bytes / page_size) w.disk;
  }

  -- mem_gather and IB_WR_RDMA_WRITE: the pages of the request into the chunk, from the offset on.
  unfoldable pub remote_write : World V → Req → (ℕ → V) → ℕ → ℕ → ℕ → ℕ → World V
  remote_write w r v c i offset len = record w {
    remote = λ d j q.
        if (c == d) && ((i == j) && among (offset / page_size) (len / page_size) q)
        then v (start_of r / page_size + (q - offset / page_size))
        else w.remote d j q;
  }

  -- client_write_done: the pages are recorded as held by the server.
  unfoldable pub write_done : World V → ℕ → ℕ → ℕ → ℕ → World V
  write_done w c i offset len = record w {
    session = with_chunk_bitmap w.session c i (group_set (bitmap_at w.session c i) offset len);
  }

  unfoldable pub write_by : World V → Req → (ℕ → V) → Route → World V
  write_by w r v to_disk = disk_write w r v
  write_by w r v (transfer c i offset len) =
      write_done (remote_write (disk_write w r v) r v c i offset len) c i offset len

  -- A write request, from IS_request to its completion.
  unfoldable pub write : World V → Req → (ℕ → V) → World V
  write w r v =
      let (route, s) = is_request w.session r in write_by (record w { session = s }) r v route

  unfoldable pub read_by : World V → Req → Route → V
  read_by w r to_disk = w.disk (start_of r / page_size)
  read_by w r (transfer c i offset len) = w.remote c i (offset / page_size)

  -- A read request of one page: the page that client_read_done or the disk returns.
  unfoldable pub read : World V → Req → V × World V
  read w r =
      let (route, s) = is_request w.session r in
      let w' : World V = record w { session = s } in (read_by w' r route, w')

-- atomic_set of `rdma_on`, as IS_disconnect_handler does it.
abbrev pub switch_rdma : {V : Type 0} → World V → Bool → World V
switch_rdma w b = record w { session = record (w.session) { rdma_on = b } }

-- The request for `count` pages from page `page` on.
abbrev pub request : Bool → ℕ → ℕ → Req
request dir page count = record { write = dir; pos = page * 8; bytes = count * page_size }

-- What the kernel asks of the swap device.
pub data Op (V : Type 0) : Type 0 where
  store : (page count : ℕ) (v : ℕ → V) → Op V
  load : (page : ℕ) → Op V

module _ {V : Type 0} where
  -- The pages that the loads of a sequence of requests return.
  unfoldable pub run : World V → List (Op V) → List V
  run w [] = []
  run w (store page count v ∷ ops) = run (write w (request true page count) v) ops
  run w (load page ∷ ops) = let (x, w') = read w (request false page 1) in x ∷ run w' ops

  -- The same of a memory that holds what was last stored.
  unfoldable pub run_memory : (ℕ → V) → List (Op V) → List V
  run_memory m [] = []
  run_memory m (store page count v ∷ ops) = run_memory (write_pages v page count m) ops
  run_memory m (load page ∷ ops) = m page ∷ run_memory m ops
