-- ===== src/Samples/Using.antt =====
-- A driver with gigabyte 3 on chunk 0 of its one server, and the daemon that lends the chunk and
-- wants it back.
use dis_store.Prelude.{
  ℕ, zero, suc, ◌≡◌, ◌≢◌, refl, ◌∙◌, Option, none, some, [], ◌∷◌, ◌==◌, arith, if◌then◌else◌,
  get_or, set, replicate, get_or-set, get_or-replicate,
}
use dis_store.Prelude.Int.{pos}
use dis_store.Bitmap.{bitmap_init}
use dis_store.Bitmap.Pages.{bitmap_init-IsChunkMap}
use dis_store.Session.{CbState, Session, Cb, Chunk, MessageType, TestState}
use dis_store.Session.Tables.{cb_of, slot_of, no_cb, no_chunk}
use dis_store.Session.Links.{Linked, Tied, gb_at}
use dis_store.Session.Create.{session_create, kernel_cb_init}
use dis_store.Daemon.Lend.{
  Lending, send_single_mr, lend_first, lend_chunk, start_message, finish_message, zero_rkeys,
}
use dis_store.Daemon.Accounts.{Accounted}
use dis_store.Daemon.Init.{rdma_session_init, initial_gb, malloc_from}
use dis_store.Protocol.Taken.{count_keys}
use dis_store.Protocol.Stop.{Agrees, Stops}
use dis_store.Samples.Lender.{lent, lent-Accounted, started}

abbrev using_chunk : Chunk
using_chunk = record { remote_rkey = 77; remote_addr = 4096; bitmap_g = bitmap_init }

unfoldable pub using_cb : Cb
unfolding kernel_cb_init
using_cb =
    let cb = kernel_cb_init no_cb in
    record cb {
      state = TestState.wait_ops;
      send_buf = record (cb.send_buf) { rkey = replicate 32 0 };
      remote_chunk = record (cb.remote_chunk) {
        chunk_list = set (replicate 32 no_chunk) 0 using_chunk;
        chunk_map = set (replicate 32 none) 0 (some 3);
      };
    }

unfoldable pub using : Session
using = record (session_create 1) {
  cb_state_list = CbState.cb_mapped ∷ [];
  cb_list = using_cb ∷ [];
  cb_index_map = set (replicate 12 none) 3 (some 0);
  chunk_map_cb_chunk = set (replicate 12 none) 3 (some 0);
}

pub using_place :
    (k : ℕ)
    → (cb_of using k ≡ (if 3 == k then some 0 else none))
      × (slot_of using k ≡ (if 3 == k then some 0 else none))
unfolding using
using_place k = (
  get_or-set (replicate {A = Option ℕ} 12 none) 3 k (some 0) none (omega arith)
      ∙ ground (arith, get_or-replicate {A = Option ℕ} 12 none k),
  get_or-set (replicate {A = Option ℕ} 12 none) 3 k (some 0) none (omega arith)
      ∙ ground (arith, get_or-replicate {A = Option ℕ} 12 none k),
)

using_gb : (i : ℕ) → gb_at using 0 i ≡ (if 0 == i then some 3 else none)
unfolding using using_cb
using_gb i =
    get_or-set (replicate {A = Option ℕ} 32 none) 0 i (some 3) none (omega arith)
    ∙ ground (arith, get_or-replicate {A = Option ℕ} 32 none i)

using-Tied : Tied using 3 0 0
unfolding using using_cb
using-Tied = record {
  has = (omega arith, omega arith);
  full = bitmap_init-IsChunkMap.0;
  back = refl;
}

pub using-Linked : Linked using
using-Linked k c i a b =
    let (on, at) = using_place k in
    let is_3 : k ≡ 3 = ground (arith, on, a) in
    let is_0 : c ≡ 0 = ground (arith, on, a) in
    let chunk : i ≡ 0 = ground (arith, at, b) in rw (is_3, is_0, chunk) using-Tied

-- The daemon of Samples/Lender, whose last message asks for chunk 0.
unfoldable pub stopping : Lending
stopping = record lent {
  conn = record (lent.conn) {
    send_msg = record { buf = []; rkey = 1 ∷ []; size_gb = pos 1; type = MessageType.stop };
  };
}

pub stopping-Agrees : Agrees using 0 stopping
unfolding stopping lent started send_single_mr lend_first lend_chunk start_message finish_message
    zero_rkeys rdma_session_init initial_gb malloc_from
stopping-Agrees i k on = let is_0 : i ≡ 0 = ground (arith, using_gb i, on) in rw is_0 (refl, refl)

stopping_used : (j : ℕ) → get_or {A = ℕ} (1 ∷ []) j 0 ≢ 0 → (k : ℕ) × (gb_at using 0 j ≡ some k)
stopping_used zero ne = (3, using_gb 0)
stopping_used (suc j) ne = absurd (ne refl)

pub using_mine :
    (i k : ℕ) → gb_at using 0 i ≡ some k → (cb_of using k ≡ some 0) × (slot_of using k ≡ some i)
using_mine i k on =
    let is_0 : i ≡ 0 = ground (arith, using_gb i, on) in
    let is_3 : k ≡ 3 = ground (arith, using_gb i, on) in rw (is_0, is_3) (using_place 3)

pub stopping-Stops : Stops using 0 stopping
unfolding stopping using using_cb count_keys
stopping-Stops = record {
  there = omega arith;
  keys = refl;
  size = omega arith;
  marks = refl;
  mine = using_mine;
  connected = refl;
  type = refl;
  count = refl;
  some_gb = λ e. absurd (omega arith);
  used = λ j lt ne. stopping_used j ne;
}

pub stopping-Accounted : Accounted stopping.remote
unfolding stopping
stopping-Accounted = lent-Accounted
