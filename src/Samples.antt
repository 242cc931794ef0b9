-- ===== src/Samples.antt =====
-- Concrete sessions and devices that the tests share.
pub mod Lender
pub mod Heated
pub mod Hearing
pub mod Clients
pub mod Losing
pub mod Contexts
pub mod Using
pub mod Asking
pub mod Setup
pub mod Running
pub mod Marked
use dis_store.Prelude.{ℕ, ◌≡◌, refl, true, Option, none, some, [], ◌∷◌, arith, get_or-replicate}
use dis_store.Bitmap.{bitmap_test}
use dis_store.Bitmap.Pages.{bitmap_init-IsChunkMap}
use dis_store.Session.{Session, RdmaInfo, MessageType}
use dis_store.Session.Tables.{cb_of, slot_of, cb_at, no_cb}
use dis_store.Session.Links.{Linked, Linked-frame, gb_at, bitmap_at}
use dis_store.Session.Create.{session_create, kernel_cb_init}
use dis_store.Session.Create.Fresh.{Unmapped-Linked}
use dis_store.Session.Chunks.{first_rkey, single_chunk_init}
use dis_store.Session.Chunks.Install.{
  Fits, MapsTo, single_chunk_init-MapsTo, single_chunk_init-Linked,
}
use dis_store.Swap.{World}
use dis_store.Swap.Coherence.{Coherent}

-- A server's answer to a bind of gigabyte 3: chunk 1, with its key and address.
abbrev pub answer : RdmaInfo
answer = record { buf = 0 ∷ 7 ∷ []; rkey = 0 ∷ 9 ∷ []; size_gb = 3; type = MessageType.info_single }

-- A session with one server, which has just answered.
unfoldable pub answered : Session
unfolding session_create kernel_cb_init
answered = record (session_create 1) {
  cb_list = record (kernel_cb_init no_cb) { recv_buf = answer } ∷ [];
}

pub answered-Linked : Linked answered
unfolding answered session_create
answered-Linked = Unmapped-Linked answered (λ k. get_or-replicate {A = Option ℕ} 12 none k)

pub answered-Fits : Fits answered 0 1 3
unfolding answered session_create kernel_cb_init
answered-Fits = omega arith

pub answered-rkey : first_rkey (cb_at answered 0).recv_buf.rkey 32 0 ≡ some 1
unfolding answered first_rkey
answered-rkey = refl

pub answered-free : gb_at answered 0 1 ≡ none
unfolding answered kernel_cb_init
answered-free = refl

-- The session with gigabyte 3 on chunk 1 of server 0, and RDMA on.
unfoldable pub mapped : Session
mapped = record (single_chunk_init answered 0) { rdma_on = true }

-- The device over that session: page `q` of the disk holds the number `q`.
unfoldable pub device : World ℕ
device = record { session = mapped; disk = λ q. q; remote = λ c i q. 0 }

pub answered-unmapped : (k : ℕ) → cb_of answered k ≡ none
unfolding answered session_create
answered-unmapped k = get_or-replicate {A = Option ℕ} 12 none k

pub answered-size : (cb_at answered 0).recv_buf.size_gb ≡ 3
unfolding answered
answered-size = refl

-- Where gigabyte 3 went.
pub mapped_places : MapsTo answered (single_chunk_init answered 0) 3 0 1
unfolding answered
mapped_places = single_chunk_init-MapsTo answered 0 1 answered-Fits answered-rkey

no_bits :
    (k c i q : ℕ)
    → cb_of (single_chunk_init answered 0) k ≡ some c
    → slot_of (single_chunk_init answered 0) k ≡ some i
    → bitmap_test (bitmap_at (single_chunk_init answered 0) c i) q ≡ true
    → ⊥
no_bits k c i q a b bit =
    let m : MapsTo answered (single_chunk_init answered 0) 3 0 1 = mapped_places in
    ground (arith, m.cbs k, m.slots k, m.bits c i, answered-unmapped k, bitmap_init-IsChunkMap.1 q)

pub device-Coherent : Coherent device (λ q. q)
unfolding device mapped answered
device-Coherent = record {
  linked =
      Linked-frame (single_chunk_init answered 0) _ refl refl refl
        (single_chunk_init-Linked answered 0 1 answered-Linked answered-Fits answered-rkey
          answered-free).0;
  on = refl;
  disk = λ q. refl;
  remote = λ k c i q a b lt bit. absurd (no_bits k c i q a b bit);
}

pub device_place : (cb_of device.session 3 ≡ some 0) × (slot_of device.session 3 ≡ some 1)
unfolding device mapped
device_place =
    let m : MapsTo answered (single_chunk_init answered 0) 3 0 1 = mapped_places in
    (m.cbs 3, m.slots 3)
