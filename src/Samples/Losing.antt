-- ===== src/Samples/Losing.antt =====
-- The sample session loses its one server.
use dis_store.Prelude.{
  ℕ, ◌≡◌, ◌≢◌, refl, none, some, Option, arith, length, get_or-replicate, get_or,
}
use dis_store.Session.{CbState}
use dis_store.Session.Tables.{cb_of, slot_of}
use dis_store.Session.Links.{gb_at, Linked}
use dis_store.Session.Create.{session_create, kernel_cb_init}
use dis_store.Session.Chunks.{single_chunk_init, first_rkey, install, map_gb}
use dis_store.Session.Chunks.Install.{MapsTo}
use dis_store.Session.Disconnect.Tables.{map_of}
use dis_store.Session.Disconnect.Holds.{Owns}
use dis_store.Samples.{answered, mapped, device, device-Coherent, mapped_places, answered-unmapped}

pub mapped-Linked : Linked mapped
unfolding device
mapped-Linked = device-Coherent.linked

no_gb_before : (i : ℕ) → gb_at answered 0 i ≡ none
unfolding answered kernel_cb_init
no_gb_before i = get_or-replicate {A = Option ℕ} 32 none i

map_size : (length (map_of mapped 0) ≡ 32) × (length mapped.cb_list ≡ 1)
unfolding mapped answered single_chunk_init first_rkey install map_gb kernel_cb_init
map_size = (refl, refl)

mapped_mine : (i k : ℕ) → gb_at mapped 0 i ≡ some k → cb_of mapped k ≡ some 0
unfolding mapped
mapped_mine i k e =
    let m : MapsTo answered (single_chunk_init answered 0) 3 0 1 = mapped_places in
    ground (arith, m.backs 0 i, m.cbs k, no_gb_before i, e)

mapped_place : (k : ℕ) → cb_of mapped k ≡ some 0 → (i : ℕ) × (slot_of mapped k ≡ some i)
unfolding mapped
mapped_place k e =
    let m : MapsTo answered (single_chunk_init answered 0) 3 0 1 = mapped_places in
    (1, ground (arith, m.cbs k, m.slots k, answered-unmapped k, e))

pub mapped-Owns : Owns mapped 0
mapped-Owns = record {
  there = omega (arith, map_size.1);
  size = omega (arith, map_size.0);
  mine = mapped_mine;
  place = mapped_place;
}

pub mapped_state : get_or mapped.cb_state_list 0 CbState.cb_idle ≢ CbState.cb_connected
unfolding mapped answered single_chunk_init first_rkey map_gb session_create
mapped_state = λ e. absurd (cc)
