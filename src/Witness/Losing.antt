-- ===== src/Witness/Losing.antt =====
-- The loss of a server at the sample session.
use dis_store.Prelude.{ℕ, ◌≡◌, ◌≢◌, ◌<◌, ◌↔◌, true, false, none, some, get_or}
use dis_store.Session.{stackbd_size_g}
use dis_store.Session.Tables.{cb_of, slot_of, cb_at}
use dis_store.Session.Links.{gb_at, Linked}
use dis_store.Session.Disconnect.{disconnect}
use dis_store.Session.Disconnect.Loss.{disconnect-Linked}
use dis_store.Samples.{mapped}
use dis_store.Samples.Losing.{mapped-Linked, mapped-Owns, mapped_state}

disconnect-Linked_example :
    let (s', asked) = disconnect mapped 0 in
    Linked s'
    × ((k : ℕ) → cb_of mapped k ≡ some 0 → (cb_of s' k ≡ none) × (slot_of s' k ≡ none))
    × ((k : ℕ)
        → cb_of mapped k ≢ some 0
        → (cb_of s' k ≡ cb_of mapped k) × (slot_of s' k ≡ slot_of mapped k))
    × ((i : ℕ) → gb_at s' 0 i ≡ none)
    × ((d : ℕ) → d ≢ 0 → cb_at s' d ≡ cb_at mapped d)
    × (s'.rdma_on ≡ true)
    × ((k : ℕ) → k < stackbd_size_g → (get_or asked k false ≡ true) ↔ (cb_of mapped k ≡ some 0))
disconnect-Linked_example = disconnect-Linked mapped 0 mapped-Linked mapped-Owns mapped_state
