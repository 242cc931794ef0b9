-- ===== src/Witness/Binding.antt =====
-- A bind at the sample session.
use dis_store.Prelude.{ℕ, ◌≡◌, ◌≢◌, ◌⊎◌, none, some, [], ◌∷◌}
use dis_store.Session.{Session}
use dis_store.Session.Tables.{cb_of, slot_of}
use dis_store.Session.Links.{Linked}
use dis_store.Session.Bind.{ints, unmapped, mapped_on, single_chunk_map}
use dis_store.Session.Bind.Asked.{SameMap}
use dis_store.Session.Bind.Whole.{single_chunk_map-Linked}
use dis_store.Selection.{server_for}
use dis_store.Samples.Asking.{
  one_server, fresh, fresh-Ready, fresh_select, fresh-AllOpen, fresh-Serves,
}

single_chunk_map-Linked_example :
    ((s' : Session) × (single_chunk_map one_server 3 [] fresh 3 ≡ unmapped s')
      × (server_for (ints one_server.free) (0 ∷ []) ≡ none)
      × Linked s'
      × SameMap fresh s')
    ⊎ ((d : ℕ) × (s' : Session) × (single_chunk_map one_server 3 [] fresh 3 ≡ mapped_on d s')
        × (server_for (ints one_server.free) (0 ∷ []) ≡ some d)
        × Linked s'
        × (cb_of s' 3 ≡ some d)
        × ((l : ℕ) → l ≢ 3 → (cb_of s' l ≡ cb_of fresh l) × (slot_of s' l ≡ slot_of fresh l)))
single_chunk_map-Linked_example =
    single_chunk_map-Linked one_server 3 [] (0 ∷ []) fresh 3 fresh-Ready fresh_select fresh-AllOpen
      fresh-Serves
