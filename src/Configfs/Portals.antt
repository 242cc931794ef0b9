-- ===== src/Configfs/Portals.antt =====
-- The portal of a session, written through configfs: portal_attr_store (is_configfs.c),
-- IS_session_find_by_portal and the head of IS_session_create (is_main.c). A session is its place in
-- the list of all; of it there is the text of its portal and what portal_parser made of that.
pub mod New
use dis_store.Prelude.{
  ℕ, zero, suc, Bool, true, false, Option, none, some, List, [], ◌∷◌, ◌++◌, if◌then◌else◌, length,
  get_or, set,
}
use dis_store.Device.{Name, same_name, Errno, success, einval, eexist}
use dis_store.Portal.{IsPortal, portal_parser}
use dis_store.Configfs.{word}

pub record Item : Type 0 where
  pub portal : Name
  pub portal_list : List IsPortal

-- What kzalloc gives, as IS_session_make_group leaves it.
abbrev pub new_item : Item
new_item = record { portal = []; portal_list = [] }

abbrev pub item_at : List Item → ℕ → Item
item_at items i = get_or items i new_item

-- `rdma://`
abbrev pub scheme : Name
scheme = 114 ∷ (100 ∷ (109 ∷ (97 ∷ (58 ∷ (47 ∷ (47 ∷ []))))))

-- The text without its first `n` characters.
unfoldable pub behind : ℕ → Name → Name
behind zero text = text
behind (suc n) [] = []
behind (suc n) (c ∷ cs) = behind n cs

-- IS_session_find_by_portal
unfoldable pub find_by_portal : List Item → Name → Option Item
find_by_portal [] portal = none
find_by_portal (pos ∷ items) portal =
    let rest = find_by_portal items portal in if same_name pos.portal portal then some pos else rest

-- The text in `portal` after memcpy of as many bytes as the new one has characters: what was behind
-- them stays.
unfoldable pub copy_over : Name → Name → Name
copy_over new old = new ++ behind (length new) old

-- IS_session_create, up to portal_parser. `none`: portal_parser leaves the text.
unfoldable pub create_portal : Name → Item → Option Item
create_portal portal item =
    let text = copy_over portal item.portal in
    elim (portal_parser (behind 7 text)) [
      | none ↦ none
      | some portals ↦ some (record { portal = text; portal_list = portals })
    ]

-- portal_attr_store of item `i`, where `rdma` has the portal; `created` says whether
-- IS_session_create returns 0.
unfoldable pub store_portal : Bool → ℕ → Name → List Item → Option (List Item × Errno)
store_portal created i rdma items = elim (find_by_portal items rdma) [
  | some pos ↦ some (items, eexist)
  | none ↦ elim (create_portal rdma (item_at items i)) [
    | none ↦ none
    | some item ↦ some (set items i item, if created then success else einval)
  ]
]

-- portal_attr_store, where `buf` has a portal without its scheme.
unfoldable pub portal_attr_store : Bool → ℕ → Name → List Item → Option (List Item × Errno)
portal_attr_store created i buf items = store_portal created i (scheme ++ word buf) items
