-- ===== src/Configfs/Portals/New.antt =====
-- What a portal that is written to a session comes to.
use dis_store.Prelude.{
  ℕ, zero, suc, ◌<◌, ◌≡◌, ◌^◌, refl, ap, ◌∙◌, Bool, false, none, some, List, [], ◌∷◌, ◌++◌,
  if◌then◌else◌, length, set, arith,
}
use dis_store.Device.{Name, same_name, success, einval}
use dis_store.Portal.{IsPortal}
use dis_store.Portal.RoundTrip.{AllNameable, print_portal, portal_parser-print_portal}
use dis_store.Configfs.{word}
use dis_store.Configfs.Portals.{
  Item, item_at, scheme, behind, find_by_portal, copy_over, create_portal, store_portal,
  portal_attr_store,
}

append_nil : (xs : Name) → xs ++ [] ≡ xs
append_nil [] = refl
append_nil (x ∷ xs) = ap (◌∷◌ x) (append_nil xs)

behind_nil : (n : ℕ) → behind n [] ≡ []
unfolding behind
behind_nil zero = refl
behind_nil (suc n) = refl

create_portal-print_portal :
    (ps : List IsPortal) (item : Item)
    → AllNameable ps
    → length ps < 2 ^ 31
    → item.portal ≡ []
    → create_portal (scheme ++ print_portal ps) item
      ≡ some (record { portal = scheme ++ print_portal ps; portal_list = ps })
unfolding create_portal copy_over behind
create_portal-print_portal ps item h lt e =
    let text : copy_over (scheme ++ print_portal ps) item.portal ≡ scheme ++ print_portal ps =
      ap (λ old. (scheme ++ print_portal ps) ++ behind (length (scheme ++ print_portal ps)) old) e
      ∙ ap (λ tail. (scheme ++ print_portal ps) ++ tail)
          (behind_nil (length (scheme ++ print_portal ps)))
      ∙ append_nil (scheme ++ print_portal ps) in
    rw (create_portal, text, portal_parser-print_portal ps h lt)
      (ap (λ t. some (record { portal = t; portal_list = ps })) text)

unused :
    (items : List Item) (portal : Name)
    → ((j : ℕ) → j < length items → same_name (item_at items j).portal portal ≡ false)
    → find_by_portal items portal ≡ none
unfolding find_by_portal
unused [] portal h = refl
unused (pos ∷ items) portal h =
    let rest = unused items portal (λ j lt. h (suc j) (omega arith)) in
    ground (arith, rest, h 0 (omega arith))

store_portal-unused :
    (created : Bool) (i : ℕ) (rdma : Name) (items : List Item) (item : Item)
    → find_by_portal items rdma ≡ none
    → create_portal rdma (item_at items i) ≡ some item
    → store_portal created i rdma items
      ≡ some (set items i item, if created then success else einval)
unfolding store_portal
store_portal-unused created i rdma items item free made = rw (store_portal, free, made) refl

-- Written to a session without a portal, a text of servers in the format of portal_parser that no
-- session has as its portal becomes the session's, behind `rdma://`, and its portal_list is just those
-- servers, whether or not the rest of IS_session_create succeeds; the other sessions stay.
pub portal_attr_store_new :
    (created : Bool) (i : ℕ) (buf : Name) (items : List Item) (ps : List IsPortal)
    → (item_at items i).portal ≡ []
    → word buf ≡ print_portal ps
    → AllNameable ps
    → length ps < 2 ^ 31
    → ((j : ℕ)
        → j < length items
        → same_name (item_at items j).portal (scheme ++ print_portal ps) ≡ false)
    → portal_attr_store created i buf items
      ≡ some (
        set items i (record { portal = scheme ++ print_portal ps; portal_list = ps }),
        if created then success else einval,
      )
unfolding portal_attr_store
portal_attr_store_new created i buf items ps e text h lt free =
    ap (λ w. store_portal created i (scheme ++ w) items) text
    ∙ store_portal-unused created i (scheme ++ print_portal ps) items _
        (unused items (scheme ++ print_portal ps) free)
        (create_portal-print_portal ps (item_at items i) h lt e)
