-- ===== src/Session/Create/Fresh.antt =====
-- A fresh session.
use dis_store.Prelude.{
  ℕ, zero, suc, ◌+◌, ◌-◌, ◌≡◌, ◌<◌, refl, ap, ◌∙◌, Option, none, some, arith, length, get_or,
  get_elem?, get_or-replicate,
}
use dis_store.Session.{Session, Cb}
use dis_store.Session.Tables.{cb_of, cb_at, no_cb}
use dis_store.Session.Links.{Linked}
use dis_store.Session.Chunks.{free_chunk}
use dis_store.Session.Create.{session_create, zeroed_cb, zeroed_cbs, unmapped_from}

-- No gigabyte has a server.
pub Unmapped-Linked : (s : Session) → ((k : ℕ) → cb_of s k ≡ none) → Linked s
Unmapped-Linked s n k c i a b = absurd (ground (arith, n k))

cb_at-zeroed_cbs : (n i c : ℕ) → c < n → get_or (zeroed_cbs n i) c no_cb ≡ zeroed_cb (i + c)
unfolding zeroed_cbs
cb_at-zeroed_cbs zero i c h = absurd (omega arith)
cb_at-zeroed_cbs (suc n) i zero h = ap zeroed_cb (omega arith)
cb_at-zeroed_cbs (suc n) i (suc c) h =
    cb_at-zeroed_cbs n (i + 1) c (omega arith) ∙ ap zeroed_cb (omega arith)

length-zeroed_cbs : (n i : ℕ) → length (zeroed_cbs n i) ≡ n
unfolding zeroed_cbs
length-zeroed_cbs zero i = refl
length-zeroed_cbs (suc n) i = ap suc (length-zeroed_cbs n (i + 1))

get_elem?-unmapped_from :
    (capacity n i j : ℕ)
    → j < n
    → get_elem? (unmapped_from capacity n i) j ≡ some (capacity - 1 - (i + j))
unfolding unmapped_from
get_elem?-unmapped_from capacity zero i j h = absurd (omega arith)
get_elem?-unmapped_from capacity (suc n) i zero h = ap some (omega arith)
get_elem?-unmapped_from capacity (suc n) i (suc j) h =
    get_elem?-unmapped_from capacity n (i + 1) j (omega arith) ∙ ap some (omega arith)

-- IS_session_create leaves a session in which no gigabyte of the device has a server, so that its
-- tables are linked, with one server for each portal, each at its own index; the first gigabyte
-- that the free list hands out is number 0.
pub session_create-Linked :
    (portals : ℕ)
    → Linked (session_create portals)
      × ((k : ℕ) → cb_of (session_create portals) k ≡ none)
      × ((c : ℕ) → c < portals → (cb_at (session_create portals) c).cb_index ≡ c)
      × (length (session_create portals).cb_list ≡ portals)
      × (free_chunk (session_create portals) ≡ some 0)
unfolding session_create free_chunk zeroed_cb
session_create-Linked portals = (
  Unmapped-Linked (session_create portals) (λ k. get_or-replicate {A = Option ℕ} 12 none k),
  λ k. get_or-replicate {A = Option ℕ} 12 none k,
  λ c h. ap (λ (b : Cb). b.cb_index) (cb_at-zeroed_cbs portals 0 c h) ∙ (omega arith),
  length-zeroed_cbs portals 0,
  get_elem?-unmapped_from 12 12 0 11 (omega arith),
)
