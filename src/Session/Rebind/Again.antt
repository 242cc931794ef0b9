-- ===== src/Session/Rebind/Again.antt =====
-- The loop over the gigabytes to bind again.
use dis_store.Prelude.{
  ℕ, zero, suc, ◌+◌, ◌≤◌, ◌<◌, ◌⊎◌, ◌≡◌, ◌≢◌, inl, inr, refl, sym, ap, ◌∙◌, Bool, true, false, none,
  some, List, get_or, arith, get_or-set_default, get_or-set_ne, Bool-cases,
}
use native.Mathlib.Decide.{ℕ_discrete}
use dis_store.Session.{Session}
use dis_store.Session.Tables.{cb_of, slot_of}
use dis_store.Session.Evict.{release_gb}
use mathlib.Core.Path.{subst}
use dis_store.Session.Bind.{ints, Mapped, unmapped, mapped_on}
use dis_store.Session.Bind.Answer.{Ready}
use dis_store.Session.Bind.Asked.{AllOpen}
use dis_store.Session.Bind.Whole.{Serves, single_chunk_map-Ready}
use dis_store.Selection.{select, open_servers, server_for}
use dis_store.Session.Rebind.{Asking, map_gb_of, rebind_from}

-- The bind of gigabyte `k` selects the servers `selected`, which are open, and the best of them has a
-- chunk for it.
pub record Welcome (a : Asking) (selected : List ℕ) (s : Session) (k : ℕ) : Type 0 where
  pub chosen : select a.select_num a.randoms (open_servers s.cb_state_list) ≡ some selected
  pub all_open : AllOpen s selected
  pub serves : Serves a.servers selected s k

-- A bind that ends, and the session after it.
abbrev pub EndsIn : Mapped → Session → Type 0
EndsIn m s' = (m ≡ unmapped s') ⊎ ((d : ℕ) × (m ≡ mapped_on d s'))

-- Each bind of the loop finds such servers, `chosen k` at gigabyte `k`.
unfoldable pub AllWelcome :
    (asking : ℕ → Asking) (chosen : ℕ → List ℕ) (evict_list : List Bool) → ℕ → ℕ → Session → Type 0
AllWelcome asking chosen evict_list zero k s = Unit
AllWelcome asking chosen evict_list (suc n) k s =
    (get_or evict_list k false ≡ true
      → Welcome (asking k) (chosen k) (release_gb s k) k
        × ((s' : Session)
            → EndsIn (map_gb_of (asking k) (release_gb s k) k) s'
            → AllWelcome asking chosen evict_list n (k + 1) s'))
    × (get_or evict_list k false ≡ false → AllWelcome asking chosen evict_list n (k + 1) s)

-- Gigabyte `l`, which had no server, has been let go and bound again: the most free memory of the
-- selected servers is 0, or none is selected, and it has neither server nor chunk; or it has the
-- server with the most free memory, and a chunk.
abbrev pub Rebound : Asking → List ℕ → Session → ℕ → Type 0
Rebound a selected s' l =
    ((server_for (ints a.servers.free) selected ≡ none)
      × (cb_of s' l ≡ none)
      × (slot_of s' l ≡ none))
    ⊎ ((d i : ℕ) × (server_for (ints a.servers.free) selected ≡ some d)
        × (cb_of s' l ≡ some d)
        × (slot_of s' l ≡ some i))

-- Gigabyte `l` is where it was.
abbrev pub SamePlace : Session → Session → ℕ → Type 0
SamePlace s s' l = (cb_of s' l ≡ cb_of s l) × (slot_of s' l ≡ slot_of s l)

-- What happens to a gigabyte before its bind leaves the session ready, and the others in place.
release_gb-Ready :
    (s : Session) (k : ℕ)
    → Ready s
    → Ready (release_gb s k)
      × ((l : ℕ) → l ≢ k → SamePlace s (release_gb s k) l)
      × (slot_of (release_gb s k) k ≡ none)
unfolding release_gb
release_gb-Ready s k r =
    let slots = λ (l : ℕ). get_or-set_default s.chunk_map_cb_chunk k l none in
    (
      record {
        linked = λ l c i a b. elim (ℕ_discrete k l) [
          | yes p ↦ absurd (ground (arith, slots l, b))
          | no ne ↦
              let t =
                r.linked l c i a (sym (get_or-set_ne s.chunk_map_cb_chunk k l none none ne) ∙ b) in
              record { has = t.has; full = t.full; back = t.back }
        ];
        idle = r.idle;
        known = r.known;
        states = r.states;
      },
      λ l ne. (refl, get_or-set_ne s.chunk_map_cb_chunk k l none none (λ e. ne (sym e))),
      slots k ∙ ground arith,
    )

module _ (asking : ℕ → Asking) (chosen : ℕ → List ℕ) (evict_list : List Bool) where
  abbrev Placed : ℕ → ℕ → Session → Session → Type 0
  Placed n k s s' =
      ((l : ℕ) → (l < k) ⊎ (get_or evict_list l false ≡ false) → SamePlace s s' l)
      × ((l : ℕ)
          → k ≤ l
          → l < k + n
          → get_or evict_list l false ≡ true
          → cb_of s l ≡ none
          → Rebound (asking l) (chosen l) s' l)

  Placed-skip :
      (n k : ℕ) (s s' : Session)
      → get_or evict_list k false ≡ false
      → Placed n (k + 1) s s'
      → Placed (suc n) k s s'
  Placed-skip n k s s' off (same, again) = (
    λ l o. same l (elim o [ inl lt ↦ inl (omega arith) | inr e ↦ inr e ]),
    λ l a b on none_there. elim (ℕ_discrete k l) [
      | yes e ↦ absurd (cc (off, on, e))
      | no ne ↦ again l (omega arith) (omega arith) on none_there
    ],
  )

  -- The bind of gigabyte `k` in between.
  Placed-bound :
      (n k : ℕ) (s t s' : Session)
      → get_or evict_list k false ≡ true
      → ((l : ℕ) → l ≢ k → SamePlace s t l)
      → (cb_of s k ≡ none → Rebound (asking k) (chosen k) t k)
      → Placed n (k + 1) t s'
      → Placed (suc n) k s s'
  Placed-bound n k s t s' on kept here (same, again) = (
    λ l o.
        let ne : l ≢ k =
          λ p. elim o [ inl lt ↦ absurd (omega arith) | inr off ↦ absurd (cc (off, on, p)) ] in
        let (cbs, slots) = same l (elim o [ inl lt ↦ inl (omega arith) | inr off ↦ inr off ]) in
        (cbs ∙ (kept l ne).0, slots ∙ (kept l ne).1),
    λ l a b asked none_there. elim (ℕ_discrete l k) [
      | yes e ↦
          let (cbs, slots) = same l (inl (omega arith)) in
          let there =
            subst (λ x. Rebound (asking x) (chosen x) t x) (sym e)
              (here (ap (cb_of s) (sym e) ∙ none_there)) in
          elim there [
            | inl (f, c, x) ↦ inl (f, cbs ∙ c, slots ∙ x)
            | inr (d, i, f, c, x) ↦ inr (d, i, f, cbs ∙ c, slots ∙ x)
          ]
      | no ne ↦ again l (omega arith) (omega arith) asked ((kept l ne).0 ∙ none_there)
    ],
  )

  -- One bind, of gigabyte `k`.
  bind_one :
      (k : ℕ) (s : Session)
      → Ready s
      → Welcome (asking k) (chosen k) (release_gb s k) k
      → (t : Session) × EndsIn (map_gb_of (asking k) (release_gb s k) k) t
        × Ready t
        × ((l : ℕ) → l ≢ k → SamePlace s t l)
        × (cb_of s k ≡ none → Rebound (asking k) (chosen k) t k)
  unfolding release_gb
  bind_one k s r w =
      let (ready_before, kept, gone) = release_gb-Ready s k r in
      let a = asking k in
      elim (single_chunk_map-Ready a.servers a.select_num a.randoms (chosen k) (release_gb s k) k
        ready_before w.chosen w.all_open w.serves) [
          | inl (t, ran, nobody, ready, same_map) ↦
              let cbs = λ (l : ℕ). ap (λ x. get_or x l none) same_map.cbs in
              let slots = λ (l : ℕ). ap (λ x. get_or x l none) same_map.slots in
              (
                t,
                inl ran,
                ready,
                λ l ne. (cbs l ∙ (kept l ne).0, slots l ∙ (kept l ne).1),
                λ none_there. inl (nobody, cbs k ∙ none_there, slots k ∙ gone),
              )
          | inr (d, t, ran, best, ready, on, (i, place), others) ↦ (
            t,
            inr (d, ran),
            ready,
            λ l ne. ((others l ne).0 ∙ (kept l ne).0, (others l ne).1 ∙ (kept l ne).1),
            λ none_there. inr (d, i, best, on, place),
          )
        ]

  rebind_from-bound :
      (n k : ℕ) (s t : Session)
      → get_or evict_list k false ≡ true
      → EndsIn (map_gb_of (asking k) (release_gb s k) k) t
      → rebind_from release_gb asking evict_list (suc n) k s
        ≡ rebind_from release_gb asking evict_list n (k + 1) t
  unfolding rebind_from
  rebind_from-bound n k s t on (inl ran) = rw (rebind_from, on, ran) refl
  rebind_from-bound n k s t on (inr (d, ran)) = rw (rebind_from, on, ran) refl

  rebind_from-skip :
      (n k : ℕ) (s : Session)
      → get_or evict_list k false ≡ false
      → rebind_from release_gb asking evict_list (suc n) k s
        ≡ rebind_from release_gb asking evict_list n (k + 1) s
  unfolding rebind_from
  rebind_from-skip n k s off = rw (rebind_from, off) refl

  pub rebind_from-Ready :
      (n k : ℕ) (s : Session)
      → Ready s
      → AllWelcome asking chosen evict_list n k s
      → (s' : Session) × (rebind_from release_gb asking evict_list n k s ≡ some s')
        × Ready s'
        × ((l : ℕ) → (l < k) ⊎ (get_or evict_list l false ≡ false) → SamePlace s s' l)
        × ((l : ℕ)
            → k ≤ l
            → l < k + n
            → get_or evict_list l false ≡ true
            → cb_of s l ≡ none
            → Rebound (asking l) (chosen l) s' l)
  unfolding rebind_from AllWelcome
  rebind_from-Ready zero k s r w = (s, refl, r, λ l o. (refl, refl), λ l a b. absurd (omega arith))
  rebind_from-Ready (suc n) k s r (on_bind, on_skip) =
      elim (Bool-cases (get_or evict_list k false)) [
        | inr off ↦
            let (s', ran, ready, same, again) = rebind_from-Ready n (k + 1) s r (on_skip off) in
            let placed = Placed-skip n k s s' off (same, again) in
            (s', rebind_from-skip n k s off ∙ ran, ready, placed.0, placed.1)
        | inl on ↦
            let (w, later) = on_bind on in
            let (t, ends, ready, kept, here) = bind_one k s r w in
            let (s', ran, ready', same, again) =
              rebind_from-Ready n (k + 1) t ready (later t ends) in
            let placed = Placed-bound n k s t s' on kept here (same, again) in
            (s', rebind_from-bound n k s t on ends ∙ ran, ready', placed.0, placed.1)
      ]
