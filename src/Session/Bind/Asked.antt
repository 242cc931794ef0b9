-- ===== src/Session/Bind/Asked.antt =====
-- The selected servers are asked for their free memory: every wait ends.
use dis_store.Prelude.{
  ℕ, ◌<◌, ◌≡◌, ◌≢◌, inl, inr, refl, sym, ap, ◌∙◌, some, List, [], ◌∷◌, arith, length,
}
use native.Mathlib.Decide.{ℕ_discrete}
use dis_store.Session.{Session, CbState}
use dis_store.Session.Tables.{cb_at}
use dis_store.Session.Bind.{state_of, query_from, free_mem}
use dis_store.Session.Bind.Answer.{Ready, Answered, query_cb-Answered}

-- The servers are there, and none of them has failed.
abbrev pub AllOpen : Session → List ℕ → Type 0
AllOpen s [] = Unit
AllOpen s (d ∷ ds) = (d < length s.cb_list) × (state_of s d ≢ CbState.cb_fail) × AllOpen s ds

-- The session knows how much memory each of these servers has.
abbrev pub Knows : (ℕ → ℕ) → Session → List ℕ → Type 0
Knows free s [] = Unit
Knows free s (d ∷ ds) = (free_mem s d ≡ free d) × Knows free s ds

-- From `s` to `s'` servers have answered, and no gigabyte moved.
pub record SameMap (s s' : Session) : Type 0 where
  pub cbs : s'.cb_index_map ≡ s.cb_index_map
  pub slots : s'.chunk_map_cb_chunk ≡ s.chunk_map_cb_chunk
  pub size : length s'.cb_list ≡ length s.cb_list

AllOpen-Answered :
    (s s' : Session) (d free : ℕ) (ds : List ℕ)
    → Answered s s' d free
    → AllOpen s ds
    → AllOpen s' ds
AllOpen-Answered s s' d free [] a h = tt
AllOpen-Answered s s' d free (e ∷ ds) a (lt, open_e, rest) = (
  omega (arith, a.size, lt),
  λ fail. elim (a.states e) [
    | inl same ↦ open_e (sym same ∙ fail)
    | inr (was, now) ↦ absurd (cc (now, fail))
  ],
  AllOpen-Answered s s' d free ds a rest,
)

free_mem-same : (s s' : Session) (e : ℕ) → cb_at s' e ≡ cb_at s e → free_mem s' e ≡ free_mem s e
unfolding free_mem
free_mem-same s s' e h = ap (λ x. x.remote_chunk.target_size_g) h

query_from-Knows :
    (free : ℕ → ℕ) (ds : List ℕ) (s : Session)
    → Ready s
    → AllOpen s ds
    → (s' : Session) × (query_from free ds s ≡ some s')
      × Ready s'
      × SameMap s s'
      × Knows free s' ds
      × ((e : ℕ) → free_mem s e ≡ free e → free_mem s' e ≡ free e)
unfolding query_from
query_from-Knows free [] s r o =
    (s, refl, r, record { cbs = refl; slots = refl; size = refl }, tt, λ e h. h)
query_from-Knows free (d ∷ ds) s r (lt, open_d, rest) =
    let (s1, first, a) = query_cb-Answered s d (free d) r lt open_d in
    let (s2, later, r2, same, knows, keeps) =
      query_from-Knows free ds s1 a.ready (AllOpen-Answered s s1 d (free d) ds a rest) in
    (
      s2,
      rw (first, query_from) later,
      r2,
      record { cbs = same.cbs ∙ a.cbs; slots = same.slots ∙ a.slots; size = same.size ∙ a.size },
      (keeps d a.mem, knows),
      λ e h. keeps e (free_mem-Answered s s1 d free e a h),
    )
  where
    free_mem-Answered :
        (s s' : Session) (d : ℕ) (free : ℕ → ℕ) (e : ℕ)
        → Answered s s' d (free d)
        → free_mem s e ≡ free e
        → free_mem s' e ≡ free e
    free_mem-Answered s s' d free e a h = elim (ℕ_discrete d e) [
      | yes p ↦ ap (free_mem s') (sym p) ∙ a.mem ∙ ap free p
      | no ne ↦ free_mem-same s s' e (a.others e (λ p. ne (sym p))) ∙ h
    ]

-- If the tables are linked and the selected servers are there and have not failed, every query of
-- IS_single_chunk_map is answered: no wait goes on for ever, afterwards the session knows the free
-- memory of each selected server, no gigabyte has moved, and the tables stay linked.
pub query_from-Ready :
    (free : ℕ → ℕ) (ds : List ℕ) (s : Session)
    → Ready s
    → AllOpen s ds
    → (s' : Session) × (query_from free ds s ≡ some s') × Ready s' × SameMap s s' × Knows free s' ds
query_from-Ready free ds s r o =
    let (s', ran, ready, same, knows, keeps) = query_from-Knows free ds s r o in
    (s', ran, ready, same, knows)
