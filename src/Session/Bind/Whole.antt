-- ===== src/Session/Bind/Whole.antt =====
-- IS_single_chunk_map from end to end.
use dis_store.Prelude.{
  ℕ, ◌≡◌, ◌≢◌, ◌⊎◌, inl, inr, refl, ap, ap₂, ◌∙◌, none, some, List, [], ◌∷◌, map, get_or,
  Option-cases,
}
use dis_store.Prelude.Int.{pos}
use dis_store.Session.{Session}
use dis_store.Session.Tables.{cb_of, slot_of}
use dis_store.Session.Links.{Linked}
use dis_store.Session.Bind.{
  ints, Servers, unmapped, mapped_on, query_from, free_mem, bind_best, bind_to, single_chunk_map,
}
use dis_store.Session.Bind.Asked.{AllOpen, Knows, SameMap, query_from-Ready}
use dis_store.Session.Bind.Answer.{Ready}
use dis_store.Session.Bind.Bound.{Answers, bind_to-Linked, bind_to-Ready}
use dis_store.Selection.{select, open_servers, server_for, Answer}

-- What the servers say of gigabyte `k`: once the selected ones have been asked, the one with the
-- most memory has a chunk for it.
abbrev pub Serves : Servers → List ℕ → Session → ℕ → Type 0
Serves servers selected s k =
    (asked : Session)
    → query_from servers.free selected s ≡ some asked
    → (d : ℕ) → server_for (ints servers.free) selected ≡ some d
    → (i : ℕ) × Answers asked d k i (servers.info d)

entries-Knows :
    (free : ℕ → ℕ) (s : Session) (ds : List ℕ)
    → Knows free s ds
    → map (λ t. record { free = pos (free_mem s t); server = t }) ds
      ≡ map {B = Answer} (λ t. record { free = pos (free t); server = t }) ds
entries-Knows free s [] h = refl
entries-Knows free s (d ∷ ds) (here, rest) =
    ap₂ (λ f l. record { free = f; server = d } ∷ l) (ap pos here) (entries-Knows free s ds rest)

server_for-Knows :
    (free : ℕ → ℕ) (s : Session) (ds : List ℕ)
    → Knows free s ds
    → server_for (ints (free_mem s)) ds ≡ server_for (ints free) ds
unfolding server_for
server_for-Knows free s [] h = refl
server_for-Knows free s (d ∷ ds) (here, rest) =
    rw (server_for, here, entries-Knows free s ds rest) refl

bind_best-unmapped :
    (servers : Servers) (selected : List ℕ) (s : Session) (k : ℕ)
    → server_for (ints (free_mem s)) selected ≡ none
    → bind_best servers selected s k ≡ unmapped s
unfolding bind_best
bind_best-unmapped servers selected s k e = rw (bind_best, e) refl

bind_best-mapped :
    (servers : Servers) (selected : List ℕ) (s s' : Session) (k d : ℕ)
    → server_for (ints (free_mem s)) selected ≡ some d
    → bind_to s d k (servers.info d) ≡ some s'
    → bind_best servers selected s k ≡ mapped_on d s'
unfolding bind_best
bind_best-mapped servers selected s s' k d e b = rw (bind_best, e, b) refl

-- The session is ready for the next call, whatever it comes to.
pub single_chunk_map-Ready :
    (servers : Servers) (select_num : ℕ) (randoms selected : List ℕ) (s : Session) (k : ℕ)
    → Ready s
    → select select_num randoms (open_servers s.cb_state_list) ≡ some selected
    → AllOpen s selected
    → Serves servers selected s k
    → ((s' : Session) × (single_chunk_map servers select_num randoms s k ≡ unmapped s')
        × (server_for (ints servers.free) selected ≡ none)
        × Ready s'
        × SameMap s s')
      ⊎ ((d : ℕ) × (s' : Session) × (single_chunk_map servers select_num randoms s k
            ≡ mapped_on d s')
          × (server_for (ints servers.free) selected ≡ some d)
          × Ready s'
          × (cb_of s' k ≡ some d)
          × ((i : ℕ) × (slot_of s' k ≡ some i))
          × ((l : ℕ) → l ≢ k → (cb_of s' l ≡ cb_of s l) × (slot_of s' l ≡ slot_of s l)))
unfolding single_chunk_map
single_chunk_map-Ready servers select_num randoms selected s k r chosen o serves =
    let (asked, ran, ready, same, knows) = query_from-Ready servers.free selected s r o in
    let best = server_for-Knows servers.free asked selected knows in
    let start : single_chunk_map servers select_num randoms s k
        ≡ bind_best servers selected asked k =
      rw (single_chunk_map, chosen, ran) refl in
    elim (Option-cases (server_for (ints servers.free) selected)) [
      | inl e ↦
          inl
            (asked, start ∙ bind_best-unmapped servers selected asked k (best ∙ e), e, ready, same)
      | inr (d, e) ↦
          let (i, a) = serves asked ran d e in
          let (s', bound, linked, on, place, chunk, others, rdma) =
            bind_to-Linked asked d k i (servers.info d) ready.linked a in
          inr (
            d,
            s',
            start ∙ bind_best-mapped servers selected asked s' k d (best ∙ e) bound,
            e,
            bind_to-Ready asked d k i (servers.info d) ready a s' bound linked on
                (λ l ne. (others l ne).0),
            on,
            (i, place),
            λ l ne. (
              (others l ne).0 ∙ ap (λ x. get_or x l none) same.cbs,
              (others l ne).1 ∙ ap (λ x. get_or x l none) same.slots,
            ),
          )
    ]

-- Of a session is asked: the tables are linked; it has a state for each server; no gigabyte is on a
-- server that it takes for idle; and each server that it does not take for idle has a kernel_cb whose
-- own state has got to CONNECTED, as it has when every connection made by an earlier call has
-- succeeded. If further the selected servers are open, answer with free memory that is not negative,
-- and the one with the most answers a bind with a chunk that is not mapped, IS_single_chunk_map ends:
-- either the most free memory is 0 or no server is selected, and no gigabyte moves; or the gigabyte
-- is on the server that has the most, and every other gigabyte is where it was. The tables stay
-- linked in both cases.
pub single_chunk_map-Linked :
    (servers : Servers) (select_num : ℕ) (randoms selected : List ℕ) (s : Session) (k : ℕ)
    → Ready s
    → select select_num randoms (open_servers s.cb_state_list) ≡ some selected
    → AllOpen s selected
    → Serves servers selected s k
    → ((s' : Session) × (single_chunk_map servers select_num randoms s k ≡ unmapped s')
        × (server_for (ints servers.free) selected ≡ none)
        × Linked s'
        × SameMap s s')
      ⊎ ((d : ℕ) × (s' : Session) × (single_chunk_map servers select_num randoms s k
            ≡ mapped_on d s')
          × (server_for (ints servers.free) selected ≡ some d)
          × Linked s'
          × (cb_of s' k ≡ some d)
          × ((l : ℕ) → l ≢ k → (cb_of s' l ≡ cb_of s l) × (slot_of s' l ≡ slot_of s l)))
single_chunk_map-Linked servers select_num randoms selected s k r chosen o serves =
    elim (single_chunk_map-Ready servers select_num randoms selected s k r chosen o serves) [
      | inl (s', ran, none_has, ready, same) ↦ inl (s', ran, none_has, ready.linked, same)
      | inr (d, s', ran, best, ready, on, _, others) ↦
          inr (d, s', ran, best, ready.linked, on, others)
    ]
