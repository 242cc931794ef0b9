-- ===== src/Daemon/Run/Left.antt =====
-- A connection is lost: what destroy_connection leaves of who has which chunk.
use dis_store.Prelude.{
  ℕ, zero, suc, ◌+◌, ◌<◌, ◌≡◌, ◌≢◌, ◌⊎◌, inl, inr, refl, sym, ap, ap₂, ◌∙◌, Bool, Option, none,
  some, List, [], ◌∷◌, arith, length, get_or, set, get_or-set_self, get_or-set_ne, Bool-cases,
  Option-cases,
}
use native.Mathlib.Decide.{ℕ_discrete}
use dis_store.Prelude.Int.{pos, ltb_ℤ}
use dis_store.Prelude.Counts.{count_some, is_some, bit_of_bool}
use dis_store.Daemon.{Connection, RdmaSession, RemoteMem, max_free_mem_gb}
use dis_store.Daemon.Connect.{release_from, release, destroy_connection}
use dis_store.Daemon.Connect.Release.{Known, destroy_connection-Accounted}
use dis_store.Daemon.Connect.Freed.{count_held, Gone}
use dis_store.Daemon.Run.Owned.{Owned, Consistent, SameLent, Owned-SameLent, in_range}

count_held-shift :
    (n i : ℕ) (x : Option ℕ) (xs : List (Option ℕ))
    → count_held n (i + 1) (x ∷ xs) ≡ count_held n i xs
unfolding count_held
count_held-shift zero i x xs = refl
count_held-shift (suc n) i x xs =
    let up : i + 1 ≡ suc i = omega arith in
    ap₂ (λ a b. bit_of_bool (is_some a) + b) (ap (λ y. get_or (x ∷ xs) y none) up)
      (count_held-shift n (i + 1) x xs)

count_held-count_some : (xs : List (Option ℕ)) → count_held (length xs) 0 xs ≡ count_some xs
unfolding count_held
count_held-count_some [] = refl
count_held-count_some (x ∷ xs) =
    omega (arith, count_held-shift (length xs) 0 x xs, count_held-count_some xs)

-- An entry of the daemon's table that the connection does not hold stays.
release_from-unheld :
    (n i : ℕ) (held : List (Option ℕ)) (m : RemoteMem) (j : ℕ)
    → ((x k : ℕ) → get_or held x none ≡ some k → k ≡ x)
    → get_or held j none ≡ none
    → get_or (release_from n i held m).conn_map j none ≡ get_or m.conn_map j none
unfolding release_from
release_from-unheld zero i held m j own off = refl
release_from-unheld (suc n) i held m j own off = elim (Option-cases (get_or held i none)) [
  | inl e ↦ rw (release_from, e) (release_from-unheld n (i + 1) held m j own off)
  | inr (k, e) ↦
      let ne : k ≢ j = λ p. absurd (cc (own i k e, p, e, off)) in
      let m' = record m {
        conn_map = set m.conn_map k none;
        conn_chunk_map = set m.conn_chunk_map k none;
      } in
      rw (release_from, e)
        (release_from-unheld n (i + 1) held m' j own off
          ∙ get_or-set_ne m.conn_map k j none none ne)
]

release-unheld :
    (m : RemoteMem) (c : Connection) (j : ℕ)
    → ((x k : ℕ) → get_or c.sess_chunk_map x none ≡ some k → k ≡ x)
    → get_or c.sess_chunk_map j none ≡ none
    → get_or (release m c).conn_map j none ≡ get_or m.conn_map j none
unfolding release
release-unheld m c j own off = elim (Bool-cases (ltb_ℤ (pos 0) c.mapped_chunk_size)) [
  | inl t ↦ rw (release, t) (release_from-unheld 32 0 c.sess_chunk_map m j own off)
  | inr f ↦ rw (release, f) refl
]

in_table :
    (xs : List (Option ℕ)) (j k : ℕ)
    → length xs ≡ max_free_mem_gb
    → get_or xs j none ≡ some k
    → j < max_free_mem_gb
in_table xs j k size e = omega (arith, size, in_range xs j (ap is_some e))

-- The connection is known, by what it owns.
Owned-Known :
    (s : RdmaSession) (c : Connection)
    → Consistent s
    → get_or s.conns c.conn_index none ≡ some c
    → Known s c
Owned-Known s c h e =
    let own = h.owned c.conn_index c e in
    record {
      placed = ap is_some e;
      index = omega (arith, h.tracked.conns_size, in_range s.conns c.conn_index (ap is_some e));
      held = λ j k a b t. let (mine, lent) = own.held j k t in (mine, ap is_some lent);
      counts =
          own.counts
          ∙ ap pos (
              sym (count_held-count_some c.sess_chunk_map)
              ∙ ap (λ n. count_held n 0 c.sess_chunk_map) own.sized.map_size);
    }

-- What the connection had is lent to nobody, and no other has lost or got a chunk.
release-lent :
    (m : RemoteMem) (c : Connection) (j : ℕ)
    → Owned m c.conn_index c
    → ((x : ℕ) → x < max_free_mem_gb → Gone (release m c) c.sess_chunk_map x)
    → ((get_or (release m c).conn_map j none ≡ none)
        × (get_or m.conn_map j none ≡ some c.conn_index))
      ⊎ ((get_or (release m c).conn_map j none ≡ get_or m.conn_map j none)
          × (get_or m.conn_map j none ≢ some c.conn_index))
release-lent m c j own gone = elim (Option-cases (get_or c.sess_chunk_map j none)) [
  | inl off ↦
      inr (
        release-unheld m c j (λ x k e. (own.held x k e).0) off,
        λ e. absurd (cc (own.lent j e, off)),
      )
  | inr (k, on) ↦ inl (
    gone j (in_table c.sess_chunk_map j k own.sized.map_size on) (ap is_some on),
    (own.held j k on).1,
  )
]

release-SameLent :
    (m : RemoteMem) (c : Connection) (i : ℕ)
    → Owned m c.conn_index c
    → ((x : ℕ) → x < max_free_mem_gb → Gone (release m c) c.sess_chunk_map x)
    → i ≢ c.conn_index
    → SameLent m (release m c) i
release-SameLent m c i own gone ne j = elim (release-lent m c j own gone) [
  | inl (after, before) ↦ (λ e. absurd (ne (cc)), λ e. absurd (cc))
  | inr (same, _) ↦ (λ e. same ∙ e, λ e. sym same ∙ e)
]

pub destroy_connection-Consistent :
    (s : RdmaSession) (c : Connection) (running : Bool)
    → Consistent s
    → get_or s.conns c.conn_index none ≡ some c
    → Consistent (destroy_connection s c running).0
unfolding destroy_connection
destroy_connection-Consistent s c running h e =
    let own = h.owned c.conn_index c e in
    let (books, tracked, _, gone, _) =
      destroy_connection-Accounted s c running h.books h.tracked (Owned-Known s c h e) in
    let lt = in_range s.conns c.conn_index (ap is_some e) in
    record {
      books = books;
      tracked = tracked;
      owned = λ i d at. elim (ℕ_discrete i c.conn_index) [
        | yes p ↦ absurd (cc (at, p, get_or-set_self s.conns c.conn_index none none lt))
        | no ne ↦
            Owned-SameLent s.rdma_remote (release s.rdma_remote c) i d
              (release-SameLent s.rdma_remote c i own gone ne)
              (h.owned i d
                (sym (get_or-set_ne s.conns c.conn_index i none none (λ q. ne (sym q))) ∙ at))
      ];
      there = λ j i at. elim (release-lent s.rdma_remote c j own gone) [
        | inl (after, before) ↦ absurd (cc (at, after))
        | inr (same, other) ↦
            let ne : c.conn_index ≢ i = λ q. other (sym same ∙ at ∙ ap some (sym q)) in
            ap is_some (get_or-set_ne s.conns c.conn_index i none none ne)
            ∙ h.there j i (sym same ∙ at)
      ];
    }
