-- ===== src/Session/Disconnect/Tables.antt =====
-- What the loss of a server leaves of the tables.
use dis_store.Prelude.{
  ℕ, zero, suc, ◌+◌, ◌≤◌, ◌<◌, ◌≡◌, ◌≢◌, refl, sym, ap, ap₂, ◌∙◌, Bool, false, ◌||◌, ◌&&◌, Option,
  none, some, List, ◌==◌, leb, ltb, if◌then◌else◌, arith, length, get_or, length-set,
  get_or-set_default, get_or-set_ne, get_or-set_self,
}
use native.Mathlib.Decide.{ℕ_discrete}
use dis_store.Session.{Session}
use dis_store.Session.Tables.{cb_at, cb_of, slot_of, no_cb}
use dis_store.Session.Links.{gb_at}
use dis_store.Session.Disconnect.{unmap_chunk, unmap_from, free_gb, free_from}

-- The entry is gigabyte `k`.
abbrev pub is_gb : Option ℕ → ℕ → Bool
is_gb none k = false
is_gb (some l) k = l == k

-- One of the `n` entries from `i` on is gigabyte `k`.
unfoldable pub holds : ℕ → ℕ → List (Option ℕ) → ℕ → Bool
holds zero i chunk_map k = false
holds (suc n) i chunk_map k = is_gb (get_or chunk_map i none) k || holds n (i + 1) chunk_map k

abbrev pub map_of : Session → ℕ → List (Option ℕ)
map_of s c = (cb_at s c).remote_chunk.chunk_map

-- The first loop takes the gigabytes of the chunks off the server, and touches neither the places
-- nor the chunk map, nor any other server.
pub record Unmapped (s s' : Session) (c : ℕ) (gone : ℕ → Bool) : Type 0 where
  pub cbs : (k : ℕ) → cb_of s' k ≡ (if gone k then none else cb_of s k)
  pub slots : s'.chunk_map_cb_chunk ≡ s.chunk_map_cb_chunk
  pub others : (d : ℕ) → d ≢ c → cb_at s' d ≡ cb_at s d
  pub map : map_of s' c ≡ map_of s c
  pub size : length s'.cb_list ≡ length s.cb_list

unmap_chunk-Unmapped :
    (s : Session) (c i k : ℕ)
    → c < length s.cb_list
    → Unmapped s (unmap_chunk s c i k) c (λ l. k == l)
unfolding unmap_chunk
unmap_chunk-Unmapped s c i k h = record {
  cbs = λ l. ground (arith, get_or-set_default s.cb_index_map k l none);
  slots = refl;
  others = λ d ne. get_or-set_ne s.cb_list c d _ no_cb (λ e. ne (sym e));
  map = ap (λ cb. cb.remote_chunk.chunk_map) (get_or-set_self s.cb_list c _ no_cb h);
  size = length-set s.cb_list c _;
}

Unmapped-refl : (s : Session) (c : ℕ) → Unmapped s s c (λ k. false)
Unmapped-refl s c = record {
  cbs = λ k. refl;
  slots = refl;
  others = λ d ne. refl;
  map = refl;
  size = refl;
}

Unmapped-trans :
    (s s' s'' : Session) (c : ℕ) (f g : ℕ → Bool)
    → Unmapped s s' c f
    → Unmapped s' s'' c g
    → Unmapped s s'' c (λ k. f k || g k)
Unmapped-trans s s' s'' c f g a b = record {
  cbs = λ k. ground (arith, a.cbs k, b.cbs k);
  slots = b.slots ∙ a.slots;
  others = λ d ne. b.others d ne ∙ a.others d ne;
  map = b.map ∙ a.map;
  size = b.size ∙ a.size;
}

-- One round.
abbrev round : Session → ℕ → ℕ → Option ℕ → Session
round s c i o = elim o [ none ↦ s | some k ↦ unmap_chunk s c i k ]

round-Unmapped :
    (s : Session) (c i : ℕ) (o : Option ℕ)
    → c < length s.cb_list
    → Unmapped s (round s c i o) c (is_gb o)
round-Unmapped s c i none h = Unmapped-refl s c
round-Unmapped s c i (some k) h = unmap_chunk-Unmapped s c i k h

pub unmap_from-Unmapped :
    (n i c : ℕ) (s : Session)
    → c < length s.cb_list
    → Unmapped s (unmap_from n i c s) c (holds n i (map_of s c))
unfolding unmap_from holds
unmap_from-Unmapped zero i c s h = Unmapped-refl s c
unmap_from-Unmapped (suc n) i c s h =
    let s' = round s c i (gb_at s c i) in
    let first = round-Unmapped s c i (gb_at s c i) h in
    let rest = unmap_from-Unmapped n (i + 1) c s' (omega (arith, first.size)) in
    Unmapped-trans s s' (unmap_from n (i + 1) c s') c (is_gb (gb_at s c i))
      (holds n (i + 1) (map_of s c)) first (rw first.map at rest)

holds-from :
    (n i : ℕ) (xs ys : List (Option ℕ)) (k : ℕ)
    → ((j : ℕ) → i ≤ j → get_or xs j none ≡ get_or ys j none)
    → holds n i xs k ≡ holds n i ys k
unfolding holds
holds-from zero i xs ys k h = refl
holds-from (suc n) i xs ys k h =
    ap₂ (λ o rest. is_gb o k || rest) (h i (omega arith))
      (holds-from n (i + 1) xs ys k (λ j le. h j (omega arith)))

abbrev pub within : ℕ → ℕ → ℕ → Bool
within i n j = leb i j && ltb j (i + n)

-- The second loop takes the places of the gigabytes, and the entries of the server's chunk map.
pub record Freed (s s' : Session) (c i n : ℕ) (gone : ℕ → Bool) : Type 0 where
  pub cbs : s'.cb_index_map ≡ s.cb_index_map
  pub slots : (k : ℕ) → slot_of s' k ≡ (if gone k then none else slot_of s k)
  pub others : (d : ℕ) → d ≢ c → cb_at s' d ≡ cb_at s d
  pub map : (j : ℕ) → gb_at s' c j ≡ (if within i n j then none else gb_at s c j)
  pub size : length s'.cb_list ≡ length s.cb_list

free_gb-Freed :
    (s : Session) (c i k : ℕ) → c < length s.cb_list → Freed s (free_gb s c i k) c i 1 (λ l. k == l)
unfolding free_gb
free_gb-Freed s c i k h = record {
  cbs = refl;
  slots = λ l. ground (arith, get_or-set_default s.chunk_map_cb_chunk k l none);
  others = λ d ne. get_or-set_ne s.cb_list c d _ no_cb (λ e. ne (sym e));
  map = λ j.
      ap (λ cb. get_or cb.remote_chunk.chunk_map j none) (get_or-set_self s.cb_list c _ no_cb h)
      ∙ ground (arith, get_or-set_default (map_of s c) i j none);
  size = length-set s.cb_list c _;
}

abbrev free_round : Session → ℕ → ℕ → Option ℕ → Session
free_round s c i o = elim o [ none ↦ s | some k ↦ free_gb s c i k ]

free_round-Freed :
    (s : Session) (c i : ℕ) (o : Option ℕ)
    → c < length s.cb_list
    → gb_at s c i ≡ o
    → Freed s (free_round s c i o) c i 1 (is_gb o)
free_round-Freed s c i none h e = record {
  cbs = refl;
  slots = λ k. refl;
  others = λ d ne. refl;
  map = λ j. elim (ℕ_discrete i j) [
    | yes p ↦ let gone : gb_at s c j ≡ none = ap (gb_at s c) (sym p) ∙ e in ground (arith, gone)
    | no ne ↦ ground arith
  ];
  size = refl;
}
free_round-Freed s c i (some k) h e = free_gb-Freed s c i k h

pub free_from-Freed :
    (n i c : ℕ) (s : Session)
    → c < length s.cb_list
    → Freed s (free_from n i c s) c i n (holds n i (map_of s c))
unfolding free_from holds
free_from-Freed zero i c s h = record {
  cbs = refl;
  slots = λ k. refl;
  others = λ d ne. refl;
  map = λ j. ground arith;
  size = refl;
}
free_from-Freed (suc n) i c s h =
    let s' = free_round s c i (gb_at s c i) in
    let first = free_round-Freed s c i (gb_at s c i) h refl in
    let rest = free_from-Freed n (i + 1) c s' (omega (arith, first.size)) in
    record {
      cbs = rest.cbs ∙ first.cbs;
      slots = λ k. ground (
        arith,
        rest.slots k,
        first.slots k,
        holds-from n (i + 1) (map_of s' c) (map_of s c) k (λ j le. ground (arith, first.map j)),
      );
      others = λ d ne. rest.others d ne ∙ first.others d ne;
      map = λ j. ground (arith, rest.map j, first.map j);
      size = rest.size ∙ first.size;
    }
