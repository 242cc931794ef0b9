-- ===== src/Session/Evict/Stopping.antt =====
-- What the loops of the evict thread leave of the tables of its server.
use dis_store.Prelude.{
  ℕ, zero, suc, ◌+◌, ◌≤◌, ◌<◌, ◌≡◌, inl, inr, refl, sym, ap, ◌∙◌, Bool, true, false, ◌||◌, ◌&&◌,
  Option, none, some, if◌then◌else◌, arith, length, get_or, length-set, get_or-set,
  get_or-set_default, Bool-cases,
}
use native.Mathlib.Decide.{ℕ_discrete}
use dis_store.Session.{ChunkTable, EvictMark}
use dis_store.Session.Disconnect.Tables.{is_gb, within}
use dis_store.Session.Disconnect.Loss.{get_or-mark}
use dis_store.Session.Evict.{Evicting, stops, stop_chunk, stop_round, stop_from, with_rkey}

abbrev pub mark_at : ChunkTable → ℕ → EvictMark
mark_at t i = get_or t.evict_chunk_map i EvictMark.unmarked

abbrev pub gb_of : ChunkTable → ℕ → Option ℕ
gb_of t i = get_or t.chunk_map i none

-- One of the `n` chunks from `i` on has to stop and is mapped to gigabyte `k`.
unfoldable pub evicts : ℕ → ℕ → ChunkTable → ℕ → Bool
evicts zero i t k = false
evicts (suc n) i t k = (stops (mark_at t i) && is_gb (gb_of t i) k) || evicts n (i + 1) t k

-- The first loop, over the `n` chunks from `i` on.
pub record Stopped (e e' : Evicting) (i n : ℕ) : Type 0 where
  pub cbs :
      (k : ℕ)
      → get_or e'.cb_index_map k none
        ≡ (if evicts n i e.cb.remote_chunk k then none else get_or e.cb_index_map k none)
  pub map :
      (j : ℕ)
      → gb_of e'.cb.remote_chunk j ≡ (
          if within i n j && stops (mark_at e.cb.remote_chunk j)
          then none
          else gb_of e.cb.remote_chunk j)
  pub keys :
      (j : ℕ)
      → get_or e'.cb.send_buf.rkey j 0 ≡ (
          if within i n j
          then (if stops (mark_at e.cb.remote_chunk j) then 1 else 0)
          else get_or e.cb.send_buf.rkey j 0)
  pub list :
      (k : ℕ)
      → k < length e.evict_list
      → get_or e'.evict_list k false
        ≡ (get_or e.evict_list k false || evicts n i e.cb.remote_chunk k)
  pub marks : e'.cb.remote_chunk.evict_chunk_map ≡ e.cb.remote_chunk.evict_chunk_map
  pub chunks : e'.cb.remote_chunk.chunk_list ≡ e.cb.remote_chunk.chunk_list
  pub shrink : e'.cb.remote_chunk.shrink_size_g ≡ e.cb.remote_chunk.shrink_size_g
  pub index : e'.cb.cb_index ≡ e.cb.cb_index
  pub key_size : length e'.cb.send_buf.rkey ≡ length e.cb.send_buf.rkey
  pub list_size : length e'.evict_list ≡ length e.evict_list

-- What a chunk that stops leaves of the tables, at its own index and elsewhere.
stop_chunk-Stopped :
    (e : Evicting) (i k : ℕ)
    → i < length e.cb.send_buf.rkey
    → stops (mark_at e.cb.remote_chunk i) ≡ true
    → gb_of e.cb.remote_chunk i ≡ some k
    → Stopped e (stop_chunk e i k) i 1
unfolding stop_chunk evicts
stop_chunk-Stopped e i k lt marked on =
    let marked_at =
      λ (j : ℕ) (p : i ≡ j). ap (λ x. stops (mark_at e.cb.remote_chunk x)) (sym p) ∙ marked in
    record {
      cbs = λ l. ground (arith, get_or-set_default e.cb_index_map k l none, marked, on);
      map = λ j. elim (ℕ_discrete i j) [
        | yes p ↦
            ground (arith, marked_at j p, get_or-set_default e.cb.remote_chunk.chunk_map i j none)
        | no ne ↦ ground (arith, get_or-set_default e.cb.remote_chunk.chunk_map i j none)
      ];
      keys = λ j. elim (ℕ_discrete i j) [
        | yes p ↦ ground (arith, marked_at j p, get_or-set e.cb.send_buf.rkey i j 1 0 lt)
        | no ne ↦ ground (arith, get_or-set e.cb.send_buf.rkey i j 1 0 lt)
      ];
      list = λ l h. ground (arith, (get_or-mark e.evict_list (some k) l h).0, marked, on);
      marks = refl;
      chunks = refl;
      shrink = refl;
      index = refl;
      key_size = length-set e.cb.send_buf.rkey i 1;
      list_size = length-set e.evict_list k true;
    }

spare_chunk-Stopped :
    (e : Evicting) (i : ℕ)
    → i < length e.cb.send_buf.rkey
    → stops (mark_at e.cb.remote_chunk i) ≡ false
    → Stopped e (record e { cb = with_rkey e.cb i 0 }) i 1
unfolding evicts
spare_chunk-Stopped e i lt spared =
    let spared_at =
      λ (j : ℕ) (p : i ≡ j). ap (λ x. stops (mark_at e.cb.remote_chunk x)) (sym p) ∙ spared in
    record {
      cbs = λ l. ground (arith, spared);
      map = λ j. elim (ℕ_discrete i j) [
        | yes p ↦ ground (arith, spared_at j p)
        | no ne ↦ ground arith
      ];
      keys = λ j. elim (ℕ_discrete i j) [
        | yes p ↦ ground (arith, spared_at j p, get_or-set e.cb.send_buf.rkey i j 0 0 lt)
        | no ne ↦ ground (arith, get_or-set e.cb.send_buf.rkey i j 0 0 lt)
      ];
      list = λ l h. ground (arith, spared);
      marks = refl;
      chunks = refl;
      shrink = refl;
      index = refl;
      key_size = length-set e.cb.send_buf.rkey i 0;
      list_size = refl;
    }

-- Every chunk among these that has to stop is mapped.
abbrev pub StopsMapped : ChunkTable → ℕ → ℕ → Type 0
StopsMapped t i n =
    (j : ℕ) → i ≤ j → j < i + n → stops (mark_at t j) ≡ true → (k : ℕ) × (gb_of t j ≡ some k)

stop_round-Stopped :
    (e : Evicting) (i : ℕ)
    → i < length e.cb.send_buf.rkey
    → StopsMapped e.cb.remote_chunk i 1
    → (e' : Evicting) × (stop_round e i ≡ some e') × Stopped e e' i 1
unfolding stop_round stop_chunk
stop_round-Stopped e i lt h = elim (Bool-cases (stops (mark_at e.cb.remote_chunk i))) [
  | inl marked ↦
      let (k, on) = h i (omega arith) (omega arith) marked in
      (stop_chunk e i k, rw (stop_round, marked, on) refl, stop_chunk-Stopped e i k lt marked on)
  | inr spared ↦ (_, rw (stop_round, spared) refl, spare_chunk-Stopped e i lt spared)
]

Stopped-refl : (e : Evicting) (i : ℕ) → Stopped e e i 0
unfolding evicts
Stopped-refl e i = record {
  cbs = λ k. refl;
  map = λ j. ground arith;
  keys = λ j. ground arith;
  list = λ k h. ground arith;
  marks = refl;
  chunks = refl;
  shrink = refl;
  index = refl;
  key_size = refl;
  list_size = refl;
}

-- The chunks from `i + 1` on are the same after chunk `i`.
evicts-Stopped :
    (e e' : Evicting) (i : ℕ)
    → Stopped e e' i 1
    → (n m k : ℕ) → i < m
    → evicts n m e'.cb.remote_chunk k ≡ evicts n m e.cb.remote_chunk k
unfolding evicts
evicts-Stopped e e' i f zero m k lt = refl
evicts-Stopped e e' i f (suc n) m k lt = ground (
  arith,
  ap (λ l. stops (get_or l m EvictMark.unmarked)) f.marks,
  f.map m,
  evicts-Stopped e e' i f n (m + 1) k (omega arith),
)

Stopped-trans :
    (e e' e'' : Evicting) (i n : ℕ)
    → Stopped e e' i 1
    → Stopped e' e'' (i + 1) n
    → Stopped e e'' i (suc n)
unfolding evicts
Stopped-trans e e' e'' i n f g =
    let marks = λ (j : ℕ). ap (λ l. stops (get_or l j EvictMark.unmarked)) f.marks in
    let later = λ (k : ℕ). evicts-Stopped e e' i f n (i + 1) k (omega arith) in
    record {
      cbs = λ k. ground (arith, f.cbs k, g.cbs k, later k);
      map = λ j. ground (arith, f.map j, g.map j, marks j);
      keys = λ j. ground (arith, f.keys j, g.keys j, marks j);
      list = λ k h. ground (arith, f.list k h, g.list k (omega (arith, f.list_size)), later k);
      marks = g.marks ∙ f.marks;
      chunks = g.chunks ∙ f.chunks;
      shrink = g.shrink ∙ f.shrink;
      index = g.index ∙ f.index;
      key_size = g.key_size ∙ f.key_size;
      list_size = g.list_size ∙ f.list_size;
    }

StopsMapped-Stopped :
    (e e' : Evicting) (i n : ℕ)
    → Stopped e e' i 1
    → StopsMapped e.cb.remote_chunk i (suc n)
    → StopsMapped e'.cb.remote_chunk (i + 1) n
StopsMapped-Stopped e e' i n f h j a b marked =
    let before = ap (λ l. stops (get_or l j EvictMark.unmarked)) (sym f.marks) ∙ marked in
    let (k, on) = h j (omega arith) (omega arith) before in (k, ground (arith, f.map j, on))

-- The first loop comes to its end when every chunk that has to stop is mapped.
pub stop_from-Stopped :
    (n i : ℕ) (e : Evicting)
    → i + n ≤ length e.cb.send_buf.rkey
    → StopsMapped e.cb.remote_chunk i n
    → (e' : Evicting) × (stop_from n i e ≡ some e') × Stopped e e' i n
unfolding stop_from
stop_from-Stopped zero i e le h = (e, refl, Stopped-refl e i)
stop_from-Stopped (suc n) i e le h =
    let (e', first, f) =
      stop_round-Stopped e i (omega arith) (λ j a b. h j (omega arith) (omega arith)) in
    let (e'', rest, g) =
      stop_from-Stopped n (i + 1) e' (omega (arith, f.key_size))
        (StopsMapped-Stopped e e' i n f h) in
    (e'', rw (first, stop_from) rest, Stopped-trans e e' e'' i n f g)
