-- ===== src/Session/Evict/Named.antt =====
-- Which gigabytes a STOP names.
use dis_store.Prelude.{
  ℕ, zero, suc, ◌+◌, ◌≤◌, ◌<◌, ◌≡◌, inl, inr, sym, ap, ◌∙◌, true, false, ◌&&◌, none, some, ◌==◌,
  arith, length, Bool-cases,
}
use native.Mathlib.Decide.{ℕ_discrete}
use dis_store.Session.{Session, ChunkTable, max_mr_size_gb}
use dis_store.Session.Tables.{cb_at, cb_of, slot_of}
use dis_store.Session.Links.{gb_at, Linked}
use dis_store.Session.Disconnect.Tables.{is_gb}
use dis_store.Session.Disconnect.Holds.{is_gb-some, get_or-some_lt}
use dis_store.Session.Evict.{stops}
use dis_store.Session.Evict.Stopping.{mark_at, gb_of, evicts, StopsMapped}

abbrev pub table_of : Session → ℕ → ChunkTable
table_of s c = (cb_at s c).remote_chunk

-- Server `c` is there, its message and its chunk map have their sizes, the chunk map names the
-- gigabytes that are on it at their places, and the chunks that have to stop are mapped.
pub record Stoppable (s : Session) (c : ℕ) : Type 0 where
  pub there : c < length s.cb_list
  pub keys : length (cb_at s c).send_buf.rkey ≡ max_mr_size_gb
  pub size : length (table_of s c).chunk_map ≤ max_mr_size_gb
  pub mine : (i k : ℕ) → gb_at s c i ≡ some k → (cb_of s k ≡ some c) × (slot_of s k ≡ some i)
  pub mapped : StopsMapped (table_of s c) 0 max_mr_size_gb

evicts-found :
    (n i : ℕ) (t : ChunkTable) (k : ℕ)
    → evicts n i t k ≡ true
    → (j : ℕ) × (stops (mark_at t j) ≡ true) × (gb_of t j ≡ some k)
unfolding evicts
evicts-found zero i t k h = absurd (cc)
evicts-found (suc n) i t k h = elim (Bool-cases (stops (mark_at t i) && is_gb (gb_of t i) k)) [
  | inl e ↦
      let marked : stops (mark_at t i) ≡ true = ground (arith, e) in
      (i, marked, is_gb-some (gb_of t i) k (ground (arith, e, marked)))
  | inr e ↦ evicts-found n (i + 1) t k (rw e at h)
]

evicts-here :
    (n i j : ℕ) (t : ChunkTable) (k : ℕ)
    → i ≤ j
    → j < i + n
    → stops (mark_at t j) ≡ true
    → gb_of t j ≡ some k
    → evicts n i t k ≡ true
unfolding evicts
evicts-here zero i j t k a b marked on = absurd (omega arith)
evicts-here (suc n) i j t k a b marked on = elim (ℕ_discrete i j) [
  | yes e ↦
      let marked' = ap (λ x. stops (mark_at t x)) e ∙ marked in
      let on' = ap (gb_of t) e ∙ on in ground (arith, marked', on')
  | no ne ↦ ground (arith, evicts-here n (i + 1) j t k (omega arith) (omega arith) marked on)
]

-- A gigabyte is evicted if it is on this server, at a place that has to stop.
pub evicts-eq :
    (s : Session) (c k d i : ℕ)
    → Linked s
    → Stoppable s c
    → cb_of s k ≡ some d
    → slot_of s k ≡ some i
    → evicts 32 0 (table_of s c) k ≡ ((d == c) && stops (mark_at (table_of s c) i))
evicts-eq s c k d i h o on place = elim (Bool-cases (evicts 32 0 (table_of s c) k)) [
  | inl e ↦
      let (j, marked, held) = evicts-found 32 0 (table_of s c) k e in
      let (here, at) = o.mine j k held in
      let same : d ≡ c = cc (on, here) in
      let at_i : j ≡ i = cc (at, place) in
      let marked_i = ap (λ x. stops (mark_at (table_of s c) x)) (sym at_i) ∙ marked in
      ground (arith, e, same, marked_i)
  | inr e ↦ elim (Bool-cases ((d == c) && stops (mark_at (table_of s c) i))) [
    | inl f ↦
        let same : d ≡ c = ground (arith, f) in
        let marked : stops (mark_at (table_of s c) i) ≡ true = ground (arith, f, same) in
        let held : gb_at s c i ≡ some k = (h k c i (on ∙ ap some same) place).back in
        let small : i < 32 =
          omega (arith, o.size, get_or-some_lt (table_of s c).chunk_map i k held) in
        absurd (cc (evicts-here 32 0 i (table_of s c) k (omega arith) small marked held, e))
    | inr f ↦ e ∙ sym f
  ]
]

evicts-none :
    (s : Session) (c k : ℕ)
    → Stoppable s c
    → cb_of s k ≡ none
    → evicts 32 0 (table_of s c) k ≡ false
evicts-none s c k o off = elim (Bool-cases (evicts 32 0 (table_of s c) k)) [
  | inl e ↦
      let (j, marked, held) = evicts-found 32 0 (table_of s c) k e in
      absurd (cc ((o.mine j k held).0, off))
  | inr e ↦ e
]
