-- ===== src/Session/Evict/Cleared.antt =====
-- The second loop of a STOP: the bitmaps of the chunks that stopped.
use dis_store.Prelude.{
  ℕ, zero, suc, ◌+◌, ◌<◌, ◌≡◌, inl, inr, refl, sym, ap, ◌∙◌, ◌&&◌, if◌then◌else◌, arith, length,
  get_or, length-set, get_or-set, get_or-set_ne, Bool-cases,
}
use native.Mathlib.Decide.{ℕ_discrete}
use dis_store.Bitmap.{bitmap_init}
use dis_store.Session.{ChunkTable, Chunk, EvictMark}
use dis_store.Session.Tables.{no_chunk}
use dis_store.Session.Disconnect.Tables.{within}
use dis_store.Session.Evict.{stops, unmap_stopped, unmap_stopped_from}
use dis_store.Session.Evict.Stopping.{mark_at}

-- The second loop touches the bitmaps of the chunks that stopped, and the mapped flags.
pub record Cleared (t t' : ChunkTable) (i n : ℕ) : Type 0 where
  pub bits :
      (j : ℕ)
      → j < length t.chunk_list
      → (get_or t'.chunk_list j no_chunk).bitmap_g ≡ (
          if within i n j && stops (mark_at t j)
          then bitmap_init
          else (get_or t.chunk_list j no_chunk).bitmap_g)
  pub size : length t'.chunk_list ≡ length t.chunk_list
  pub map : t'.chunk_map ≡ t.chunk_map
  pub marks : t'.evict_chunk_map ≡ t.evict_chunk_map
  pub counter : t'.chunk_size_g ≡ t.chunk_size_g

unmap_stopped-Cleared : (t : ChunkTable) (i : ℕ) → Cleared t (unmap_stopped t i) i 1
unfolding unmap_stopped
unmap_stopped-Cleared t i = elim (Bool-cases (stops (mark_at t i))) [
  | inl marked ↦
      let fresh : Chunk = record (get_or t.chunk_list i no_chunk) { bitmap_g = bitmap_init } in
      let marked_at = λ (j : ℕ) (p : i ≡ j). ap (λ x. stops (mark_at t x)) (sym p) ∙ marked in
      rw (unmap_stopped, marked)
        record {
          bits = λ j lt. elim (ℕ_discrete i j) [
            | yes p ↦
                ground
                  (arith, marked_at j p, get_or-set t.chunk_list i j fresh no_chunk (omega arith))
            | no ne ↦
                ground
                  (arith, ap (λ x. x.bitmap_g) (get_or-set_ne t.chunk_list i j fresh no_chunk ne))
          ];
          size = length-set t.chunk_list i fresh;
          map = refl;
          marks = refl;
          counter = refl;
        }
  | inr spared ↦
      let spared_at = λ (j : ℕ) (p : i ≡ j). ap (λ x. stops (mark_at t x)) (sym p) ∙ spared in
      rw (unmap_stopped, spared)
        record {
          bits = λ j lt. elim (ℕ_discrete i j) [
            | yes p ↦ ground (arith, spared_at j p)
            | no ne ↦ ground arith
          ];
          size = refl;
          map = refl;
          marks = refl;
          counter = refl;
        }
]

pub unmap_stopped_from-Cleared :
    (n i : ℕ) (t : ChunkTable) → Cleared t (unmap_stopped_from n i t) i n
unfolding unmap_stopped_from
unmap_stopped_from-Cleared zero i t = record {
  bits = λ j lt. ground arith;
  size = refl;
  map = refl;
  marks = refl;
  counter = refl;
}
unmap_stopped_from-Cleared (suc n) i t =
    let first = unmap_stopped-Cleared t i in
    let rest = unmap_stopped_from-Cleared n (i + 1) (unmap_stopped t i) in
    record {
      bits = λ j lt. ground (
        arith,
        first.bits j lt,
        rest.bits j (omega (arith, first.size)),
        ap (λ l. stops (get_or l j EvictMark.unmarked)) first.marks,
      );
      size = rest.size ∙ first.size;
      map = rest.map ∙ first.map;
      marks = rest.marks ∙ first.marks;
      counter = rest.counter ∙ first.counter;
    }
