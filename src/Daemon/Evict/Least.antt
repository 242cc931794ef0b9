-- ===== src/Daemon/Evict/Least.antt =====
-- The chunks that are stopped are the least active ones.
use dis_store.Prelude.{
  ℕ, zero, suc, ◌≤◌, ◌≡◌, inl, inr, refl, ap, some, List, [], ◌∷◌, ◌++◌, ltb, arith, length,
  Bool-cases,
}
use mathlib.Core.Logic.Or
use mathlib.Core.List.{Mem, Perm, Pairwise, mem-cons, mem-append, not-mem-nil}
use mathlib.Core.List.Perm
use native.Mathlib.Bridge.{le_prop}
use dis_store.Daemon.Evict.{ChunkActivity, sweep, least}

-- No entry of the list is less active.
abbrev IsBelow : ℕ → List ChunkActivity → Type 0
IsBelow a l = (x : ChunkActivity) → Mem x l → a ≤ x.activity

IsBelow-cons :
    (a : ℕ) (b : ChunkActivity) (l : List ChunkActivity)
    → a ≤ b.activity
    → IsBelow a l
    → IsBelow a (b ∷ l)
IsBelow-cons a b l h below x m =
    Or.elim le_prop (mem-cons.0 m) (λ e. omega (arith, ap (λ y. y.activity) e)) (below x)

-- A round brings a least entry to the front, and loses none.
sweep_lem :
    (a : ChunkActivity) (l : List ChunkActivity)
    → Perm ((sweep a l).0 ∷ (sweep a l).1) (a ∷ l)
      × IsBelow (sweep a l).0.activity (sweep a l).1
      × ((sweep a l).0.activity ≤ a.activity)
      × (length (sweep a l).1 ≡ length l)
unfolding sweep
sweep_lem a [] = (Perm.rfl, λ x m. absurd (not-mem-nil m), omega arith, refl)
sweep_lem a (b ∷ bs) = elim (Bool-cases (ltb b.activity a.activity)) [
  | inl e ↦
      let (perm, below, le, size) = sweep_lem b bs in
      rw e (
        Perm.trans (Perm.swap _ _ _) (Perm.trans (Perm.cons a perm) Perm.rfl),
        IsBelow-cons _ a _ (ground (arith, e, le)) below,
        ground (arith, e, le),
        ap suc size,
      )
  | inr e ↦
      let (perm, below, le, size) = sweep_lem a bs in
      rw e (
        Perm.trans (Perm.swap _ _ _) (Perm.trans (Perm.cons b perm) (Perm.swap _ _ _)),
        IsBelow-cons _ b _ (ground (arith, e, le)) below,
        le,
        ap suc size,
      )
]

-- `evict_mem` sorts its first `j` entries: they are the `j` least active of all, in order, and
-- together with those behind them they are the entries that came in, whenever there are that many.
pub least_perm :
    (j : ℕ) (l : List ChunkActivity)
    → j ≤ length l
    → (chosen rest : List ChunkActivity) × (least j l ≡ some (chosen, rest))
      × Perm (chosen ++ rest) l
      × (length chosen ≡ j)
      × Pairwise (λ x y. x.activity ≤ y.activity) chosen
      × ((x y : ChunkActivity) → Mem x chosen → Mem y rest → x.activity ≤ y.activity)
unfolding least
least_perm zero l h = ([], l, refl, Perm.rfl, refl, Pairwise.nil, λ x y m n. absurd (not-mem-nil m))
least_perm (suc j) [] h = absurd (omega arith)
least_perm (suc j) (a ∷ l) h =
    let (perm, below, le, size) = sweep_lem a l in
    let first = (sweep a l).0 in
    let (chosen, rest, ran, perm', count, sorted, least_of) =
      least_perm j (sweep a l).1 (omega (arith, size)) in
    (
      first ∷ chosen,
      rest,
      rw (ran, least) refl,
      Perm.trans (Perm.cons first perm') perm,
      ap suc count,
      Pairwise.cons (λ x m. below x ((Perm.mem_iff perm').0 (mem-append.1 (Or.inl m)))) sorted,
      λ x y m n.
          Or.elim le_prop (mem-cons.0 m)
            (λ e. omega (
              arith,
              ap (λ z. z.activity) e,
              below y ((Perm.mem_iff perm').0 (mem-append.1 (Or.inr n))),
            ))
            (λ mem. least_of x y mem n),
    )
