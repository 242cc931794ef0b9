-- ===== src/Selection/Random.antt =====
-- The servers that are asked: open ones, each once, and the loops that find them end.
use dis_store.Prelude.{
  ℕ, zero, suc, ◌+◌, ◌≤◌, ◌<◌, ◌%◌, ◌≡◌, inl, inr, refl, ap, ◌∙◌, Bool, true, false, some, List, [],
  ◌∷◌, arith, length, get_or, set, Bool-cases,
}
use native.Mathlib.Nat.{mod-eq_of_lt, mod-add-mod, mod-lt}
use dis_store.Prelude.Counts.{count_true, count_true-set}
use dis_store.Context.Search.{distance}
use dis_store.Selection.{next_open, choose}

next_here :
    (n : ℕ) (avail : List Bool) (r : ℕ)
    → get_or avail r false ≡ true
    → next_open (suc n) avail r ≡ some r
unfolding next_open
next_here n avail r e = rw (next_open, e) refl

next_further :
    (n : ℕ) (avail : List Bool) (r : ℕ)
    → get_or avail r false ≡ false
    → next_open (suc n) avail r ≡ next_open n avail ((r + 1) % length avail)
unfolding next_open
next_further n avail r e = rw (next_open, e) refl

-- The search has found an open server.
abbrev Hit : ℕ → List Bool → ℕ → Type 0
Hit n avail r = (t : ℕ) × (next_open n avail r ≡ some t) × (get_or avail t false ≡ true)

one_closer :
    (avail : List Bool) (r d : ℕ)
    → r < length avail
    → get_or avail ((r + d) % length avail) false ≡ true
    → get_or avail r false ≡ false
    → (d' : ℕ) × (d' < d)
      × (get_or avail (((r + 1) % length avail + d') % length avail) false ≡ true)
one_closer avail r zero c free e =
    let same : (r + 0) % length avail ≡ r =
      ap (λ k. k % length avail) (omega arith) ∙ mod-eq_of_lt c in
    absurd (cc (ap (λ k. get_or avail k false) same, free, e))
one_closer avail r (suc d) c free e =
    let turn : ((r + 1) % length avail + d) % length avail ≡ (r + suc d) % length avail =
      mod-add-mod (r + 1) (length avail) d ∙ ap (λ k. k % length avail) (omega arith) in
    (d, omega arith, rw turn free)

next_open-further :
    (n d : ℕ) (avail : List Bool) (r : ℕ)
    → r < length avail
    → d < n
    → get_or avail ((r + d) % length avail) false ≡ true
    → Hit n avail r
next_open-further zero d avail r c h free = absurd (omega arith)
next_open-further (suc n) d avail r c h free = elim (Bool-cases (get_or avail r false)) [
  | inl e ↦ (r, next_here n avail r e, e)
  | inr e ↦
      let (d', h', free') = one_closer avail r d c free e in
      rw (next_further n avail r e) (
        next_open-further n d' avail ((r + 1) % length avail) (mod-lt (r + 1) (omega arith))
          (omega arith) free')
]

some_open :
    (avail : List Bool)
    → 0 < count_true avail
    → (k : ℕ) × (k < length avail) × (get_or avail k false ≡ true)
some_open [] h = absurd (omega arith)
some_open (true ∷ avail) h = (0, omega arith, refl)
some_open (false ∷ avail) h =
    let (k, lt, e) = some_open avail (omega arith) in (suc k, omega arith, e)

-- One round over the servers finds an open one, if there is one.
next_open-finds :
    (avail : List Bool) (r : ℕ)
    → r < length avail
    → 0 < count_true avail
    → Hit (length avail) avail r
next_open-finds avail r c h =
    let (k, lt, e) = some_open avail h in
    let (d, hd, there) = distance r k (length avail) c lt in
    next_open-further (length avail) d avail r c hd (rw there e)

-- All are open, and none stands twice.
pub OpenOnce : List Bool → List ℕ → Type 0
OpenOnce avail [] = Unit
OpenOnce avail (t ∷ ts) = (get_or avail t false ≡ true) × OpenOnce (set avail t false) ts

choose-cons :
    (random : ℕ) (rs : List ℕ) (avail : List Bool) (t : ℕ) (chosen : List ℕ)
    → next_open (length avail) avail (random % length avail) ≡ some t
    → choose rs (set avail t false) ≡ some chosen
    → choose (random ∷ rs) avail ≡ some (t ∷ chosen)
unfolding choose
choose-cons random rs avail t chosen e f = rw (choose, e, f) refl

choose-nil : (avail : List Bool) → choose [] avail ≡ some []
unfolding choose
choose-nil avail = refl

lt_of_open : (avail : List Bool) (t : ℕ) → get_or avail t false ≡ true → t < length avail
lt_of_open [] t h = absurd (cc)
lt_of_open (x ∷ avail) zero h = omega arith
lt_of_open (x ∷ avail) (suc t) h = omega (arith, lt_of_open avail t h)

-- If as many servers are open as there are random numbers, the loops of IS_single_chunk_map end,
-- and choose one open server for each number, none of them twice.
pub choose-OpenOnce :
    (rs : List ℕ) (avail : List Bool)
    → length rs ≤ count_true avail
    → (chosen : List ℕ) × (choose rs avail ≡ some chosen)
      × OpenOnce avail chosen
      × (length chosen ≡ length rs)
unfolding OpenOnce
choose-OpenOnce [] avail h = ([], choose-nil avail, tt, refl)
choose-OpenOnce (random ∷ rs) avail h =
    let (k, lt, open_k) = some_open avail (omega arith) in
    let (t, e, hit) =
      next_open-finds avail (random % length avail) (mod-lt random (omega arith)) (omega arith) in
    let count = count_true-set avail t false (lt_of_open avail t hit) in
    let count' : count_true (set avail t false) + 1 ≡ count_true avail =
      ground (arith, count, hit) in
    let (chosen, f, once, len) = choose-OpenOnce rs (set avail t false) (omega (arith, count')) in
    (t ∷ chosen, choose-cons random rs avail t chosen e f, (hit, once), ap suc len)
