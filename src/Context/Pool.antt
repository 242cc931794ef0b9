-- ===== src/Context/Pool.antt =====
-- The pool of contexts over time: what is free and what is held.
use dis_store.Prelude.{
  ◌⊎◌, inl, inr, ℕ, zero, suc, ◌+◌, ◌<◌, ◌≡◌, ◌↔◌, refl, ap, ◌∙◌, none, some, List, [], ◌∷◌, ◌++◌,
  ◌==◌, if◌then◌else◌, ltb, arith, length, get_or, set, take, length-set, get_or-set_self,
  Option-cases,
}
use dis_store.Prelude.Counts.{bit_of_bool}
use dis_store.Context.{
  FreePool, queue_depth, from_up, ctx_init, tail_down, tail_up, get_ctx, insert_ctx,
}

-- How often `x` stands in a list.
abbrev pub occurs : ℕ → List ℕ → ℕ
occurs x [] = 0
occurs x (y ∷ ys) = bit_of_bool (x == y) + occurs x ys

occurs-append : (x : ℕ) (ys zs : List ℕ) → occurs x (ys ++ zs) ≡ occurs x ys + occurs x zs
occurs-append x [] zs = omega arith
occurs-append x (y ∷ ys) zs = omega (arith, occurs-append x ys zs)

-- Taking one entry more, and writing the entry behind those taken.
occurs-take_more :
    (x n : ℕ) (ys : List ℕ)
    → n < length ys
    → occurs x (take (suc n) ys) ≡ occurs x (take n ys) + bit_of_bool (x == get_or ys n 0)
occurs-take_more x n [] h = absurd (omega arith)
occurs-take_more x zero (y ∷ ys) h = omega arith
occurs-take_more x (suc n) (y ∷ ys) h = omega (arith, occurs-take_more x n ys (omega arith))

take-set_behind : (n y : ℕ) (ys : List ℕ) → take n (set ys n y) ≡ take n ys
take-set_behind zero y [] = refl
take-set_behind zero y (z ∷ ys) = refl
take-set_behind (suc n) y [] = refl
take-set_behind (suc n) y (z ∷ ys) = ap (λ t. z ∷ t) (take-set_behind n y ys)

occurs-from_up :
    (x n i : ℕ) → occurs x (from_up n i) ≡ (if ltb x i then 0 else (if ltb x (i + n) then 1 else 0))
unfolding from_up
occurs-from_up x zero i = ground arith
occurs-from_up x (suc n) i = ground (arith, occurs-from_up x n (i + 1))

length-from_up : (n i : ℕ) → length (from_up n i) ≡ n
unfolding from_up
length-from_up zero i = refl
length-from_up (suc n) i = ap suc (length-from_up n (i + 1))

take-from_up : (n i : ℕ) → take n (from_up n i) ≡ from_up n i
unfolding from_up
take-from_up zero i = refl
take-from_up (suc n) i = ap (λ t. i ∷ t) (take-from_up n (i + 1))

-- The contexts that are free now.
abbrev pub free_now : FreePool → List ℕ
free_now p = take (tail_up p.tail) p.ctx_list

-- A step of those that use the pool: one takes a context, or finds none, or gives one back.
pub data Step : FreePool → List ℕ → FreePool → List ℕ → Type 0 where
  taken :
      {p p' : FreePool} {held : List ℕ} (x : ℕ)
      → get_ctx p ≡ (some x, p')
      → Step p held p' (x ∷ held)
  refused : {p p' : FreePool} {held : List ℕ} → get_ctx p ≡ (none, p') → Step p held p' held
  given :
      {p : FreePool} (before : List ℕ) (x : ℕ) (after : List ℕ)
      → Step p (before ++ (x ∷ after)) (insert_ctx x p) (before ++ after)

pub data Reach : FreePool → List ℕ → Type 0 where
  fresh : Reach ctx_init.free_ctxs []
  next :
      {p p' : FreePool} {held held' : List ℕ} → Reach p held → Step p held p' held' → Reach p' held'

-- Each context is free or held, once, and the free ones fit the array.
pub record Balanced (p : FreePool) (held : List ℕ) : Type 0 where
  pub size : length p.ctx_list ≡ queue_depth
  pub total : tail_up p.tail + length held ≡ queue_depth
  pub once : (x : ℕ) → occurs x (free_now p) + occurs x held ≡ (if ltb x queue_depth then 1 else 0)

length-append_cons :
    (before : List ℕ) (x : ℕ) (after : List ℕ)
    → length (before ++ (x ∷ after)) ≡ suc (length (before ++ after))
length-append_cons [] x after = refl
length-append_cons (b ∷ before) x after = ap suc (length-append_cons before x after)

fresh-Balanced : Balanced ctx_init.free_ctxs []
unfolding ctx_init
fresh-Balanced = record {
  size = length-from_up 256 0;
  total = refl;
  once = λ x. rw (take-from_up 256 0) (ground (arith, occurs-from_up x 256 0));
}

insert_ctx-Balanced :
    (p : FreePool) (before : List ℕ) (x : ℕ) (after : List ℕ)
    → Balanced p (before ++ (x ∷ after))
    → Balanced (insert_ctx x p) (before ++ after)
unfolding insert_ctx
insert_ctx-Balanced p before x after h =
    let n = tail_up p.tail in
    let lt : n < length p.ctx_list =
      omega (arith, h.size, h.total, length-append_cons before x after) in
    record {
      size = length-set p.ctx_list n x ∙ h.size;
      total = omega (arith, h.total, length-append_cons before x after);
      once = λ y. omega (
        arith,
        h.once y,
        occurs-take_more y n (set p.ctx_list n x) (omega (arith, length-set p.ctx_list n x)),
        ap (occurs y) (take-set_behind n x p.ctx_list),
        ap (λ z. bit_of_bool (y == z)) (get_or-set_self p.ctx_list n x 0 lt),
        occurs-append y before (x ∷ after),
        occurs-append y before after,
      );
    }

-- What get_ctx answers, with what is left.
get_ctx-cases :
    (p : FreePool)
    → ((get_ctx p ≡ (none, p)) × (tail_up p.tail ≡ 0))
      ⊎ ((k : ℕ) × (p.tail ≡ some k)
          × (get_ctx p ≡ (some (get_or p.ctx_list k 0), record p { tail = tail_down k })))
unfolding get_ctx
get_ctx-cases p = elim (Option-cases p.tail) [
  | inl e ↦ inl (rw e refl, rw e refl)
  | inr (k, e) ↦ inr (k, e, rw e refl)
]

tail_up-tail_down : (k : ℕ) → tail_up (tail_down k) ≡ k
tail_up-tail_down zero = refl
tail_up-tail_down (suc k) = refl

popped-Balanced :
    (p : FreePool) (held : List ℕ) (k : ℕ)
    → Balanced p held
    → p.tail ≡ some k
    → Balanced (record p { tail = tail_down k }) (get_or p.ctx_list k 0 ∷ held)
popped-Balanced p held k h at =
    let total : suc k + length held ≡ queue_depth = rw at at h.total in
    let lt : k < length p.ctx_list = omega (arith, h.size, total) in
    record {
      size = h.size;
      total = omega (arith, total, tail_up-tail_down k);
      once = λ x.
          let before : occurs x (take (suc k) p.ctx_list) + occurs x held
              ≡ (if ltb x queue_depth then 1 else 0) =
            rw at at h.once x in
          rw (tail_up-tail_down k) (omega (arith, before, occurs-take_more x k p.ctx_list lt));
    }

-- What a get gave, and what it left, at a pool with a last entry.
get_ctx-given :
    (p p' : FreePool) (k x : ℕ)
    → get_ctx p ≡ (some (get_or p.ctx_list k 0), record p { tail = tail_down k })
    → get_ctx p ≡ (some x, p')
    → (x ≡ get_or p.ctx_list k 0) × (p' ≡ record p { tail = tail_down k })
get_ctx-given p p' k x got e = (cc, cc)

get_ctx-Balanced :
    (p p' : FreePool) (held : List ℕ) (x : ℕ)
    → Balanced p held
    → get_ctx p ≡ (some x, p')
    → Balanced p' (x ∷ held)
get_ctx-Balanced p p' held x h e = elim (get_ctx-cases p) [
  | inl empty ↦ absurd (cc (empty.0, e))
  | inr (k, at, got) ↦
      let (same, left) = get_ctx-given p p' k x got e in
      rw (same, left) (popped-Balanced p held k h at)
]

get_ctx-refused :
    (p p' : FreePool) (held : List ℕ)
    → Balanced p held
    → get_ctx p ≡ (none, p')
    → Balanced p' held × (length held ≡ queue_depth)
get_ctx-refused p p' held h e = elim (get_ctx-cases p) [
  | inl (got, empty) ↦ let left : p' ≡ p = cc (got, e) in (rw left h, omega (arith, h.total, empty))
  | inr (k, at, got) ↦ absurd (cc (got, e))
]

Step-Balanced :
    {p p' : FreePool} {held held' : List ℕ}
    → Balanced p held
    → Step p held p' held'
    → Balanced p' held'
Step-Balanced h (taken x e) = get_ctx-Balanced _ _ _ x h e
Step-Balanced h (refused e) = (get_ctx-refused _ _ _ h e).0
Step-Balanced h (given before x after) = insert_ctx-Balanced _ before x after h

Reach-Balanced : {p : FreePool} {held : List ℕ} → Reach p held → Balanced p held
Reach-Balanced fresh = fresh-Balanced
Reach-Balanced (next r s) = Step-Balanced (Reach-Balanced r) s

none_all_held :
    (p : FreePool) (held : List ℕ)
    → Balanced p held
    → (get_ctx p).0 ≡ none
    → length held ≡ queue_depth
none_all_held p held h e = elim (get_ctx-cases p) [
  | inl (got, empty) ↦ omega (arith, h.total, empty)
  | inr (k, at, got) ↦ absurd (cc (ap (λ z. z.0) got, e))
]

all_held_none :
    (p : FreePool) (held : List ℕ)
    → Balanced p held
    → length held ≡ queue_depth
    → (get_ctx p).0 ≡ none
all_held_none p held h e = elim (get_ctx-cases p) [
  | inl (got, empty) ↦ ap (λ z. z.0) got
  | inr (k, at, got) ↦
      let total : suc k + length held ≡ queue_depth = rw at at h.total in
      absurd (omega (arith, total))
]

-- Whatever contexts are taken from a fresh pool and given back by their holders, and in whichever
-- order: IS_get_ctx answers with a context that nobody holds and that is one of the 256, or with
-- NULL, and that exactly if all 256 are held; and IS_insert_ctx of a held one stays inside the array.
pub get_ctx-unheld :
    (p : FreePool) (held : List ℕ)
    → Reach p held
    → ((x : ℕ) (p' : FreePool) → get_ctx p ≡ (some x, p') → (occurs x held ≡ 0) × (x < queue_depth))
      × ((get_ctx p).0 ≡ none ↔ (length held ≡ queue_depth))
      × (0 < length held → tail_up p.tail < length p.ctx_list)
get_ctx-unheld p held r =
    let h = Reach-Balanced r in
    (
      λ x p' e. let h' = get_ctx-Balanced p p' held x h e in ground (arith, h'.once x),
      (none_all_held p held h, all_held_none p held h),
      λ some_held. omega (arith, h.size, h.total),
    )
