-- ===== src/Selection/Greatest.antt =====
-- The server that is chosen has the most free memory of those that answered.
use dis_store.Prelude.{
  ℕ, zero, suc, ◌≢◌, ◌+◌, ◌-◌, ◌<◌, ◌≡◌, ◌⊎◌, inl, inr, refl, ap, ◌∙◌, true, false, none, some,
  List, [], ◌∷◌, if◌then◌else◌, arith, map,
}
use mathlib.Core.Path.{subst}
use dis_store.Prelude.Int.{ℤ, pos, negsuc, pos_part, neg_part, ltb_ℤ, is_zero, ◌+ℤ◌, ◌-ℤ◌, ◌≤ℤ◌}
use dis_store.Selection.{Answer, exchange, promote, server_for}

add-sub_right : (x y : ℤ) → x +ℤ y -ℤ y ≡ x
unfolding ◌+ℤ◌ ◌-ℤ◌
add-sub_right (pos a) (pos b) = ground arith
add-sub_right (pos a) (negsuc b) = ground arith
add-sub_right (negsuc a) (pos b) = ground arith
add-sub_right (negsuc a) (negsuc b) = ground arith

add-sub_left : (x y : ℤ) → x +ℤ y -ℤ x ≡ y
unfolding ◌+ℤ◌ ◌-ℤ◌
add-sub_left (pos a) (pos b) = ground arith
add-sub_left (pos a) (negsuc b) = ground arith
add-sub_left (negsuc a) (pos b) = ground arith
add-sub_left (negsuc a) (negsuc b) = ground arith

exchange-eq : (a b : Answer) → (exchange a b).0 ≡ b
unfolding exchange
exchange-eq a b =
    λ i. record { free = sum_less_ℤ a.free b.free i; server = sum_less a.server b.server i }
  where
    sum_less : (x y : ℕ) → x + y - (x + y - y) ≡ y
    sum_less x y = omega arith

    sum_less_ℤ : (x y : ℤ) → x +ℤ y -ℤ (x +ℤ y -ℤ y) ≡ y
    sum_less_ℤ x y = ap (λ z. x +ℤ y -ℤ z) (add-sub_right x y) ∙ add-sub_left x y

-- `t` is one of a list.
pub IsOneOf : ℕ → List ℕ → Type 0
IsOneOf t [] = ⊥
IsOneOf t (s ∷ ss) = (t ≡ s) ⊎ IsOneOf t ss

abbrev answer : (ℕ → ℤ) → ℕ → Answer
answer free_mem t = record { free = free_mem t; server = t }

-- `a` is less than `b`, as the code tests it.
abbrev Less : ℤ → ℤ → Type 0
Less a b = pos_part a + neg_part b < pos_part b + neg_part a

lt_or_le : (a b : ℤ) → Less a b ⊎ (b ≤ℤ a)
lt_or_le a b = ground arith

≤ℤ_trans : (a b c : ℤ) → a ≤ℤ b → b ≤ℤ c → a ≤ℤ c
≤ℤ_trans a b c h k = omega arith

zero_or_not : (a : ℤ) → (is_zero a ≡ true) × (a ≡ pos 0) ⊎ (is_zero a ≡ false) × (a ≢ pos 0)
zero_or_not (pos zero) = inl (refl, refl)
zero_or_not (pos (suc n)) = inr (ground arith, λ e. absurd (omega (arith, ap pos_part e)))
zero_or_not (negsuc n) = inr (ground arith, λ e. absurd (omega (arith, ap neg_part e)))

le_same : (free_mem : ℕ → ℤ) (u s : ℕ) → u ≡ s → free_mem u ≤ℤ free_mem s
le_same free_mem u s e =
    omega (arith, ap (λ x. pos_part (free_mem x)) e, ap (λ x. neg_part (free_mem x)) e)

promote_swap :
    (free_mem : ℕ → ℤ) (s r : ℕ) (ss : List ℕ)
    → Less (free_mem s) (free_mem r)
    → promote (answer free_mem s) (map (answer free_mem) (r ∷ ss))
      ≡ promote (answer free_mem r) (map (answer free_mem) ss)
unfolding promote
promote_swap free_mem s r ss lt =
    let test : ltb_ℤ (free_mem s) (free_mem r) ≡ true = ground arith in
    let front : (if ltb_ℤ (free_mem s) (free_mem r)
          then (exchange (answer free_mem s) (answer free_mem r)).0
          else answer free_mem s)
        ≡ answer free_mem r =
      rw test (exchange-eq (answer free_mem s) (answer free_mem r)) in
    ap (λ a. promote a (map (answer free_mem) ss)) front

promote_keep :
    (free_mem : ℕ → ℤ) (s r : ℕ) (ss : List ℕ)
    → free_mem r ≤ℤ free_mem s
    → promote (answer free_mem s) (map (answer free_mem) (r ∷ ss))
      ≡ promote (answer free_mem s) (map (answer free_mem) ss)
unfolding promote
promote_keep free_mem s r ss le =
    let test : ltb_ℤ (free_mem s) (free_mem r) ≡ false = ground arith in
    let front : (if ltb_ℤ (free_mem s) (free_mem r)
          then (exchange (answer free_mem s) (answer free_mem r)).0
          else answer free_mem s)
        ≡ answer free_mem s =
      rw test refl in
    ap (λ a. promote a (map (answer free_mem) ss)) front

-- The front entry after the loop is the answer of one of the servers, and none has more.
promote-greatest :
    (free_mem : ℕ → ℤ) (s : ℕ) (ss : List ℕ)
    → (t : ℕ) × (promote (answer free_mem s) (map (answer free_mem) ss) ≡ answer free_mem t)
      × IsOneOf t (s ∷ ss)
      × ((u : ℕ) → IsOneOf u (s ∷ ss) → free_mem u ≤ℤ free_mem t)
unfolding promote IsOneOf
promote-greatest free_mem s [] =
    (s, refl, inl refl, λ u m. elim m [ inl e ↦ le_same free_mem u s e | inr e ↦ absurd e ])
promote-greatest free_mem s (r ∷ ss) = elim (lt_or_le (free_mem s) (free_mem r)) [
  | inl lt ↦
      let (t, e, one, most) = promote-greatest free_mem r ss in
      (
        t,
        promote_swap free_mem s r ss lt ∙ e,
        inr one,
        λ u m. elim m [
          | inl p ↦
              let a = le_same free_mem u s p in let b = most r (inl refl) in omega (arith, a, b)
          | inr m' ↦ most u m'
        ],
      )
  | inr le ↦
      let (t, e, one, most) = promote-greatest free_mem s ss in
      (
        t,
        promote_keep free_mem s r ss le ∙ e,
        elim one [ inl p ↦ inl p | inr m ↦ inr (inr m) ],
        λ u m. elim m [
          | inl p ↦ most u (inl p)
          | inr m' ↦ elim m' [
            | inl p ↦
                let a = le_same free_mem u r p in let b = most s (inl refl) in omega (arith, a, b)
            | inr m'' ↦ most u (inr m'')
          ]
        ],
      )
]

-- IS_single_chunk_map, once the servers that it has selected have answered, each with an int, binds
-- with one of them that has the most free memory, which is not 0; or it gives up, and then either it
-- has selected none, or the most free memory is 0. (If all answer less than 0, it binds.)
pub server_for-greatest :
    (free_mem : ℕ → ℤ) (selected : List ℕ)
    → ((t : ℕ) × (server_for free_mem selected ≡ some t)
        × IsOneOf t selected
        × (free_mem t ≢ pos 0)
        × ((u : ℕ) → IsOneOf u selected → free_mem u ≤ℤ free_mem t))
      ⊎ ((server_for free_mem selected ≡ none)
          × ((selected ≡ [])
              ⊎ ((t : ℕ) × IsOneOf t selected
                  × (free_mem t ≡ pos 0)
                  × ((u : ℕ) → IsOneOf u selected → free_mem u ≤ℤ pos 0))))
unfolding server_for IsOneOf
server_for-greatest free_mem [] = inr (refl, inl refl)
server_for-greatest free_mem (s ∷ ss) =
    let (t, e, one, most) = promote-greatest free_mem s ss in
    elim (zero_or_not (free_mem t)) [
      | inl (test, zero_free) ↦ inr (
        rw (e, test) refl,
        inr (t, one, zero_free, λ u m. subst (λ z. free_mem u ≤ℤ z) zero_free (most u m)),
      )
      | inr (test, some_free) ↦ inl (t, rw (e, test) refl, one, some_free, most)
    ]
