-- ===== src/Witness/Selection.antt =====
-- The choice among three servers, of which the second is failed.
use dis_store.Prelude.{
  ℕ, zero, suc, ◌≢◌, ◌+◌, ◌≡◌, ◌⊎◌, true, false, some, none, List, [], ◌∷◌, arith, length,
}
use dis_store.Prelude.Int.{ℤ, pos, negsuc, ◌≤ℤ◌}
use dis_store.Selection.{server_for, choose}
use dis_store.Selection.Greatest.{IsOneOf, server_for-greatest}
use dis_store.Selection.Random.{OpenOnce, choose-OpenOnce}

-- What the servers answer.
abbrev answers : ℕ → ℤ
answers zero = negsuc 0
answers (suc t) = pos (t + 3)

abbrev two_asked : List ℕ
two_asked = 0 ∷ (2 ∷ [])

server_for-greatest_example :
    ((t : ℕ) × (server_for answers (0 ∷ (2 ∷ [])) ≡ some t)
      × IsOneOf t (0 ∷ (2 ∷ []))
      × (answers t ≢ pos 0)
      × ((u : ℕ) → IsOneOf u (0 ∷ (2 ∷ [])) → answers u ≤ℤ answers t))
    ⊎ ((server_for answers (0 ∷ (2 ∷ [])) ≡ none)
        × ((two_asked ≡ [])
            ⊎ ((t : ℕ) × IsOneOf t (0 ∷ (2 ∷ []))
                × (answers t ≡ pos 0)
                × ((u : ℕ) → IsOneOf u (0 ∷ (2 ∷ [])) → answers u ≤ℤ pos 0))))
server_for-greatest_example = server_for-greatest answers (0 ∷ (2 ∷ []))

choose-OpenOnce_example :
    (chosen : List ℕ) × (choose (7 ∷ (9 ∷ [])) (true ∷ (false ∷ (true ∷ []))) ≡ some chosen)
    × OpenOnce (true ∷ (false ∷ (true ∷ []))) chosen
    × (length chosen ≡ 2)
choose-OpenOnce_example =
    choose-OpenOnce (7 ∷ (9 ∷ [])) (true ∷ (false ∷ (true ∷ []))) (omega arith)
