-- ===== src/Prelude/Counts.antt =====
-- How many entries of a table are set.
use Prim.Native.Nat.{ℕ, zero, suc, ◌+◌, ◌<◌}
use mathlib.Core.Path.{◌≡◌, refl}
use mathlib.Core.Bool.{Bool, true, false}
use mathlib.Core.List.{List, [], ◌∷◌}
use mathlib.Core.Option.{Option, none, some}
use native.Mathlib.Omega.{arith}
use dis_store.Prelude.Lists.{length, get_or, set, replicate}

abbrev pub bit_of_bool : Bool → ℕ
bit_of_bool true = 1
bit_of_bool false = 0

abbrev pub count_true : List Bool → ℕ
count_true [] = 0
count_true (b ∷ bs) = bit_of_bool b + count_true bs

abbrev pub is_some {ℓ} : {A : Type ℓ} → Option A → Bool
is_some none = false
is_some (some a) = true

abbrev pub count_some {ℓ} : {A : Type ℓ} → List (Option A) → ℕ
count_some [] = 0
count_some (o ∷ os) = bit_of_bool (is_some o) + count_some os

-- Writing one entry moves the count by what changed.
pub count_true-set :
    (xs : List Bool) (i : ℕ) (b : Bool)
    → i < length xs
    → count_true (set xs i b) + bit_of_bool (get_or xs i false) ≡ count_true xs + bit_of_bool b
count_true-set [] i b h = absurd (omega arith)
count_true-set (x ∷ xs) zero b h = omega arith
count_true-set (x ∷ xs) (suc i) b h = omega (arith, count_true-set xs i b (omega arith))

pub count_some-set {ℓ} :
    {A : Type ℓ} (xs : List (Option A)) (i : ℕ) (o : Option A)
    → i < length xs
    → count_some (set xs i o) + bit_of_bool (is_some (get_or xs i none))
      ≡ count_some xs + bit_of_bool (is_some o)
count_some-set [] i o h = absurd (omega arith)
count_some-set (x ∷ xs) zero o h = omega arith
count_some-set (x ∷ xs) (suc i) o h = omega (arith, count_some-set xs i o (omega arith))

pub count_true-replicate : (n : ℕ) → count_true (replicate n false) ≡ 0
count_true-replicate zero = refl
count_true-replicate (suc n) = omega (arith, count_true-replicate n)

pub count_some-replicate : (n : ℕ) → count_some (replicate {A = Option ℕ} n none) ≡ 0
count_some-replicate zero = refl
count_some-replicate (suc n) = omega (arith, count_some-replicate n)
