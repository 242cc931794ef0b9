-- ===== src/Session/Disconnect/Holds.antt =====
-- Which gigabytes a server holds.
use dis_store.Prelude.{
  ℕ, zero, suc, ◌+◌, ◌≤◌, ◌<◌, ◌≡◌, ◌↔◌, inl, inr, ap, ◌∙◌, true, Option, none, some, List, [], ◌∷◌,
  arith, length, get_or, Bool-cases,
}
use native.Mathlib.Decide.{ℕ_discrete}
use dis_store.Session.{Session, max_mr_size_gb}
use dis_store.Session.Tables.{cb_of, slot_of}
use dis_store.Session.Links.{gb_at, Linked}
use dis_store.Session.Disconnect.Tables.{is_gb, holds, map_of}

-- The chunk map of server `c` names the gigabytes that are on it, and its table is not too long;
-- every gigabyte on it has a place.
pub record Owns (s : Session) (c : ℕ) : Type 0 where
  pub there : c < length s.cb_list
  pub size : length (map_of s c) ≤ max_mr_size_gb
  pub mine : (i k : ℕ) → gb_at s c i ≡ some k → cb_of s k ≡ some c
  pub place : (k : ℕ) → cb_of s k ≡ some c → (i : ℕ) × (slot_of s k ≡ some i)

pub is_gb-some : (o : Option ℕ) (k : ℕ) → is_gb o k ≡ true → o ≡ some k
is_gb-some none k h = absurd (cc)
is_gb-some (some l) k h = ap some (ground arith)

holds-found :
    (n i : ℕ) (xs : List (Option ℕ)) (k : ℕ)
    → holds n i xs k ≡ true
    → (j : ℕ) × (get_or xs j none ≡ some k)
unfolding holds
holds-found zero i xs k h = absurd (cc)
holds-found (suc n) i xs k h = elim (Bool-cases (is_gb (get_or xs i none) k)) [
  | inl e ↦ (i, is_gb-some (get_or xs i none) k e)
  | inr e ↦ holds-found n (i + 1) xs k (rw e at h)
]

holds-here :
    (n i j : ℕ) (xs : List (Option ℕ)) (k : ℕ)
    → i ≤ j
    → j < i + n
    → get_or xs j none ≡ some k
    → holds n i xs k ≡ true
unfolding holds
holds-here zero i j xs k a b h = absurd (omega arith)
holds-here (suc n) i j xs k a b h = elim (ℕ_discrete i j) [
  | yes e ↦
      let at : get_or xs i none ≡ some k = ap (λ t. get_or xs t none) e ∙ h in ground (arith, at)
  | no ne ↦
      let rest = holds-here n (i + 1) j xs k (omega arith) (omega arith) h in ground (arith, rest)
]

pub get_or-some_lt : (xs : List (Option ℕ)) (j k : ℕ) → get_or xs j none ≡ some k → j < length xs
get_or-some_lt [] j k h = absurd (cc)
get_or-some_lt (x ∷ xs) zero k h = omega arith
get_or-some_lt (x ∷ xs) (suc j) k h = omega (arith, get_or-some_lt xs j k h)

pub holds_iff :
    (s : Session) (c k : ℕ)
    → Linked s
    → Owns s c
    → (holds 32 0 (map_of s c) k ≡ true) ↔ (cb_of s k ≡ some c)
holds_iff s c k h o = (
  λ e. let (i, at) = holds-found 32 0 (map_of s c) k e in o.mine i k at,
  λ on.
      let (i, at) = o.place k on in
      let back = (h k c i on at).back in
      holds-here 32 0 i (map_of s c) k (omega arith)
        (omega (arith, o.size, get_or-some_lt (map_of s c) i k back)) back,
)
