-- ===== src/Trigger/Round.antt =====
-- What a round of the trigger asks for, and what it leaves of the counters.
use dis_store.Prelude.{
  ℕ, zero, suc, ◌+◌, ◌-◌, ◌*◌, ◌%◌, ◌^◌, ◌↔◌, none, inl, inr, Option-cases, ◌≤◌, ◌<◌, ◌≡◌, ◌≢◌,
  refl, sym, ◌∙◌, Bool, true, false, ◌&&◌, ◌||◌, ◌==◌, List, [], ◌∷◌, if◌then◌else◌, arith, length,
  get_or, length-set, get_or-set_self, get_or-set_ne, get_or-set_default,
}
use native.Mathlib.Decide.{ℕ_discrete}
use dis_store.Session.{Session, stackbd_size_g}
use dis_store.Session.Tables.{cb_of}
use dis_store.Trigger.{filtered_ops, asks, filter_gb, trigger_from, trigger_round}

-- `s'` is `s` but for the counters, and they agree at gigabyte `k`.
record SameAt (s s' : Session) (k : ℕ) : Type 0 where
  writes : get_or s'.write_ops k 0 ≡ get_or s.write_ops k 0
  reads : get_or s'.read_ops k 0 ≡ get_or s.read_ops k 0
  last : get_or s'.last_ops k 0 ≡ get_or s.last_ops k 0
  asks_same : asks s' k ≡ asks s k
  filtered_same : filtered_ops s' k ≡ filtered_ops s k

filter_gb-SameAt : (s : Session) (i k : ℕ) → i ≢ k → SameAt s (filter_gb s i) k
unfolding filter_gb filtered_ops
filter_gb-SameAt s i k ne =
    let w = get_or-set_ne s.write_ops i k 0 0 ne in
    let r = get_or-set_ne s.read_ops i k 0 0 ne in
    let l = get_or-set_ne s.last_ops i k (filtered_ops s i) 0 ne in
    record {
      writes = w;
      reads = r;
      last = l;
      asks_same = rw (w, r, l) refl;
      filtered_same = rw (w, r, l) refl;
    }

SameAt-trans : (s s' s'' : Session) (k : ℕ) → SameAt s s' k → SameAt s' s'' k → SameAt s s'' k
SameAt-trans s s' s'' k a b = record {
  writes = b.writes ∙ a.writes;
  reads = b.reads ∙ a.reads;
  last = b.last ∙ a.last;
  asks_same = b.asks_same ∙ a.asks_same;
  filtered_same = b.filtered_same ∙ a.filtered_same;
}

SameAt-refl : (s : Session) (k : ℕ) → SameAt s s k
SameAt-refl s k = record {
  writes = refl;
  reads = refl;
  last = refl;
  asks_same = refl;
  filtered_same = refl;
}

-- `k` is in a list.
abbrev pub is_in : ℕ → List ℕ → Bool
is_in k [] = false
is_in k (x ∷ xs) = (k == x) || is_in k xs

is_in-if :
    (k i : ℕ) (b : Bool) (xs : List ℕ)
    → is_in k (if b then i ∷ xs else xs) ≡ ((b && (k == i)) || is_in k xs)
is_in-if k i true xs = refl
is_in-if k i false xs = refl

-- The gigabytes before `i` are left alone.
trigger_from-before :
    (n i k : ℕ) (s : Session)
    → k < i
    → SameAt s (trigger_from n i s).0 k × (is_in k (trigger_from n i s).1 ≡ false)
unfolding trigger_from
trigger_from-before zero i k s lt = (SameAt-refl s k, refl)
trigger_from-before (suc n) i k s lt =
    let (same, out) = trigger_from-before n (i + 1) k (filter_gb s i) (omega arith) in
    (
      SameAt-trans s (filter_gb s i) (trigger_from n (i + 1) (filter_gb s i)).0 k
          (filter_gb-SameAt s i k (λ e. absurd (omega arith))) same,
      is_in-if k i (asks s i) (trigger_from n (i + 1) (filter_gb s i)).1 ∙ ground (arith, out),
    )

-- The activity of gigabyte `k`: the operations counted in this round, writes and reads weighted,
-- and these weighted against the activity of the rounds before; both sums modulo 2^64.
abbrev pub activity : Session → ℕ → ℕ
activity s k =
    let counted =
      (s.w_weight * get_or s.write_ops k 0 + (100 - s.w_weight) * get_or s.read_ops k 0) % 2 ^ 64 in
    (s.cur_weight * counted + (100 - s.cur_weight) * get_or s.last_ops k 0) % 2 ^ 64

-- Gigabyte `k` is to get a chunk.
pub record Wanted (s : Session) (k : ℕ) : Type 0 where
  pub trigger_on : s.trigger_enable ≡ true
  pub unmapped : cb_of s k ≡ none
  pub active : s.trigger_threshold < activity s k

filtered_ops-activity : (s : Session) (k : ℕ) → filtered_ops s k ≡ activity s k
unfolding filtered_ops
filtered_ops-activity s k = refl

asked_parts :
    (s : Session) (k : ℕ)
    → asks s k ≡ true
    → (s.trigger_enable ≡ true) × (s.trigger_threshold < activity s k)
asked_parts s k h =
    let same = filtered_ops-activity s k in (ground (arith, h), ground (arith, h, same))

asks_iff : (s : Session) (k : ℕ) → (asks s k ≡ true) ↔ Wanted s k
asks_iff s k =
    let same = filtered_ops-activity s k in
    elim (Option-cases (cb_of s k)) [
      | inl off ↦ (
        λ h.
            let (on, active) = asked_parts s k h in
            record { trigger_on = on; unmapped = off; active = active },
        λ w. ground (arith, same, off, w.trigger_on, w.active),
      )
      | inr (d, on) ↦ (λ h. absurd (ground (arith, on, h)), λ w. absurd (cc (on, w.unmapped)))
    ]

-- What a round has done with gigabyte `k`.
abbrev pub Rounded : Session → Session → List ℕ → ℕ → Type 0
Rounded s s' asked k =
    ((is_in k asked ≡ true) ↔ Wanted s k)
    × (get_or s'.write_ops k 0 ≡ 0)
    × (get_or s'.read_ops k 0 ≡ 0)
    × (get_or s'.last_ops k 0 ≡ activity s k)

-- The same, by the code's own test and count.
abbrev Filtered : Session → Session → List ℕ → ℕ → Type 0
Filtered s s' asked k =
    (is_in k asked ≡ asks s k)
    × (get_or s'.write_ops k 0 ≡ 0)
    × (get_or s'.read_ops k 0 ≡ 0)
    × (get_or s'.last_ops k 0 ≡ filtered_ops s k)

filter_gb-here :
    (s : Session) (i : ℕ)
    → i < length s.last_ops
    → (get_or (filter_gb s i).write_ops i 0 ≡ 0)
      × (get_or (filter_gb s i).read_ops i 0 ≡ 0)
      × (get_or (filter_gb s i).last_ops i 0 ≡ filtered_ops s i)
      × (length (filter_gb s i).last_ops ≡ length s.last_ops)
unfolding filter_gb
filter_gb-here s i lt = (
  get_or-set_default s.write_ops i i 0 ∙ ground arith,
  get_or-set_default s.read_ops i i 0 ∙ ground arith,
  get_or-set_self s.last_ops i (filtered_ops s i) 0 lt,
  length-set s.last_ops i (filtered_ops s i),
)

trigger_from-Filtered :
    (n i k : ℕ) (s : Session)
    → i + n ≤ length s.last_ops
    → i ≤ k
    → k < i + n
    → Filtered s (trigger_from n i s).0 (trigger_from n i s).1 k
unfolding trigger_from
trigger_from-Filtered zero i k s size a b = absurd (omega arith)
trigger_from-Filtered (suc n) i k s size a b =
    let f = filter_gb s i in
    let asked = (trigger_from n (i + 1) f).1 in
    let (w, r, l, len) = filter_gb-here s i (omega arith) in
    elim (ℕ_discrete i k) [
      | yes e ↦
          let (same, out) = trigger_from-before n (i + 1) i f (omega arith) in
          rw (sym e) (
            is_in-if i i (asks s i) asked ∙ ground (arith, out),
            same.writes ∙ w,
            same.reads ∙ r,
            same.last ∙ l,
          )
      | no ne ↦
          let same = filter_gb-SameAt s i k ne in
          let (inside, w', r', l') =
            trigger_from-Filtered n (i + 1) k f (omega (arith, len)) (omega arith) (omega arith) in
          (
            is_in-if k i (asks s i) asked ∙ ground (arith, inside, same.asks_same, ne),
            w',
            r',
            l' ∙ same.filtered_same,
          )
    ]

-- In a session whose table of filtered counts is long enough, a round of rdma_trigger asks for a
-- chunk for a gigabyte exactly if the trigger is on, the gigabyte has no server and its activity is
-- above the threshold; it clears both counters of every gigabyte and keeps its activity. Activity is
-- what the counters and the activity kept before come to with the weights, as written out there.
pub trigger_round-Rounded :
    (s : Session) (k : ℕ)
    → stackbd_size_g ≤ length s.last_ops
    → k < stackbd_size_g
    → let (s', asked) = trigger_round s in Rounded s s' asked k
unfolding trigger_round
trigger_round-Rounded s k size lt =
    let (asked, w, r, l) =
      trigger_from-Filtered 12 0 k s (omega arith) (omega arith) (omega arith) in
    let (there, back) = asks_iff s k in
    ((λ h. there (sym asked ∙ h), λ h. asked ∙ back h), w, r, l ∙ filtered_ops-activity s k)
