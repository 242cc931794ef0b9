-- ===== src/Daemon/Connect/Freed.antt =====
-- What the loop of destroy_connection takes out of the tables.
use dis_store.Prelude.{
  ℕ, zero, suc, ◌+◌, ◌≤◌, ◌<◌, ◌≡◌, inl, inr, refl, sym, ap, ◌∙◌, true, Option, none, some, List,
  arith, length, get_or, set, length-set, get_or-set_self, get_or-set_ne, get_or-set_default,
  Option-cases,
}
use native.Mathlib.Decide.{ℕ_discrete}
use dis_store.Prelude.Counts.{count_some, is_some, bit_of_bool, count_some-set}
use dis_store.Daemon.{RemoteMem, max_free_mem_gb}
use dis_store.Daemon.Connect.{release_from}

-- How many chunks a connection holds, from index `i` on among `n`.
unfoldable pub count_held : ℕ → ℕ → List (Option ℕ) → ℕ
count_held zero i held = 0
count_held (suc n) i held = bit_of_bool (is_some (get_or held i none)) + count_held n (i + 1) held

-- The chunks among these that the connection holds are lent, and stand at their own index.
abbrev pub HoldsLent : RemoteMem → List (Option ℕ) → ℕ → ℕ → Type 0
HoldsLent m held n i =
    (j k : ℕ)
    → i ≤ j
    → j < i + n
    → get_or held j none ≡ some k
    → (k ≡ j) × (is_some (get_or m.conn_map j none) ≡ true)

abbrev freed : RemoteMem → ℕ → RemoteMem
freed m i = record m {
  conn_map = set m.conn_map i none;
  conn_chunk_map = set m.conn_chunk_map i none;
}

-- From `m` to `m'`, `c` chunks are lent no more.
pub record Released (m m' : RemoteMem) (c : ℕ) : Type 0 where
  pub size : length m'.conn_map ≡ max_free_mem_gb
  pub count : count_some m'.conn_map + c ≡ count_some m.conn_map
  pub mallocs : m'.malloc_map ≡ m.malloc_map
  pub same_size : m'.size_gb ≡ m.size_gb
  pub same_mapped : m'.mapped_size ≡ m.mapped_size
  pub fewer : (j : ℕ) → get_or m.conn_map j none ≡ none → get_or m'.conn_map j none ≡ none

Released-refl : (m : RemoteMem) → length m.conn_map ≡ max_free_mem_gb → Released m m 0
Released-refl m size = record {
  size = size;
  count = omega arith;
  mallocs = refl;
  same_size = refl;
  same_mapped = refl;
  fewer = λ j e. e;
}

Released-trans :
    (m m' m'' : RemoteMem) (c d : ℕ) → Released m m' c → Released m' m'' d → Released m m'' (c + d)
Released-trans m m' m'' c d a b = record {
  size = b.size;
  count = omega (arith, a.count, b.count);
  mallocs = b.mallocs ∙ a.mallocs;
  same_size = b.same_size ∙ a.same_size;
  same_mapped = b.same_mapped ∙ a.same_mapped;
  fewer = λ j e. b.fewer j (a.fewer j e);
}

freed-Released :
    (m : RemoteMem) (i : ℕ)
    → length m.conn_map ≡ max_free_mem_gb
    → i < max_free_mem_gb
    → is_some (get_or m.conn_map i none) ≡ true
    → Released m (freed m i) 1
freed-Released m i size lt held =
    let lt' : i < length m.conn_map = omega (arith, size) in
    record {
      size = length-set m.conn_map i none ∙ size;
      count = ground (arith, count_some-set m.conn_map i none lt', held);
      mallocs = refl;
      same_size = refl;
      same_mapped = refl;
      fewer = λ j e. get_or-set_default m.conn_map i j none ∙ ground (arith, e);
    }

round_skip :
    (n i : ℕ) (held : List (Option ℕ)) (m : RemoteMem)
    → get_or held i none ≡ none
    → (release_from (suc n) i held m ≡ release_from n (i + 1) held m)
      × (count_held (suc n) i held ≡ count_held n (i + 1) held)
unfolding release_from count_held
round_skip n i held m e = (rw (release_from, e) refl, rw (e) (omega arith))

round_free :
    (n i k : ℕ) (held : List (Option ℕ)) (m : RemoteMem)
    → get_or held i none ≡ some k
    → k ≡ i
    → (release_from (suc n) i held m ≡ release_from n (i + 1) held (freed m i))
      × (count_held (suc n) i held ≡ 1 + count_held n (i + 1) held)
unfolding release_from count_held
round_free n i k held m e p =
    let at : get_or held i none ≡ some i = e ∙ ap some p in (rw (release_from, at) refl, rw at refl)

-- The entry `j` of the table is none, where it is held.
abbrev pub Gone : RemoteMem → List (Option ℕ) → ℕ → Type 0
Gone m held j = is_some (get_or held j none) ≡ true → get_or m.conn_map j none ≡ none

Gone-unheld :
    (m : RemoteMem) (held : List (Option ℕ)) (i j : ℕ)
    → get_or held i none ≡ none
    → i ≡ j
    → Gone m held j
Gone-unheld m held i j e p t =
    let off : get_or held j none ≡ none = ap (λ x. get_or held x none) (sym p) ∙ e in
    absurd (cc (ap is_some off, t))

Gone-freed :
    (m m' : RemoteMem) (held : List (Option ℕ)) (i j c : ℕ)
    → i < length m.conn_map
    → Released (freed m i) m' c
    → i ≡ j
    → Gone m' held j
Gone-freed m m' held i j c lt r p t = r.fewer j (
    ap (λ x. get_or (set m.conn_map i none) x none) (sym p)
    ∙ get_or-set_self m.conn_map i none none lt)

HoldsLent-freed :
    (m : RemoteMem) (held : List (Option ℕ)) (n i : ℕ)
    → HoldsLent m held (suc n) i
    → HoldsLent (freed m i) held n (i + 1)
HoldsLent-freed m held n i h j k a b t =
    let (mine, lent) = h j k (omega arith) (omega arith) t in
    (mine, ap is_some (get_or-set_ne m.conn_map i j none none (λ e. absurd (omega arith))) ∙ lent)

pub release_from-Released :
    (n i : ℕ) (held : List (Option ℕ)) (m : RemoteMem)
    → length m.conn_map ≡ max_free_mem_gb
    → i + n ≤ max_free_mem_gb
    → HoldsLent m held n i
    → Released m (release_from n i held m) (count_held n i held)
      × ((j : ℕ) → i ≤ j → j < i + n → Gone (release_from n i held m) held j)
unfolding release_from count_held
release_from-Released zero i held m size le h =
    (Released-refl m size, λ j a b. absurd (omega arith))
release_from-Released (suc n) i held m size le h = elim (Option-cases (get_or held i none)) [
  | inl e ↦
      let m' = release_from n (i + 1) held m in
      let (loop, count) = round_skip n i held m e in
      let (rest, gone) =
        release_from-Released n (i + 1) held m size (omega arith)
          (λ j k a b t. h j k (omega arith) (omega arith) t) in
      rw (loop, count)
        (
          rest,
          λ j a b. elim (ℕ_discrete i j) [
            | yes p ↦ Gone-unheld m' held i j e p
            | no ne ↦ gone j (omega arith) (omega arith)
          ],
        )
  | inr (k, e) ↦
      let (mine, lent) = h i k (omega arith) (omega arith) e in
      let m' = release_from n (i + 1) held (freed m i) in
      let (loop, count) = round_free n i k held m e mine in
      let first = freed-Released m i size (omega arith) lent in
      let (rest, gone) =
        release_from-Released n (i + 1) held (freed m i) first.size (omega arith)
          (HoldsLent-freed m held n i h) in
      rw (loop, count)
        (
          Released-trans m (freed m i) m' 1 (count_held n (i + 1) held) first rest,
          λ j a b. elim (ℕ_discrete i j) [
            | yes p ↦
                Gone-freed m m' held i j (count_held n (i + 1) held) (omega (arith, size)) rest p
            | no ne ↦ gone j (omega arith) (omega arith)
          ],
        )
]
