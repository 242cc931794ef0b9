-- ===== src/Daemon/Resize/Grow.antt =====
-- Allocating more chunks.
use dis_store.Prelude.{
  ℕ, zero, suc, ◌+◌, ◌-◌, ◌≤◌, ◌<◌, ◌≡◌, inl, inr, refl, sym, ap, ◌∙◌, Bool, true, false, none,
  List, [], ◌∷◌, ◌==◌, arith, length, get_or, length-set, get_or-set, Bool-cases,
}
use native.Mathlib.Decide.{ℕ_discrete}
use dis_store.Prelude.Int.{pos, ◌+ℤ◌, pos-+ℤ}
use dis_store.Prelude.Counts.{count_true, count_some, is_some, count_true-set}
use dis_store.Daemon.{RemoteMem, max_free_mem_gb}
use dis_store.Daemon.Accounts.{Accounted}
use dis_store.Daemon.Resize.{with_malloc, expand_from, expand_size, expand}

count-all_true :
    (xs : List Bool)
    → ((i : ℕ) → i < length xs → get_or xs i false ≡ true)
    → count_true xs ≡ length xs
count-all_true [] h = refl
count-all_true (x ∷ xs) h =
    let rest = count-all_true xs (λ i lt. h (suc i) (omega arith)) in
    ground (arith, rest, h 0 (omega arith))

count-le-length : (xs : List Bool) → count_true xs ≤ length xs
count-le-length [] = omega arith
count-le-length (true ∷ xs) = omega (arith, count-le-length xs)
count-le-length (false ∷ xs) = omega (arith, count-le-length xs)

-- From `m` to `m'`, chunks were allocated: all but the allocation map is as it was.
record Grew (m m' : RemoteMem) : Type 0 where
  malloc_size : length m'.malloc_map ≡ max_free_mem_gb
  conns : m'.conn_map ≡ m.conn_map
  same_size : m'.size_gb ≡ m.size_gb
  same_mapped : m'.mapped_size ≡ m.mapped_size
  more : (i : ℕ) → get_or m.malloc_map i false ≡ true → get_or m'.malloc_map i false ≡ true

Grew-refl : (m : RemoteMem) → length m.malloc_map ≡ max_free_mem_gb → Grew m m
Grew-refl m size = record {
  malloc_size = size;
  conns = refl;
  same_size = refl;
  same_mapped = refl;
  more = λ i e. e;
}

Grew-trans : (m m' m'' : RemoteMem) → Grew m m' → Grew m' m'' → Grew m m''
Grew-trans m m' m'' a b = record {
  malloc_size = b.malloc_size;
  conns = b.conns ∙ a.conns;
  same_size = b.same_size ∙ a.same_size;
  same_mapped = b.same_mapped ∙ a.same_mapped;
  more = λ i e. b.more i (a.more i e);
}

take_one-Grew :
    (m : RemoteMem) (i : ℕ)
    → length m.malloc_map ≡ max_free_mem_gb
    → i < max_free_mem_gb
    → get_or m.malloc_map i false ≡ false
    → Grew m (with_malloc m i true)
      × (count_true (with_malloc m i true).malloc_map ≡ count_true m.malloc_map + 1)
      × (get_or (with_malloc m i true).malloc_map i false ≡ true)
take_one-Grew m i size lt empty =
    let lt' : i < length m.malloc_map = omega (arith, size) in
    (
      record {
        malloc_size = length-set m.malloc_map i true ∙ size;
        conns = refl;
        same_size = refl;
        same_mapped = refl;
        more = λ j e. ground (arith, get_or-set m.malloc_map i j true false lt');
      },
      ground (arith, count_true-set m.malloc_map i true lt'),
      ground (arith, get_or-set m.malloc_map i i true false lt'),
    )

-- A round at a chunk that is allocated, at the last one to allocate, and at another one.
round_skip :
    (n i j size : ℕ) (m : RemoteMem)
    → get_or m.malloc_map i false ≡ true
    → expand_from (suc n) i j size m ≡ expand_from n (i + 1) j size m
unfolding expand_from
round_skip n i j size m e = rw (expand_from, e) refl

round_last :
    (n i j size : ℕ) (m : RemoteMem)
    → get_or m.malloc_map i false ≡ false
    → j + 1 ≡ size
    → expand_from (suc n) i j size m ≡ with_malloc m i true
unfolding expand_from
round_last n i j size m e last =
    let test : (j + 1 == size) ≡ true = ground arith in rw (expand_from, e, test) refl

round_next :
    (n i j size : ℕ) (m : RemoteMem)
    → get_or m.malloc_map i false ≡ false
    → j + 1 < size
    → expand_from (suc n) i j size m ≡ expand_from n (i + 1) (j + 1) size (with_malloc m i true)
unfolding expand_from
round_next n i j size m e more =
    let test : (j + 1 == size) ≡ false = ground arith in rw (expand_from, e, test) refl

-- The chunks before `i` are all allocated.
abbrev Filled : RemoteMem → ℕ → Type 0
Filled m i = (k : ℕ) → k < i → get_or m.malloc_map k false ≡ true

Filled-next :
    (m m' : RemoteMem) (i : ℕ)
    → Filled m i
    → Grew m m'
    → get_or m'.malloc_map i false ≡ true
    → Filled m' (i + 1)
Filled-next m m' i f g e k lt = elim (ℕ_discrete i k) [
  | yes p ↦ ap (λ t. get_or m'.malloc_map t false) (sym p) ∙ e
  | no ne ↦ g.more k (f k (omega arith))
]

expand_from-Grew :
    (n i j size : ℕ) (m : RemoteMem)
    → length m.malloc_map ≡ max_free_mem_gb
    → i + n ≡ max_free_mem_gb
    → j < size
    → count_true m.malloc_map + (size - j) ≤ max_free_mem_gb
    → Filled m i
    → Grew m (expand_from n i j size m)
      × (count_true (expand_from n i j size m).malloc_map + j ≡ count_true m.malloc_map + size)
expand_from-Grew zero i j size m len all more room f =
    absurd (omega (arith, len, room, count-all_true m.malloc_map (λ k lt. f k (omega arith))))
expand_from-Grew (suc n) i j size m len all more room f =
    elim (Bool-cases (get_or m.malloc_map i false)) [
      | inl e ↦ rw (round_skip n i j size m e) (
          expand_from-Grew n (i + 1) j size m len (omega arith) more room
            (Filled-next m m i f (Grew-refl m len) e))
      | inr e ↦
          let (one, count, on) = take_one-Grew m i len (omega arith) e in
          elim (ℕ_discrete (j + 1) size) [
            | yes last ↦ rw (round_last n i j size m e last) (one, omega (arith, count))
            | no ne ↦
                let m' = with_malloc m i true in
                let (rest, total) =
                  expand_from-Grew n (i + 1) (j + 1) size m' one.malloc_size (omega arith)
                    (omega arith) (omega (arith, count)) (Filled-next m m' i f one on) in
                rw (round_next n i j size m e (omega arith)) (
                  Grew-trans m m' (expand_from n (i + 1) (j + 1) size m') one rest,
                  omega (arith, count, total),
                )
          ]
    ]

expand_size-fits :
    (last_free_mem_g size_gb : ℕ)
    → size_gb ≤ max_free_mem_gb
    → (size_gb + expand_size last_free_mem_g size_gb ≤ max_free_mem_gb)
      × (expand_size last_free_mem_g size_gb ≤ last_free_mem_g - 16)
unfolding expand_size
expand_size-fits last size le = ground arith

-- If the books are right and `expand_size` of filtered free memory above the threshold is not zero, the expansion of free_mem
-- allocates exactly that many chunks, takes none from a client, and keeps the books right.
pub expand-Accounted :
    (m : RemoteMem) (last_free_mem_g : ℕ)
    → Accounted m
    → let size = expand_size last_free_mem_g (count_true m.malloc_map) in
      0 < size
      → let m' = expand m size in
        Accounted m'
        × (m'.conn_map ≡ m.conn_map)
        × (count_true m'.malloc_map ≡ count_true m.malloc_map + size)
        × (size ≤ last_free_mem_g - 16)
unfolding expand
expand-Accounted m last h more =
    let size = expand_size last (count_true m.malloc_map) in
    let full : count_true m.malloc_map ≤ max_free_mem_gb =
      omega (arith, count-le-length m.malloc_map, h.malloc_size) in
    let (fits, leaves) = expand_size-fits last (count_true m.malloc_map) full in
    let (g, total) =
      expand_from-Grew 32 0 0 size m h.malloc_size refl more (omega (arith, fits))
        (λ k lt. absurd (omega arith)) in
    let total' : count_true (expand_from 32 0 0 size m).malloc_map
        ≡ count_true m.malloc_map + size =
      omega (arith, total) in
    (
      record {
        malloc_size = g.malloc_size;
        conn_size = ap length g.conns ∙ h.conn_size;
        size =
            ap (λ z. z +ℤ pos size) (g.same_size ∙ h.size)
            ∙ pos-+ℤ (count_true m.malloc_map) size
            ∙ ap pos (sym total');
        mapped = g.same_mapped ∙ h.mapped ∙ ap (λ c. pos (count_some c)) (sym g.conns);
        lent = λ i t. g.more i (h.lent i (ap (λ c. is_some (get_or c i none)) (sym g.conns) ∙ t));
      },
      g.conns,
      total',
      leaves,
    )
