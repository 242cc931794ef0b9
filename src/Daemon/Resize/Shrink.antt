-- ===== src/Daemon/Resize/Shrink.antt =====
-- Freeing chunks that are lent to nobody.
use dis_store.Prelude.{
  ℕ, zero, suc, ◌+◌, ◌-◌, ◌≤◌, ◌<◌, ◌≡◌, ◌⊎◌, inl, inr, refl, sym, ap, ◌∙◌, true, false, none, ◌==◌,
  arith, length, get_or, length-set, get_or-set, Bool-cases,
}
use native.Mathlib.Decide.{ℕ_discrete}
use dis_store.Prelude.Int.{pos, ◌-ℤ◌, pos--ℤ}
use dis_store.Prelude.Counts.{count_true, count_some, is_some, count_true-set}
use dis_store.Daemon.{RemoteMem, max_free_mem_gb}
use dis_store.Daemon.Accounts.{Accounted}
use dis_store.Daemon.Lend.{is_free}
use dis_store.Daemon.Resize.{with_malloc, free_chunks_from, free_unmapped}

-- From `m` to `m'`, chunks lent to nobody were freed: all but the allocation map is as it was.
record Freed (m m' : RemoteMem) : Type 0 where
  malloc_size : length m'.malloc_map ≡ max_free_mem_gb
  conns : m'.conn_map ≡ m.conn_map
  same_size : m'.size_gb ≡ m.size_gb
  same_mapped : m'.mapped_size ≡ m.mapped_size
  lent : (i : ℕ) → is_some (get_or m'.conn_map i none) ≡ true → get_or m'.malloc_map i false ≡ true
  fewer : (i : ℕ) → is_free m i ≡ false → is_free m' i ≡ false

free_one-Freed :
    (m : RemoteMem) (i : ℕ)
    → length m.malloc_map ≡ max_free_mem_gb
    → ((j : ℕ) → is_some (get_or m.conn_map j none) ≡ true → get_or m.malloc_map j false ≡ true)
    → i < max_free_mem_gb
    → is_free m i ≡ true
    → Freed m (with_malloc m i false)
      × (count_true (with_malloc m i false).malloc_map + 1 ≡ count_true m.malloc_map)
      × (is_free (with_malloc m i false) i ≡ false)
free_one-Freed m i size lent lt free =
    let lt' : i < length m.malloc_map = omega (arith, size) in
    (
      record {
        malloc_size = length-set m.malloc_map i false ∙ size;
        conns = refl;
        same_size = refl;
        same_mapped = refl;
        lent = λ j t. ground (arith, get_or-set m.malloc_map i j false false lt', lent j);
        fewer = λ j e. ground (arith, get_or-set m.malloc_map i j false false lt');
      },
      ground (arith, count_true-set m.malloc_map i false lt'),
      ground (arith, get_or-set m.malloc_map i i false false lt'),
    )

Freed-trans : (m m' m'' : RemoteMem) → Freed m m' → Freed m' m'' → Freed m m''
Freed-trans m m' m'' a b = record {
  malloc_size = b.malloc_size;
  conns = b.conns ∙ a.conns;
  same_size = b.same_size ∙ a.same_size;
  same_mapped = b.same_mapped ∙ a.same_mapped;
  lent = b.lent;
  fewer = λ i e. b.fewer i (a.fewer i e);
}

-- What the loop has done at its end.
record Done (m m' : RemoteMem) (i n freed freed' evict : ℕ) : Type 0 where
  books : Freed m m'
  count : count_true m'.malloc_map + freed' ≡ count_true m.malloc_map + freed
  bound : freed' ≤ evict
  stop : (freed' ≡ evict) ⊎ ((j : ℕ) → i ≤ j → j < i + n → is_free m' j ≡ false)

-- A round at a chunk that is not free, at the last one to free, and at another one.
round_skip :
    (n i freed evict : ℕ) (m : RemoteMem)
    → is_free m i ≡ false
    → free_chunks_from (suc n) i freed evict m ≡ free_chunks_from n (i + 1) freed evict m
unfolding free_chunks_from
round_skip n i freed evict m e = rw (free_chunks_from, e) refl

round_last :
    (n i freed evict : ℕ) (m : RemoteMem)
    → is_free m i ≡ true
    → freed + 1 ≡ evict
    → free_chunks_from (suc n) i freed evict m ≡ (with_malloc m i false, freed + 1)
unfolding free_chunks_from
round_last n i freed evict m e last =
    let test : (freed + 1 == evict) ≡ true = ground arith in rw (free_chunks_from, e, test) refl

round_next :
    (n i freed evict : ℕ) (m : RemoteMem)
    → is_free m i ≡ true
    → freed + 1 < evict
    → free_chunks_from (suc n) i freed evict m
      ≡ free_chunks_from n (i + 1) (freed + 1) evict (with_malloc m i false)
unfolding free_chunks_from
round_next n i freed evict m e more =
    let test : (freed + 1 == evict) ≡ false = ground arith in rw (free_chunks_from, e, test) refl

Freed-refl :
    (m : RemoteMem)
    → length m.malloc_map ≡ max_free_mem_gb
    → ((j : ℕ) → is_some (get_or m.conn_map j none) ≡ true → get_or m.malloc_map j false ≡ true)
    → Freed m m
Freed-refl m size lent = record {
  malloc_size = size;
  conns = refl;
  same_size = refl;
  same_mapped = refl;
  lent = lent;
  fewer = λ i e. e;
}

-- Going on from chunk `i`, which is not free any more.
Done-cons :
    (m m' m'' : RemoteMem) (i n freed freed' freed'' evict : ℕ)
    → Freed m m'
    → count_true m'.malloc_map + freed' ≡ count_true m.malloc_map + freed
    → is_free m' i ≡ false
    → Done m' m'' (i + 1) n freed' freed'' evict
    → Done m m'' i (suc n) freed freed'' evict
Done-cons m m' m'' i n freed freed' freed'' evict a count off d = record {
  books = Freed-trans m m' m'' a d.books;
  count = omega (arith, count, d.count);
  bound = d.bound;
  stop = elim d.stop [
    | inl e ↦ inl e
    | inr h ↦ inr (λ j le lt. elim (ℕ_discrete i j) [
      | yes e ↦ ap (is_free m'') (sym e) ∙ d.books.fewer i off
      | no ne ↦ h j (omega arith) (omega arith)
    ])
  ];
}

free_chunks_from-Done :
    (n i freed evict : ℕ) (m : RemoteMem)
    → length m.malloc_map ≡ max_free_mem_gb
    → ((j : ℕ) → is_some (get_or m.conn_map j none) ≡ true → get_or m.malloc_map j false ≡ true)
    → i + n ≤ max_free_mem_gb
    → freed < evict
    → let (m', freed') = free_chunks_from n i freed evict m in Done m m' i n freed freed' evict
unfolding free_chunks_from
free_chunks_from-Done zero i freed evict m size lent le more = record {
  books = Freed-refl m size lent;
  count = refl;
  bound = omega arith;
  stop = inr (λ j a b. absurd (omega arith));
}
free_chunks_from-Done (suc n) i freed evict m size lent le more = elim (Bool-cases (is_free m i)) [
  | inr e ↦
      let (m', freed') = free_chunks_from n (i + 1) freed evict m in
      rw (round_skip n i freed evict m e) (
        Done-cons m m m' i n freed freed freed' evict (Freed-refl m size lent) refl e
          (free_chunks_from-Done n (i + 1) freed evict m size lent (omega arith) more))
  | inl e ↦
      let (one, count, off) = free_one-Freed m i size lent (omega arith) e in
      elim (ℕ_discrete (freed + 1) evict) [
        | yes last ↦ rw (round_last n i freed evict m e last) (record {
          books = one;
          count = omega (arith, count);
          bound = omega arith;
          stop = inl last;
        })
        | no ne ↦
            let (m', freed') =
              free_chunks_from n (i + 1) (freed + 1) evict (with_malloc m i false) in
            rw (round_next n i freed evict m e (omega arith)) (
              Done-cons m (with_malloc m i false) m' i n freed (freed + 1) freed' evict one
                (omega (arith, count)) off
                (free_chunks_from-Done n (i + 1) (freed + 1) evict (with_malloc m i false)
                  one.malloc_size one.lent (omega arith) (omega arith)))
      ]
]

-- If the books are right and there is something to evict, the first part of evict_mem keeps them
-- right, takes no chunk from a client, frees as many chunks as it counts and no more than asked
-- for, and leaves nothing to evict, or no chunk that is lent to nobody.
pub free_unmapped-Accounted :
    (m : RemoteMem) (stop_g : ℕ)
    → Accounted m
    → 0 < stop_g
    → let (m', left) = free_unmapped m stop_g in
      Accounted m'
      × (m'.conn_map ≡ m.conn_map)
      × (count_true m'.malloc_map + (stop_g - left) ≡ count_true m.malloc_map)
      × (left ≤ stop_g)
      × ((left ≡ 0) ⊎ ((j : ℕ) → j < max_free_mem_gb → is_free m' j ≡ false))
unfolding free_unmapped
free_unmapped-Accounted m stop_g h more =
    let (m', freed) = free_chunks_from 32 0 0 stop_g m in
    let d = free_chunks_from-Done 32 0 0 stop_g m h.malloc_size h.lent (omega arith) more in
    let b = d.books in
    (
      record {
        malloc_size = b.malloc_size;
        conn_size = ap length b.conns ∙ h.conn_size;
        size =
            ap (λ z. z -ℤ pos freed) (b.same_size ∙ h.size)
            ∙ pos--ℤ (count_true m.malloc_map) freed (omega (arith, d.count))
            ∙ ap pos (omega (arith, d.count));
        mapped = b.same_mapped ∙ h.mapped ∙ ap (λ c. pos (count_some c)) (sym b.conns);
        lent = b.lent;
      },
      b.conns,
      omega (arith, d.count, d.bound),
      omega arith,
      elim d.stop [
        | inl e ↦ inl (omega (arith, e))
        | inr g ↦ inr (λ j lt. g j (omega arith) (omega arith))
      ],
    )
