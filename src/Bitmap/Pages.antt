-- ===== src/Bitmap/Pages.antt =====
-- What the bitmap's operations do to each page's bit.
use dis_store.Prelude.{
  ℕ, zero, suc, ◌+◌, ◌*◌, ◌/◌, ◌%◌, ◌^◌, ◌≤◌, ◌<◌, ◌≡◌, refl, ap, ◌∙◌, Bool, true, false, ◌&&◌,
  arith, ◌==◌, leb, ltb, if◌then◌else◌, length, get_or, replicate, length-set, length-replicate,
  get_or-set, get_or-replicate,
}
use dis_store.Prelude.Bits.{
  or_bits, and_bits, not_bits, bit_at, bit_at-le, bit_at-or_bits, bit_at-and_bits, bit_at-not_bits,
  bit_at-pow, and_bits-pow_eq_zero, and_bits_0x1f, zero-bit_at,
}
use dis_store.Bitmap.{
  Bitmap, word_of, bitmap_set, bitmap_clear, bitmap_test, bitmap_init, set_pages, clear_pages,
  group_set, group_clear, to_page, page_size, one_gb,
}

-- The pages that a bitmap has room for.
abbrev pub room : Bitmap → ℕ
room b = length b * 32

-- The bit of page `i`, before the test looks at it.
page_bit : Bitmap → ℕ → ℕ
page_bit b i = bit_at (get_or b (i / 32) 0) (i % 32)

bitmap_test-page_bit :
    (b : Bitmap) (i : ℕ) → bitmap_test b i ≡ (if page_bit b i == 0 then false else true)
unfolding bitmap_test page_bit
bitmap_test-page_bit b i =
    rw (and_bits_0x1f 27 i, and_bits-pow_eq_zero 32 (i % 32) (get_or b (i / 32) 0) (omega arith))

same_page : (i j : ℕ) → (i == j) ≡ ((i / 32 == j / 32) && (i % 32 == j % 32))
same_page i j = ground arith

page_bit-set :
    (b : Bitmap) (i j : ℕ)
    → i < room b
    → page_bit (bitmap_set b i) j ≡ (if i == j then 1 else page_bit b j)
unfolding bitmap_set page_bit
page_bit-set b i j h =
    rw
      (
        and_bits_0x1f 27 i,
        get_or-set b (i / 32) (j / 32) (or_bits 32 (get_or b (i / 32) 0) (2 ^ (i % 32))) 0
            (omega arith),
      )
      (ground (
        arith,
        bit_at-or_bits 32 (j % 32) (get_or b (i / 32) 0) (2 ^ (i % 32)) (omega arith),
        bit_at-pow (i % 32) (j % 32),
        bit_at-le (get_or b (i / 32) 0) (j % 32),
        same_page i j,
      ))

page_bit-clear :
    (b : Bitmap) (i j : ℕ)
    → i < room b
    → page_bit (bitmap_clear b i) j ≡ (if i == j then 0 else page_bit b j)
unfolding bitmap_clear page_bit
page_bit-clear b i j h =
    rw
      (
        and_bits_0x1f 27 i,
        get_or-set b (i / 32) (j / 32)
            (and_bits 32 (get_or b (i / 32) 0) (not_bits 32 (2 ^ (i % 32)))) 0 (omega arith),
      )
      (ground (
        arith,
        bit_at-and_bits 32 (j % 32) (get_or b (i / 32) 0) (not_bits 32 (2 ^ (i % 32)))
            (omega arith),
        bit_at-not_bits 32 (j % 32) (2 ^ (i % 32)) (omega arith),
        bit_at-pow (i % 32) (j % 32),
        bit_at-le (get_or b (i / 32) 0) (j % 32),
        same_page i j,
      ))

test-set :
    (b : Bitmap) (i j : ℕ)
    → i < room b
    → bitmap_test (bitmap_set b i) j ≡ (if i == j then true else bitmap_test b j)
test-set b i j h =
    ground (
      arith,
      bitmap_test-page_bit (bitmap_set b i) j,
      bitmap_test-page_bit b j,
      page_bit-set b i j h,
    )

test-clear :
    (b : Bitmap) (i j : ℕ)
    → i < room b
    → bitmap_test (bitmap_clear b i) j ≡ (if i == j then false else bitmap_test b j)
test-clear b i j h = ground (
  arith,
  bitmap_test-page_bit (bitmap_clear b i) j,
  bitmap_test-page_bit b j,
  page_bit-clear b i j h,
)

length-bitmap_set : (b : Bitmap) (i : ℕ) → length (bitmap_set b i) ≡ length b
unfolding bitmap_set
length-bitmap_set b i = length-set b (word_of i) _

length-bitmap_clear : (b : Bitmap) (i : ℕ) → length (bitmap_clear b i) ≡ length b
unfolding bitmap_clear
length-bitmap_clear b i = length-set b (word_of i) _

length-set_pages : (n p : ℕ) (b : Bitmap) → length (set_pages n p b) ≡ length b
unfolding set_pages
length-set_pages zero p b = refl
length-set_pages (suc n) p b = length-set_pages n (p + 1) (bitmap_set b p) ∙ length-bitmap_set b p

length-clear_pages : (n p : ℕ) (b : Bitmap) → length (clear_pages n p b) ≡ length b
unfolding clear_pages
length-clear_pages zero p b = refl
length-clear_pages (suc n) p b =
    length-clear_pages n (p + 1) (bitmap_clear b p) ∙ length-bitmap_clear b p

-- Whether page `j` is among the `n` pages from `p` on.
abbrev pub among : ℕ → ℕ → ℕ → Bool
among p n j = leb p j && ltb j (p + n)

test-set_pages :
    (n p j : ℕ) (b : Bitmap)
    → p + n ≤ room b
    → bitmap_test (set_pages n p b) j ≡ (if among p n j then true else bitmap_test b j)
unfolding set_pages
test-set_pages zero p j b h = ground arith
test-set_pages (suc n) p j b h = ground (
  arith,
  test-set_pages n (p + 1) j (bitmap_set b p) (omega (arith, length-bitmap_set b p)),
  test-set b p j (omega arith),
)

test-clear_pages :
    (n p j : ℕ) (b : Bitmap)
    → p + n ≤ room b
    → bitmap_test (clear_pages n p b) j ≡ (if among p n j then false else bitmap_test b j)
unfolding clear_pages
test-clear_pages zero p j b h = ground arith
test-clear_pages (suc n) p j b h = ground (
  arith,
  test-clear_pages n (p + 1) j (bitmap_clear b p) (omega (arith, length-bitmap_clear b p)),
  test-clear b p j (omega arith),
)

pub length-group_set : (b : Bitmap) (offset len : ℕ) → length (group_set b offset len) ≡ length b
unfolding group_set
length-group_set b offset len = length-set_pages (to_page len) (to_page offset) b

pub length-group_clear :
    (b : Bitmap) (offset len : ℕ) → length (group_clear b offset len) ≡ length b
unfolding group_clear
length-group_clear b offset len = length-clear_pages (to_page len) (to_page offset) b

-- Whether the byte `a` lies in the `len` bytes from `offset` on.
abbrev pub covers : ℕ → ℕ → ℕ → Bool
covers offset len a = leb offset a && ltb a (offset + len)

-- A bitmap of a chunk: 8192 words, a bit for each page of a gigabyte.
abbrev pub IsChunkMap : Bitmap → Type 0
IsChunkMap b = length b ≡ 8192

to_page-mul : (n : ℕ) → n ≤ 2 ^ 18 → to_page (n * page_size) ≡ n
to_page-mul n h = omega arith

among-covers : (p n a : ℕ) → among p n (a / page_size) ≡ covers (p * page_size) (n * page_size) a
among-covers p n a = ground arith

-- The group operations on whole pages, page by page.
pub group_set-page :
    (b : Bitmap) (first count q : ℕ)
    → IsChunkMap b
    → (first + count) * page_size ≤ one_gb
    → bitmap_test (group_set b (first * page_size) (count * page_size)) q
      ≡ (if among first count q then true else bitmap_test b q)
unfolding group_set
group_set-page b first count q c h =
    rw (to_page-mul first (omega arith), to_page-mul count (omega arith))
      (test-set_pages count first q b (omega arith))

pub group_clear-page :
    (b : Bitmap) (first count q : ℕ)
    → IsChunkMap b
    → (first + count) * page_size ≤ one_gb
    → bitmap_test (group_clear b (first * page_size) (count * page_size)) q
      ≡ (if among first count q then false else bitmap_test b q)
unfolding group_clear
group_clear-page b first count q c h =
    rw (to_page-mul first (omega arith), to_page-mul count (omega arith))
      (test-clear_pages count first q b (omega arith))

-- For a bitmap of a gigabyte and a range of whole pages inside it: after IS_bitmap_group_set the
-- test of the page of any byte says true if the byte is in the range, and what it said before
-- otherwise; the array keeps its length.
pub test-group_set :
    (b : Bitmap) (first count a : ℕ)
    → IsChunkMap b
    → (first + count) * page_size ≤ one_gb
    → let b' = group_set b (first * page_size) (count * page_size) in
      (bitmap_test b' (a / page_size) ≡ (
        if covers (first * page_size) (count * page_size) a
        then true
        else bitmap_test b (a / page_size)))
      × IsChunkMap b'
test-group_set b first count a c h =
    rw (← among-covers first count a)
      (group_set-page b first count (a / page_size) c h, length-group_set b _ _ ∙ c)

-- For a bitmap of a gigabyte and a range of whole pages inside it: after IS_bitmap_group_clear the
-- test of the page of any byte says false if the byte is in the range, and what it said before
-- otherwise; the array keeps its length.
pub test-group_clear :
    (b : Bitmap) (first count a : ℕ)
    → IsChunkMap b
    → (first + count) * page_size ≤ one_gb
    → let b' = group_clear b (first * page_size) (count * page_size) in
      (bitmap_test b' (a / page_size) ≡ (
        if covers (first * page_size) (count * page_size) a
        then false
        else bitmap_test b (a / page_size)))
      × IsChunkMap b'
test-group_clear b first count a c h =
    rw (← among-covers first count a)
      (group_clear-page b first count (a / page_size) c h, length-group_clear b _ _ ∙ c)

zeros :
    (n : ℕ)
    → (length (replicate {A = ℕ} n 0) ≡ n) × ((i : ℕ) → bitmap_test (replicate n 0) i ≡ false)
unfolding page_bit
zeros n = (
  length-replicate {A = ℕ} n 0,
  λ i. ground (
    arith,
    bitmap_test-page_bit (replicate n 0) i,
    ap (λ w. bit_at w (i % 32)) (get_or-replicate {A = ℕ} n 0 (i / 32)),
    zero-bit_at (i % 32),
  ),
)

-- IS_bitmap_init leaves a bitmap of a gigabyte in which no page is set.
pub bitmap_init-IsChunkMap : IsChunkMap bitmap_init × ((i : ℕ) → bitmap_test bitmap_init i ≡ false)
unfolding bitmap_init
bitmap_init-IsChunkMap = zeros 8192
