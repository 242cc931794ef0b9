-- ===== src/Bitmap.antt =====
-- The bitmap of a remote chunk (Infiniswap/infiniswap_bd/is_mq.c): one bit for each page of the
-- gigabyte, in an array of ints. An int is its bit pattern. A page outside the array is undefined
-- behaviour in C; here a write outside changes nothing and a read outside is a zero word, and the
-- theorems keep to pages inside.
pub mod Pages
mod Tests
use dis_store.Prelude.{
  ℕ, zero, suc, ◌+◌, ◌*◌, ◌/◌, ◌%◌, ◌^◌, Bool, true, false, List, ◌==◌, if◌then◌else◌, get_or, set,
  replicate,
}
use dis_store.Prelude.Bits.{or_bits, and_bits, not_bits}

abbrev pub Bitmap : Type 0
Bitmap = List ℕ

abbrev pub page_size : ℕ
page_size = 4096

abbrev pub one_gb : ℕ
one_gb = 1073741824

abbrev pub bitmap_int_size : ℕ
bitmap_int_size = 8192

-- `1 << (i & BITMAP_MASK)`
abbrev pub bit_of : ℕ → ℕ
bit_of i = 2 ^ and_bits 32 i 0x1f

abbrev pub word_of : ℕ → ℕ
word_of i = i / 2 ^ 5

unfoldable pub bitmap_set : Bitmap → ℕ → Bitmap
bitmap_set b i = set b (word_of i) (or_bits 32 (get_or b (word_of i) 0) (bit_of i))

unfoldable pub bitmap_clear : Bitmap → ℕ → Bitmap
bitmap_clear b i = set b (word_of i) (and_bits 32 (get_or b (word_of i) 0) (not_bits 32 (bit_of i)))

unfoldable pub bitmap_test : Bitmap → ℕ → Bool
bitmap_test b i = if and_bits 32 (get_or b (word_of i) 0) (bit_of i) == 0 then false else true

-- `memset` of ONE_GB / (4096 * 8) bytes: all of the array's 8192 ints.
unfoldable pub bitmap_init : Bitmap
bitmap_init = replicate (one_gb / (4096 * 8) / 4) 0

-- `(int)(x / IS_PAGE_SIZE)`, the low 32 bits of the quotient.
abbrev pub to_page : ℕ → ℕ
to_page x = x / page_size % 2 ^ 32

-- The loops: `n` rounds left, from page `p` on.
unfoldable pub set_pages : ℕ → ℕ → Bitmap → Bitmap
set_pages zero p b = b
set_pages (suc n) p b = set_pages n (p + 1) (bitmap_set b p)

unfoldable pub clear_pages : ℕ → ℕ → Bitmap → Bitmap
clear_pages zero p b = b
clear_pages (suc n) p b = clear_pages n (p + 1) (bitmap_clear b p)

unfoldable pub group_set : Bitmap → ℕ → ℕ → Bitmap
group_set b offset len = set_pages (to_page len) (to_page offset) b

unfoldable pub group_clear : Bitmap → ℕ → ℕ → Bitmap
group_clear b offset len = clear_pages (to_page len) (to_page offset) b

-- `bitmap_value` of is_main.c: one more than the nonzero words among every 32nd. `n` rounds left.
unfoldable pub count_words : ℕ → ℕ → Bitmap → ℕ
count_words zero i b = 0
count_words (suc n) i b = (if get_or b i 0 == 0 then 0 else 1) + count_words n (i + 32) b

unfoldable pub bitmap_value : Bitmap → ℕ
bitmap_value b = (1 + count_words (bitmap_int_size / 32) 0 b) % 2 ^ 32
