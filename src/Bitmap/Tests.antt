-- ===== src/Bitmap/Tests.antt =====
-- Runs of the bitmap at concrete inputs.
use dis_store.Prelude.{◌≡◌, refl, [], ◌∷◌, ◌*◌}
use dis_store.Prelude.Bits.{or_bits, and_bits, not_bits}
use dis_store.Bitmap.{bitmap_set, bitmap_clear, group_set, set_pages}

set_runs : bitmap_set (0 ∷ 1 ∷ []) 37 ≡ 0 ∷ 33 ∷ []
unfolding bitmap_set or_bits and_bits
set_runs = refl

clear_runs : bitmap_clear (0 ∷ 33 ∷ []) 32 ≡ 0 ∷ 32 ∷ []
unfolding bitmap_clear and_bits not_bits
clear_runs = refl

group_runs : group_set (0 ∷ 1 ∷ []) (4096 * 30) (4096 * 4) ≡ 3 * 1073741824 ∷ 3 ∷ []
unfolding group_set set_pages bitmap_set or_bits and_bits
group_runs = refl
