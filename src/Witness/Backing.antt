-- ===== src/Witness/Backing.antt =====
-- Two requests, of two bios and of one, on their way to the disk.
use dis_store.Prelude.{ℕ, ◌*◌, ◌≡◌, refl, true, some, List, [], ◌∷◌, arith, length}
use dis_store.Backing.{Stackbd, Bio, original, thread_turns, ended}
use dis_store.Backing.Order.{Io, make_all, bios_of, reqs_of, thread_turns-bios_of}

abbrev open_device : Stackbd
open_device = record { bdev_raw = true; is_active = true; bio_list = [] }

abbrev bio : ℕ → Bio
bio n = record { sector = n * 8; data_page = n; bi_end_io = original }

two_ios : List Io
unfolding ended
two_ios =
    record {
      req = 31;
      bios = bio 4 ∷ (bio 5 ∷ []);
      segments = 2;
      some_bio = omega arith;
      plain = refl;
      one_each = refl;
    }
    ∷ (record {
      req = 32;
      bios = bio 9 ∷ [];
      segments = 1;
      some_bio = omega arith;
      plain = refl;
      one_each = refl;
    }
        ∷ [])

thread_turns-bios_of_example :
    (d' : Stackbd) × (make_all open_device two_ios ≡ some d')
    × (thread_turns (length (bios_of two_ios)) d' ≡ (bios_of two_ios, open_device))
    × (ended (bios_of two_ios) ≡ reqs_of two_ios)
thread_turns-bios_of_example = thread_turns-bios_of open_device two_ios refl refl
