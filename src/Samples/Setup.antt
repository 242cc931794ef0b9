-- ===== src/Samples/Setup.antt =====
-- A session with a device, a kernel of which one call fails, and two servers.
use dis_store.Prelude.{ℕ, ◌≢◌, ◌≡◌, refl, true, false, some, List, [], ◌∷◌, arith}
use dis_store.Device.{
  Name, Kernel, DevState, minus_one, create_device, set_device_state, register_block_device,
  register_stackbd, stackbd_start, same_name, file_find,
}
use dis_store.Configfs.{
  Devices, word, scan_word, device_make_group, store_name, device_attr_store, zeroed_file,
}
use dis_store.Configfs.Steps.{Reach, fresh, next, made, stored}
use dis_store.Portal.{IsPortal}
use dis_store.Portal.RoundTrip.{Avoids, at_end, past, AllNameable, no_servers, and_server}

-- The backing disk does not open.
abbrev pub no_backing : Kernel
no_backing = record {
  queues_there = true;
  tag_set_there = true;
  queue_there = true;
  disk_there = true;
  stack_queue_there = true;
  stack_major_there = true;
  stack_disk_there = true;
  backing_opens = false;
  thread_there = true;
}

abbrev pub all_there : Kernel
all_there = record no_backing { backing_opens = true }

-- `d0`, with the end of the line.
abbrev pub page : Name
page = 100 ∷ (48 ∷ (10 ∷ []))

abbrev pub one_device : Devices
one_device = record {
  devs = record zeroed_file { state = DevState.openning; dev_name = 100 ∷ (48 ∷ []) } ∷ [];
  indexes = 0;
}

unfoldable pub failed : Devices
unfolding store_name create_device
failed = (store_name no_backing 4 0 (100 ∷ (48 ∷ [])) one_device).0

pub stored_once : device_attr_store no_backing 4 0 page one_device ≡ some (failed, minus_one)
unfolding failed device_attr_store scan_word word store_name create_device set_device_state
    register_block_device register_stackbd stackbd_start file_find same_name
stored_once = refl

pub failed-Reach : Reach 0 failed
unfolding device_make_group set_device_state scan_word word
failed-Reach =
    next one_device failed
      (next (record { devs = []; indexes = 0 }) one_device fresh (made (100 ∷ (48 ∷ [])) refl))
      (stored no_backing 4 0 page minus_one stored_once)

-- 10.1:8000 and 10.2:9400
abbrev pub two_servers : List IsPortal
two_servers =
    record { addr = 49 ∷ (48 ∷ (46 ∷ (49 ∷ []))); port = 8000 }
    ∷ (record { addr = 49 ∷ (48 ∷ (46 ∷ (50 ∷ []))); port = 9400 } ∷ [])

-- A short text without a given character.
four-Avoids : (x a b c d : ℕ) → a ≢ x → b ≢ x → c ≢ x → d ≢ x → Avoids x (a ∷ (b ∷ (c ∷ (d ∷ []))))
four-Avoids x a b c d ha hb hc hd = past a _ ha (past b _ hb (past c _ hc (past d _ hd at_end)))

pub two_servers-AllNameable : AllNameable two_servers
two_servers-AllNameable =
    and_server _ _
      (record {
        no_comma =
            four-Avoids 44 49 48 46 49 (λ e. absurd (omega arith)) (λ e. absurd (omega arith))
              (λ e. absurd (omega arith)) (λ e. absurd (omega arith));
        no_colon =
            four-Avoids 58 49 48 46 49 (λ e. absurd (omega arith)) (λ e. absurd (omega arith))
              (λ e. absurd (omega arith)) (λ e. absurd (omega arith));
        short = omega arith;
        port_fits = omega arith;
      })
      (and_server _ _
        (record {
          no_comma =
              four-Avoids 44 49 48 46 50 (λ e. absurd (omega arith)) (λ e. absurd (omega arith))
                (λ e. absurd (omega arith)) (λ e. absurd (omega arith));
          no_colon =
              four-Avoids 58 49 48 46 50 (λ e. absurd (omega arith)) (λ e. absurd (omega arith))
                (λ e. absurd (omega arith)) (λ e. absurd (omega arith));
          short = omega arith;
          port_fits = omega arith;
        })
        no_servers)
