-- ===== src/Witness/Setup.antt =====
-- The theorems on devices, configfs and portals at one device and two servers.
use dis_store.Prelude.{◌≡◌, refl, not, ◌&&◌, ◌||◌, some, [], ◌∷◌, arith}
use dis_store.Device.{create_device, eexist}
use dis_store.Device.Created.{is_success, is_running, gets_far, starts, create_device_outcome}
use dis_store.Configfs.{zeroed_file, device_attr_store}
use dis_store.Configfs.Names.{Distinct}
use dis_store.Configfs.Steps.{Reach-Distinct, attr_store_again}
use dis_store.Portal.{portal_parser}
use dis_store.Portal.RoundTrip.{print_portal, portal_parser-print_portal}
use dis_store.Samples.Setup.{
  no_backing, all_there, page, one_device, failed, stored_once, failed-Reach, two_servers,
  two_servers-AllNameable,
}

create_device_outcome_example :
    let (d', e) = create_device no_backing 0 4 (100 ∷ (48 ∷ [])) zeroed_file in
    (d'.file_name ≡ 100 ∷ (48 ∷ []))
    × (is_success e
        ≡ (gets_far no_backing && (not no_backing.stack_disk_there || starts no_backing)))
    × (is_running d'.state ≡ is_success e)
    × (d'.parts.added ≡ (gets_far no_backing && no_backing.stack_disk_there))
create_device_outcome_example =
    create_device_outcome no_backing 0 4 (100 ∷ (48 ∷ [])) zeroed_file refl refl

Reach-Distinct_example : Distinct failed.devs
Reach-Distinct_example = Reach-Distinct 0 failed failed-Reach

attr_store_again_example : device_attr_store all_there 4 0 page failed ≡ some (failed, eexist)
attr_store_again_example =
    attr_store_again no_backing all_there 4 0 0 page one_device failed _ (omega arith) stored_once

portal_parser-print_portal_example : portal_parser (print_portal two_servers) ≡ some two_servers
portal_parser-print_portal_example =
    portal_parser-print_portal two_servers two_servers-AllNameable (omega arith)
