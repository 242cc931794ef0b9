-- ===== src/Configfs.antt =====
-- The files in configfs through which a session is set up (Infiniswap/infiniswap_bd/is_configfs.c):
-- IS_device_make_group, device_attr_store and IS_device_drop, for the devices of one session. A config
-- item is its place in the list; texts are lists of characters. Configfs/Portals has the portals.
pub mod Names
pub mod Steps
pub mod Portals
use dis_store.Prelude.{
  ℕ, zero, suc, ◌+◌, Bool, true, false, ◌&&◌, ◌||◌, Option, none, some, List, [], ◌∷◌, ◌++◌, ◌==◌,
  if◌then◌else◌, length, get_or, set,
}
use dis_store.Device.{
  Name, same_name, DevState, DeviceFile, Errno, success, from_kernel, enomem, efault, einval,
  eexist, minus_one, no_parts, Kernel, set_device_state, create_device, destroy_device, file_find,
}

-- isspace
abbrev pub is_space : ℕ → Bool
is_space c = (c == 32) || ((c == 9) || ((c == 10) || ((c == 11) || ((c == 12) || (c == 13)))))

-- The characters up to the first blank.
unfoldable pub word : Name → Name
word [] = []
word (c ∷ cs) = let rest = word cs in if is_space c then [] else c ∷ rest

-- What `%s` of sscanf reads, which is nothing when there are only blanks.
unfoldable pub scan_word : Name → Option Name
scan_word [] = none
scan_word (c ∷ cs) = let later = scan_word cs in if is_space c then later else some (c ∷ word cs)

-- What kzalloc gives for a device.
abbrev pub zeroed_file : DeviceFile
zeroed_file = record {
  file_name = [];
  dev_name = [];
  state = DevState.initializing;
  index = 0;
  nr_queues = 0;
  queues = false;
  parts = no_parts;
}

-- The devices of a session, the newest first, and IS_indexes.
pub record Devices : Type 0 where
  pub devs : List DeviceFile
  pub indexes : ℕ

abbrev pub device_at : List DeviceFile → ℕ → DeviceFile
device_at devs i = get_or devs i zeroed_file

-- IS_device_make_group, where the memory is there.
unfoldable pub device_make_group : Name → Devices → Option Devices
device_make_group name s =
    let (d, result) = set_device_state zeroed_file DevState.openning in
    elim result [
      | success ↦ elim (scan_word name) [
        | none ↦ some (record s { devs = d ∷ s.devs })
        | some w ↦ some (record s { devs = record d { dev_name = w } ∷ s.devs })
      ]
      | from_kernel ↦ none
      | enomem ↦ none
      | efault ↦ none
      | einval ↦ none
      | eexist ↦ none
      | minus_one ↦ none
    ]

-- device_attr_store of item `i`, where the page has the name `xdev_name`.
unfoldable pub store_name : Kernel → ℕ → ℕ → Name → Devices → Devices × Errno
store_name k cpus i xdev_name s = elim (file_find s.devs xdev_name) [
  | some d ↦ (s, eexist)
  | none ↦
      let (d, result) = create_device k s.indexes cpus xdev_name (device_at s.devs i) in
      (record s { devs = set s.devs i d; indexes = s.indexes + 1 }, result)
]

-- device_attr_store. `none`: the page has only blanks, and the code takes what is on the stack.
unfoldable pub device_attr_store : Kernel → ℕ → ℕ → Name → Devices → Option (Devices × Errno)
device_attr_store k cpus i page s = elim (scan_word page) [
  | none ↦ none
  | some xdev_name ↦ some (store_name k cpus i xdev_name s)
]

-- list_del
unfoldable pub list_del : List DeviceFile → ℕ → List DeviceFile
list_del [] i = []
list_del (d ∷ ds) zero = ds
list_del (d ∷ ds) (suc i) = d ∷ list_del ds i

-- IS_device_drop, where IS_destroy_device comes to its end.
unfoldable pub device_drop : ℕ → Devices → Option Devices
device_drop i s = elim (destroy_device (device_at s.devs i)) [
  | none ↦ none
  | some d ↦ some (record s { devs = list_del s.devs i })
]
