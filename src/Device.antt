-- ===== src/Device.antt =====
-- A device and how it is set up: IS_set_device_state, IS_create_device, IS_destroy_device and
-- IS_file_find (Infiniswap/infiniswap_bd/is_main.c), IS_setup_queues, IS_register_block_device with
-- stackbd_start, and IS_unregister_block_device (Infiniswap/infiniswap_bd/is_mq.c), for a kernel with
-- tag sets. A name is its characters. Whether each call of the kernel succeeds is an input; what the
-- calls set up is a flag of the device.
pub mod Created
use dis_store.Prelude.{
  ℕ, ◌+◌, Bool, true, false, not, ◌&&◌, ◌||◌, Option, none, some, List, [], ◌∷◌, ◌==◌,
  if◌then◌else◌,
}

abbrev pub Name : Type 0
Name = List ℕ

-- strcmp(a, b) == 0
unfoldable pub same_name : Name → Name → Bool
same_name [] [] = true
same_name [] (b ∷ bs) = false
same_name (a ∷ as') [] = false
same_name (a ∷ as') (b ∷ bs) = let rest = same_name as' bs in (a == b) && rest

-- `enum IS_dev_state`
pub data DevState : Type 0 where
  initializing openning running offline : DevState

-- What is set up for the device: the tag set, the queue and the disk of the driver, whether that
-- disk is added, and the same of the block device over the backing disk, with its thread.
pub record Parts : Type 0 where
  pub tag_set : Bool
  pub queue : Bool
  pub disk : Bool
  pub added : Bool
  pub stack_queue : Bool
  pub stack_major : Bool
  pub stack_disk : Bool
  pub stack_active : Bool

abbrev pub no_parts : Parts
no_parts = record {
  tag_set = false;
  queue = false;
  disk = false;
  added = false;
  stack_queue = false;
  stack_major = false;
  stack_disk = false;
  stack_active = false;
}

-- `struct IS_file`
pub record DeviceFile : Type 0 where
  pub file_name : Name
  pub dev_name : Name
  pub state : DevState
  pub index : ℕ
  pub nr_queues : ℕ
  pub queues : Bool
  pub parts : Parts

-- What comes back: 0, an error of the kernel's, -ENOMEM, -EFAULT, -EINVAL, -EEXIST, and -1.
pub data Errno : Type 0 where
  success from_kernel enomem efault einval eexist minus_one : Errno

-- IS_set_device_state
unfoldable pub set_device_state : DeviceFile → DevState → DeviceFile × Errno
set_device_state d openning = elim d.state [
  | initializing ↦ (record d { state = DevState.openning }, success)
  | openning ↦ (record d { state = DevState.openning }, success)
  | running ↦ (d, einval)
  | offline ↦ (d, einval)
]
set_device_state d running = (record d { state = DevState.running }, success)
set_device_state d offline = (record d { state = DevState.offline }, success)
set_device_state d initializing = (d, einval)

-- Which calls of the kernel succeed, in their order.
pub record Kernel : Type 0 where
  pub queues_there : Bool
  pub tag_set_there : Bool
  pub queue_there : Bool
  pub disk_there : Bool
  pub stack_queue_there : Bool
  pub stack_major_there : Bool
  pub stack_disk_there : Bool
  pub backing_opens : Bool
  pub thread_there : Bool

-- stackbd_start: whether it returns 0.
unfoldable pub stackbd_start : Kernel → Bool
stackbd_start k = if k.backing_opens then (if k.thread_there then true else false) else false

-- The part of IS_register_block_device for the block device over the backing disk, on top of `p`.
unfoldable pub register_stackbd : Kernel → Parts → Parts × Errno
register_stackbd k p =
    if not k.stack_queue_there
    then (p, efault)
    else (if not k.stack_major_there
        then (p, efault)
        else (if not k.stack_disk_there then (p, success) else (
          record p {
            stack_queue = true;
            stack_major = true;
            stack_disk = true;
            stack_active = stackbd_start k;
            added = true;
          },
          if stackbd_start k then success else minus_one,
        )))

-- IS_register_block_device
unfoldable pub register_block_device : Kernel → Parts × Errno
register_block_device k =
    if not k.tag_set_there
    then (no_parts, from_kernel)
    else (if not k.queue_there
        then (no_parts, from_kernel)
        else (if not k.disk_there
            then (no_parts, enomem)
            else register_stackbd k
                (record no_parts { tag_set = true; queue = true; disk = true })))

-- IS_create_device, where `created` devices were created before and there are `cpus` queues. The name
-- is one word, which `%s` of sscanf copies as it is.
unfoldable pub create_device : Kernel → ℕ → ℕ → Name → DeviceFile → DeviceFile × Errno
create_device k created cpus name d =
    let named = record d { file_name = name; index = created; nr_queues = cpus } in
    let registered = register_block_device k in
    let with_parts = record named { parts = registered.0; queues = true } in
    if not k.queues_there then (record named { queues = false }, enomem) else (elim registered.1 [
      | success ↦ ((set_device_state with_parts DevState.running).0, success)
      | from_kernel ↦ (record with_parts { queues = false }, from_kernel)
      | enomem ↦ (record with_parts { queues = false }, enomem)
      | efault ↦ (record with_parts { queues = false }, efault)
      | einval ↦ (record with_parts { queues = false }, einval)
      | eexist ↦ (record with_parts { queues = false }, eexist)
      | minus_one ↦ (record with_parts { queues = false }, minus_one)
    ])

-- IS_destroy_device, up to the removal from the list. `none`: the disk over the backing disk, which
-- IS_unregister_block_device takes down with the other, was never allocated.
unfoldable pub destroy_device : DeviceFile → Option DeviceFile
destroy_device d =
    let off = (set_device_state d DevState.offline).0 in
    if d.parts.disk
    then (if d.parts.stack_disk
        then some (record off { parts = no_parts; queues = false })
        else none)
    else some off

-- IS_file_find
unfoldable pub file_find : List DeviceFile → Name → Option DeviceFile
file_find [] name = none
file_find (d ∷ ds) name =
    let rest = file_find ds name in if same_name d.file_name name then some d else rest
