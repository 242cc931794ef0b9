-- ===== src/Device/Created.antt =====
-- What IS_create_device comes to, for all outcomes of the kernel's calls.
use dis_store.Prelude.{
  ℕ, ◌≡◌, inl, inr, refl, sym, ap, ◌∙◌, Bool, true, false, not, ◌&&◌, ◌||◌, arith, Bool-cases,
}
use dis_store.Device.{
  Name, DevState, initializing, openning, running, offline, DeviceFile, Errno, success, from_kernel,
  enomem, efault, einval, eexist, minus_one, Kernel, Parts, no_parts, set_device_state,
  stackbd_start, register_stackbd, register_block_device, create_device,
}

abbrev pub is_success : Errno → Bool
is_success success = true
is_success from_kernel = false
is_success enomem = false
is_success efault = false
is_success einval = false
is_success eexist = false
is_success minus_one = false

abbrev pub is_running : DevState → Bool
is_running initializing = false
is_running openning = false
is_running running = true
is_running offline = false

-- All calls succeed up to the disk over the backing disk.
abbrev pub gets_far : Kernel → Bool
gets_far k =
    k.queues_there
    && (k.tag_set_there
        && (k.queue_there && (k.disk_there && (k.stack_queue_there && k.stack_major_there))))

abbrev pub starts : Kernel → Bool
starts k = k.backing_opens && k.thread_there

-- The parts that the block device over the backing disk has.
record Registered (k : Kernel) (p : Parts) (r : Parts × Errno) : Type 0 where
  ok :
      is_success r.1
      ≡ (k.stack_queue_there && (k.stack_major_there && (not k.stack_disk_there || starts k)))
  added :
      r.0.added ≡ (k.stack_queue_there && (k.stack_major_there && k.stack_disk_there) || p.added)
  disk : r.0.disk ≡ p.disk
  stack_disk :
      r.0.stack_disk
      ≡ (k.stack_queue_there && (k.stack_major_there && k.stack_disk_there) || p.stack_disk)

register_stackbd-Registered : (k : Kernel) (p : Parts) → Registered k p (register_stackbd k p)
unfolding register_stackbd stackbd_start
register_stackbd-Registered k p = record {
  ok = ground arith;
  added = ground arith;
  disk = ground arith;
  stack_disk = ground arith;
}

register_block_device_lem :
    (k : Kernel)
    → (is_success (register_block_device k).1 ≡ (
        k.tag_set_there
        && (k.queue_there
            && (k.disk_there
                && (k.stack_queue_there
                    && (k.stack_major_there && (not k.stack_disk_there || starts k)))))))
      × ((register_block_device k).0.added ≡ (
          k.tag_set_there
          && (k.queue_there
              && (k.disk_there
                  && (k.stack_queue_there && (k.stack_major_there && k.stack_disk_there))))))
unfolding register_block_device
register_block_device_lem k =
    let r =
      register_stackbd-Registered k
        (record no_parts { tag_set = true; queue = true; disk = true }) in
    (ground (arith, r.ok), ground (arith, r.added))

-- The name is set in every case.
pub create_device-file_name :
    (k : Kernel) (created cpus : ℕ) (name : Name) (d : DeviceFile)
    → (create_device k created cpus name d).0.file_name ≡ name
unfolding create_device set_device_state
create_device-file_name k created cpus name d = elim (Bool-cases k.queues_there) [
  | inr q ↦ rw (create_device, q) refl
  | inl q ↦ go (register_block_device k).1 refl q
]
  where
    go :
        (x : Errno)
        → (register_block_device k).1 ≡ x
        → k.queues_there ≡ true
        → (create_device k created cpus name d).0.file_name ≡ name
    go success h q = simp (create_device, q, h)
    go from_kernel h q = simp (create_device, q, h)
    go enomem h q = simp (create_device, q, h)
    go efault h q = simp (create_device, q, h)
    go einval h q = simp (create_device, q, h)
    go eexist h q = simp (create_device, q, h)
    go minus_one h q = simp (create_device, q, h)

-- The end of IS_create_device.
outcome :
    (k : Kernel) (created cpus : ℕ) (name : Name) (d : DeviceFile)
    → k.queues_there ≡ true
    → is_running d.state ≡ false
    → let (d', e) = create_device k created cpus name d in
      let r = register_block_device k in
      (is_success e ≡ is_success r.1)
      × (is_running d'.state ≡ is_success r.1)
      × (d'.parts ≡ r.0)
      × (d'.file_name ≡ name)
unfolding create_device set_device_state register_block_device register_stackbd stackbd_start
outcome k created cpus name d q idle = go (register_block_device k).1 refl
  where
    go :
        (x : Errno)
        → (register_block_device k).1 ≡ x
        → let (d', e) = create_device k created cpus name d in
          let r = register_block_device k in
          (is_success e ≡ is_success r.1)
          × (is_running d'.state ≡ is_success r.1)
          × (d'.parts ≡ r.0)
          × (d'.file_name ≡ name)
    go success h = rw (create_device, q, h) (refl, refl, refl, refl)
    go from_kernel h = rw (create_device, q, h) (refl, idle, refl, refl)
    go enomem h = rw (create_device, q, h) (refl, idle, refl, refl)
    go efault h = rw (create_device, q, h) (refl, idle, refl, refl)
    go einval h = rw (create_device, q, h) (refl, idle, refl, refl)
    go eexist h = rw (create_device, q, h) (refl, idle, refl, refl)
    go minus_one h = rw (create_device, q, h) (refl, idle, refl, refl)

no_queues :
    (k : Kernel) (created cpus : ℕ) (name : Name) (d : DeviceFile)
    → k.queues_there ≡ false
    → let (d', e) = create_device k created cpus name d in
      (e ≡ enomem) × (d'.state ≡ d.state) × (d'.parts ≡ d.parts) × (d'.file_name ≡ name)
unfolding create_device
no_queues k created cpus name d q = rw (create_device, q) (refl, refl, refl, refl)

-- A fresh device gets its name in every case. IS_create_device returns 0 exactly if all calls up to
-- the disk over the backing disk succeed, and then that disk is missing or the backing disk starts;
-- the device is running exactly if it returns 0. Its own disk is added exactly if all these calls
-- and that disk succeed: so not when the disk is missing, though the result is 0, and also when the
-- backing disk does not start, though the result is an error.
pub create_device_outcome :
    (k : Kernel) (created cpus : ℕ) (name : Name) (d : DeviceFile)
    → is_running d.state ≡ false
    → d.parts ≡ no_parts
    → let (d', e) = create_device k created cpus name d in
      (d'.file_name ≡ name)
      × (is_success e ≡ (gets_far k && (not k.stack_disk_there || starts k)))
      × (is_running d'.state ≡ is_success e)
      × (d'.parts.added ≡ (gets_far k && k.stack_disk_there))
create_device_outcome k created cpus name d idle fresh = elim (Bool-cases k.queues_there) [
  | inl q ↦
      let (result, state, parts, named) = outcome k created cpus name d q idle in
      let (ok, added) = register_block_device_lem k in
      (
        named,
        result ∙ ok ∙ (ground (arith, q)),
        state ∙ sym result,
        ap (λ p. p.added) parts ∙ added ∙ (ground (arith, q)),
      )
  | inr q ↦
      let (result, state, parts, named) = no_queues k created cpus name d q in
      (
        named,
        ap is_success result ∙ (ground (arith, q)),
        ap is_running state ∙ idle ∙ sym (ap is_success result),
        ap (λ p. p.added) (parts ∙ fresh) ∙ (ground (arith, q)),
      )
]
