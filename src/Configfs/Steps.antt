-- ===== src/Configfs/Steps.antt =====
-- What may be done to a session through configfs, one call after the other.
use dis_store.Prelude.{
  ℕ, ◌<◌, ◌≡◌, ◌≢◌, inl, inr, refl, ap, ◌∙◌, none, some, [], ◌∷◌, get_or-set_self, arith, length,
  set, Option-cases,
}
use mathlib.Core.Path.{subst}
use dis_store.Device.{
  DevState, set_device_state, Name, DeviceFile, Errno, Kernel, create_device, file_find,
  destroy_device, eexist,
}
use dis_store.Device.Created.{create_device-file_name}
use dis_store.Configfs.{
  Devices, zeroed_file, device_at, scan_word, device_make_group, store_name, device_attr_store,
  list_del, device_drop,
}
use dis_store.Configfs.Names.{
  Distinct, file_find-finds, list_del-Distinct, nameless-Distinct, store_name-Distinct,
  scan_word-some,
}

-- What a user of configfs may do to a session, with what the kernel answers, when the code comes to
-- its end.
pub data Step (s s' : Devices) : Type 0 where
  made : (name : Name) → device_make_group name s ≡ some s' → Step s s'
  stored :
      (k : Kernel) (cpus i : ℕ) (page : Name) (result : Errno)
      → device_attr_store k cpus i page s ≡ some (s', result)
      → Step s s'
  dropped : (i : ℕ) → device_drop i s ≡ some s' → Step s s'

-- The sessions that come of a new one, where `indexes` devices were created before.
pub data Reach (indexes : ℕ) : Devices → Type 0 where
  fresh : Reach indexes (record { devs = []; indexes = indexes })
  next : (s s' : Devices) → Reach indexes s → Step s s' → Reach indexes s'

abbrev openning_file : DeviceFile
openning_file = record zeroed_file { state = DevState.openning }

make_group-Distinct :
    (name : Name) (s s' : Devices)
    → device_make_group name s ≡ some s'
    → Distinct s.devs
    → Distinct s'.devs
unfolding device_make_group set_device_state
make_group-Distinct name s s' e h = elim (Option-cases (scan_word name)) [
  | inl n ↦
      let same : record s { devs = openning_file ∷ s.devs } ≡ s' = ground (arith, n) in
      subst (λ t. Distinct t.devs) same (nameless-Distinct openning_file s.devs refl h)
  | inr (w, n) ↦
      let d = record openning_file { dev_name = w } in
      let same : record s { devs = d ∷ s.devs } ≡ s' = ground (arith, n) in
      subst (λ t. Distinct t.devs) same (nameless-Distinct d s.devs refl h)
]

attr_store-Distinct :
    (k : Kernel) (cpus i : ℕ) (page : Name) (s s' : Devices) (result : Errno)
    → device_attr_store k cpus i page s ≡ some (s', result)
    → Distinct s.devs
    → Distinct s'.devs
unfolding device_attr_store
attr_store-Distinct k cpus i page s s' result e h = elim (Option-cases (scan_word page)) [
  | inl n ↦ absurd (ground (arith, n))
  | inr (name, n) ↦
      let same : store_name k cpus i name s ≡ (s', result) = ground (arith, n) in
      subst (λ t. Distinct t.0.devs) same
        (store_name-Distinct k cpus i name s (scan_word-some page name n) h)
]

drop-Distinct :
    (i : ℕ) (s s' : Devices) → device_drop i s ≡ some s' → Distinct s.devs → Distinct s'.devs
unfolding device_drop
drop-Distinct i s s' e h = elim (Option-cases (destroy_device (device_at s.devs i))) [
  | inl n ↦ absurd (ground (arith, n))
  | inr (d, n) ↦
      let same : record s { devs = list_del s.devs i } ≡ s' = ground (arith, n) in
      subst (λ t. Distinct t.devs) same (list_del-Distinct s.devs i h)
]

-- Whatever is made, stored and dropped in a session, and whether or not the calls of the kernel
-- succeed, no two of its devices have the same name, apart from those that have none yet.
pub Reach-Distinct : (indexes : ℕ) (s : Devices) → Reach indexes s → Distinct s.devs
Reach-Distinct indexes s fresh = record { unique = λ i j ne e. absurd (ne refl) }
Reach-Distinct indexes s (next t _ r (made name e)) =
    make_group-Distinct name t s e (Reach-Distinct indexes t r)
Reach-Distinct indexes s (next t _ r (stored k cpus i page result e)) =
    attr_store-Distinct k cpus i page t s result e (Reach-Distinct indexes t r)
Reach-Distinct indexes s (next t _ r (dropped i e)) =
    drop-Distinct i t s e (Reach-Distinct indexes t r)

store_name-taken :
    (k : Kernel) (cpus i : ℕ) (name : Name) (s : Devices)
    → name ≢ []
    → i < length s.devs
    → file_find (store_name k cpus i name s).0.devs name ≢ none
unfolding store_name
store_name-taken k cpus i name s ne lt = elim (Option-cases (file_find s.devs name)) [
  | inr (d, e) ↦ rw (store_name, e) (λ n. absurd (ground (arith, e)))
  | inl e ↦
      let d = (create_device k s.indexes cpus name (device_at s.devs i)).0 in
      rw (store_name, e)
        (file_find-finds (set s.devs i d) name i
          (ap (λ x. x.file_name) (get_or-set_self s.devs i d zeroed_file lt)
            ∙ create_device-file_name k s.indexes cpus name (device_at s.devs i))
          ne)
]

store_name_again :
    (k : Kernel) (cpus i : ℕ) (name : Name) (s : Devices)
    → file_find s.devs name ≢ none
    → store_name k cpus i name s ≡ (s, eexist)
unfolding store_name
store_name_again k cpus i name s taken = elim (Option-cases (file_find s.devs name)) [
  | inl e ↦ absurd (taken e)
  | inr (d, e) ↦ rw (store_name, e) refl
]

-- When device_attr_store has come to its end with the name of a page, whether or not it has created
-- the device, the name is taken: writing it again to any item of the session, whatever the kernel
-- then answers, gives -EEXIST and changes nothing.
pub attr_store_again :
    (k k' : Kernel) (cpus i i' : ℕ) (page : Name) (s s' : Devices) (result : Errno)
    → i < length s.devs
    → device_attr_store k cpus i page s ≡ some (s', result)
    → device_attr_store k' cpus i' page s' ≡ some (s', eexist)
unfolding device_attr_store
attr_store_again k k' cpus i i' page s s' result lt e = elim (Option-cases (scan_word page)) [
  | inl n ↦ absurd (ground (arith, n))
  | inr (name, n) ↦
      let same : (store_name k cpus i name s).0 ≡ s' = ground (arith, n) in
      let taken =
        subst (λ t. file_find t.devs name ≢ none) same
          (store_name-taken k cpus i name s (scan_word-some page name n) lt) in
      rw (device_attr_store, n) (ap some (store_name_again k' cpus i' name s' taken))
]
