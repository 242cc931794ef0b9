-- ===== src/Configfs/Names.antt =====
-- The names of the devices of a session: no two have the same, and a name is taken for good.
use dis_store.Prelude.{
  ℕ, zero, suc, ◌+◌, ◌≡◌, ◌≢◌, ◌⊎◌, inl, inr, refl, sym, ap, ◌∙◌, true, none, some, List, [], ◌∷◌,
  ltb, if◌then◌else◌, arith, set, Bool-cases, Option-cases,
}
use dis_store.Device.{Name, same_name, DeviceFile, Kernel, create_device, file_find}
use dis_store.Device.Created.{create_device-file_name}
use dis_store.Configfs.{Devices, device_at, is_space, scan_word, store_name, list_del}

same_name-eq : (a b : Name) → same_name a b ≡ true → a ≡ b
unfolding same_name
same_name-eq [] [] e = refl
same_name-eq [] (b ∷ bs) e = absurd (cc)
same_name-eq (a ∷ as') [] e = absurd (cc)
same_name-eq (a ∷ as') (b ∷ bs) e =
    let tail : as' ≡ bs = same_name-eq as' bs (ground arith) in
    let head : a ≡ b = ground arith in cc

pub same_name_refl : (a : Name) → same_name a a ≡ true
unfolding same_name
same_name_refl [] = refl
same_name_refl (a ∷ as') = ground (arith, same_name_refl as')

abbrev pub name_at : List DeviceFile → ℕ → Name
name_at devs i = (device_at devs i).file_name

pub file_find-finds :
    (devs : List DeviceFile) (name : Name) (j : ℕ)
    → name_at devs j ≡ name
    → name ≢ []
    → file_find devs name ≢ none
unfolding file_find
file_find-finds [] name j e ne h = ne (sym e)
file_find-finds (d ∷ ds) name zero e ne h =
    absurd (ground (arith, same_name_refl name, ap (λ n. same_name n name) e))
file_find-finds (d ∷ ds) name (suc j) e ne h = elim (Bool-cases (same_name d.file_name name)) [
  | inl b ↦ absurd (ground arith)
  | inr b ↦ file_find-finds ds name j e ne (ground arith)
]

-- No two devices have the same name, apart from those that have none yet.
pub record Distinct (devs : List DeviceFile) : Type 0 where
  pub unique : (i j : ℕ) → name_at devs i ≢ [] → name_at devs i ≡ name_at devs j → i ≡ j

abbrev shift : ℕ → ℕ → ℕ
shift i j = if ltb j i then j else j + 1

device_at-list_del :
    (devs : List DeviceFile) (i j : ℕ) → device_at (list_del devs i) j ≡ device_at devs (shift i j)
unfolding list_del
device_at-list_del [] i j = refl
device_at-list_del (d ∷ ds) zero j = ground arith
device_at-list_del (d ∷ ds) (suc i) zero = ground arith
device_at-list_del (d ∷ ds) (suc i) (suc j) = ground (arith, device_at-list_del ds i j)

shift-injective : (i j k : ℕ) → shift i j ≡ shift i k → j ≡ k
shift-injective i j k e = ground arith

pub list_del-Distinct :
    (devs : List DeviceFile) (i : ℕ) → Distinct devs → Distinct (list_del devs i)
list_del-Distinct devs i h = record {
  unique = λ j k ne e.
      let a = ap (λ d. d.file_name) (device_at-list_del devs i j) in
      let b = ap (λ d. d.file_name) (device_at-list_del devs i k) in
      shift-injective i j k (h.unique (shift i j) (shift i k) (λ n. ne (a ∙ n)) (sym a ∙ e ∙ b));
}

pub nameless-Distinct :
    (d : DeviceFile) (devs : List DeviceFile)
    → d.file_name ≡ []
    → Distinct devs
    → Distinct (d ∷ devs)
nameless-Distinct d devs n h = record { unique = go }
  where
    go : (i j : ℕ) → name_at (d ∷ devs) i ≢ [] → name_at (d ∷ devs) i ≡ name_at (d ∷ devs) j → i ≡ j
    go zero j ne e = absurd (ne n)
    go (suc i) zero ne e = absurd (ne (e ∙ n))
    go (suc i) (suc j) ne e = ap suc (h.unique i j ne e)

name_at-set :
    (devs : List DeviceFile) (i m : ℕ) (d : DeviceFile)
    → ((i ≡ m) × (name_at (set devs i d) m ≡ d.file_name))
      ⊎ (name_at (set devs i d) m ≡ name_at devs m)
name_at-set [] i m d = inr refl
name_at-set (x ∷ xs) zero zero d = inl (refl, refl)
name_at-set (x ∷ xs) zero (suc m) d = inr refl
name_at-set (x ∷ xs) (suc i) zero d = inr refl
name_at-set (x ∷ xs) (suc i) (suc m) d = elim (name_at-set xs i m d) [
  | inl (e, n) ↦ inl (ap suc e, n)
  | inr n ↦ inr n
]

-- The name of one device has changed to one that no device had.
set-Distinct :
    (devs : List DeviceFile) (i : ℕ) (d : DeviceFile)
    → ((j : ℕ) → name_at devs j ≢ d.file_name)
    → Distinct devs
    → Distinct (set devs i d)
set-Distinct devs i d fresh h = record {
  unique = λ j k ne e. elim (name_at-set devs i j d) [
    | inl (p, n) ↦ elim (name_at-set devs i k d) [
      | inl (q, m) ↦ sym p ∙ q
      | inr m ↦ absurd (fresh k (sym m ∙ sym e ∙ n))
    ]
    | inr n ↦ elim (name_at-set devs i k d) [
      | inl (q, m) ↦ absurd (fresh j (sym n ∙ e ∙ m))
      | inr m ↦ h.unique j k (λ x. ne (n ∙ x)) (sym n ∙ e ∙ m)
    ]
  ];
}

pub store_name-Distinct :
    (k : Kernel) (cpus i : ℕ) (name : Name) (s : Devices)
    → name ≢ []
    → Distinct s.devs
    → Distinct (store_name k cpus i name s).0.devs
unfolding store_name
store_name-Distinct k cpus i name s ne h = elim (Option-cases (file_find s.devs name)) [
  | inr (d, e) ↦ rw (store_name, e) h
  | inl e ↦
      rw (store_name, e)
        (set-Distinct s.devs i (create_device k s.indexes cpus name (device_at s.devs i)).0
          (λ j n.
            file_find-finds s.devs name j
              (n ∙ create_device-file_name k s.indexes cpus name (device_at s.devs i)) ne e)
          h)
]

pub scan_word-some : (page name : Name) → scan_word page ≡ some name → name ≢ []
unfolding scan_word
scan_word-some [] name e = absurd (cc)
scan_word-some (c ∷ cs) name e = elim (Bool-cases (is_space c)) [
  | inl b ↦ scan_word-some cs name (ground arith)
  | inr b ↦ λ n. absurd (cc)
]
