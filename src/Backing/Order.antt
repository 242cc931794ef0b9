-- ===== src/Backing/Order.antt =====
-- What reaches the disk, and in which order, and which requests end with it.
use dis_store.Prelude.{
  ℕ, zero, suc, ◌-◌, ◌<◌, ◌≡◌, refl, sym, ap, ap₂, ◌∙◌, true, Option, none, some, List, [], ◌∷◌,
  ◌++◌, arith, length, map,
}
use dis_store.Backing.{
  EndIo, Bio, Stackbd, queued, io_error, ready, add_bios, with_end, clone_last, add_clones,
  make_request2, thread_turn, thread_turns, ended, ended_by,
}

-- The bios with the completion of the last one set.
pub last_ends : EndIo → List Bio → List Bio
last_ends e [] = []
last_ends e (b ∷ []) = with_end b e ∷ []
last_ends e (b ∷ (b' ∷ bs)) = b ∷ last_ends e (b' ∷ bs)

abbrev cons_some : Bio → Option (List Bio) → Option (List Bio)
cons_some b o = elim o [ none ↦ none | some cs ↦ some (b ∷ cs) ]

clone_last-last_ends :
    (n : ℕ) (e : EndIo) (bs : List Bio)
    → length bs ≡ suc n
    → clone_last n e bs ≡ some (last_ends e bs)
unfolding clone_last last_ends
clone_last-last_ends n e [] h = absurd (omega arith)
clone_last-last_ends zero e (b ∷ []) h = refl
clone_last-last_ends zero e (b ∷ (b' ∷ bs)) h = absurd (omega arith)
clone_last-last_ends (suc n) e (b ∷ []) h = absurd (omega arith)
clone_last-last_ends (suc n) e (b ∷ (b' ∷ bs)) h =
    ap (λ (o : Option (List Bio)). cons_some b o) (clone_last-last_ends n e (b' ∷ bs) (omega arith))

-- The thread submits what was queued first, first, and leaves the rest.
thread_turns-append :
    (d : Stackbd) (bs rest : List Bio)
    → thread_turns (length bs) (record d { bio_list = bs ++ rest })
      ≡ (bs, record d { bio_list = rest })
unfolding thread_turns thread_turn
thread_turns-append d [] rest = refl
thread_turns-append d (b ∷ bs) rest =
    ap (λ (z : List Bio × Stackbd). (b ∷ z.0, z.1)) (thread_turns-append d bs rest)

append-nil : (xs ys : List ℕ) → xs ++ ys ≡ [] → (xs ≡ []) × (ys ≡ [])
append-nil [] ys h = (refl, h)
append-nil (x ∷ xs) ys h = absurd (cc)

append-nil_right {ℓ} : {A : Type ℓ} (xs : List A) → xs ++ [] ≡ xs
append-nil_right [] = refl
append-nil_right (x ∷ xs) = ap (λ t. x ∷ t) (append-nil_right xs)

append_assoc {ℓ} : {A : Type ℓ} (xs ys zs : List A) → (xs ++ ys) ++ zs ≡ xs ++ (ys ++ zs)
append_assoc [] ys zs = refl
append_assoc (x ∷ xs) ys zs = ap (λ t. x ∷ t) (append_assoc xs ys zs)

length-last_ends : (e : EndIo) (bs : List Bio) → length (last_ends e bs) ≡ length bs
unfolding last_ends
length-last_ends e [] = refl
length-last_ends e (b ∷ []) = refl
length-last_ends e (b ∷ (b' ∷ bs)) = ap suc (length-last_ends e (b' ∷ bs))

-- A request of the block layer: its number, its bios, of which there is one at least and whose own
-- completions end no request of the device, and its `nr_phys_segments`, which is the number of its
-- bios: each bio is one segment.
pub record Io : Type 0 where
  pub req : ℕ
  pub bios : List Bio
  pub segments : ℕ
  pub some_bio : 0 < length bios
  pub plain : ended bios ≡ []
  pub one_each : segments ≡ length bios

-- The bios of a request behind one another.
ended-cons : (b : Bio) (bs : List Bio) → ended (b ∷ bs) ≡ ended_by b ++ ended bs
unfolding ended
ended-cons b bs = refl

plain-cons : (b : Bio) (bs : List Bio) → ended (b ∷ bs) ≡ [] → (ended_by b ≡ []) × (ended bs ≡ [])
unfolding ended
plain-cons b bs h = append-nil (ended_by b) (ended bs) h

ended-last_ends :
    (req : ℕ) (bs : List Bio)
    → 0 < length bs
    → ended bs ≡ []
    → ended (last_ends (EndIo.end_io req) bs) ≡ req ∷ []
unfolding last_ends ended
ended-last_ends req [] h p = absurd (omega arith)
ended-last_ends req (b ∷ []) h p = refl
ended-last_ends req (b ∷ (b' ∷ bs)) h p =
    let (mine, rest) = plain-cons b (b' ∷ bs) p in
    rw mine (ended-last_ends req (b' ∷ bs) (omega arith) rest)

-- Requests queued one after the other by stackbd_make_request2.
pub make_all : Stackbd → List Io → Option Stackbd
make_all d [] = some d
make_all d (io ∷ ios) = elim (make_request2 d io.req io.segments io.bios) [
  | none ↦ none
  | some made ↦ elim made [ queued d' ↦ make_all d' ios | io_error b ↦ none ]
]

-- What is to reach the disk.
pub bios_of : List Io → List Bio
bios_of [] = []
bios_of (io ∷ ios) = last_ends (EndIo.end_io io.req) io.bios ++ bios_of ios

pub reqs_of : List Io → List ℕ
reqs_of = map (λ io. io.req)

make_request2-queued :
    (d : Stackbd) (io : Io)
    → ready d ≡ true
    → make_request2 d io.req io.segments io.bios
      ≡ some (queued (add_bios d (last_ends (EndIo.end_io io.req) io.bios)))
unfolding make_request2 add_clones
make_request2-queued d io r =
    let cloned =
      clone_last-last_ends (length io.bios - 1) (EndIo.end_io io.req) io.bios
        (omega (arith, io.some_bio)) in
    rw (make_request2, io.one_each, r, cloned) refl

make_all-cons :
    (d : Stackbd) (io : Io) (ios : List Io)
    → ready d ≡ true
    → make_all d (io ∷ ios) ≡ make_all (add_bios d (last_ends (EndIo.end_io io.req) io.bios)) ios
unfolding make_all
make_all-cons d io ios r = rw (make_all, make_request2-queued d io r) refl

make_all-bios_of :
    (d : Stackbd) (ios : List Io)
    → ready d ≡ true
    → make_all d ios ≡ some (add_bios d (bios_of ios))
unfolding make_all bios_of
make_all-bios_of d [] r =
    ap (λ l. some (record d { bio_list = l })) (sym (append-nil_right d.bio_list))
make_all-bios_of d (io ∷ ios) r =
    let first = last_ends (EndIo.end_io io.req) io.bios in
    make_all-cons d io ios r
    ∙ make_all-bios_of (add_bios d first) ios r
    ∙ ap (λ l. some (record d { bio_list = l })) (append_assoc d.bio_list first (bios_of ios))

ended-append : (bs cs : List Bio) → ended (bs ++ cs) ≡ ended bs ++ ended cs
unfolding ended
ended-append [] cs = refl
ended-append (b ∷ bs) cs =
    ap (λ t. ended_by b ++ t) (ended-append bs cs)
    ∙ sym (append_assoc (ended_by b) (ended bs) (ended cs))

ended-bios_of : (ios : List Io) → ended (bios_of ios) ≡ reqs_of ios
unfolding bios_of reqs_of ended
ended-bios_of [] = refl
ended-bios_of (io ∷ ios) =
    ended-append (last_ends (EndIo.end_io io.req) io.bios) (bios_of ios)
    ∙ ap₂ (λ xs ys. xs ++ ys) (ended-last_ends io.req io.bios io.some_bio io.plain)
        (ended-bios_of ios)

-- If the backing device is open and active and its queue is empty, requests of which each has one
-- physical segment for each of its bios (`nr_phys_segments` is the number of bios), at least one bio,
-- and bios whose own completions end no request of the device, and that are queued one after the
-- other by stackbd_make_request2 are all accepted; stackbd_threadfn, in as many turns as
-- there are bios, submits their bios in the order of the requests and of the chains, the last of
-- each with the completion that ends its request, and empties the queue; and the completions end
-- the requests once each, in their order.
pub thread_turns-bios_of :
    (d : Stackbd) (ios : List Io)
    → ready d ≡ true
    → d.bio_list ≡ []
    → (d' : Stackbd) × (make_all d ios ≡ some d')
      × (thread_turns (length (bios_of ios)) d' ≡ (bios_of ios, d))
      × (ended (bios_of ios) ≡ reqs_of ios)
thread_turns-bios_of d ios r empty =
    let all = bios_of ios in
    let queue : d.bio_list ++ all ≡ all ++ [] =
      ap (λ l. l ++ all) empty ∙ sym (append-nil_right all) in
    (
      add_bios d all,
      make_all-bios_of d ios r,
      ap (λ l. thread_turns (length all) (record d { bio_list = l })) queue
          ∙ thread_turns-append d all []
          ∙ ap (λ l. (all, record d { bio_list = l })) (sym empty),
      ended-bios_of ios,
    )
