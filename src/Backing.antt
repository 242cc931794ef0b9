-- ===== src/Backing.antt =====
-- The queue to the backing disk (Infiniswap/infiniswap_bd/is_mq.c): stackbd_make_request and its
-- four variants, stackbd_threadfn, and the completions that end a request. `stackbd.bdev_raw` is
-- there or not. A request is a number; a chain of bios that ends too early, a fault in C, is `none`.
pub mod Order
use dis_store.Prelude.{
  ℕ, zero, suc, ◌-◌, Bool, true, false, ◌&&◌, Option, none, some, List, [], ◌∷◌, ◌++◌,
  if◌then◌else◌,
}

-- `bi_end_io` with `bi_private`: that of the origin of the bio, IS_stackbd_end_io and
-- IS_stackbd_end_io2 with a request, IS_stackbd_end_io3 with a context.
pub data EndIo : Type 0 where
  original : EndIo
  end_io end_io2 : (req : ℕ) → EndIo
  end_io3 : (ctx : ℕ) → EndIo

pub record Bio : Type 0 where
  pub sector : ℕ
  pub data_page : ℕ
  pub bi_end_io : EndIo

-- `struct stackbd_t`
pub record Stackbd : Type 0 where
  pub bdev_raw : Bool
  pub is_active : Bool
  pub bio_list : List Bio

-- What a variant leaves: the queue, or bio_io_error of a bio that may be null.
pub data Made : Type 0 where
  queued : Stackbd → Made
  io_error : Option Bio → Made

-- The guards that the variants share.
abbrev pub ready : Stackbd → Bool
ready d = d.bdev_raw && d.is_active

abbrev pub add_bios : Stackbd → List Bio → Stackbd
add_bios d bs = record d { bio_list = d.bio_list ++ bs }

abbrev pub with_end : Bio → EndIo → Bio
with_end b e = record b { bi_end_io = e }

-- The loop of the variants 2 and 4, with `n` rounds left, and the clone after it, which alone has
-- the completion `e`.
unfoldable pub clone_last : ℕ → EndIo → List Bio → Option (List Bio)
clone_last n e [] = none
clone_last zero e (b ∷ bs) = some (with_end b e ∷ [])
clone_last (suc n) e (b ∷ bs) = elim (clone_last n e bs) [ none ↦ none | some cs ↦ some (b ∷ cs) ]

-- The loop of variant 3.
unfoldable pub clone_all : ℕ → List Bio → Option (List Bio)
clone_all zero bs = some []
clone_all (suc n) [] = none
clone_all (suc n) (b ∷ bs) = elim (clone_all n bs) [ none ↦ none | some cs ↦ some (b ∷ cs) ]

unfoldable pub add_clones : Stackbd → Option (List Bio) → Option Made
add_clones d none = none
add_clones d (some cs) = some (queued (add_bios d cs))

-- stackbd_make_request
unfoldable pub make_request : Stackbd → Bio → Made
make_request d b = if ready d then queued (add_bios d (b ∷ [])) else io_error (some b)

-- stackbd_make_request2, for a request of `len` segments whose bios are `bs`.
unfoldable pub make_request2 : Stackbd → (req len : ℕ) → List Bio → Option Made
make_request2 d req len bs =
    if ready d
    then add_clones d (clone_last (len - 1) (EndIo.end_io req) bs)
    else some (io_error none)

-- stackbd_make_request3
unfoldable pub make_request3 : Stackbd → (len : ℕ) → List Bio → Option Made
make_request3 d len bs = if ready d then add_clones d (clone_all len bs) else some (io_error none)

-- stackbd_make_request4
unfoldable pub make_request4 : Stackbd → (req len : ℕ) → List Bio → Option Made
make_request4 d req len bs =
    if ready d
    then add_clones d (clone_last (len - 1) (EndIo.end_io2 req) bs)
    else some (io_error none)

-- stackbd_make_request5, of the copy of a write over RDMA.
unfoldable pub make_request5 : Stackbd → Bio → ℕ → Made
make_request5 d b ctx =
    if ready d then queued (add_bios d (with_end b (EndIo.end_io3 ctx) ∷ [])) else io_error (some b)

-- One turn of stackbd_threadfn: the bio that it submits.
unfoldable pub thread_turn : Stackbd → Option (Bio × Stackbd)
thread_turn d = elim d.bio_list [ [] ↦ none | b ∷ bs ↦ some (b, record d { bio_list = bs }) ]

-- Its loop over `n` turns: what it has submitted, in order.
unfoldable pub thread_turns : ℕ → Stackbd → List Bio × Stackbd
thread_turns zero d = ([], d)
thread_turns (suc n) d = elim (thread_turn d) [
  | none ↦ ([], d)
  | some (b, d') ↦ let (bs, d'') = thread_turns n d' in (b ∷ bs, d'')
]

-- The request that the completion of a bio ends.
abbrev pub ended_by : Bio → List ℕ
ended_by b = elim b.bi_end_io [
  | original ↦ []
  | end_io req ↦ req ∷ []
  | end_io2 req ↦ req ∷ []
  | end_io3 ctx ↦ []
]

unfoldable pub ended : List Bio → List ℕ
ended [] = []
ended (b ∷ bs) = ended_by b ++ ended bs
