-- ===== src/Selection.antt =====
-- The choice of a server for a gigabyte: IS_single_chunk_map (Infiniswap/infiniswap_bd/is_main.c),
-- up to the messages and the waits. What get_random_bytes gives, and the free memory that a server
-- answers with, an int that can be negative, are inputs; NUM_CB is the number of servers. SERVER_SELECT_NUM is a parameter too,
-- since it is set when the driver is built.
pub mod Greatest
pub mod Random
use dis_store.Prelude.{
  ℕ, zero, suc, ◌+◌, ◌-◌, ◌%◌, ◌≡◌, Bool, true, false, Option, none, some, List, [], ◌∷◌, ◌==◌, ltb,
  leb, if◌then◌else◌, get_or, set, length, map,
}
use dis_store.Prelude.Counts.{count_true}
use dis_store.Prelude.Int.{ℤ, ltb_ℤ, is_zero, ◌+ℤ◌, ◌-ℤ◌}
use dis_store.Session.{CbState, cb_idle, cb_connected, cb_mapped, cb_evicting, cb_fail}

-- `cb_state_list[i] < CB_EVICTING`
abbrev pub is_open : CbState → Bool
is_open cb_idle = true
is_open cb_connected = true
is_open cb_mapped = true
is_open cb_evicting = false
is_open cb_fail = false

-- The servers that can be asked, of all; one that is chosen is closed by random_cb_selection.
abbrev pub open_servers : List CbState → List Bool
open_servers states = map is_open states

-- The loop over the servers when few are open, from `i` on with `n` rounds left.
unfoldable pub open_from : ℕ → ℕ → List Bool → List ℕ
open_from zero i avail = []
open_from (suc n) i avail =
    let rest = open_from n (i + 1) avail in if get_or avail i false then i ∷ rest else rest

-- The search for an open server from `r` on, cyclically. The loop of the code has no end while all
-- are closed; here it has rounds.
unfoldable pub next_open : ℕ → List Bool → ℕ → Option ℕ
next_open zero avail r = none
next_open (suc n) avail r =
    let rest = next_open n avail ((r + 1) % length avail) in
    if get_or avail r false then some r else rest

-- The loop that chooses one server for each random number.
unfoldable pub choose : List ℕ → List Bool → Option (List ℕ)
choose [] avail = some []
choose (random ∷ rs) avail = elim (next_open (length avail) avail (random % length avail)) [
  | none ↦ none
  | some r ↦ elim (choose rs (set avail r false)) [ none ↦ none | some chosen ↦ some (r ∷ chosen) ]
]

-- `selection`: all open servers if they are no more than `select_num`, or one for each of the
-- `select_num` random numbers.
unfoldable pub select : ℕ → List ℕ → List Bool → Option (List ℕ)
select select_num randoms avail =
    if leb (count_true avail) select_num
    then some (open_from (length avail) 0 avail)
    else choose randoms avail

-- An entry of `free_mem` with that of `free_mem_sorted`.
pub record Answer : Type 0 where
  pub free : ℤ
  pub server : ℕ

-- The exchange of two entries, by sums and differences; the sums are taken to fit an int.
unfoldable pub exchange : Answer → Answer → Answer × Answer
exchange a b =
    let free : ℤ = a.free +ℤ b.free in
    let server : ℕ = a.server + b.server in
    let free_b : ℤ = free -ℤ b.free in
    let server_b : ℕ = server - b.server in
    (
      record { free = free -ℤ free_b; server = server - server_b },
      record { free = free_b; server = server_b },
    )

-- The loop that brings the greatest entry to the front; the others are not read again.
unfoldable pub promote : Answer → List Answer → Answer
promote a [] = a
promote a (b ∷ bs) = promote (if ltb_ℤ a.free b.free then (exchange a b).0 else a) bs

-- IS_single_chunk_map, once the servers `selected` have answered: the server that the bind goes to.
-- `none` is the result -1.
unfoldable pub server_for : (ℕ → ℤ) → List ℕ → Option ℕ
server_for free_mem [] = none
server_for free_mem (s ∷ selected) =
    let first =
      promote (record { free = free_mem s; server = s })
        (map (λ t. record { free = free_mem t; server = t }) selected) in
    if is_zero first.free then none else some first.server
