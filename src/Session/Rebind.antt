-- ===== src/Session/Rebind.antt =====
-- Gigabytes that have lost their chunk are bound again, one after the other: the last loops of
-- evict_handler and of IS_disconnect_handler (Infiniswap/infiniswap_bd/is_main.c), and with them a
-- STOP and the loss of a server from end to end. What the servers answer to each bind, and the
-- random numbers that it draws, are inputs.
pub mod Again
pub mod Stop
use dis_store.Prelude.{
  ℕ, zero, suc, ◌+◌, Bool, true, false, Option, none, some, List, if◌then◌else◌, get_or, set,
}
use dis_store.Session.{
  Session, CbState, cb_idle, cb_connected, cb_mapped, cb_evicting, cb_fail, stackbd_size_g,
}
use dis_store.Session.Tables.{cb_at}
use dis_store.Session.Bind.{Servers, Mapped, unmapped, mapped_on, waits, single_chunk_map, state_of}
use dis_store.Session.Evict.{stop_chunks, release_gb}
use dis_store.Session.Disconnect.{disconnect}
use dis_store.Prelude.Counts.{is_some}
use dis_store.Context.{CtxPool}
use dis_store.Context.Transfer.Quiet.{wait_in_flight}

-- The inputs of one bind.
pub record Asking : Type 0 where
  pub servers : Servers
  pub select_num : ℕ
  pub randoms : List ℕ

abbrev pub map_gb_of : Asking → Session → ℕ → Mapped
map_gb_of a s k = single_chunk_map a.servers a.select_num a.randoms s k

-- The loop over `evict_list`, from gigabyte `k` on with `n` rounds left; `before` is what it does
-- to a gigabyte before the bind. `none`: a bind waits without end.
unfoldable pub rebind_from :
    (before : Session → ℕ → Session) (asking : ℕ → Asking) (evict_list : List Bool)
    → ℕ
    → ℕ
    → Session
    → Option Session
rebind_from before asking evict_list zero k s = some s
rebind_from before asking evict_list (suc n) k s =
    let skip = rebind_from before asking evict_list n (k + 1) s in
    let bound : Option Session = elim (map_gb_of (asking k) (before s k) k) [
      | unmapped s' ↦ rebind_from before asking evict_list n (k + 1) s'
      | mapped_on d s' ↦ rebind_from before asking evict_list n (k + 1) s'
      | waits ↦ none
    ] in
    if get_or evict_list k false then bound else skip

abbrev pub after_rebind : Session → ℕ → Session
after_rebind s index = record s {
  cb_state_list = set s.cb_state_list index CbState.cb_mapped;
  trigger_enable = true;
}

-- IS_chunk_wait_in_flight_requests with the chunk map of server `c`, which has lost the chunks that
-- stop, over the looks that it gets: whether it ends.
abbrev pub waits_out : List (List CtxPool) → Session → ℕ → Bool
waits_out looks s c = is_some (wait_in_flight (cb_at s c).remote_chunk.chunk_map looks)

-- evict_handler from a STOP of at least one gigabyte for server `c` to the next wait. The wait for the
-- transfers in flight, between the first two loops in the code, changes nothing of the session; here
-- it stands after both. `none`: it does not end over these looks, or a bind does not.
unfoldable pub stop_and_rebind : (ℕ → Asking) → List (List CtxPool) → Session → ℕ → Option Session
stop_and_rebind asking looks s c = elim (stop_chunks s c) [
  | none ↦ none
  | some (s', evict_list) ↦
      let rebound : Option Session =
        elim (rebind_from release_gb asking evict_list stackbd_size_g 0 s') [
          | none ↦ none
          | some s'' ↦ some (after_rebind s'' (cb_at s'' c).cb_index)
        ] in
      if waits_out looks s' c then rebound else none
]

-- IS_disconnect_handler for server `c`, whole.
unfoldable pub disconnect_and_rebind : (ℕ → Asking) → Session → ℕ → Option Session
disconnect_and_rebind asking s c =
    let (s', evict_list) = disconnect s c in
    let rebound : Option Session =
      elim (rebind_from (λ t k. t) asking evict_list stackbd_size_g 0 s') [
        | none ↦ none
        | some s'' ↦ some (record s'' { trigger_enable = true })
      ] in
    elim (state_of s c) [
      | cb_connected ↦ some s'
      | cb_idle ↦ rebound
      | cb_mapped ↦ rebound
      | cb_evicting ↦ rebound
      | cb_fail ↦ rebound
    ]
