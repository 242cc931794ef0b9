-- ===== src/Session/Connect.antt =====
-- A connection to a server is made: IS_cma_event_handler, IS_bind_client, IS_connect_client,
-- rdma_connect_upper and rdma_connect_down (Infiniswap/infiniswap_bd/is_main.c). The events of the
-- connection manager, and what the calls of the RDMA library return, are inputs; true stands for
-- the result 0. The queue pair and the buffers are the library's.
pub mod Waits
use dis_store.Prelude.{
  ℕ, zero, suc, Bool, true, false, ◌&&◌, Option, none, some, List, [], ◌∷◌, ◌==◌, leb,
  if◌then◌else◌,
}
use dis_store.Session.{
  Session, Cb, TestState, idle, connect_request, addr_resolved, route_resolved, connected,
  free_mem_recv, after_free_mem, rdma_buf_adv, wait_ops, recv_stop, recv_evict, rdma_write_running,
  rdma_read_running, send_done, rdma_done, rdma_read_adv, rdma_write_adv, cm_disconnect, error,
}
use dis_store.Session.Receive.{with_state}

-- The number of a state, in the order of `enum test_state`.
unfoldable pub rank : TestState → ℕ
rank idle = 1
rank connect_request = 2
rank addr_resolved = 3
rank route_resolved = 4
rank connected = 5
rank free_mem_recv = 6
rank after_free_mem = 7
rank rdma_buf_adv = 8
rank wait_ops = 9
rank recv_stop = 10
rank recv_evict = 11
rank rdma_write_running = 12
rank rdma_read_running = 13
rank send_done = 14
rank rdma_done = 15
rank rdma_read_adv = 16
rank rdma_write_adv = 17
rank cm_disconnect = 18
rank error = 19

-- `event->event`; the result of rdma_resolve_route stands with ADDR_RESOLVED.
pub data CmEvent : Type 0 where
  address_resolved : Bool → CmEvent
  route_found request established : CmEvent
  address_error route_error connect_error unreachable rejected : CmEvent
  disconnected device_removal other : CmEvent

-- The state of the server after an event, and whether who waits is woken. What else a lost
-- connection does is in Disconnect.
unfoldable pub cma_event : CmEvent → TestState → TestState × Bool
cma_event (address_resolved route_asked) state =
    (TestState.addr_resolved, if route_asked then false else true)
cma_event route_found state = (TestState.route_resolved, true)
cma_event request state = (TestState.connect_request, true)
cma_event established state = (TestState.connected, true)
cma_event address_error state = (TestState.error, true)
cma_event route_error state = (TestState.error, true)
cma_event connect_error state = (TestState.error, true)
cma_event unreachable state = (TestState.error, true)
cma_event rejected state = (TestState.error, true)
cma_event disconnected state = (TestState.cm_disconnect, false)
cma_event device_removal state = (state, false)
cma_event other state = (state, true)

-- `cb->state >= least`, and `cb->state == target`.
abbrev pub reached : TestState → TestState → Bool
reached least state = leb (rank least) (rank state)

abbrev pub same_state : TestState → TestState → Bool
same_state a b = rank a == rank b

-- The sleep of wait_event_interruptible: it ends at a wake-up at which the condition holds. The
-- state then, and the events that are left; `none` while there is no such wake-up.
unfoldable pub sleep : TestState → List CmEvent → TestState → Option (TestState × List CmEvent)
sleep least [] state = none
sleep least (e ∷ events) state =
    let after = cma_event e state in
    let rest = sleep least events after.0 in
    if after.1 && reached least after.0 then some (after.0, events) else rest

-- wait_event_interruptible for a state of at least `least`.
unfoldable pub wait_event : TestState → List CmEvent → TestState → Option (TestState × List CmEvent)
wait_event least events state =
    if reached least state then some (state, events) else sleep least events state

-- What a step of connecting comes to.
pub data Step : Type 0 where
  going : TestState → List CmEvent → Step
  failed : TestState → List CmEvent → Step
  waiting : Step

-- The state at the end of a wait is the one that is asked for, or the step has failed.
unfoldable pub expect : TestState → Option (TestState × List CmEvent) → Step
expect target none = waiting
expect target (some (state, events)) =
    if same_state state target then going state events else failed state events

-- The end of IS_connect_client: it fails in the state ERROR only.
unfoldable pub unless_error : Option (TestState × List CmEvent) → Step
unless_error none = waiting
unless_error (some (state, events)) =
    if same_state state TestState.error then failed state events else going state events

-- IS_bind_client; `resolve` is the result of rdma_resolve_addr.
unfoldable pub bind_client : Bool → List CmEvent → TestState → Step
bind_client resolve events state =
    if resolve
    then expect TestState.route_resolved (wait_event TestState.route_resolved events state)
    else failed state events

-- IS_connect_client; `connect` is the result of rdma_connect.
unfoldable pub connect_client : Bool → List CmEvent → TestState → Step
connect_client connect events state =
    if connect
    then unless_error (wait_event TestState.connected events state)
    else failed state events

-- The results of the library's calls on the way.
pub record Calls : Type 0 where
  pub resolve_addr : Bool
  pub setup_qp : Bool
  pub setup_buffers : Bool
  pub post_recv : Bool
  pub connect : Bool

-- rdma_connect_upper
unfoldable pub connect_upper : Calls → List CmEvent → TestState → Step
connect_upper c events state = elim (bind_client c.resolve_addr events state) [
  | going s rest ↦ if c.setup_qp && c.setup_buffers then going s rest else failed s rest
  | failed s rest ↦ failed s rest
  | waiting ↦ waiting
]

-- rdma_connect_down
unfoldable pub connect_down : Calls → List CmEvent → TestState → Step
connect_down c events state =
    if c.post_recv then connect_client c.connect events state else failed state events

-- IS_single_chunk_map calls both and looks at neither result.
unfoldable pub connect_server : Calls → List CmEvent → TestState → Step
connect_server c events state = elim (connect_upper c events state) [
  | going s rest ↦ connect_down c rest s
  | failed s rest ↦ connect_down c rest s
  | waiting ↦ waiting
]
