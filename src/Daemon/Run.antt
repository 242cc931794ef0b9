-- ===== src/Daemon/Run.antt =====
-- The daemon over time: what on_event (Infiniswap/infiniswap_daemon/infiniswap-daemon.c), the
-- completions of each connection and the thread of free_mem (rdma-common.c) do to its state, one
-- after the other. The second part of evict_mem changes only messages that go out, and has no step.
pub mod Owned
pub mod Lent
pub mod Returned
pub mod Handled
pub mod Left
pub mod Kept
use dis_store.Prelude.{
  ℕ, ◌+◌, ◌≡◌, ◌<◌, Bool, true, false, Option, none, some, List, length, get_or, set,
}
use dis_store.Prelude.Counts.{count_true}
use dis_store.Daemon.{Connection, RdmaSession, Message, with_remote, max_free_mem_gb}
use dis_store.Daemon.Init.{rdma_session_init}
use dis_store.Daemon.Lend.{Lending, send_free_mem_size}
use dis_store.Daemon.Completion.{Wc, on_completion}
use dis_store.Daemon.Completion.Handled.{Expected}
use dis_store.Daemon.Connect.{idle_from, build_connection, destroy_connection}
use dis_store.Daemon.Resize.{free_unmapped, expand, expand_size}

-- A connection with what it shares with the others, and the session after work on it.
abbrev pub lending_of : RdmaSession → Connection → Lending
lending_of s c = record {
  conn = c;
  conns_state = s.conns_state;
  remote = s.rdma_remote;
  sent = none;
}

abbrev pub with_lending : RdmaSession → ℕ → Lending → RdmaSession
with_lending s i l = record s {
  conns = set s.conns i (some l.conn);
  conns_state = l.conns_state;
  rdma_remote = l.remote;
}

-- on_connection, with on_connect, for connection `c` in place `i`.
unfoldable pub on_connection : RdmaSession → ℕ → Connection → RdmaSession
on_connection s i c =
    with_lending s i (send_free_mem_size (lending_of s (record c { connected = true })))

-- The message that came in last.
abbrev pub with_msg : Connection → Message → Connection
with_msg c msg = record c { recv_msg = msg }

-- What malloc gave for the message that goes out has its size.
abbrev pub SizedMessage : Connection → Type 0
SizedMessage c =
    (length c.send_msg.rkey ≡ max_free_mem_gb) × (length c.send_msg.buf ≡ max_free_mem_gb)

-- One step: a connection is asked for while a place is idle; it is established; one of its requests
-- is completed, and what came in is what the daemon counts on; it is lost; memory is freed; memory
-- is allocated.
pub data Step (reg : ℕ → ℕ × ℕ) (s : RdmaSession) : RdmaSession → Type 0 where
  requested :
      (c : Connection) (k : ℕ)
      → SizedMessage c
      → idle_from 32 0 s.conns_state ≡ some k
      → Step reg s (build_connection s c)
  established :
      (i : ℕ) (c : Connection) → get_or s.conns i none ≡ some c → Step reg s (on_connection s i c)
  completed :
      (i : ℕ) (c : Connection) (msg : Message) (wc : Wc) (l : Lending)
      → get_or s.conns i none ≡ some c
      → (wc.recv ≡ true → Expected (lending_of s (with_msg c msg)) msg.type)
      → on_completion reg (lending_of s (with_msg c msg)) wc ≡ some l
      → Step reg s (with_lending s i l)
  disconnected :
      (i : ℕ) (c : Connection) (running : Bool)
      → get_or s.conns i none ≡ some c
      → Step reg s (destroy_connection s c running).0
  shrunk :
      (stop_g : ℕ) → 0 < stop_g → Step reg s (with_remote s (free_unmapped s.rdma_remote stop_g).0)
  grown :
      (last_free_mem_g : ℕ)
      → 0 < expand_size last_free_mem_g (count_true s.rdma_remote.malloc_map)
      → Step reg s (
          with_remote s (
            expand s.rdma_remote
              (expand_size last_free_mem_g (count_true s.rdma_remote.malloc_map))))

-- The states that come of the start with `free` gigabytes of free memory.
pub data Reach (reg : ℕ → ℕ × ℕ) (free : ℕ) : RdmaSession → Type 0 where
  started : Reach reg free (rdma_session_init free)
  next : (s s' : RdmaSession) → Reach reg free s → Step reg s s' → Reach reg free s'
