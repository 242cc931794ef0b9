-- ===== src/Daemon/Lend.antt =====
-- Lending chunks and taking them back: send_single_mr, send_mr, send_free_mem_size and recv_done
-- (Infiniswap/infiniswap_daemon/rdma-common.c). A function works on the connection that it is
-- called for and on the shared memory; `sent` is what send_message puts on the wire. `reg` is what
-- ibv_reg_mr gives for the region of a chunk: its address and key.
pub mod Books
pub mod Advertise
pub mod Return
pub mod Emptied
use dis_store.Prelude.{
  ℕ, zero, suc, ◌+◌, ◌%◌, ◌^◌, Bool, true, false, ◌&&◌, not, Option, none, some, List, [], ◌∷◌,
  ◌==◌, if◌then◌else◌, get_or, set,
}
use dis_store.Prelude.Int.{ℤ, pos, ◌+ℤ◌, ◌-ℤ◌, is_zero}
use dis_store.Prelude.Counts.{is_some}
use dis_store.Session.{MessageType}
use dis_store.Wire.{ntohl, htonll}
use dis_store.Daemon.{Connection, RemoteMem, Message, CqQpState, ConnState, max_free_mem_gb}

-- A connection, the states of all connections, the shared memory, and the last message sent.
pub record Lending : Type 0 where
  pub conn : Connection
  pub conns_state : List ConnState
  pub remote : RemoteMem
  pub sent : Option Message

-- `malloc_map[i] == CHUNK_MALLOCED && conn_map[i] == -1`
abbrev pub is_free : RemoteMem → ℕ → Bool
is_free m i = get_or m.malloc_map i false && not (is_some (get_or m.conn_map i none))

-- The loop that zeroes the keys of a message, from index `i` on with `n` rounds left.
unfoldable pub zero_rkeys : ℕ → ℕ → List ℕ → List ℕ
zero_rkeys zero i rkey = rkey
zero_rkeys (suc n) i rkey = zero_rkeys n (i + 1) (set rkey i 0)

abbrev pub send : Lending → Lending
send l = record l { sent = some (l.conn.send_msg) }

-- The message before the loop.
unfoldable pub start_message : Lending → ℤ → Lending
start_message l size = record l {
  conn = record (l.conn) {
    send_msg = record (l.conn.send_msg) {
      size_gb = size;
      rkey = zero_rkeys max_free_mem_gb 0 l.conn.send_msg.rkey;
    };
  };
}

-- The counters and the type of the message after the loop, and send_message.
unfoldable pub finish_message : Lending → ℕ → MessageType → Lending
finish_message l size type = send (record l {
  conn = record (l.conn) {
    mapped_chunk_size = l.conn.mapped_chunk_size +ℤ pos size;
    send_msg = record (l.conn.send_msg) { type = type };
  };
  remote = record (l.remote) { mapped_size = l.remote.mapped_size +ℤ pos size };
})

module _ (reg : ℕ → ℕ × ℕ) where
  -- The body of both loops for a free chunk `i`.
  unfoldable pub lend_chunk : Lending → ℕ → Lending
  lend_chunk l i = record l {
    conn = record (l.conn) {
      sess_chunk_map = set l.conn.sess_chunk_map i (some i);
      send_msg = record (l.conn.send_msg) {
        buf = set l.conn.send_msg.buf i (htonll (reg i).0);
        rkey = set l.conn.send_msg.rkey i (ntohl ((reg i).1 % 2 ^ 32));
      };
    };
    remote = record (l.remote) { conn_map = set l.remote.conn_map i (some l.conn.conn_index) };
  }

  -- The loop of send_single_mr: the first free chunk, if there is one.
  unfoldable pub lend_first : ℕ → ℕ → Lending → Lending
  lend_first zero i l = l
  lend_first (suc n) i l =
      let rest = lend_first n (i + 1) l in if is_free l.remote i then lend_chunk l i else rest

  -- The loop of send_mr: free chunks until `j` reaches `size`.
  unfoldable pub lend_some : ℕ → ℕ → ℕ → ℕ → Lending → Lending
  lend_some zero i j size l = l
  lend_some (suc n) i j size l =
      let l' = lend_chunk l i in
      let next = lend_some n (i + 1) (j + 1) size l' in
      let rest = lend_some n (i + 1) j size l in
      if is_free l.remote i then (if j + 1 == size then l' else next) else rest

  unfoldable pub send_single_mr : Lending → ℕ → Lending
  send_single_mr l client_chunk_index =
      finish_message (lend_first max_free_mem_gb 0 (start_message l (pos client_chunk_index))) 1
        MessageType.info_single

  unfoldable pub send_mr : Lending → ℕ → Lending
  send_mr l size =
      finish_message (lend_some max_free_mem_gb 0 0 size (start_message l (pos size))) size
        MessageType.info

unfoldable pub send_free_mem_size : Lending → Lending
send_free_mem_size l = send (record l {
  conn = record (l.conn) {
    send_msg = record (l.conn.send_msg) {
      type = MessageType.free_size;
      size_gb = l.remote.size_gb -ℤ l.remote.mapped_size;
    };
  };
})

-- The body of recv_done's loop for an index `i` that the client has stopped using. An index whose
-- chunk is not recorded (-1) is undefined behaviour in C, and is skipped here.
unfoldable pub take_back : Lending → ℕ → Lending
take_back l i = elim (get_or l.conn.sess_chunk_map i none) [
  | none ↦ l
  | some index ↦ record l {
    conn = record (l.conn) { sess_chunk_map = set l.conn.sess_chunk_map i none };
    remote = record (l.remote) {
      conn_map = set l.remote.conn_map index none;
      malloc_map = set l.remote.malloc_map index false;
      conn_chunk_map = set l.remote.conn_chunk_map index none;
    };
  }
]

unfoldable pub take_back_from : ℕ → ℕ → Lending → Lending
take_back_from zero i l = l
take_back_from (suc n) i l =
    take_back_from n (i + 1) (if get_or l.conn.recv_msg.rkey i 0 == 0 then l else take_back l i)

-- recv_done: the chunks, the counters, the semaphore that send_stop waits on, and the state of the
-- connection, which is CONN_CONNECTED again with its last chunk gone.
unfoldable pub recv_done : Lending → Lending
recv_done l =
    let l' = take_back_from max_free_mem_gb 0 l in
    let evict_g = l.conn.recv_msg.size_gb in
    let mapped = l'.conn.mapped_chunk_size -ℤ evict_g in
    record l' {
      conns_state =
          if is_zero mapped
          then set l'.conns_state l'.conn.conn_index ConnState.conn_connected
          else l'.conns_state;
      conn = record (l'.conn) { mapped_chunk_size = mapped; stop_sem = l'.conn.stop_sem + 1 };
      remote = record (l'.remote) {
        size_gb = l'.remote.size_gb -ℤ evict_g;
        mapped_size = l'.remote.mapped_size -ℤ evict_g;
      };
    }
