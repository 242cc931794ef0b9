-- ===== src/Daemon/Lend/Books.antt =====
-- What lending and taking back do to the daemon's books.
use dis_store.Prelude.{
  ℕ, zero, suc, ◌+◌, ◌≤◌, ◌<◌, ◌≡◌, ◌≢◌, ◌%◌, ◌^◌, inl, inr, refl, sym, ◌∙◌, true, Option, none,
  some, List, if◌then◌else◌, arith, length, get_or, set, length-set, get_or-set, get_or-set_self,
  get_or-set_ne, get_or-set_default, Bool-cases,
}
use dis_store.Prelude.Int.{pos, ◌+ℤ◌, pos-+ℤ}
use dis_store.Prelude.Counts.{count_some, count_some-set}
use native.Mathlib.Decide.{ℕ_discrete}
use dis_store.Wire.{ntohl, htonll}
use dis_store.Session.{MessageType}
use dis_store.Daemon.{Connection, RemoteMem, max_free_mem_gb}
use dis_store.Daemon.Accounts.{Accounted}
use dis_store.Daemon.Lend.{
  Lending, is_free, zero_rkeys, lend_chunk, lend_first, start_message, finish_message,
  send_single_mr,
}

-- The first free chunk from `i` on, among `n`.
unfoldable pub first_free : ℕ → ℕ → RemoteMem → Option ℕ
first_free zero i m = none
first_free (suc n) i m = let rest = first_free n (i + 1) m in if is_free m i then some i else rest

pub first_free_found :
    (n i k : ℕ) (m : RemoteMem) → first_free n i m ≡ some k → (is_free m k ≡ true) × (k < i + n)
unfolding first_free
first_free_found zero i k m h = absurd (cc)
first_free_found (suc n) i k m h = elim (Bool-cases (is_free m i)) [
  | inl e ↦ ground arith
  | inr e ↦ ground (arith, first_free_found n (i + 1) k m)
]

lend_at : (ℕ → ℕ × ℕ) → Lending → Option ℕ → Lending
lend_at reg l none = l
lend_at reg l (some k) = lend_chunk reg l k

lend_first-first_free :
    (reg : ℕ → ℕ × ℕ) (n i : ℕ) (l : Lending)
    → lend_first reg n i l ≡ lend_at reg l (first_free n i l.remote)
unfolding first_free lend_first lend_at
lend_first-first_free reg zero i l = refl
lend_first-first_free reg (suc n) i l = ground (arith, lend_first-first_free reg n (i + 1) l)

-- One more chunk lent.
lent_one : RemoteMem → ℕ → ℕ → RemoteMem
lent_one m k c = record m {
  conn_map = set m.conn_map k (some c);
  mapped_size = m.mapped_size +ℤ pos 1;
}

lent_one-Accounted :
    (m : RemoteMem) (k c : ℕ)
    → Accounted m
    → is_free m k ≡ true
    → k < max_free_mem_gb
    → Accounted (lent_one m k c)
unfolding lent_one
lent_one-Accounted m k c h free lt = record {
  malloc_size = h.malloc_size;
  conn_size = length-set m.conn_map k (some c) ∙ h.conn_size;
  size = h.size;
  mapped = ground (
    arith,
    h.mapped,
    pos-+ℤ (count_some m.conn_map) 1,
    count_some-set m.conn_map k (some c) (omega (arith, h.conn_size)),
  );
  lent = λ i t.
      ground
        (arith, get_or-set m.conn_map k i (some c) none (omega (arith, h.conn_size)), h.lent i);
}

zero_rkeys-keeps :
    (n i j : ℕ) (rkey : List ℕ) → get_or rkey j 0 ≡ 0 → get_or (zero_rkeys n i rkey) j 0 ≡ 0
unfolding zero_rkeys
zero_rkeys-keeps zero i j rkey h = h
zero_rkeys-keeps (suc n) i j rkey h =
    zero_rkeys-keeps n (i + 1) j (set rkey i 0) (ground (arith, get_or-set_default rkey i j 0))

zero_rkeys-zero :
    (n i j : ℕ) (rkey : List ℕ) → i ≤ j → j < i + n → get_or (zero_rkeys n i rkey) j 0 ≡ 0
unfolding zero_rkeys
zero_rkeys-zero zero i j rkey a b = absurd (omega arith)
zero_rkeys-zero (suc n) i j rkey a b = elim (ℕ_discrete i j) [
  | yes e ↦
      zero_rkeys-keeps n (i + 1) j (set rkey i 0) (ground (arith, get_or-set_default rkey i j 0))
  | no ne ↦ zero_rkeys-zero n (i + 1) j (set rkey i 0) (omega arith) (omega arith)
]

length-zero_rkeys : (n i : ℕ) (rkey : List ℕ) → length (zero_rkeys n i rkey) ≡ length rkey
unfolding zero_rkeys
length-zero_rkeys zero i rkey = refl
length-zero_rkeys (suc n) i rkey = length-zero_rkeys n (i + 1) (set rkey i 0) ∙ length-set rkey i 0

-- The tables of a connection have their sizes.
pub record Sized (c : Connection) : Type 0 where
  pub map_size : length c.sess_chunk_map ≡ max_free_mem_gb
  pub rkey_size : length c.send_msg.rkey ≡ max_free_mem_gb
  pub buf_size : length c.send_msg.buf ≡ max_free_mem_gb

module _ (reg : ℕ → ℕ × ℕ) (l : Lending) (chunk : ℕ) where
  answer_for : Option ℕ → Lending
  answer_for o =
      finish_message (lend_at reg (start_message l (pos chunk)) o) 1 MessageType.info_single

  send_single_mr-answer_for : send_single_mr reg l chunk ≡ answer_for (first_free 32 0 l.remote)
  unfolding send_single_mr answer_for start_message
  send_single_mr-answer_for = rw (lend_first-first_free reg 32 0 (start_message l (pos chunk)))

  answer_for-remote : (k : ℕ) → (answer_for (some k)).remote ≡ lent_one l.remote k l.conn.conn_index
  unfolding answer_for finish_message lend_at lend_chunk start_message lent_one
  answer_for-remote k = refl

  answer_for-message :
      (k : ℕ)
      → Sized l.conn
      → k < max_free_mem_gb
      → let m = (answer_for (some k)).conn.send_msg in
        (get_or m.rkey k 0 ≡ ntohl ((reg k).1 % 2 ^ 32))
        × ((j : ℕ) → j < max_free_mem_gb → j ≢ k → get_or m.rkey j 0 ≡ 0)
        × (get_or m.buf k 0 ≡ htonll (reg k).0)
  unfolding answer_for finish_message lend_at lend_chunk start_message
  answer_for-message k z lt =
      let zeroed = zero_rkeys 32 0 l.conn.send_msg.rkey in
      let size : k < length zeroed =
        omega (arith, length-zero_rkeys 32 0 l.conn.send_msg.rkey, z.rkey_size) in
      (
        get_or-set_self zeroed k (ntohl ((reg k).1 % 2 ^ 32)) 0 size,
        λ j jl ne.
            get_or-set_ne zeroed k j (ntohl ((reg k).1 % 2 ^ 32)) 0 (λ e. ne (sym e))
            ∙ zero_rkeys-zero 32 0 j l.conn.send_msg.rkey (omega arith) (omega arith),
        get_or-set_self l.conn.send_msg.buf k (htonll (reg k).0) 0 (omega (arith, z.buf_size)),
      )

  answer_for-conn :
      (k : ℕ)
      → Sized l.conn
      → k < max_free_mem_gb
      → let a = answer_for (some k) in
        (get_or a.conn.sess_chunk_map k none ≡ some k)
        × (a.conn.mapped_chunk_size ≡ l.conn.mapped_chunk_size +ℤ pos 1)
        × (a.conn.send_msg.size_gb ≡ pos chunk)
        × (a.sent ≡ some (a.conn.send_msg))
  unfolding answer_for finish_message lend_at lend_chunk start_message
  answer_for-conn k z lt = (
    get_or-set_self l.conn.sess_chunk_map k (some k) none (omega (arith, z.map_size)),
    refl,
    refl,
    refl,
  )

  answer_for-lent :
      (k : ℕ)
      → Accounted l.remote
      → k < max_free_mem_gb
      → get_or (answer_for (some k)).remote.conn_map k none ≡ some l.conn.conn_index
  unfolding answer_for finish_message lend_at lend_chunk start_message
  answer_for-lent k h lt =
      get_or-set_self l.remote.conn_map k (some l.conn.conn_index) none (omega (arith, h.conn_size))

  -- If some allocated chunk is not lent, send_single_mr lends the first such chunk `k`: the chunk
  -- was free, it is the connection's afterwards on both sides' tables, the message sent names the
  -- gigabyte that the client asked for and carries the key and address of `k` and no other key, and
  -- the books stay right.
  pub send_single_mr-lends :
      (k : ℕ)
      → Accounted l.remote
      → Sized l.conn
      → first_free 32 0 l.remote ≡ some k
      → let a = send_single_mr reg l chunk in
        Accounted a.remote
        × (is_free l.remote k ≡ true)
        × (get_or a.remote.conn_map k none ≡ some l.conn.conn_index)
        × ((get_or a.conn.sess_chunk_map k none ≡ some k)
            × (a.conn.mapped_chunk_size ≡ l.conn.mapped_chunk_size +ℤ pos 1)
            × (a.conn.send_msg.size_gb ≡ pos chunk)
            × (a.sent ≡ some (a.conn.send_msg)))
        × ((get_or a.conn.send_msg.rkey k 0 ≡ ntohl ((reg k).1 % 2 ^ 32))
            × ((j : ℕ) → j < max_free_mem_gb → j ≢ k → get_or a.conn.send_msg.rkey j 0 ≡ 0)
            × (get_or a.conn.send_msg.buf k 0 ≡ htonll (reg k).0))
  send_single_mr-lends k h z found =
      let (free, lt) = first_free_found 32 0 k l.remote found in
      rw (send_single_mr-answer_for, found)
        (
          rw (answer_for-remote k)
              (lent_one-Accounted l.remote k l.conn.conn_index h free (omega arith)),
          free,
          answer_for-lent k h (omega arith),
          answer_for-conn k z (omega arith),
          answer_for-message k z (omega arith),
        )

  answer_for-tables :
      (k : ℕ)
      → let a = answer_for (some k) in
        (a.conn.sess_chunk_map ≡ set l.conn.sess_chunk_map k (some k))
        × (a.remote.conn_map ≡ set l.remote.conn_map k (some l.conn.conn_index))
        × (a.conns_state ≡ l.conns_state)
        × (a.conn.conn_index ≡ l.conn.conn_index)
        × (a.conn.mapped_chunk_size ≡ l.conn.mapped_chunk_size +ℤ pos 1)
        × (length a.conn.send_msg.rkey ≡ length l.conn.send_msg.rkey)
        × (length a.conn.send_msg.buf ≡ length l.conn.send_msg.buf)
  unfolding answer_for finish_message lend_at lend_chunk start_message
  answer_for-tables k =
      let zeroed = zero_rkeys 32 0 l.conn.send_msg.rkey in
      (
        refl,
        refl,
        refl,
        refl,
        refl,
        length-set zeroed k (ntohl ((reg k).1 % 2 ^ 32))
            ∙ length-zero_rkeys 32 0 l.conn.send_msg.rkey,
        length-set l.conn.send_msg.buf k (htonll (reg k).0),
      )

  -- The tables after send_single_mr has lent chunk `k`, and what else it leaves.
  pub send_single_mr-tables :
      (k : ℕ)
      → first_free 32 0 l.remote ≡ some k
      → let a = send_single_mr reg l chunk in
        (a.conn.sess_chunk_map ≡ set l.conn.sess_chunk_map k (some k))
        × (a.remote.conn_map ≡ set l.remote.conn_map k (some l.conn.conn_index))
        × (a.conns_state ≡ l.conns_state)
        × (a.conn.conn_index ≡ l.conn.conn_index)
        × (a.conn.mapped_chunk_size ≡ l.conn.mapped_chunk_size +ℤ pos 1)
        × (length a.conn.send_msg.rkey ≡ length l.conn.send_msg.rkey)
        × (length a.conn.send_msg.buf ≡ length l.conn.send_msg.buf)
  send_single_mr-tables k found = rw (send_single_mr-answer_for, found) (answer_for-tables k)

  answer_for-none :
      Accounted l.remote
      → let a = answer_for none in
        (a.remote.conn_map ≡ l.remote.conn_map)
        × (a.conn.sess_chunk_map ≡ l.conn.sess_chunk_map)
        × ((j : ℕ) → j < max_free_mem_gb → get_or a.conn.send_msg.rkey j 0 ≡ 0)
        × (a.sent ≡ some (a.conn.send_msg))
        × (a.remote.mapped_size ≡ l.remote.mapped_size +ℤ pos 1)
        × ¬ Accounted a.remote
  unfolding answer_for finish_message lend_at start_message
  answer_for-none h = (
    refl,
    refl,
    λ j lt. zero_rkeys-zero 32 0 j l.conn.send_msg.rkey (omega arith) lt,
    refl,
    refl,
    λ after. ground (arith, after.mapped, h.mapped, pos-+ℤ (count_some l.remote.conn_map) 1),
  )

  -- If every allocated chunk is lent, send_single_mr lends nothing, and the message that it sends
  -- has no key in it; the counter of lent chunks goes up all the same, so that books that were
  -- right are wrong after it.
  pub send_single_mr-none :
      Accounted l.remote
      → first_free 32 0 l.remote ≡ none
      → let a = send_single_mr reg l chunk in
        (a.remote.conn_map ≡ l.remote.conn_map)
        × (a.conn.sess_chunk_map ≡ l.conn.sess_chunk_map)
        × ((j : ℕ) → j < max_free_mem_gb → get_or a.conn.send_msg.rkey j 0 ≡ 0)
        × (a.sent ≡ some (a.conn.send_msg))
        × (a.remote.mapped_size ≡ l.remote.mapped_size +ℤ pos 1)
        × ¬ Accounted a.remote
  send_single_mr-none h found = let a = answer_for-none h in rw (send_single_mr-answer_for, found) a
