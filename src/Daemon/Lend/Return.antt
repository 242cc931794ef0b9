-- ===== src/Daemon/Lend/Return.antt =====
-- What recv_done does to the daemon's books.
use dis_store.Prelude.{
  ℕ, zero, suc, ◌+◌, ◌≤◌, ◌<◌, ◌≡◌, inl, inr, refl, ap, ap₂, ◌∙◌, Bool, true, false, not, none,
  some, ◌==◌, arith, length, get_or, set, length-set, get_or-set, get_or-set_ne, Bool-cases,
}
use dis_store.Prelude.Int.{pos, ◌-ℤ◌, pos--ℤ}
use dis_store.Prelude.Counts.{
  count_true, count_some, is_some, bit_of_bool, count_true-set, count_some-set,
}
use dis_store.Daemon.{RemoteMem, max_free_mem_gb}
use dis_store.Daemon.Accounts.{Accounted}
use dis_store.Daemon.Lend.{Lending, take_back, take_back_from, recv_done}

-- The message of the client names index `i`.
abbrev pub named : Lending → ℕ → Bool
named l i = not (get_or l.conn.recv_msg.rkey i 0 == 0)

-- How many indices it names, from `i` on among `n`.
unfoldable pub count_named : Lending → ℕ → ℕ → ℕ
count_named l zero i = 0
count_named l (suc n) i = bit_of_bool (named l i) + count_named l n (i + 1)

-- The indices that it names among these are chunks that the connection holds.
unfoldable pub NamesHeld : Lending → ℕ → ℕ → Type 0
NamesHeld l n i =
    (j : ℕ)
    → i ≤ j
    → j < i + n
    → named l j ≡ true
    → (get_or l.conn.sess_chunk_map j none ≡ some j)
      × (is_some (get_or l.remote.conn_map j none) ≡ true)

-- The tables without chunk `i`.
abbrev pub taken : Lending → ℕ → Lending
taken l i = record l {
  conn = record (l.conn) { sess_chunk_map = set l.conn.sess_chunk_map i none };
  remote = record (l.remote) {
    conn_map = set l.remote.conn_map i none;
    malloc_map = set l.remote.malloc_map i false;
    conn_chunk_map = set l.remote.conn_chunk_map i none;
  };
}

take_back-held :
    (l : Lending) (i : ℕ) → get_or l.conn.sess_chunk_map i none ≡ some i → take_back l i ≡ taken l i
unfolding take_back
take_back-held l i h = rw (take_back, h) refl

-- The tables of the shared memory have their sizes, and only an allocated chunk is lent.
pub record Kept (m : RemoteMem) : Type 0 where
  pub malloc_size : length m.malloc_map ≡ max_free_mem_gb
  pub conn_size : length m.conn_map ≡ max_free_mem_gb
  pub lent :
      (i : ℕ) → is_some (get_or m.conn_map i none) ≡ true → get_or m.malloc_map i false ≡ true

-- From `l` to `l'`, `c` chunks were taken back; the counters wait.
pub record TookBack (l l' : Lending) (c : ℕ) : Type 0 where
  pub kept : Kept l'.remote
  malloc : count_true l'.remote.malloc_map + c ≡ count_true l.remote.malloc_map
  conns : count_some l'.remote.conn_map + c ≡ count_some l.remote.conn_map
  same_size : l'.remote.size_gb ≡ l.remote.size_gb
  same_mapped : l'.remote.mapped_size ≡ l.remote.mapped_size
  same_chunks : l'.conn.mapped_chunk_size ≡ l.conn.mapped_chunk_size

pub taken-TookBack :
    (l : Lending) (i : ℕ)
    → Kept l.remote
    → i < max_free_mem_gb
    → is_some (get_or l.remote.conn_map i none) ≡ true
    → TookBack l (taken l i) 1
taken-TookBack l i h lt held =
    let lti : i < length l.remote.conn_map = omega (arith, h.conn_size) in
    let ltm : i < length l.remote.malloc_map = omega (arith, h.malloc_size) in
    record {
      kept = record {
        malloc_size = length-set l.remote.malloc_map i false ∙ h.malloc_size;
        conn_size = length-set l.remote.conn_map i none ∙ h.conn_size;
        lent = λ j t. ground (
          arith,
          get_or-set l.remote.conn_map i j none none lti,
          get_or-set l.remote.malloc_map i j false false ltm,
          h.lent j,
        );
      };
      malloc = ground (arith, count_true-set l.remote.malloc_map i false ltm, h.lent i held);
      conns = ground (arith, count_some-set l.remote.conn_map i none lti, held);
      same_size = refl;
      same_mapped = refl;
      same_chunks = refl;
    }

TookBack-trans :
    (l l' l'' : Lending) (c d : ℕ) → TookBack l l' c → TookBack l' l'' d → TookBack l l'' (c + d)
TookBack-trans l l' l'' c d a b = record {
  kept = b.kept;
  malloc = omega (arith, a.malloc, b.malloc);
  conns = omega (arith, a.conns, b.conns);
  same_size = b.same_size ∙ a.same_size;
  same_mapped = b.same_mapped ∙ a.same_mapped;
  same_chunks = b.same_chunks ∙ a.same_chunks;
}

pub NamesHeld-taken :
    (l : Lending) (n i : ℕ)
    → Kept l.remote
    → NamesHeld l (suc n) i
    → NamesHeld (taken l i) n (i + 1)
unfolding NamesHeld
NamesHeld-taken l n i h held j a b t =
    let (mine, lent) = held j (omega arith) (omega arith) t in
    (
      get_or-set_ne l.conn.sess_chunk_map i j none none (λ e. absurd (omega arith)) ∙ mine,
      rw (get_or-set_ne l.remote.conn_map i j none none (λ e. absurd (omega arith))) lent,
    )

count_named-taken : (l : Lending) (k n i : ℕ) → count_named (taken l k) n i ≡ count_named l n i
unfolding count_named
count_named-taken l k zero i = refl
count_named-taken l k (suc n) i =
    ap (λ c. bit_of_bool (named l i) + c) (count_named-taken l k n (i + 1))

-- A round of the loop, and of the count, at an index that the message does not name, and at one
-- that it names.
pub round_skip :
    (n i : ℕ) (l : Lending)
    → get_or l.conn.recv_msg.rkey i 0 == 0 ≡ true
    → (take_back_from (suc n) i l ≡ take_back_from n (i + 1) l)
      × (count_named l (suc n) i ≡ count_named l n (i + 1))
unfolding take_back_from count_named
round_skip n i l e = (rw e refl, rw e (omega arith))

pub round_take :
    (n i : ℕ) (l : Lending)
    → get_or l.conn.recv_msg.rkey i 0 == 0 ≡ false
    → get_or l.conn.sess_chunk_map i none ≡ some i
    → (take_back_from (suc n) i l ≡ take_back_from n (i + 1) (taken l i))
      × (count_named l (suc n) i ≡ 1 + count_named (taken l i) n (i + 1))
unfolding take_back_from count_named
round_take n i l e mine =
    (rw (e, take_back-held l i mine) refl, rw (e, count_named-taken l i n (i + 1)) refl)

take_back_from-TookBack :
    (n i : ℕ) (l : Lending)
    → Kept l.remote
    → NamesHeld l n i
    → i + n ≤ max_free_mem_gb
    → TookBack l (take_back_from n i l) (count_named l n i)
unfolding NamesHeld take_back_from count_named
take_back_from-TookBack zero i l h held le = record {
  kept = h;
  malloc = omega arith;
  conns = omega arith;
  same_size = refl;
  same_mapped = refl;
  same_chunks = refl;
}
take_back_from-TookBack (suc n) i l h held le =
    elim (Bool-cases (get_or l.conn.recv_msg.rkey i 0 == 0)) [
      | inl e ↦
          let (loop, count) = round_skip n i l e in
          rw (loop, count)
            (take_back_from-TookBack n (i + 1) l h (λ j a b. held j (omega arith) (omega arith))
              (omega arith))
      | inr e ↦
          let (mine, lent) = held i (omega arith) (omega arith) (rw e refl) in
          let (loop, count) = round_take n i l e mine in
          let first = taken-TookBack l i h (omega arith) lent in
          rw (loop, count)
            (TookBack-trans l (taken l i) (take_back_from n (i + 1) (taken l i)) 1
              (count_named (taken l i) n (i + 1)) first
              (take_back_from-TookBack n (i + 1) (taken l i) first.kept
                (NamesHeld-taken l n i h held) (omega arith)))
    ]

-- If the message of a client names chunks that the connection holds and that are lent, and says
-- their number, recv_done keeps the daemon's books right, counts that many fewer lent chunks and
-- as many fewer of the connection, and lets send_stop go on.
pub recv_done-Accounted :
    (l : Lending)
    → Accounted l.remote
    → NamesHeld l 32 0
    → l.conn.recv_msg.size_gb ≡ pos (count_named l 32 0)
    → let l' = recv_done l in
      Accounted l'.remote
      × (count_some l'.remote.conn_map + count_named l 32 0 ≡ count_some l.remote.conn_map)
      × (l'.conn.mapped_chunk_size ≡ l.conn.mapped_chunk_size -ℤ pos (count_named l 32 0))
unfolding recv_done
recv_done-Accounted l h held says =
    let c = count_named l 32 0 in
    let t =
      take_back_from-TookBack 32 0 l
        (record { malloc_size = h.malloc_size; conn_size = h.conn_size; lent = h.lent }) held
        (omega arith) in
    let l' = take_back_from 32 0 l in
    (
      record {
        malloc_size = t.kept.malloc_size;
        conn_size = t.kept.conn_size;
        size = ground (
          arith,
          t.same_size,
          h.size,
          says,
          t.malloc,
          pos--ℤ (count_true l.remote.malloc_map) c (omega (arith, t.malloc)),
        );
        mapped = ground (
          arith,
          t.same_mapped,
          h.mapped,
          says,
          t.conns,
          pos--ℤ (count_some l.remote.conn_map) c (omega (arith, t.conns)),
        );
        lent = t.kept.lent;
      },
      t.conns,
      ap₂ (λ x y. x -ℤ y) (t.same_chunks) says,
    )
