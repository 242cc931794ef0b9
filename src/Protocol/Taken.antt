-- ===== src/Protocol/Taken.antt =====
-- What recv_done leaves of the chunks that DONE does not name.
use dis_store.Prelude.{
  ℕ, zero, suc, ◌+◌, ◌≤◌, ◌<◌, ◌≡◌, ◌≢◌, inl, inr, refl, sym, ap, ap₂, ◌∙◌, true, false, not, none,
  some, List, ◌==◌, if◌then◌else◌, arith, get_or, get_or-set_ne, Bool-cases,
}
use dis_store.Prelude.Counts.{bit_of_bool}
use dis_store.Daemon.Lend.{Lending, take_back, take_back_from, recv_done}
use dis_store.Daemon.Lend.Return.{named, count_named}

-- The connection holds the chunks that the message names among these.
abbrev pub HoldsNamed : Lending → ℕ → ℕ → Type 0
HoldsNamed l n i =
    (j : ℕ) → i ≤ j → j < i + n → named l j ≡ true → get_or l.conn.sess_chunk_map j none ≡ some j

-- The daemon's entries for chunk `j` are the same.
pub record SameChunk (l l' : Lending) (j : ℕ) : Type 0 where
  pub held : get_or l'.conn.sess_chunk_map j none ≡ get_or l.conn.sess_chunk_map j none
  pub lent : get_or l'.remote.conn_map j none ≡ get_or l.remote.conn_map j none
  pub there : get_or l'.remote.malloc_map j false ≡ get_or l.remote.malloc_map j false
  pub msg : l'.conn.recv_msg ≡ l.conn.recv_msg

take_back-SameChunk :
    (l : Lending) (i j : ℕ)
    → i ≢ j
    → get_or l.conn.sess_chunk_map i none ≡ some i
    → SameChunk l (take_back l i) j
unfolding take_back
take_back-SameChunk l i j ne h =
    rw (take_back, h)
      record {
        held = get_or-set_ne l.conn.sess_chunk_map i j none none ne;
        lent = get_or-set_ne l.remote.conn_map i j none none ne;
        there = get_or-set_ne l.remote.malloc_map i j false false ne;
        msg = refl;
      }

SameChunk-refl : (l : Lending) (j : ℕ) → SameChunk l l j
SameChunk-refl l j = record { held = refl; lent = refl; there = refl; msg = refl }

SameChunk-trans :
    (l l' l'' : Lending) (j : ℕ) → SameChunk l l' j → SameChunk l' l'' j → SameChunk l l'' j
SameChunk-trans l l' l'' j a b = record {
  held = b.held ∙ a.held;
  lent = b.lent ∙ a.lent;
  there = b.there ∙ a.there;
  msg = b.msg ∙ a.msg;
}

-- One round at `i`, for all chunks but `i`, and for `i` if it is not named.
abbrev round : Lending → ℕ → Lending
round l i = if get_or l.conn.recv_msg.rkey i 0 == 0 then l else take_back l i

round-SameChunk :
    (l : Lending) (i j : ℕ)
    → (named l i ≡ true → i ≢ j)
    → (named l i ≡ true → get_or l.conn.sess_chunk_map i none ≡ some i)
    → SameChunk l (round l i) j
round-SameChunk l i j ne h = elim (Bool-cases (get_or l.conn.recv_msg.rkey i 0 == 0)) [
  | inl e ↦ rw e (SameChunk-refl l j)
  | inr e ↦
      let yes_named : named l i ≡ true = rw e refl in
      rw e (take_back-SameChunk l i j (ne yes_named) (h yes_named))
]

take_back_from-SameChunk :
    (n i : ℕ) (l : Lending) (j : ℕ)
    → HoldsNamed l n i
    → named l j ≡ false
    → SameChunk l (take_back_from n i l) j
unfolding take_back_from
take_back_from-SameChunk zero i l j h off = SameChunk-refl l j
take_back_from-SameChunk (suc n) i l j h off =
    let own = h i (omega arith) (omega arith) in
    let l' = round l i in
    let first = round-SameChunk l i j (λ on e. absurd (cc (ap (named l) e ∙ off, on))) own in
    let msg = ap (λ m. m.rkey) first.msg in
    let later : HoldsNamed l' n (i + 1) = λ t a b on.
      let same = round-SameChunk l i t (λ x e. absurd (omega (arith, e))) own in
      same.held
      ∙ h t (omega arith) (omega arith) (ap (λ m. not (get_or m t 0 == 0)) (sym msg) ∙ on) in
    SameChunk-trans l l' (take_back_from n (i + 1) l') j first
      (take_back_from-SameChunk n (i + 1) l' j later (ap (λ m. not (get_or m j 0 == 0)) msg ∙ off))

-- A chunk that DONE does not name stays as it is.
pub recv_done-SameChunk :
    (l : Lending) (j : ℕ) → HoldsNamed l 32 0 → named l j ≡ false → SameChunk l (recv_done l) j
unfolding recv_done
recv_done-SameChunk l j h off =
    let t = take_back_from-SameChunk 32 0 l j h off in
    record { held = t.held; lent = t.lent; there = t.there; msg = t.msg }

-- How many keys of a message are not zero, from index `i` on among `n`.
unfoldable pub count_keys : ℕ → ℕ → List ℕ → ℕ
count_keys zero i rkey = 0
count_keys (suc n) i rkey = bit_of_bool (not (get_or rkey i 0 == 0)) + count_keys n (i + 1) rkey

pub count_named-count_keys :
    (n i : ℕ) (l : Lending) (rkey : List ℕ)
    → ((j : ℕ) → i ≤ j → j < i + n → named l j ≡ not (get_or rkey j 0 == 0))
    → count_named l n i ≡ count_keys n i rkey
unfolding count_named count_keys
count_named-count_keys zero i l rkey h = refl
count_named-count_keys (suc n) i l rkey h =
    ap₂ (λ b c. bit_of_bool b + c) (h i (omega arith) (omega arith))
      (count_named-count_keys n (i + 1) l rkey (λ j a b. h j (omega arith) (omega arith)))
