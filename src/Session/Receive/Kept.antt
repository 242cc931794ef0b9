-- ===== src/Session/Receive/Kept.antt =====
-- What a message of a server keeps of the tables, and what a STOP marks.
use dis_store.Prelude.{
  ℕ, zero, suc, ◌+◌, ◌≤◌, ◌<◌, ◌≡◌, ◌≢◌, ◌↔◌, inl, inr, refl, sym, ap, ◌∙◌, false, List, ◌==◌,
  if◌then◌else◌, arith, length, get_or, set, length-set, get_or-set_self, get_or-set_ne, Bool-cases,
}
use native.Mathlib.Decide.{ℕ_discrete}
use dis_store.Session.{Cb, EvictMark, ChunkListState, max_mr_size_gb}
use dis_store.Session.Receive.{mark_from, client_recv_stop}

abbrev mark_of : List ℕ → ℕ → EvictMark
mark_of rkey j = if get_or rkey j 0 == 0 then EvictMark.unrelated else EvictMark.stopping

mark_of_iff :
    (rkey : List ℕ) (j : ℕ) → (mark_of rkey j ≡ EvictMark.stopping) ↔ (get_or rkey j 0 ≢ 0)
mark_of_iff rkey j = elim (Bool-cases (get_or rkey j 0 == 0)) [
  | inl e ↦ (λ h. absurd (cc (e, h)), λ ne. absurd (ne (ground (arith, e))))
  | inr e ↦ (λ h z. absurd (ground (arith, e, z)), λ ne. rw e refl)
]

mark_from-keeps :
    (n i j : ℕ) (rkey : List ℕ) (marks : List EvictMark)
    → j < i
    → get_or (mark_from n i rkey marks) j EvictMark.unmarked ≡ get_or marks j EvictMark.unmarked
unfolding mark_from
mark_from-keeps zero i j rkey marks h = refl
mark_from-keeps (suc n) i j rkey marks h =
    mark_from-keeps n (i + 1) j rkey _ (omega arith)
    ∙ get_or-set_ne marks i j _ EvictMark.unmarked (λ e. absurd (omega arith))

mark_from-eq :
    (n i j : ℕ) (rkey : List ℕ) (marks : List EvictMark)
    → i ≤ j
    → j < i + n
    → i + n ≤ length marks
    → get_or (mark_from n i rkey marks) j EvictMark.unmarked ≡ mark_of rkey j
unfolding mark_from
mark_from-eq zero i j rkey marks a b c = absurd (omega arith)
mark_from-eq (suc n) i j rkey marks a b c = elim (ℕ_discrete i j) [
  | yes e ↦
      let written = set marks i (mark_of rkey i) in
      mark_from-keeps n (i + 1) j rkey written (omega arith)
      ∙ ap (λ t. get_or written t EvictMark.unmarked) (sym e)
      ∙ get_or-set_self marks i (mark_of rkey i) EvictMark.unmarked (omega arith)
      ∙ ap (mark_of rkey) e
  | no ne ↦
      let size = length-set marks i (mark_of rkey i) in
      mark_from-eq n (i + 1) j rkey (set marks i (mark_of rkey i)) (omega arith) (omega arith)
        (omega (arith, size))
]

not_zero : (n : ℕ) → n ≢ 0 → (n == 0) ≡ false
not_zero n ne = elim (Bool-cases (n == 0)) [ inl e ↦ absurd (ne (ground (arith, e))) | inr e ↦ e ]

-- A STOP of at least one gigabyte marks exactly the chunks that it has a key for, of a server with
-- a table of full size, stops the chunk list, says how much to shrink, and leaves the chunks and
-- the gigabytes that they are mapped to.
pub client_recv_stop-marks :
    (cb : Cb)
    → length cb.remote_chunk.evict_chunk_map ≡ max_mr_size_gb
    → cb.recv_buf.size_gb ≢ 0
    → let t = (client_recv_stop cb).remote_chunk in
      ((j : ℕ)
        → j < max_mr_size_gb
        → (get_or t.evict_chunk_map j EvictMark.unmarked ≡ EvictMark.stopping)
          ↔ (get_or cb.recv_buf.rkey j 0 ≢ 0))
      × (t.c_state ≡ ChunkListState.c_stop)
      × (t.shrink_size_g ≡ cb.recv_buf.size_gb)
      × (t.chunk_list ≡ cb.remote_chunk.chunk_list)
      × (t.chunk_map ≡ cb.remote_chunk.chunk_map)
unfolding client_recv_stop
client_recv_stop-marks cb len ne =
    let old = cb.remote_chunk.evict_chunk_map in
    let some_gb : (cb.recv_buf.size_gb == 0) ≡ false = not_zero cb.recv_buf.size_gb ne in
    let marks : (if cb.recv_buf.size_gb == 0 then old else mark_from 32 0 cb.recv_buf.rkey old)
        ≡ mark_from 32 0 cb.recv_buf.rkey old =
      rw some_gb refl in
    (
      λ j lt.
          rw
            (
              marks,
              mark_from-eq 32 0 j cb.recv_buf.rkey old (omega arith) (omega arith)
                  (omega (arith, len)),
            )
            (mark_of_iff cb.recv_buf.rkey j),
      refl,
      refl,
      refl,
      refl,
    )
