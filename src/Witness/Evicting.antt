-- ===== src/Witness/Evicting.antt =====
-- The choice of chunks to stop, at concrete activities.
use dis_store.Prelude.{
  ℕ, ◌≤◌, ◌≡◌, refl, Option, none, some, List, [], ◌∷◌, ◌++◌, if◌then◌else◌, length, zero, suc,
  arith,
}
use dis_store.Prelude.Int.{pos, ◌+ℤ◌}
use mathlib.Core.List.{Mem, Perm, Pairwise}
use dis_store.Daemon.Evict.{ChunkActivity, least, Marking, mark_chunks}
use dis_store.Daemon.Evict.Least.{least_perm}
use dis_store.Daemon.Evict.Marks.{
  names, count_of, key_of, size_of, AllLent, FullKeys, mark_chunks-names,
}
use dis_store.Samples.Lender.{fresh_conn}

abbrev busy_chunk : ChunkActivity
busy_chunk = record { activity = 9; chunk_index = 0 }

abbrev quiet_chunk : ChunkActivity
quiet_chunk = record { activity = 4; chunk_index = 1 }

least_perm_example :
    let l = busy_chunk ∷ quiet_chunk ∷ [] in
    (chosen rest : List ChunkActivity) × (least 1 l ≡ some (chosen, rest))
    × Perm (chosen ++ rest) l
    × (length chosen ≡ 1)
    × Pairwise (λ x y. x.activity ≤ y.activity) chosen
    × ((x y : ChunkActivity) → Mem x chosen → Mem y rest → x.activity ≤ y.activity)
least_perm_example = least_perm 1 (busy_chunk ∷ quiet_chunk ∷ []) (omega arith)

abbrev owners : List (Option ℕ)
owners = some 0 ∷ some 1 ∷ []

abbrev two_clients : Marking
two_clients = record {
  conns = some fresh_conn ∷ some fresh_conn ∷ [];
  send_list = [];
  conn_index = none;
}

two_clients-FullKeys : FullKeys two_clients
two_clients-FullKeys zero = refl
two_clients-FullKeys (suc zero) = refl
two_clients-FullKeys (suc (suc c)) = refl

two_clients-AllLent : AllLent owners two_clients (quiet_chunk ∷ [])
two_clients-AllLent =
    (record { small = omega arith; owner = 1; conn = fresh_conn; lent = refl; there = refl }, tt)

mark_chunks-names_example :
    let l = quiet_chunk ∷ [] in
    (m' : Marking) × (mark_chunks owners l two_clients ≡ some m')
    × ((c j : ℕ) → key_of m' c j ≡ (if names owners l c j then 1 else key_of two_clients c j))
    × ((c : ℕ) → size_of m' c ≡ size_of two_clients c +ℤ pos (count_of owners l c))
mark_chunks-names_example =
    mark_chunks-names owners (quiet_chunk ∷ []) two_clients two_clients-FullKeys two_clients-AllLent
