-- ===== src/Daemon/Lend/Advertise.antt =====
-- What send_free_mem_size tells a client.
use dis_store.Prelude.{
  ℕ, suc, ◌+◌, ◌≡◌, refl, Bool, true, false, ◌&&◌, not, Option, none, some, List, [], ◌∷◌, arith,
  length, get_or,
}
use dis_store.Prelude.Int.{pos, pos--ℤ}
use dis_store.Prelude.Counts.{count_true, count_some, is_some, bit_of_bool}
use dis_store.Session.{MessageType}
use dis_store.Daemon.Accounts.{Accounted}
use dis_store.Daemon.Lend.{Lending, send_free_mem_size}

-- The entries where a chunk is allocated and lent to nobody.
pub count_free : List Bool → List (Option ℕ) → ℕ
count_free [] cs = 0
count_free (m ∷ ms) [] = 0
count_free (m ∷ ms) (c ∷ cs) = bit_of_bool (m && not (is_some c)) + count_free ms cs

count_free-eq :
    (ms : List Bool) (cs : List (Option ℕ))
    → length ms ≡ length cs
    → ((i : ℕ) → is_some (get_or cs i none) ≡ true → get_or ms i false ≡ true)
    → count_free ms cs + count_some cs ≡ count_true ms
unfolding count_free
count_free-eq [] [] h lent = omega arith
count_free-eq [] (c ∷ cs) h lent = absurd (omega arith)
count_free-eq (m ∷ ms) [] h lent = absurd (omega arith)
count_free-eq (m ∷ ms) (c ∷ cs) h lent =
    ground (arith, count_free-eq ms cs (omega arith) (λ i t. lent (suc i) t), lent 0)

-- If the books are right, send_free_mem_size sends the number of the chunks that are allocated and
-- lent to nobody, and changes neither the memory nor the connection's own table.
pub send_free_mem_size-eq :
    (l : Lending)
    → Accounted l.remote
    → let l' = send_free_mem_size l in
      (l'.conn.send_msg.size_gb ≡ pos (count_free l.remote.malloc_map l.remote.conn_map))
      × (l'.conn.send_msg.type ≡ MessageType.free_size)
      × (l'.sent ≡ some (l'.conn.send_msg))
      × (l'.remote ≡ l.remote)
      × (l'.conn.sess_chunk_map ≡ l.conn.sess_chunk_map)
unfolding send_free_mem_size
send_free_mem_size-eq l h =
    let ms = l.remote.malloc_map in
    let cs = l.remote.conn_map in
    let total = count_free-eq ms cs (omega (arith, h.malloc_size, h.conn_size)) (h.lent) in
    (
      ground (
        arith,
        h.size,
        h.mapped,
        total,
        pos--ℤ (count_true ms) (count_some cs) (omega (arith, total)),
      ),
      refl,
      refl,
      refl,
      refl,
    )
