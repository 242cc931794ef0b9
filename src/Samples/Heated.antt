-- ===== src/Samples/Heated.antt =====
-- A session in which gigabyte 1 has been written four times.
use dis_store.Prelude.{ℕ, ◌≤◌, [], ◌∷◌, arith, length, length-replicate}
use dis_store.Session.{Session, stackbd_size_g}
use dis_store.Session.Create.{session_create}

unfoldable pub heated : Session
heated = record (session_create 1) { write_ops = 0 ∷ (4 ∷ []) }

pub heated_size : stackbd_size_g ≤ length heated.last_ops
unfolding heated session_create
heated_size = omega (arith, length-replicate {A = ℕ} 12 0)
