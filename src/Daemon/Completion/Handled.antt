-- ===== src/Daemon/Completion/Handled.antt =====
-- The books over a handled message.
use dis_store.Prelude.{
  ℕ, zero, suc, ◌+◌, ◌≡◌, refl, sym, ap, ◌∙◌, true, false, some, inl, inr, Bool-cases,
}
use dis_store.Prelude.Int.{pos, pos_part}
use dis_store.Prelude.Counts.{bit_of_bool}
use dis_store.Session.{
  MessageType, done, info, info_single, free_size, evict, activity, stop, bind, bind_single, query,
}
use dis_store.Daemon.Accounts.{Accounted}
use dis_store.Daemon.Lend.{Lending, send_free_mem_size, send_single_mr, recv_done}
use dis_store.Daemon.Lend.Books.{first_free, Sized, send_single_mr-lends}
use dis_store.Daemon.Lend.Return.{NamesHeld, named, count_named, recv_done-Accounted}
use dis_store.Daemon.Lend.Advertise.{send_free_mem_size-eq}
use dis_store.Daemon.Completion.{Wc, on_message, on_completion, busy, binding, bound, with_cq}
use dis_store.Daemon.{CqQpState}

-- What the daemon counts on when a client sends a message: that a chunk is free when the client
-- binds one, and that it gives back what it has. A bind of several chunks is not one of them.
abbrev pub Expected : Lending → MessageType → Type 0
Expected l query = Unit
Expected l activity = Unit
Expected l bind_single = (k : ℕ) × (first_free 32 0 l.remote ≡ some k)
Expected l done = NamesHeld l 32 0 × (l.conn.recv_msg.size_gb ≡ pos (count_named l 32 0))
Expected l bind = ⊥
Expected l info = ⊥
Expected l info_single = ⊥
Expected l free_size = ⊥
Expected l evict = ⊥
Expected l stop = ⊥

pub busy-NamesHeld : (l : Lending) (n i : ℕ) → NamesHeld l n i → NamesHeld (busy l) n i
unfolding NamesHeld
busy-NamesHeld l n i h j a b t = h j a b t

pub busy-count_named : (l : Lending) (n i : ℕ) → count_named (busy l) n i ≡ count_named l n i
unfolding count_named
busy-count_named l zero i = refl
busy-count_named l (suc n) i = ap (λ c. bit_of_bool (named l i) + c) (busy-count_named l n (i + 1))

pub binding-Sized : (l : Lending) → Sized l.conn → Sized (binding l).conn
binding-Sized l z = record { map_size = z.map_size; rkey_size = z.rkey_size; buf_size = z.buf_size }

on_message-Accounted :
    (reg : ℕ → ℕ × ℕ) (l : Lending) (type : MessageType)
    → Accounted l.remote
    → Sized l.conn
    → Expected l type
    → (l' : Lending) × (on_message reg l type ≡ some l') × Accounted l'.remote
unfolding on_message
on_message-Accounted reg l query h z e =
    (send_free_mem_size (busy l), refl, rw ((send_free_mem_size-eq (busy l) h).3) h)
on_message-Accounted reg l activity h z e =
    (record l { conn = record (l.conn) { evict_sem = suc l.conn.evict_sem } }, refl, h)
on_message-Accounted reg l bind_single h z (k, e) =
    let asked = pos_part l.conn.recv_msg.size_gb in
    (
      bound (send_single_mr reg (binding l) asked),
      refl,
      (send_single_mr-lends reg (binding l) asked k h (binding-Sized l z) e).0,
    )
on_message-Accounted reg l done h z (held, says) = (
  recv_done (busy l),
  refl,
  (recv_done-Accounted (busy l) h (busy-NamesHeld l 32 0 held)
      (says ∙ ap pos (sym (busy-count_named l 32 0)))).0,
)
on_message-Accounted reg l bind h z e = absurd e
on_message-Accounted reg l info h z e = absurd e
on_message-Accounted reg l info_single h z e = absurd e
on_message-Accounted reg l free_size h z e = absurd e
on_message-Accounted reg l evict h z e = absurd e
on_message-Accounted reg l stop h z e = absurd e

on_receive :
    (reg : ℕ → ℕ × ℕ) (l : Lending) (wc : Wc)
    → wc.success ≡ true
    → wc.recv ≡ true
    → on_completion reg l wc ≡ on_message reg l l.conn.recv_msg.type
unfolding on_completion
on_receive reg l wc a b = rw (a, b) refl

on_sent :
    (reg : ℕ → ℕ × ℕ) (l : Lending) (wc : Wc)
    → wc.success ≡ true
    → wc.recv ≡ false
    → on_completion reg l wc ≡ some (with_cq l CqQpState.cq_qp_idle)
unfolding on_completion
on_sent reg l wc a b = rw (a, b) refl

-- If the books are right, a completion succeeds, and a message, if it is one that came in, is what
-- the daemon counts on, then the daemon handles it without ending, and the books stay right.
pub on_completion-Accounted :
    (reg : ℕ → ℕ × ℕ) (l : Lending) (wc : Wc)
    → Accounted l.remote
    → Sized l.conn
    → wc.success ≡ true
    → (wc.recv ≡ true → Expected l l.conn.recv_msg.type)
    → (l' : Lending) × (on_completion reg l wc ≡ some l') × Accounted l'.remote
on_completion-Accounted reg l wc h z good expected = elim (Bool-cases wc.recv) [
  | inl e ↦
      let (l', handled, books) = on_message-Accounted reg l l.conn.recv_msg.type h z (expected e) in
      (l', on_receive reg l wc good e ∙ handled, books)
  | inr e ↦ (with_cq l CqQpState.cq_qp_idle, on_sent reg l wc good e, h)
]
