-- ===== src/Session/Bind/Awaited.antt =====
-- A wait for the free memory of a server ends.
use dis_store.Prelude.{ℕ, ◌<◌, ◌≡◌, ap, ◌∙◌, true, false, some, length, get_or-set_self, set-set}
use dis_store.Session.{Session, Cb, RdmaInfo, TestState, MessageType}
use dis_store.Session.Tables.{no_cb, cb_at, with_cb, with_table}
use dis_store.Session.Receive.{client_recv, recv_type, accepted, with_state, before_connected}
use dis_store.Session.Receive.Handled.{client_recv-recv_type}
use dis_store.Session.Bind.{answer_with, received, await_free}

-- The server when it has said how much memory it has.
abbrev pub answered : Cb → RdmaInfo → Cb
answered cb m =
    with_table (with_state (record cb { recv_buf = m }) TestState.free_mem_recv)
      (record (cb.remote_chunk) { target_size_g = m.size_gb })

abbrev pub settled : Cb → RdmaInfo → Cb
settled cb m = with_state (answered cb m) TestState.after_free_mem

pub cb_at-with_cb_self :
    (s : Session) (d : ℕ) (cb : Cb) → d < length s.cb_list → cb_at (with_cb s d cb) d ≡ cb
cb_at-with_cb_self s d cb h = get_or-set_self s.cb_list d cb no_cb h

pub with_cb-with_cb : (s : Session) (d : ℕ) (a b : Cb) → with_cb (with_cb s d a) d b ≡ with_cb s d b
with_cb-with_cb s d a b = ap (λ l. record s { cb_list = l }) (set-set s.cb_list d a b)

answer_with-free :
    (s : Session) (d : ℕ) (cb : Cb) (m : RdmaInfo)
    → d < length s.cb_list
    → before_connected cb.state ≡ false
    → m.type ≡ MessageType.free_size
    → answer_with (with_cb s d cb) d m ≡ some (with_cb s d (answered cb m))
unfolding answer_with recv_type
answer_with-free s d cb m lt state type =
    let s1 = with_cb s d (record cb { recv_buf = m }) in
    let there : cb_at (with_cb s d cb) d ≡ cb = cb_at-with_cb_self s d cb lt in
    let start : with_cb (with_cb s d cb) d (record (cb_at (with_cb s d cb) d) { recv_buf = m })
        ≡ s1 =
      ap (λ x. with_cb (with_cb s d cb) d (record x { recv_buf = m })) there
      ∙ with_cb-with_cb s d cb (record cb { recv_buf = m }) in
    let here : cb_at s1 d ≡ record cb { recv_buf = m } =
      cb_at-with_cb_self s d (record cb { recv_buf = m }) lt in
    let taken : client_recv s1 d true ≡ accepted (with_cb s d (answered cb m)) =
      client_recv-recv_type s1 d (ap (λ x. before_connected x.state) here ∙ state)
      ∙ ap (λ x. recv_type s1 d x.recv_buf.type) here
      ∙ ap (recv_type s1 d) type
      ∙ ap
          (λ x. accepted (
            with_cb s1 d (
              with_table (with_state x TestState.free_mem_recv)
                (record (x.remote_chunk) { target_size_g = x.recv_buf.size_gb }))))
          here
      ∙ ap accepted (with_cb-with_cb s d (record cb { recv_buf = m }) (answered cb m)) in
    ap (λ x. received (client_recv x d true)) start ∙ ap received taken

pub await_free-free :
    (s : Session) (d : ℕ) (cb : Cb) (m : RdmaInfo)
    → d < length s.cb_list
    → before_connected cb.state ≡ false
    → m.type ≡ MessageType.free_size
    → await_free (with_cb s d cb) d m ≡ some (with_cb s d (settled cb m))
unfolding await_free
await_free-free s d cb m lt state type =
    rw (await_free, answer_with-free s d cb m lt state type)
      (ap some (
        ap (λ x. with_cb (with_cb s d (answered cb m)) d (with_state x TestState.after_free_mem))
          (cb_at-with_cb_self s d (answered cb m) lt)
        ∙ with_cb-with_cb s d (answered cb m) (settled cb m)))
