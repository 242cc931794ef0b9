-- ===== src/Samples/Asking.antt =====
-- A fresh session with one server, which has 5 gigabytes and answers a bind of gigabyte 3 with its
-- chunk 1.
use dis_store.Prelude.{
  ℕ, ◌≡◌, refl, sym, ap, ◌∙◌, Option, none, some, [], ◌∷◌, arith, get_or-replicate,
}
use mathlib.Core.Path.{subst}
use dis_store.Session.{Session, CbState}
use dis_store.Session.Tables.{cb_of}
use dis_store.Session.Create.{session_create, kernel_cb_init}
use dis_store.Session.Create.Fresh.{Unmapped-Linked}
use dis_store.Session.Chunks.{first_rkey}
use dis_store.Session.Receive.{client_recv, recv_type}
use dis_store.Session.Bind.{ints, Servers, state_of, query_from, query_cb, await_free, answer_with}
use dis_store.Session.Bind.Answer.{Ready}
use dis_store.Session.Bind.Asked.{AllOpen}
use dis_store.Session.Bind.Bound.{Answers}
use dis_store.Session.Bind.Whole.{Serves}
use dis_store.Selection.{select, open_servers, open_from, server_for, promote}
use dis_store.Samples.{answer}

abbrev pub one_server : Servers
one_server = record { free = λ d. 5; info = λ d. answer }

unfoldable pub fresh : Session
unfolding session_create
fresh = session_create 1

fresh_state : (d : ℕ) → state_of fresh d ≡ CbState.cb_idle
unfolding fresh session_create
fresh_state d = get_or-replicate {A = CbState} 1 CbState.cb_idle d

fresh_unmapped : (k : ℕ) → cb_of fresh k ≡ none
unfolding fresh session_create
fresh_unmapped k = get_or-replicate {A = Option ℕ} 12 none k

pub fresh-Ready : Ready fresh
unfolding fresh session_create
fresh-Ready = record {
  linked = Unmapped-Linked fresh fresh_unmapped;
  idle = λ k d on. absurd (cc (fresh_unmapped k, on));
  known = λ d ne. absurd (ne (fresh_state d));
  states = refl;
}

pub fresh_select : select 3 [] (open_servers fresh.cb_state_list) ≡ some (0 ∷ [])
unfolding fresh session_create select open_from
fresh_select = refl

pub fresh-AllOpen : AllOpen fresh (0 ∷ [])
unfolding fresh session_create
fresh-AllOpen = (omega arith, λ e. absurd (cc), tt)

abbrev the : Option Session → Session
the none = fresh
the (some s) = s

fresh-Answers : Answers (the (query_from one_server.free (0 ∷ []) fresh)) 0 3 1 answer
unfolding fresh session_create query_from query_cb await_free answer_with client_recv recv_type
    kernel_cb_init first_rkey
fresh-Answers = record {
  there = omega arith;
  index = refl;
  connected = refl;
  chunk = omega arith;
  map = omega arith;
  cbs = omega arith;
  slots = omega arith;
  unmapped = refl;
  type = refl;
  gb = refl;
  key = refl;
}

fresh_best : server_for (ints one_server.free) (0 ∷ []) ≡ some 0
unfolding server_for promote
fresh_best = refl

some_inj : (a b : ℕ) → some a ≡ some b → a ≡ b
some_inj a b e = cc

pub fresh-Serves : Serves one_server (0 ∷ []) fresh 3
fresh-Serves asked ran d best =
    let is_0 : 0 ≡ d = some_inj 0 d (sym fresh_best ∙ best) in
    (
      1,
      subst (λ (x : ℕ). Answers asked x 3 1 answer) is_0
          (subst (λ (x : Session). Answers x 0 3 1 answer) (ap the ran) fresh-Answers),
    )
