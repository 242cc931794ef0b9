-- ===== src/Trigger.antt =====
-- The trigger: one round of rdma_trigger (Infiniswap/infiniswap_bd/is_main.c) over the gigabytes.
-- `unsigned long` is taken modulo 2^64; a weight above 100 is outside the model. The calls of
-- IS_single_chunk_map are listed: what they do to the session does not bear on the round.
pub mod Round
use dis_store.Prelude.{
  ℕ, zero, suc, ◌+◌, ◌-◌, ◌*◌, ◌%◌, ◌^◌, Bool, true, false, not, ◌&&◌, Option, none, some, List, [],
  ◌∷◌, ltb, if◌then◌else◌, get_or, set,
}
use dis_store.Prelude.Counts.{is_some}
use dis_store.Session.{Session, stackbd_size_g}
use dis_store.Session.Tables.{cb_of}
use dis_store.Request.{ulong}

-- `cur_ops` of gigabyte `i`.
abbrev pub cur_ops : Session → ℕ → ℕ
cur_ops s i =
    ulong (s.w_weight * get_or s.write_ops i 0 + (100 - s.w_weight) * get_or s.read_ops i 0)

-- `filtered_ops` of gigabyte `i`.
unfoldable pub filtered_ops : Session → ℕ → ℕ
filtered_ops s i = ulong (s.cur_weight * cur_ops s i + (100 - s.cur_weight) * get_or s.last_ops i 0)

-- The conditions under which a chunk is asked for.
abbrev pub asks : Session → ℕ → Bool
asks s i =
    ltb s.trigger_threshold (filtered_ops s i) && (s.trigger_enable && not (is_some (cb_of s i)))

-- The counters of gigabyte `i` read, cleared and filtered.
unfoldable pub filter_gb : Session → ℕ → Session
filter_gb s i = record s {
  write_ops = set s.write_ops i 0;
  read_ops = set s.read_ops i 0;
  last_ops = set s.last_ops i (filtered_ops s i);
}

-- The loop over the gigabytes from `i` on, with `n` rounds left: the session, and the gigabytes
-- that IS_single_chunk_map is called for.
unfoldable pub trigger_from : ℕ → ℕ → Session → Session × List ℕ
trigger_from zero i s = (s, [])
trigger_from (suc n) i s =
    let (s', asked) = trigger_from n (i + 1) (filter_gb s i) in
    (s', if asks s i then i ∷ asked else asked)

unfoldable pub trigger_round : Session → Session × List ℕ
trigger_round s = trigger_from stackbd_size_g 0 s
