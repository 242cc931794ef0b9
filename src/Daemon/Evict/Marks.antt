-- ===== src/Daemon/Evict/Marks.antt =====
-- What the STOP messages name: each chosen chunk, to the client that it is lent to.
use dis_store.Prelude.{
  ℕ, zero, suc, ◌+◌, ◌<◌, ◌≡◌, refl, sym, ap, ◌∙◌, Bool, false, ◌&&◌, ◌||◌, Option, none, some,
  List, [], ◌∷◌, ◌==◌, if◌then◌else◌, arith, length, get_or, set, length-set, get_or-set,
}
use dis_store.Prelude.Int.{ℤ, pos, ◌+ℤ◌}
use native.Mathlib.Decide.{ℕ_discrete}
use dis_store.Daemon.{Connection, max_free_mem_gb}
use dis_store.Daemon.Evict.{
  Marking, ChunkActivity, mark_stop, mark_chunk, mark_chunks, Sending, stop_sending,
}

abbrev pub conn_at : Marking → ℕ → Option Connection
conn_at m c = get_or m.conns c none

-- The key for chunk `j` in the message of a client, and how many gigabytes it says; 0 if there is
-- no such client.
abbrev key_in : Option Connection → ℕ → ℕ
key_in none j = 0
key_in (some conn) j = get_or conn.send_msg.rkey j 0

abbrev size_in : Option Connection → ℤ
size_in none = pos 0
size_in (some conn) = conn.send_msg.size_gb

abbrev pub key_of : Marking → ℕ → ℕ → ℕ
key_of m c j = key_in (conn_at m c) j

abbrev pub size_of : Marking → ℕ → ℤ
size_of m c = size_in (conn_at m c)

-- The client that chunk `i` is lent to.
abbrev pub owner_of : List (Option ℕ) → ℕ → Option ℕ
owner_of conn_map i = get_or conn_map i none

abbrev pub is_owner : Option ℕ → ℕ → Bool
is_owner none c = false
is_owner (some d) c = d == c

-- One of the chosen entries is chunk `j`, lent to client `c`.
unfoldable pub names : List (Option ℕ) → List ChunkActivity → ℕ → ℕ → Bool
names conn_map [] c j = false
names conn_map (a ∷ l) c j =
    ((a.chunk_index == j) && is_owner (owner_of conn_map a.chunk_index) c) || names conn_map l c j

-- How many of them are lent to client `c`.
unfoldable pub count_of : List (Option ℕ) → List ChunkActivity → ℕ → ℕ
count_of conn_map [] c = 0
count_of conn_map (a ∷ l) c =
    (if is_owner (owner_of conn_map a.chunk_index) c then 1 else 0) + count_of conn_map l c

-- Each entry is a chunk of the tables, lent to a client that is there, with a message of full size.
pub record Lent (conn_map : List (Option ℕ)) (m : Marking) (i : ℕ) : Type 0 where
  pub small : i < max_free_mem_gb
  pub owner : ℕ
  pub conn : Connection
  pub lent : owner_of conn_map i ≡ some owner
  pub there : conn_at m owner ≡ some conn

abbrev pub AllLent : List (Option ℕ) → Marking → List ChunkActivity → Type 0
AllLent conn_map m [] = Unit
AllLent conn_map m (a ∷ l) = Lent conn_map m a.chunk_index × AllLent conn_map m l

abbrev key_size : Option Connection → ℕ
key_size none = max_free_mem_gb
key_size (some conn) = length conn.send_msg.rkey

abbrev pub FullKeys : Marking → Type 0
FullKeys m = (c : ℕ) → key_size (conn_at m c) ≡ max_free_mem_gb

-- One chunk is marked.
record Marked (conn_map : List (Option ℕ)) (m m' : Marking) (i : ℕ) : Type 0 where
  keys :
      (c j : ℕ)
      → key_of m' c j ≡ (if (i == j) && is_owner (owner_of conn_map i) c then 1 else key_of m c j)
  sizes :
      (c : ℕ)
      → size_of m' c ≡ size_of m c +ℤ pos (if is_owner (owner_of conn_map i) c then 1 else 0)
  full : FullKeys m'
  still :
      (c : ℕ) (conn : Connection)
      → conn_at m c ≡ some conn
      → (conn' : Connection) × (conn_at m' c ≡ some conn')

get_or-some_lt :
    (l : List (Option Connection)) (c : ℕ) (conn : Connection)
    → get_or l c none ≡ some conn
    → c < length l
get_or-some_lt [] c conn h = absurd (cc)
get_or-some_lt (x ∷ xs) zero conn h = omega arith
get_or-some_lt (x ∷ xs) (suc c) conn h = omega (arith, get_or-some_lt xs c conn h)

add_zero : (a : ℤ) → a +ℤ pos 0 ≡ a
unfolding ◌+ℤ◌
add_zero a = ground arith

add_pos : (a : ℤ) (p q : ℕ) → (a +ℤ pos p) +ℤ pos q ≡ a +ℤ pos (p + q)
unfolding ◌+ℤ◌
add_pos a p q = ground arith

mark_chunk-Marked :
    (conn_map : List (Option ℕ)) (m : Marking) (i : ℕ)
    → FullKeys m
    → Lent conn_map m i
    → (m' : Marking) × (mark_chunk conn_map m i ≡ some m') × Marked conn_map m m' i
unfolding mark_chunk mark_stop
mark_chunk-Marked conn_map m i full l =
    let d : ℕ = l.owner in
    let conn : Connection = l.conn in
    let new = mark_stop conn i in
    let lt = get_or-some_lt m.conns d conn l.there in
    let size : length conn.send_msg.rkey ≡ max_free_mem_gb = ap key_size (sym l.there) ∙ full d in
    let m' : Marking = record {
      conns = set m.conns d (some new);
      send_list = set m.send_list d (stop_sending (get_or m.send_list d Sending.not_sent));
      conn_index = some d;
    } in
    let at = λ (c : ℕ). get_or-set m.conns d c (some new) none lt in
    (
      m',
      rw (mark_chunk, l.lent, l.there) refl,
      record {
        keys = λ c j. elim (ℕ_discrete d c) [
          | yes e ↦
              let was = ap (conn_at m) (sym e) ∙ l.there in
              ground (
                arith,
                at c,
                l.lent,
                was,
                get_or-set conn.send_msg.rkey i j 1 0 (omega (arith, size, l.small)),
              )
          | no ne ↦ ground (arith, at c, l.lent)
        ];
        sizes = λ c. elim (ℕ_discrete d c) [
          | yes e ↦ let was = ap (conn_at m) (sym e) ∙ l.there in ground (arith, at c, l.lent, was)
          | no ne ↦ ground (arith, at c, l.lent, add_zero (size_of m c))
        ];
        full = λ c. elim (ℕ_discrete d c) [
          | yes e ↦ ground (arith, at c, size, length-set conn.send_msg.rkey i 1)
          | no ne ↦ ground (arith, at c, full c)
        ];
        still = λ c other h. elim (ℕ_discrete d c) [
          | yes e ↦ (new, ground (arith, at c))
          | no ne ↦ (other, ground (arith, at c))
        ];
      },
    )

AllLent-Marked :
    (conn_map : List (Option ℕ)) (m m' : Marking) (i : ℕ) (l : List ChunkActivity)
    → Marked conn_map m m' i
    → AllLent conn_map m l
    → AllLent conn_map m' l
AllLent-Marked conn_map m m' i [] f h = tt
AllLent-Marked conn_map m m' i (a ∷ l) f (first, rest) =
    let (conn, there) = f.still first.owner first.conn first.there in
    (
      record {
        small = first.small;
        owner = first.owner;
        conn = conn;
        lent = first.lent;
        there = there;
      },
      AllLent-Marked conn_map m m' i l f rest,
    )

-- If every chosen chunk is lent to a client that is there, evict_mem marks them all: afterwards the
-- message of a client has the key 1 for exactly the chosen chunks that are lent to it, besides what
-- it had, and its count has grown by their number.
pub mark_chunks-names :
    (conn_map : List (Option ℕ)) (l : List ChunkActivity) (m : Marking)
    → FullKeys m
    → AllLent conn_map m l
    → (m' : Marking) × (mark_chunks conn_map l m ≡ some m')
      × ((c j : ℕ) → key_of m' c j ≡ (if names conn_map l c j then 1 else key_of m c j))
      × ((c : ℕ) → size_of m' c ≡ size_of m c +ℤ pos (count_of conn_map l c))
unfolding mark_chunks names count_of
mark_chunks-names conn_map [] m full h = (m, refl, λ c j. refl, λ c. sym (add_zero (size_of m c)))
mark_chunks-names conn_map (a ∷ l) m full (first, rest) =
    let (m1, one, f) = mark_chunk-Marked conn_map m a.chunk_index full first in
    let (m2, ran, keys, sizes) =
      mark_chunks-names conn_map l m1 f.full
        (AllLent-Marked conn_map m m1 a.chunk_index l f rest) in
    (
      m2,
      rw (one, mark_chunks) ran,
      λ c j. ground (arith, keys c j, f.keys c j),
      λ c. sizes c ∙ ap (λ z. z +ℤ pos (count_of conn_map l c)) (f.sizes c) ∙ add_pos _ _ _,
    )
