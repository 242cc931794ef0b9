-- ===== src/Portal.antt =====
-- The text that names the servers of a session, `rdma://2,192.168.0.12:8000,192.168.0.11:9400`:
-- portal_parser (Infiniswap/infiniswap_bd/is_main.c). A text is its characters, up to the end of
-- the string. `none` is what C leaves undefined: a read or a write past the end of an array, or a
-- text with fewer servers than it says.
pub mod RoundTrip
use dis_store.Prelude.{
  ℕ, zero, suc, ◌+◌, ◌*◌, ◌-◌, ◌%◌, ◌^◌, Bool, true, false, ◌&&◌, ◌||◌, Option, none, some, List,
  [], ◌∷◌, ◌==◌, ltb, leb, if◌then◌else◌, length,
}

abbrev pub comma : ℕ
comma = 44

abbrev pub colon : ℕ
colon = 58

abbrev pub is_digit : ℕ → Bool
is_digit c = leb 48 c && leb c 57

abbrev pub is_blank : ℕ → Bool
is_blank c = (c == 32) || (leb 9 c && leb c 13)

-- `struct IS_portal`
pub record IsPortal : Type 0 where
  pub addr : List ℕ
  pub port : ℕ

-- strsep(&ptr, ","), where `ptr` is not null: the token, and what `ptr` is then.
unfoldable pub strsep : List ℕ → List ℕ × Option (List ℕ)
strsep [] = ([], none)
strsep (c ∷ cs) =
    let (token, rest) = strsep cs in if c == comma then ([], some cs) else (c ∷ token, rest)

-- The digits at the head of a text, on top of what was read.
unfoldable pub read_digits : ℕ → List ℕ → ℕ
read_digits acc [] = acc
read_digits acc (c ∷ cs) =
    let on = read_digits (acc * 10 + (c - 48)) cs in if is_digit c then on else acc

-- A number with digits, as an `int`, which is its 32 bits; or no number at all.
unfoldable pub scan_digits : List ℕ → Option ℕ
scan_digits [] = none
scan_digits (c ∷ cs) = if is_digit c then some (read_digits 0 (c ∷ cs) % 2 ^ 32) else none

unfoldable pub negated : Option ℕ → Option ℕ
negated none = none
negated (some v) = some ((2 ^ 32 - v) % 2 ^ 32)

-- `%d` of the kernel's sscanf: blanks, a minus perhaps, and digits.
unfoldable pub scan_int : List ℕ → Option ℕ
scan_int [] = none
scan_int (c ∷ cs) =
    let later = scan_int cs in
    if is_blank c
    then later
    else (if c == 45 then negated (scan_digits cs) else scan_digits (c ∷ cs))

-- An `int` that starts as 0 and that sscanf may set.
abbrev pub or_zero : Option ℕ → ℕ
or_zero none = 0
or_zero (some v) = v

-- The characters before the colon, and those behind it.
unfoldable pub before_colon : List ℕ → Option (List ℕ × List ℕ)
before_colon [] = none
before_colon (c ∷ cs) =
    let later = before_colon cs in
    if c == colon
    then some ([], cs)
    else (elim later [ none ↦ none | some (addr, port) ↦ some (c ∷ addr, port) ])

-- One server: its address has 16 bytes, the last for the end of the string.
unfoldable pub parse_one : List ℕ → Option IsPortal
parse_one token = elim (before_colon token) [
  | none ↦ none
  | some (addr, port) ↦
      if ltb (length addr) 16
      then some (record { addr = addr; port = or_zero (scan_int port) % 2 ^ 16 })
      else none
]

abbrev pub and_then : Option IsPortal → Option (List IsPortal) → Option (List IsPortal)
and_then none rest = none
and_then (some p) none = none
and_then (some p) (some ps) = some (p ∷ ps)

-- The loop, with `n` servers left; `ptr` may be null.
unfoldable pub parse_from : ℕ → Option (List ℕ) → Option (List IsPortal)
parse_from zero ptr = some []
parse_from (suc n) none = none
parse_from (suc n) (some text) =
    let (token, ptr) = strsep text in and_then (parse_one token) (parse_from n ptr)

-- The rounds of a loop up to an `int`.
abbrev pub rounds : ℕ → ℕ
rounds p_count = if ltb p_count (2 ^ 31) then p_count else 0

-- portal_parser, on what stands behind `rdma://`: the portals, of which there are cb_num.
unfoldable pub portal_parser : List ℕ → Option (List IsPortal)
portal_parser text =
    let (token, ptr) = strsep text in parse_from (rounds (or_zero (scan_int token))) ptr
