-- ===== src/Portal/RoundTrip.antt =====
-- A text written in the format of portal_parser is read back.
use dis_store.Prelude.{
  ℕ, zero, suc, ◌+◌, ◌*◌, ◌-◌, ◌/◌, ◌%◌, ◌^◌, ◌≤◌, ◌<◌, ◌≡◌, ◌≢◌, refl, ap, ◌∙◌, true, Option, none,
  some, List, [], ◌∷◌, ◌++◌, ltb, if◌then◌else◌, arith, length, Bool-cases, inl, inr,
}
use dis_store.Portal.{
  comma, colon, IsPortal, strsep, read_digits, scan_digits, scan_int, before_colon, parse_one,
  parse_from, portal_parser,
}

-- A number in decimal, of at most as many digits as there is fuel.
unfoldable pub decimal : ℕ → ℕ → List ℕ
decimal zero n = []
decimal (suc fuel) n =
    let front = decimal fuel (n / 10) in
    if ltb n 10 then (48 + n) ∷ [] else front ++ ((48 + n % 10) ∷ [])

pub data Digits : List ℕ → Type 0 where
  no_digits : Digits []
  one_more : (c : ℕ) (cs : List ℕ) → 48 ≤ c → c ≤ 57 → Digits cs → Digits (c ∷ cs)

append-Digits : (xs ys : List ℕ) → Digits xs → Digits ys → Digits (xs ++ ys)
append-Digits xs ys no_digits e = e
append-Digits xs ys (one_more c cs a b d) e = one_more c (cs ++ ys) a b (append-Digits cs ys d e)

read_digits-append :
    (xs ys : List ℕ) (acc : ℕ)
    → Digits xs
    → read_digits acc (xs ++ ys) ≡ read_digits (read_digits acc xs) ys
unfolding read_digits
read_digits-append xs ys acc no_digits = refl
read_digits-append xs ys acc (one_more c cs a b d) =
    ground (arith, read_digits-append cs ys (acc * 10 + (c - 48)) d)

decimal-Digits : (fuel n : ℕ) → Digits (decimal fuel n)
unfolding decimal
decimal-Digits zero n = no_digits
decimal-Digits (suc fuel) n = elim (Bool-cases (ltb n 10)) [
  | inl e ↦ rw (e) (one_more (48 + n) [] (omega arith) (ground arith) no_digits)
  | inr e ↦ rw (e) (
      append-Digits (decimal fuel (n / 10)) ((48 + n % 10) ∷ []) (decimal-Digits fuel (n / 10))
        (one_more (48 + n % 10) [] (omega arith) (omega arith) no_digits))
]

read_digits-decimal : (fuel n : ℕ) → n < fuel → read_digits 0 (decimal fuel n) ≡ n
unfolding decimal read_digits
read_digits-decimal zero n h = absurd (omega arith)
read_digits-decimal (suc fuel) n h = elim (Bool-cases (ltb n 10)) [
  | inl e ↦ rw (e) (ground arith)
  | inr e ↦ rw (e) (
      read_digits-append (decimal fuel (n / 10)) ((48 + n % 10) ∷ []) 0
        (decimal-Digits fuel (n / 10))
      ∙ ap (λ v. read_digits v ((48 + n % 10) ∷ []))
          (read_digits-decimal fuel (n / 10) (ground arith))
      ∙ ground arith)
]

scan_int-Digits :
    (xs : List ℕ) → xs ≢ [] → Digits xs → scan_int xs ≡ some (read_digits 0 xs % 2 ^ 32)
unfolding scan_int scan_digits read_digits
scan_int-Digits xs ne no_digits = absurd (ne refl)
scan_int-Digits xs ne (one_more c cs a b d) = ground arith

append-ne : (xs : List ℕ) (y : ℕ) → xs ++ (y ∷ []) ≢ []
append-ne [] y e = absurd (cc)
append-ne (x ∷ xs) y e = absurd (cc)

decimal-ne : (fuel n : ℕ) → decimal (suc fuel) n ≢ []
unfolding decimal
decimal-ne fuel n = elim (Bool-cases (ltb n 10)) [
  | inl e ↦ rw (e) (λ h. absurd (cc))
  | inr e ↦ rw (e) (append-ne (decimal fuel (n / 10)) (48 + n % 10))
]

-- What sscanf reads of a number in decimal.
scan_int-decimal : (n : ℕ) → n < 2 ^ 32 → scan_int (decimal (suc n) n) ≡ some n
scan_int-decimal n h =
    scan_int-Digits (decimal (suc n) n) (decimal-ne n n) (decimal-Digits (suc n) n)
    ∙ ap (λ v. some (v % 2 ^ 32)) (read_digits-decimal (suc n) n (omega arith))
    ∙ ap some (omega arith)

-- A character does not occur in a text.
pub data Avoids (x : ℕ) : List ℕ → Type 0 where
  at_end : Avoids x []
  past : (c : ℕ) (cs : List ℕ) → c ≢ x → Avoids x cs → Avoids x (c ∷ cs)

append-Avoids : (x : ℕ) (xs ys : List ℕ) → Avoids x xs → Avoids x ys → Avoids x (xs ++ ys)
append-Avoids x xs ys at_end e = e
append-Avoids x xs ys (past c cs n a) e = past c (cs ++ ys) n (append-Avoids x cs ys a e)

Digits-Avoids : (x : ℕ) (xs : List ℕ) → x < 48 → Digits xs → Avoids x xs
Digits-Avoids x xs h no_digits = at_end
Digits-Avoids x xs h (one_more c cs a b d) =
    past c cs (λ e. absurd (omega arith)) (Digits-Avoids x cs h d)

strsep-last : (xs : List ℕ) → Avoids comma xs → strsep xs ≡ (xs, none)
unfolding strsep
strsep-last xs at_end = refl
strsep-last xs (past c cs n a) = ground (arith, strsep-last cs a)

strsep-token : (xs ys : List ℕ) → Avoids comma xs → strsep (xs ++ (comma ∷ ys)) ≡ (xs, some ys)
unfolding strsep
strsep-token xs ys at_end = refl
strsep-token xs ys (past c cs n a) = ground (arith, strsep-token cs ys a)

before_colon-addr :
    (xs ys : List ℕ) → Avoids colon xs → before_colon (xs ++ (colon ∷ ys)) ≡ some (xs, ys)
unfolding before_colon
before_colon-addr xs ys at_end = refl
before_colon-addr xs ys (past c cs n a) = ground (arith, before_colon-addr cs ys a)

-- A server that the format can name.
pub record Nameable (p : IsPortal) : Type 0 where
  pub no_comma : Avoids comma p.addr
  pub no_colon : Avoids colon p.addr
  pub short : length p.addr < 16
  pub port_fits : p.port < 2 ^ 16

pub data AllNameable : List IsPortal → Type 0 where
  no_servers : AllNameable []
  and_server :
      (p : IsPortal) (ps : List IsPortal) → Nameable p → AllNameable ps → AllNameable (p ∷ ps)

-- The text of one server, of the servers behind their number, and of a portal behind `rdma://`.
abbrev pub print_one : IsPortal → List ℕ
print_one p = p.addr ++ (colon ∷ decimal (suc p.port) p.port)

unfoldable pub print_servers : List IsPortal → List ℕ
print_servers [] = []
print_servers (p ∷ ps) = comma ∷ (print_one p ++ print_servers ps)

abbrev pub print_portal : List IsPortal → List ℕ
print_portal ps = decimal (suc (length ps)) (length ps) ++ print_servers ps

-- What is left of them behind a token.
rest_of : List IsPortal → Option (List ℕ)
rest_of [] = none
rest_of (p ∷ ps) = some (print_one p ++ print_servers ps)

append_nil : (xs : List ℕ) → xs ++ [] ≡ xs
append_nil [] = refl
append_nil (x ∷ xs) = ap (◌∷◌ x) (append_nil xs)

print_one-Avoids : (p : IsPortal) → Nameable p → Avoids comma (print_one p)
print_one-Avoids p h = append-Avoids comma p.addr _ h.no_comma (
    past colon _ (λ e. absurd (omega arith))
      (Digits-Avoids comma _ (omega arith) (decimal-Digits (suc p.port) p.port)))

strsep-servers :
    (xs : List ℕ) (ps : List IsPortal)
    → Avoids comma xs
    → strsep (xs ++ print_servers ps) ≡ (xs, rest_of ps)
unfolding print_servers rest_of
strsep-servers xs [] a = ap strsep (append_nil xs) ∙ strsep-last xs a
strsep-servers xs (p ∷ ps) a = strsep-token xs (print_one p ++ print_servers ps) a

parse_one-print_one : (p : IsPortal) → Nameable p → parse_one (print_one p) ≡ some p
unfolding parse_one
parse_one-print_one p h =
    let text = before_colon-addr p.addr (decimal (suc p.port) p.port) h.no_colon in
    let short : ltb (length p.addr) 16 ≡ true = ground (arith, h.short) in
    let port = scan_int-decimal p.port (omega (arith, h.port_fits)) in
    let fits : p.port % 2 ^ 16 ≡ p.port = omega (arith, h.port_fits) in
    rw (parse_one, text, short, port, fits) refl

parse_from-rest_of :
    (ps : List IsPortal) → AllNameable ps → parse_from (length ps) (rest_of ps) ≡ some ps
unfolding parse_from rest_of
parse_from-rest_of ps no_servers = refl
parse_from-rest_of ps (and_server p more n a) =
    let token = strsep-servers (print_one p) more (print_one-Avoids p n) in
    rw (token, parse_one-print_one p n, parse_from-rest_of more a) refl

-- The text in the format `<number>,<address>:<port>,...` of servers, of which there are fewer than
-- 2^31, whose addresses have at most 15 characters, none a comma or a colon, and whose ports have 16
-- bits, is read back by portal_parser as just those servers.
pub portal_parser-print_portal :
    (ps : List IsPortal)
    → AllNameable ps
    → length ps < 2 ^ 31
    → portal_parser (print_portal ps) ≡ some ps
unfolding portal_parser
portal_parser-print_portal ps h lt =
    let n = length ps in
    let token =
      strsep-servers (decimal (suc n) n) ps
        (Digits-Avoids comma _ (omega arith) (decimal-Digits (suc n) n)) in
    let fits : ltb n (2 ^ 31) ≡ true = ground arith in
    rw (portal_parser, token, scan_int-decimal n (omega arith), fits) (parse_from-rest_of ps h)
