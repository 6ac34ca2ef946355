-- ===== src/LinkText.antt =====
-- crates/fast-socket-rs/src/route.rs: the text of a link-layer address. A string is the list of its
-- bytes.
pub mod RoundTrip
mod Tests
use fast_socket_rs.Prelude.{
  ℕ, zero, suc, ◌+◌, ◌-◌, ◌*◌, ◌/◌, ◌%◌, Bool, true, false, ◌&&◌, Option, none, some, List, [], ◌∷◌,
  ◌++◌, leb, ltb, ◌==◌, if◌then◌else◌,
}
use fast_socket_rs.Prelude.Results.{◌>>=◌}

-- The byte of `:`.
abbrev pub colon : ℕ
colon = 58

-- A byte in front of the first part.
abbrev pub cons_first : ℕ → List (List ℕ) → List (List ℕ)
cons_first c [] = (c ∷ []) ∷ []
cons_first c (p ∷ ps) = (c ∷ p) ∷ ps

-- `str::split(':')`.
unfoldable pub split : List ℕ → List (List ℕ)
split [] = [] ∷ []
split (c ∷ cs) = let rest = split cs in if c == colon then [] ∷ rest else cons_first c rest

-- A hexadecimal digit, of either case.
unfoldable pub hex_digit : ℕ → Option ℕ
hex_digit c =
    if leb 48 c && leb c 57
    then some (c - 48)
    else if leb 97 c && leb c 102
    then some (c - 87)
    else if leb 65 c && leb c 70
    then some (c - 55)
    else none

-- `u8::from_str_radix(part, 16)` of a part of two bytes, which may be a sign and one digit. `none`
-- is an error, which a part of another length is too.
unfoldable pub octet_of : List ℕ → Option ℕ
unfolding hex_digit
octet_of (a ∷ b ∷ []) =
    let low = hex_digit b in
    if a == 43 then low else (do x ← hex_digit a; y ← low; some (x * 16 + y))
octet_of _ = none

pub data Parsed : Type 0 where
  parsed : List ℕ → Parsed
  wrong_octet_count : Parsed
  invalid_octet : Parsed

-- The loop of `from_str` for the octets still to come, and the check behind it.
unfoldable pub octets_from : ℕ → List ℕ → List (List ℕ) → Parsed
unfolding octet_of
octets_from zero done [] = parsed done
octets_from zero done (p ∷ ps) = wrong_octet_count
octets_from (suc n) done [] = wrong_octet_count
octets_from (suc n) done (p ∷ ps) = elim (octet_of p) [
  | some octet ↦ octets_from n (done ++ (octet ∷ [])) ps
  | none ↦ invalid_octet
]

unfoldable pub from_str : List ℕ → Parsed
unfolding split octets_from
from_str text = octets_from 6 [] (split text)

-- `{:02x}` of an octet, and `Display`.
unfoldable pub hex_char : ℕ → ℕ
hex_char d = if ltb d 10 then 48 + d else 87 + d

abbrev pub two_digits : ℕ → List ℕ → List ℕ
two_digits octet rest = hex_char (octet / 16) ∷ hex_char (octet % 16) ∷ rest

unfoldable pub display : List ℕ → List ℕ
unfolding hex_char
display [] = []
display (octet ∷ []) = two_digits octet []
display (octet ∷ next ∷ rest) = two_digits octet (colon ∷ display (next ∷ rest))
