-- ===== src/LinkText/RoundTrip.antt =====
-- `from_str` of route.rs on what `Display` writes.
use mathlib.Core.List.{append_assoc}
use fast_socket_rs.Prelude.{
  ℕ, suc, ◌/◌, ◌%◌, ◌<◌, ◌≡◌, ◌≢◌, refl, sym, ◌∙◌, ap, false, some, List, [], ◌∷◌, ◌++◌, length,
  arith, ◌==◌,
}
use fast_socket_rs.LinkText.{
  colon, cons_first, split, hex_digit, octet_of, parsed, octets_from, from_str, hex_char,
  two_digits, display,
}

hex_digit-hex_char : (d : ℕ) → d < 16 → hex_digit (hex_char d) ≡ some d
unfolding hex_digit hex_char
hex_digit-hex_char d h = ground arith

hex_char_bounds : (d : ℕ) → d < 16 → (hex_char d ≢ colon) × (hex_char d ≢ 43)
unfolding hex_char
hex_char_bounds d h = ground arith

octet_of-two_digits : (n : ℕ) → n < 256 → octet_of (two_digits n []) ≡ some n
unfolding octet_of
octet_of-two_digits n h =
    let high : n / 16 < 16 = omega arith in
    let low : n % 16 < 16 = omega arith in
    let no_sign : (hex_char (n / 16) == 43) ≡ false =
      ground (arith, (hex_char_bounds (n / 16) high).1) in
    rw (no_sign, hex_digit-hex_char (n / 16) high, hex_digit-hex_char (n % 16) low)
      (ap some (omega arith))

split-digit :
    (d : ℕ) (rest : List ℕ)
    → d < 16
    → split (hex_char d ∷ rest) ≡ cons_first (hex_char d) (split rest)
unfolding split
split-digit d rest h =
    let other : (hex_char d == colon) ≡ false = ground (arith, (hex_char_bounds d h).0) in
    rw other refl

split-two_digits :
    (n : ℕ) (rest : List ℕ)
    → n < 256
    → split (two_digits n rest)
      ≡ cons_first (hex_char (n / 16)) (cons_first (hex_char (n % 16)) (split rest))
split-two_digits n rest h =
    split-digit (n / 16) (hex_char (n % 16) ∷ rest) (omega arith)
    ∙ ap (cons_first (hex_char (n / 16))) (split-digit (n % 16) rest (omega arith))

-- All octets fit a byte.
unfoldable pub Octets : List ℕ → Type 0
Octets [] = Unit {0}
Octets (n ∷ ns) = (n < 256) × Octets ns

split_last : (n : ℕ) → n < 256 → split (two_digits n []) ≡ two_digits n [] ∷ []
unfolding split
split_last n h = split-two_digits n [] h

split_part :
    (n : ℕ) (rest : List ℕ)
    → n < 256
    → split (two_digits n (colon ∷ rest)) ≡ two_digits n [] ∷ split rest
unfolding split
split_part n rest h = split-two_digits n (colon ∷ rest) h

octets_from_step :
    (k o : ℕ) (done p : List ℕ) (ps : List (List ℕ))
    → octet_of p ≡ some o
    → octets_from (suc k) done (p ∷ ps) ≡ octets_from k (done ++ (o ∷ [])) ps
unfolding octets_from
octets_from_step k o done p ps h = rw (h, octets_from) refl

octets_from-display :
    (n : ℕ) (ns done : List ℕ)
    → Octets (n ∷ ns)
    → octets_from (suc (length ns)) done (split (display (n ∷ ns))) ≡ parsed (done ++ (n ∷ ns))
unfolding octets_from display Octets
octets_from-display n [] done (h, hs) =
    ap (octets_from 1 done) (split_last n h)
    ∙ octets_from_step 0 n done (two_digits n []) [] (octet_of-two_digits n h)
octets_from-display n (m ∷ ns) done (h, hs) =
    ap (octets_from (suc (suc (length ns))) done) (split_part n (display (m ∷ ns)) h)
    ∙ octets_from_step (suc (length ns)) n done (two_digits n []) (split (display (m ∷ ns)))
        (octet_of-two_digits n h)
    ∙ octets_from-display m ns (done ++ (n ∷ [])) hs
    ∙ ap parsed (append_assoc done (n ∷ []) (m ∷ ns))

-- The text that `Display` writes for six octets below 256 parses back to these octets.
pub from_str-display : (ns : List ℕ) → length ns ≡ 6 → Octets ns → from_str (display ns) ≡ parsed ns
unfolding from_str
from_str-display [] six h = absurd (omega arith)
from_str-display (n ∷ ns) six h =
    ap (λ k. octets_from k [] (split (display (n ∷ ns)))) (sym six) ∙ octets_from-display n ns [] h
