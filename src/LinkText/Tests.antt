-- ===== src/LinkText/Tests.antt =====
-- The address de:ad:be:ef:00:01.
use fast_socket_rs.Prelude.{ℕ, ◌≡◌, List, [], ◌∷◌, refl, arith}
use fast_socket_rs.LinkText.{from_str, display, parsed}
use fast_socket_rs.LinkText.RoundTrip.{Octets, from_str-display}

abbrev address : List ℕ
address = 0xde ∷ 0xad ∷ 0xbe ∷ 0xef ∷ 0 ∷ 1 ∷ []

address-Octets : Octets address
unfolding Octets
address-Octets =
    (omega arith, (omega arith, (omega arith, (omega arith, (omega arith, (omega arith, tt))))))

from_str-display_example : from_str (display address) ≡ parsed address
from_str-display_example = from_str-display address refl address-Octets
