-- ===== src/Poptrie/Longest.antt =====
-- What a longest-prefix-match table is to answer, over a list of routes with the newest first.
use fast_socket_rs.Prelude.{
  Bool, true, false, Option, none, some, List, [], ◌∷◌, ◌≡◌, refl, ap, if◌then◌else◌,
}
use fast_socket_rs.Prelude.Results.{or_else}

unfoldable pub same_bits : List Bool → List Bool → Bool
same_bits [] [] = true
same_bits [] (c ∷ cs) = false
same_bits (b ∷ bs) [] = false
same_bits (true ∷ bs) (true ∷ cs) = same_bits bs cs
same_bits (false ∷ bs) (false ∷ cs) = same_bits bs cs
same_bits (true ∷ bs) (false ∷ cs) = false
same_bits (false ∷ bs) (true ∷ cs) = false

module _ {ℓ} {V : Type ℓ} where
  -- The route for exactly these bits.
  unfoldable pub exact : List (List Bool × V) → List Bool → Option V
  unfolding same_bits
  exact [] q = none
  exact ((p, v) ∷ rest) q = if same_bits q p then some v else exact rest q

  -- The longest prefix of the bits that has a route.
  unfoldable pub longest : (List Bool → Option V) → List Bool → Option V
  longest f [] = f []
  longest f (b ∷ bs) = or_else (longest (λ q. f (b ∷ q)) bs) (f [])

pub same_bits_refl : (p : List Bool) → same_bits p p ≡ true
unfolding same_bits
same_bits_refl [] = refl
same_bits_refl (true ∷ p) = same_bits_refl p
same_bits_refl (false ∷ p) = same_bits_refl p

pub same_bits_eq : (q p : List Bool) → same_bits q p ≡ true → q ≡ p
unfolding same_bits
same_bits_eq [] [] h = refl
same_bits_eq [] (c ∷ cs) h = cc
same_bits_eq (b ∷ bs) [] h = cc
same_bits_eq (true ∷ bs) (true ∷ cs) h = ap (λ r. true ∷ r) (same_bits_eq bs cs h)
same_bits_eq (false ∷ bs) (false ∷ cs) h = ap (λ r. false ∷ r) (same_bits_eq bs cs h)
same_bits_eq (true ∷ bs) (false ∷ cs) h = cc
same_bits_eq (false ∷ bs) (true ∷ cs) h = cc
