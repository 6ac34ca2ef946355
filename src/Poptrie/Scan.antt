-- ===== src/Poptrie/Scan.antt =====
-- crates/poptrie/src/lib.rs: longest-prefix match over routes that are listed longest first, against a
-- scan of that list.
use fast_socket_rs.Prelude.{
  ℕ, ◌≤◌, ◌<◌, ◌≡◌, refl, ap, ◌∙◌, Bool, true, false, Option, none, some, List, [], ◌∷◌, length,
  arith, if◌then◌else◌, Bool-cases, inl, inr,
}
use fast_socket_rs.Prelude.Results.{or_else}
use fast_socket_rs.Poptrie.Longest.{same_bits, same_bits_refl, exact, longest}

-- Whether the bits start with a prefix.
unfoldable pub starts : List Bool → List Bool → Bool
starts bs [] = true
starts [] (c ∷ p) = false
starts (true ∷ bs) (true ∷ p) = starts bs p
starts (false ∷ bs) (false ∷ p) = starts bs p
starts (true ∷ bs) (false ∷ p) = false
starts (false ∷ bs) (true ∷ p) = false

same_bits_longer : (q p : List Bool) → length p < length q → same_bits q p ≡ false
unfolding same_bits
same_bits_longer [] p k = absurd (omega arith)
same_bits_longer (b ∷ q) [] k = refl
same_bits_longer (true ∷ q) (true ∷ p) k = same_bits_longer q p (omega arith)
same_bits_longer (false ∷ q) (false ∷ p) k = same_bits_longer q p (omega arith)
same_bits_longer (true ∷ q) (false ∷ p) k = refl
same_bits_longer (false ∷ q) (true ∷ p) k = refl

module _ {ℓ} {V : Type ℓ} where
  -- The first route of a list that the bits start with.
  unfoldable pub first_start : List (List Bool × V) → List Bool → Option V
  unfolding starts
  first_start [] bs = none
  first_start ((p, v) ∷ rest) bs = if starts bs p then some v else first_start rest bs

  -- No prefix is longer than one before it.
  abbrev pub AtMost : ℕ → List (List Bool × V) → Type 0
  AtMost n [] = Unit
  AtMost n ((p, v) ∷ rest) = (length p ≤ n) × AtMost (length p) rest

  exact_long :
      (n : ℕ) (routes : List (List Bool × V)) (q : List Bool)
      → AtMost n routes
      → n < length q
      → exact routes q ≡ none
  unfolding exact
  exact_long n [] q h long = refl
  exact_long n ((p, v) ∷ rest) q (h, below) long =
      rw (same_bits_longer q p (omega arith)) (exact_long (length p) rest q below (omega arith))

  longest_ext :
      (bs : List Bool) (f g : List Bool → Option V)
      → ((q : List Bool) → f q ≡ g q)
      → longest f bs ≡ longest g bs
  unfolding longest
  longest_ext [] f g h = h []
  longest_ext (b ∷ bs) f g h =
      rw (h [], longest_ext bs (λ q. f (b ∷ q)) (λ q. g (b ∷ q)) (λ q. h (b ∷ q))) refl

  longest-none :
      (bs : List Bool) (f : List Bool → Option V)
      → ((q : List Bool) → f q ≡ none)
      → longest f bs ≡ none
  unfolding longest
  longest-none [] f h = h []
  longest-none (b ∷ bs) f h = rw (h [], longest-none bs (λ q. f (b ∷ q)) (λ q. h (b ∷ q))) refl

  -- A prefix that the bits do not start with makes no difference.
  longest_skip :
      (bs p : List Bool) (f g : List Bool → Option V)
      → starts bs p ≡ false
      → ((q : List Bool) → same_bits q p ≡ false → f q ≡ g q)
      → longest f bs ≡ longest g bs
  unfolding longest starts same_bits
  longest_skip bs [] f g h agree = cc
  longest_skip [] (c ∷ p) f g h agree = agree [] refl
  longest_skip (true ∷ bs) (true ∷ p) f g h agree =
      rw (agree [] refl)
        (ap (λ o. or_else o (g [])) (longest_skip bs p _ _ h (λ q. agree (true ∷ q))))
  longest_skip (false ∷ bs) (false ∷ p) f g h agree =
      rw (agree [] refl)
        (ap (λ o. or_else o (g [])) (longest_skip bs p _ _ h (λ q. agree (false ∷ q))))
  longest_skip (true ∷ bs) (false ∷ p) f g h agree =
      rw (agree [] refl)
        (ap (λ o. or_else o (g [])) (longest_ext bs _ _ (λ q. agree (true ∷ q) refl)))
  longest_skip (false ∷ bs) (true ∷ p) f g h agree =
      rw (agree [] refl)
        (ap (λ o. or_else o (g [])) (longest_ext bs _ _ (λ q. agree (false ∷ q) refl)))

  -- A prefix that the bits start with, and that no longer prefix follows, is the longest.
  longest_take :
      (bs p : List Bool) (v : V) (f : List Bool → Option V)
      → starts bs p ≡ true
      → f p ≡ some v
      → ((q : List Bool) → length p < length q → f q ≡ none)
      → longest f bs ≡ some v
  unfolding longest starts
  longest_take [] [] v f h at_p long = at_p
  longest_take (b ∷ bs) [] v f h at_p long =
      rw (longest-none bs (λ q. f (b ∷ q)) (λ q. long (b ∷ q) (omega arith))) at_p
  longest_take [] (c ∷ p) v f h at_p long = cc
  longest_take (true ∷ bs) (true ∷ p) v f h at_p long =
      rw (longest_take bs p v (λ q. f (true ∷ q)) h at_p (λ q k. long (true ∷ q) (omega arith)))
        refl
  longest_take (false ∷ bs) (false ∷ p) v f h at_p long =
      rw (longest_take bs p v (λ q. f (false ∷ q)) h at_p (λ q k. long (false ∷ q) (omega arith)))
        refl
  longest_take (true ∷ bs) (false ∷ p) v f h at_p long = cc
  longest_take (false ∷ bs) (true ∷ p) v f h at_p long = cc

  exact_own :
      (p : List Bool) (v : V) (rest : List (List Bool × V)) → exact ((p, v) ∷ rest) p ≡ some v
  unfolding exact
  exact_own p v rest = rw (same_bits_refl p) refl

  exact_other :
      (p : List Bool) (v : V) (rest : List (List Bool × V)) (q : List Bool)
      → same_bits q p ≡ false
      → exact ((p, v) ∷ rest) q ≡ exact rest q
  unfolding exact
  exact_other p v rest q h = rw h refl

  -- Over routes that are listed longest first, the longest match is the first one of the list that
  -- matches.
  pub longest-first_start :
      (n : ℕ) (routes : List (List Bool × V)) (bs : List Bool)
      → AtMost n routes
      → longest (exact routes) bs ≡ first_start routes bs
  unfolding first_start
  longest-first_start n [] bs h = longest-none bs (exact []) (λ q. unfold exact in refl)
  longest-first_start n ((p, v) ∷ rest) bs (h, below) = elim (Bool-cases (starts bs p)) [
    | inl here ↦ rw here (
        longest_take bs p v (exact ((p, v) ∷ rest)) here (exact_own p v rest)
          (λ q k. exact_long (length p) ((p, v) ∷ rest) q (omega arith, below) k))
    | inr other ↦ rw other (
        longest_skip bs p (exact ((p, v) ∷ rest)) (exact rest) other (exact_other p v rest)
        ∙ longest-first_start (length p) rest bs below)
  ]
