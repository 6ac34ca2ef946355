-- ===== src/Poptrie/Emitter/Range.antt =====
-- What `fill_range` leaves at each index, and the blocks of slots that share a pattern.
use native.Mathlib.Nat.{mod-lt, div-add-mod}
use fast_socket_rs.Prelude.{
  ℕ, zero, suc, ◌+◌, ◌*◌, ◌/◌, ◌<◌, ◌≡◌, refl, ap, ◌&&◌, some, List, [], ◌∷◌, get_elem?, length,
  arith, ltb, leb, ◌==◌, if◌then◌else◌,
}
use fast_socket_rs.Poptrie.Emitter.{fill_range}

module _ {ℓ} {A : Type ℓ} where
  pub length-fill_range :
      (xs : List A) (start len : ℕ) (v : A) → length (fill_range xs start len v) ≡ length xs
  unfolding fill_range
  length-fill_range [] start len v = refl
  length-fill_range (x ∷ xs) zero zero v = refl
  length-fill_range (x ∷ xs) zero (suc len) v = ap suc (length-fill_range xs zero len v)
  length-fill_range (x ∷ xs) (suc start) len v = ap suc (length-fill_range xs start len v)

  pub get_elem?-fill_range :
      (xs : List A) (start len : ℕ) (v : A) (i : ℕ)
      → i < length xs
      → get_elem? (fill_range xs start len v) i
        ≡ (if leb start i && ltb i (start + len) then some v else get_elem? xs i)
  unfolding fill_range
  get_elem?-fill_range [] start len v i h = absurd (omega arith)
  get_elem?-fill_range (x ∷ xs) zero zero v i h = ground arith
  get_elem?-fill_range (x ∷ xs) zero (suc len) v zero h = ground arith
  get_elem?-fill_range (x ∷ xs) zero (suc len) v (suc i) h =
      ground (arith, get_elem?-fill_range xs zero len v i)
  get_elem?-fill_range (x ∷ xs) (suc start) len v zero h = ground arith
  get_elem?-fill_range (x ∷ xs) (suc start) len v (suc i) h =
      ground (arith, get_elem?-fill_range xs start len v i)

-- The indexes of block `p` are those that a division by its size takes to `p`.
pub in_block :
    (p size i : ℕ) → 0 < size → (leb (p * size) i && ltb i (p * size + size)) ≡ (i / size == p)
in_block p size i h = grind (arith, div-add-mod i size, mod-lt i h)
