-- ===== src/Prelude/Maps.antt =====
-- Hash maps as association lists under a test of keys, each key once.
use fast_socket_rs.Prelude.{
  ◌≡◌, refl, Bool, true, false, Option, none, some, List, [], ◌∷◌, if◌then◌else◌, Bool-cases, inl,
  inr,
}

module _ {ℓ κ} {K : Type ℓ} {V : Type κ} (same : K → K → Bool) where
  unfoldable pub lookup : K → List (K × V) → Option V
  lookup k [] = none
  lookup k ((j, v) ∷ m) = if same j k then some v else lookup k m

  unfoldable pub insert : K → V → List (K × V) → List (K × V)
  insert k v [] = (k, v) ∷ []
  insert k v ((j, w) ∷ m) =
      let rest = insert k v m in if same j k then (j, v) ∷ m else (j, w) ∷ rest

  pub lookup-insert_self :
      (k : K) (v : V) (m : List (K × V)) → same k k ≡ true → lookup k (insert k v m) ≡ some v
  unfolding lookup insert
  lookup-insert_self k v [] h = rw h refl
  lookup-insert_self k v ((j, w) ∷ m) h = elim (Bool-cases (same j k)) [
    | inl e ↦ rw (e, e) refl
    | inr e ↦ rw (e, e) (lookup-insert_self k v m h)
  ]

  pub lookup-insert_ne :
      (k i : K) (v : V) (m : List (K × V))
      → same k i ≡ false
      → ((j : K) → same j k ≡ true → same j i ≡ false)
      → lookup i (insert k v m) ≡ lookup i m
  unfolding lookup insert
  lookup-insert_ne k i v [] h apart = rw h refl
  lookup-insert_ne k i v ((j, w) ∷ m) h apart = elim (Bool-cases (same j k)) [
    | inl e ↦ rw (e, apart j e) refl
    | inr e ↦ elim (Bool-cases (same j i)) [
      | inl d ↦ rw (e, d) refl
      | inr d ↦ rw (e, d) (lookup-insert_ne k i v m h apart)
    ]
  ]
