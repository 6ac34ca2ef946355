-- ===== src/Poptrie/Correct/Renaming.antt =====
-- The walk through a compacted trie, beside the walk through the old one.
use fast_socket_rs.Prelude.{
  ℕ, zero, suc, ◌≡◌, refl, ◌∙◌, inl, inr, Bool, true, false, Option, none, some, List, [], ◌∷◌,
  Bool-cases, ◌==◌,
}
use fast_socket_rs.Poptrie.Builder.{BinNode, node_at}
use fast_socket_rs.Poptrie.Builder.Compact.{Renamed, Kept}
use fast_socket_rs.Poptrie.Emitter.{effective, branches, has_children}
use fast_socket_rs.Poptrie.Emitter.Total.{Shallow}
use fast_socket_rs.Poptrie.Walk.{child_of, route}

module _ {ℓ} {V : Type ℓ} (values live : List V) (bin compacted : List BinNode)
    (kept : (i : ℕ) → Kept values live (node_at bin i) (node_at compacted i)) where
  child_of-Kept : (from : Option ℕ) (b : Bool) → child_of compacted from b ≡ child_of bin from b
  unfolding child_of
  child_of-Kept none b = refl
  child_of-Kept (some id) false = (kept id).zero_same
  child_of-Kept (some id) true = (kept id).one_same

  effective-Renamed :
      (from : Option ℕ) (e f : ℕ)
      → Renamed values live e f
      → Renamed values live (effective bin from e) (effective compacted from f)
  unfolding effective
  effective-Renamed none e f r = r
  effective-Renamed (some id) e f r =
      let k = (kept id).renamed in
      elim (Bool-cases ((node_at bin id).value == 0)) [
        | inl z ↦ rw (k.used, z) r
        | inr z ↦ rw (k.used, z) k
      ]

  pub route-Renamed :
      (bs : List Bool) (from : Option ℕ) (e f : ℕ)
      → Renamed values live e f
      → Renamed values live (route bin from e bs) (route compacted from f bs)
  unfolding route
  route-Renamed [] from e f r = effective-Renamed from e f r
  route-Renamed (b ∷ bs) from e f r =
      rw (child_of-Kept from b)
        (route-Renamed bs (child_of bin from b) _ _ (effective-Renamed from e f r))

  branches-Kept : (from : Option ℕ) → branches compacted from ≡ branches bin from
  unfolding branches has_children
  branches-Kept none = refl
  branches-Kept (some id) = rw ((kept id).zero_same, (kept id).one_same) refl

  pub Shallow-Kept : (n : ℕ) (from : Option ℕ) → Shallow bin n from → Shallow compacted n from
  Shallow-Kept zero from h = branches-Kept from ∙ h
  Shallow-Kept (suc n) from h = (
    rw (child_of-Kept from false) (Shallow-Kept n (child_of bin from false) h.0),
    rw (child_of-Kept from true) (Shallow-Kept n (child_of bin from true) h.1),
  )
