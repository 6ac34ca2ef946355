-- ===== src/Poptrie/Builder/Reach.antt =====
-- The binary trie as a map from prefixes to value encodings, and the labels that make it a tree.
use mathlib.Core.List.{append-nil, append_assoc}
use fast_socket_rs.Prelude.{
  Option-cases, length-append, none≢some, ℕ, zero, suc, ◌+◌, ◌≤◌, ◌<◌, ◌≡◌, refl, sym, ◌∙◌, ap, inl,
  inr, Bool, true, false, Option, none, some, List, [], ◌∷◌, ◌++◌, length, arith, ◌==◌,
  if◌then◌else◌,
}
use fast_socket_rs.Poptrie.Builder.{BinNode, child, node_at}
use fast_socket_rs.Poptrie.Emitter.{effective, branches, has_children}
use fast_socket_rs.Poptrie.Emitter.Total.{Closed, Shallow}
use fast_socket_rs.Poptrie.Walk.{child_of, route}

module _ (bin : List BinNode) where
  -- The node that a prefix leads to.
  unfoldable pub reach : Option ℕ → List Bool → Option ℕ
  unfolding child_of
  reach from [] = from
  reach from (b ∷ bs) = reach (child_of bin from b) bs

  -- The value encoding of the prefix that ends at a node, 0 for none.
  unfoldable pub own : Option ℕ → ℕ
  own none = 0
  own (some id) = (node_at bin id).value

  -- The value encoding stored for a prefix.
  unfoldable pub stored : List Bool → ℕ
  unfolding reach own
  stored bs = own (reach (some 0) bs)

  pub reach-none : (bs : List Bool) → reach none bs ≡ none
  unfolding reach
  reach-none [] = refl
  reach-none (b ∷ bs) = reach-none bs

-- The last value above 0 along the prefixes of the given bits, the shortest prefix first.
unfoldable pub last_value : (List Bool → ℕ) → ℕ → List Bool → ℕ
last_value f e [] = if f [] == 0 then e else f []
last_value f e (b ∷ bs) = last_value (λ q. f (b ∷ q)) (if f [] == 0 then e else f []) bs

effective-own :
    (bin : List BinNode) (from : Option ℕ) (e : ℕ)
    → effective bin from e ≡ (if own bin from == 0 then e else own bin from)
unfolding effective own
effective-own bin none e = refl
effective-own bin (some id) e = refl

route-last_value_from :
    (bin : List BinNode) (from : Option ℕ) (e : ℕ) (bs : List Bool)
    → route bin from e bs ≡ last_value (λ q. own bin (reach bin from q)) e bs
unfolding route last_value reach
route-last_value_from bin from e [] = effective-own bin from e
route-last_value_from bin from e (b ∷ bs) =
    route-last_value_from bin (child_of bin from b) (effective bin from e) bs
    ∙ ap (λ k. last_value (λ q. own bin (reach bin (child_of bin from b) q)) k bs)
        (effective-own bin from e)

-- The walk of the reference takes the value stored for the longest prefix that has one.
pub route-last_value :
    (bin : List BinNode) (bs : List Bool) → route bin (some 0) 0 bs ≡ last_value (stored bin) 0 bs
unfolding stored
route-last_value bin bs = route-last_value_from bin (some 0) 0 bs

-- Each node's label is the prefix that leads to it. So no two paths meet, and none is longer than
-- the key.
pub record Labelled (width : ℕ) (bin : List BinNode) (path : ℕ → List Bool) : Type 0 where
  pub nonempty : 0 < length bin
  pub root : path 0 ≡ []
  pub edges :
      (i c : ℕ) (b : Bool)
      → child (node_at bin i) b ≡ some c
      → (c < length bin) × (path c ≡ path i ++ (b ∷ []))
  pub depth : (k : ℕ) → k < length bin → length (path k) ≤ width

pub child_of-child :
    (bin : List BinNode) (i : ℕ) (b : Bool) → child_of bin (some i) b ≡ child (node_at bin i) b
unfolding child_of
child_of-child bin i false = refl
child_of-child bin i true = refl

module _ (width : ℕ) (bin : List BinNode) (path : ℕ → List Bool) (l : Labelled width bin path) where
  -- The label of a node that a path leads to.
  pub label_of_reach :
      (bs : List Bool) (i k : ℕ) → reach bin (some i) bs ≡ some k → path k ≡ path i ++ bs
  unfolding reach
  label_of_reach [] i k h = let same : i ≡ k = cc in rw (← same) (sym (append-nil (path i)))
  label_of_reach (b ∷ bs) i k h = elim (Option-cases (child_of bin (some i) b)) [
    | inl e ↦ absurd (none≢some (sym (ap (λ n. reach bin n bs) e ∙ reach-none bin bs) ∙ h))
    | inr (c, e) ↦
        let edge = l.edges i c b (sym (child_of-child bin i b) ∙ e) in
        label_of_reach bs c k (rw e at h)
        ∙ ap (λ p. p ++ bs) edge.1
        ∙ append_assoc (path i) (b ∷ []) bs
  ]

  -- A node that a path leads to is in the array.
  pub reach_inside :
      (bs : List Bool) (i k : ℕ) → i < length bin → reach bin (some i) bs ≡ some k → k < length bin
  unfolding reach
  reach_inside [] i k inside h = let same : i ≡ k = cc in rw (← same) inside
  reach_inside (b ∷ bs) i k inside h = elim (Option-cases (child_of bin (some i) b)) [
    | inl e ↦ absurd (none≢some (sym (ap (λ n. reach bin n bs) e ∙ reach-none bin bs) ∙ h))
    | inr (c, e) ↦
        reach_inside bs c k (l.edges i c b (sym (child_of-child bin i b) ∙ e)).0 (rw e at h)
  ]

  no_child_too_deep : (i : ℕ) (b : Bool) → width ≤ length (path i) → child (node_at bin i) b ≡ none
  no_child_too_deep i b h = elim (Option-cases (child (node_at bin i) b)) [
    | inl e ↦ e
    | inr (c, e) ↦
        let edge = l.edges i c b e in
        absurd (omega (arith, l.depth c edge.0, ap length edge.1, length-append (path i) (b ∷ [])))
  ]

  Shallow-none : (n : ℕ) → Shallow bin n none
  unfolding branches child_of
  Shallow-none zero = refl
  Shallow-none (suc n) = (Shallow-none n, Shallow-none n)

  Shallow-below :
      (n i : ℕ) (b : Bool)
      → ((c : ℕ) → width ≤ length (path c) + n → Shallow bin n (some c))
      → width ≤ length (path i) + suc n
      → Shallow bin n (child_of bin (some i) b)
  Shallow-below n i b below h = elim (Option-cases (child_of bin (some i) b)) [
    | inl e ↦ rw e (Shallow-none n)
    | inr (c, e) ↦
        let edge = l.edges i c b (sym (child_of-child bin i b) ∙ e) in
        rw e (below c (omega (arith, ap length edge.1, length-append (path i) (b ∷ []))))
  ]

  -- So the trie is no deeper than the key.
  pub Labelled-Shallow : (n i : ℕ) → width ≤ length (path i) + n → Shallow bin n (some i)
  unfolding branches has_children
  Labelled-Shallow zero i h =
      ground
        (arith, no_child_too_deep i false (omega arith), no_child_too_deep i true (omega arith))
  Labelled-Shallow (suc n) i h = (
    Shallow-below n i false (Labelled-Shallow n) h,
    Shallow-below n i true (Labelled-Shallow n) h,
  )

  pub Labelled-Closed : Closed bin
  Labelled-Closed i c b e = (l.edges i c b (sym (child_of-child bin i b) ∙ e)).0
