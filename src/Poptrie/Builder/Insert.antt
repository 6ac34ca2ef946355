-- ===== src/Poptrie/Builder/Insert.antt =====
-- `add_child`: the array of nodes with a fresh one.
pub mod Walk
pub mod Values
pub mod Holds
pub mod Insertion
use mathlib.Core.List.{append-nil, append_assoc}
use native.Mathlib.Nat.{mod-eq_of_lt}
use fast_socket_rs.Prelude.{
  ℕ, zero, suc, ◌+◌, ◌-◌, ◌^◌, ◌≤◌, ◌<◌, ◌≡◌, ◌≢◌, refl, sym, ◌∙◌, ap, subst, inl, inr, Bool, true,
  false, Option, none, some, List, [], ◌∷◌, ◌++◌, length, get_or, set, arith, Bool-cases,
  Option-cases, none≢some, length-append, length-set, get_or-set, get_or-append_default, get_or_out,
  ◌⊎◌, ◌==◌, if◌then◌else◌, ==_iff, ltb, ltb→lt,
}
use fast_socket_rs.Prelude.Words.{as_u32}
use fast_socket_rs.Poptrie.Key.{bit}
use fast_socket_rs.Poptrie.Builder.{
  BinNode, empty, child, set_child, node_at, add_child, walk_prefix,
}
use fast_socket_rs.Poptrie.Walk.{child_of}
use fast_socket_rs.Poptrie.Builder.Reach.{
  reach, own, stored, Labelled, child_of-child, label_of_reach, reach_inside, reach-none,
}
use fast_socket_rs.Prelude.Results.{eq_of_some}

child-set_same : (n : BinNode) (b : Bool) (c : ℕ) → child (set_child n b c) b ≡ some c
child-set_same n false c = refl
child-set_same n true c = refl

-- Two bits agree, or setting the child of one leaves that of the other.
child-set : (n : BinNode) (b d : Bool) (c : ℕ) → (b ≡ d) ⊎ (child (set_child n b c) d ≡ child n d)
child-set n false false c = inl refl
child-set n false true c = inr refl
child-set n true false c = inr refl
child-set n true true c = inl refl

value-set_child : (n : BinNode) (b : Bool) (c : ℕ) → (set_child n b c).value ≡ n.value
value-set_child n false c = refl
value-set_child n true c = refl

child-empty : (b : Bool) → child empty b ≡ none
child-empty false = refl
child-empty true = refl

module _ (bin : List BinNode) (node : ℕ) (b : Bool) (inside : node < length bin)
    (fits : length bin < 2 ^ 32) where
  pub length-add_child : length (add_child bin node b) ≡ length bin + 1
  unfolding add_child
  length-add_child = length-set (bin ++ (empty ∷ [])) node _ ∙ length-append bin (empty ∷ [])

  -- Every node of the grown array.
  node_at-add_child :
      (j : ℕ)
      → node_at (add_child bin node b) j
        ≡ (if j == node then set_child (node_at bin node) b (length bin) else node_at bin j)
  unfolding add_child
  node_at-add_child j =
      let at_end : as_u32 (length bin) ≡ length bin = mod-eq_of_lt fits in
      rw at_end (
        get_or-set (bin ++ (empty ∷ [])) node j _ empty
          (omega (arith, length-append bin (empty ∷ [])))
        ∙ rw (get_or-append_default bin node empty, get_or-append_default bin j empty))

  value-add_child : (i : ℕ) → (node_at (add_child bin node b) i).value ≡ (node_at bin i).value
  value-add_child i = elim (Bool-cases (i == node)) [
    | inl e ↦
        let same : i ≡ node = (==_iff i node).0 e in
        ap (λ n. n.value) (node_at-add_child i)
        ∙ rw (e, same) (value-set_child (node_at bin node) b (length bin))
    | inr e ↦ ap (λ n. n.value) (node_at-add_child i) ∙ rw e refl
  ]

  -- One child is new, the others are as before.
  child-add_child :
      (i : ℕ) (d : Bool)
      → (child (node_at (add_child bin node b) i) d ≡ child (node_at bin i) d)
        ⊎ ((i ≡ node) × (b ≡ d) × (child (node_at (add_child bin node b) i) d ≡ some (length bin)))
  child-add_child i d = elim (Bool-cases (i == node)) [
    | inl e ↦
        let same : i ≡ node = (==_iff i node).0 e in
        let at_i : node_at (add_child bin node b) i ≡ set_child (node_at bin node) b (length bin) =
          node_at-add_child i ∙ rw e refl in
        elim (child-set (node_at bin node) b d (length bin)) [
          | inl branch ↦
              inr (
                same,
                branch,
                rw (at_i, ← branch) (child-set_same (node_at bin node) b (length bin)),
              )
          | inr kept ↦ inl (rw (at_i, same) kept)
        ]
    | inr e ↦
        let at_i : node_at (add_child bin node b) i ≡ node_at bin i =
          node_at-add_child i ∙ rw e refl in
        inl (rw at_i refl)
  ]

  new_child : (d : Bool) → child (node_at (add_child bin node b) (length bin)) d ≡ none
  new_child d =
      let other : (length bin == node) ≡ false = ground (arith, inside) in
      let at_new : node_at (add_child bin node b) (length bin) ≡ empty =
        node_at-add_child (length bin)
        ∙ rw other (get_or_out bin (length bin) empty (omega arith)) in
      rw at_new (child-empty d)

  pub child_of_node : child (node_at (add_child bin node b) node) b ≡ some (length bin)
  child_of_node =
      let same : (node == node) ≡ true = ground arith in
      let at_node : node_at (add_child bin node b) node
          ≡ set_child (node_at bin node) b (length bin) =
        node_at-add_child node ∙ rw same refl in
      rw at_node (child-set_same (node_at bin node) b (length bin))

  module _ (no_child : child (node_at bin node) b ≡ none) where
    pub child_kept :
        (i c : ℕ) (d : Bool)
        → child (node_at bin i) d ≡ some c
        → child (node_at (add_child bin node b) i) d ≡ some c
    child_kept i c d h = elim (child-add_child i d) [
      | inl same ↦ same ∙ h
      | inr (at_node, branch, _) ↦ absurd (none≢some (sym no_child ∙ rw (at_node, ← branch) at h))
    ]

    pub reach_kept :
        (bs : List Bool) (i k : ℕ)
        → reach bin (some i) bs ≡ some k
        → reach (add_child bin node b) (some i) bs ≡ some k
    unfolding reach
    reach_kept [] i k h = h
    reach_kept (d ∷ bs) i k h = elim (Option-cases (child_of bin (some i) d)) [
      | inl e ↦ absurd (none≢some (sym (ap (λ n. reach bin n bs) e ∙ reach-none bin bs) ∙ h))
      | inr (c, e) ↦
          let kept = child_kept i c d (sym (child_of-child bin i d) ∙ e) in
          rw (child_of-child (add_child bin node b) i d, kept) (reach_kept bs c k (rw e at h))
    ]

    own_new :
        (bs : List Bool)
        → own (add_child bin node b) (reach (add_child bin node b) (some (length bin)) bs) ≡ 0
    unfolding reach own
    own_new [] =
        let at_end : node_at bin (length bin) ≡ empty =
          get_or_out bin (length bin) empty (omega arith) in
        value-add_child (length bin) ∙ rw at_end refl
    own_new (d ∷ bs) =
        rw
          (
            child_of-child (add_child bin node b) (length bin) d,
            new_child d,
            reach-none (add_child bin node b) bs,
          )
          refl

    own_kept :
        (width : ℕ) (path : ℕ → List Bool)
        → Labelled width bin path
        → (bs : List Bool) (i : ℕ) → i < length bin
        → own (add_child bin node b) (reach (add_child bin node b) (some i) bs)
          ≡ own bin (reach bin (some i) bs)
    unfolding reach own
    own_kept width path l [] i h = value-add_child i
    own_kept width path l (d ∷ bs) i h =
        let grown = add_child bin node b in
        elim (Option-cases (child_of bin (some i) d)) [
          | inl e ↦ elim (child-add_child i d) [
            | inl same ↦
                rw
                  (
                    child_of-child grown i d,
                    same,
                    ← child_of-child bin i d,
                    e,
                    reach-none grown bs,
                    reach-none bin bs,
                  )
                  refl
            | inr (_, _, fresh) ↦
                rw (child_of-child grown i d, fresh, e, reach-none bin bs) (own_new bs)
          ]
          | inr (c, e) ↦
              let at_i = sym (child_of-child bin i d) ∙ e in
              rw (child_of-child grown i d, child_kept i c d at_i, e)
                (own_kept width path l bs c (l.edges i c d at_i).0)
        ]

    pub stored-add_child :
        (width : ℕ) (path : ℕ → List Bool)
        → Labelled width bin path
        → (bs : List Bool) → stored (add_child bin node b) bs ≡ stored bin bs
    unfolding stored
    stored-add_child width path l bs = own_kept width path l bs 0 l.nonempty

  module _ (width : ℕ) (path : ℕ → List Bool) (l : Labelled width bin path)
      (room : length (path node) < width) where
    unfoldable pub label : ℕ → List Bool
    label k = if k == length bin then path node ++ (b ∷ []) else path k

    pub label_old : (k : ℕ) → k < length bin → label k ≡ path k
    unfolding label
    label_old k h = let other : (k == length bin) ≡ false = ground (arith, h) in rw other refl

    pub label_new : label (length bin) ≡ path node ++ (b ∷ [])
    unfolding label
    label_new = let same : (length bin == length bin) ≡ true = ground arith in rw same refl

    inside_of_child : (i c : ℕ) (d : Bool) → child (node_at bin i) d ≡ some c → i < length bin
    inside_of_child i c d h = elim (Bool-cases (ltb i (length bin))) [
      | inl small ↦ ltb→lt i (length bin) small
      | inr large ↦
          let outside : node_at bin i ≡ empty = get_or_out bin i empty (ground arith) in
          absurd (none≢some (sym (rw outside (child-empty d)) ∙ h))
    ]

    edges-add_child :
        (i c : ℕ) (d : Bool)
        → child (node_at (add_child bin node b) i) d ≡ some c
        → (c < length (add_child bin node b)) × (label c ≡ label i ++ (d ∷ []))
    edges-add_child i c d h = elim (child-add_child i d) [
      | inl same ↦
          let old = sym same ∙ h in
          let edge = l.edges i c d old in
          (
            omega (arith, edge.0, length-add_child),
            label_old c edge.0
                ∙ edge.1
                ∙ ap (λ p. p ++ (d ∷ [])) (sym (label_old i (inside_of_child i c d old))),
          )
      | inr (at_node, branch, fresh) ↦
          let same : c ≡ length bin = eq_of_some (sym h ∙ fresh) in
          (
            omega (arith, same, length-add_child),
            rw (same, at_node, ← branch)
                (label_new ∙ ap (λ p. p ++ (b ∷ [])) (sym (label_old node inside))),
          )
    ]

    depth-add_child : (k : ℕ) → k < length (add_child bin node b) → length (label k) ≤ width
    depth-add_child k h = elim (Bool-cases (k == length bin)) [
      | inl e ↦
          let same : k ≡ length bin = (==_iff k (length bin)).0 e in
          rw same (omega (arith, ap length label_new, length-append (path node) (b ∷ [])))
      | inr e ↦
          let old : k < length bin = ground (arith, h, length-add_child) in
          rw (label_old k old) (l.depth k old)
    ]

    pub Labelled-add_child : Labelled width (add_child bin node b) label
    Labelled-add_child = record {
      nonempty = omega (arith, length-add_child);
      root = label_old 0 l.nonempty ∙ l.root;
      edges = edges-add_child;
      depth = depth-add_child;
    }
