-- ===== src/Poptrie/Builder/Insert/Values.antt =====
-- The last step of `insert`, which stores the value.
use fast_socket_rs.Prelude.{
  ℕ, ◌<◌, ◌≡◌, refl, sym, ◌∙◌, ap, inl, inr, Bool, true, false, Option, none, some, List, [], ◌∷◌,
  ◌++◌, length, set, arith, Option-cases, Bool-cases, length-set, get_or-set, ◌==◌, if◌then◌else◌,
  ==_iff, none≢some,
}
use fast_socket_rs.Prelude.Results.{eq_of_some}
use fast_socket_rs.Poptrie.Builder.{BinNode, empty, child, node_at}
use fast_socket_rs.Poptrie.Builder.Reach.{reach, own, stored, Labelled, label_of_reach}
use fast_socket_rs.Poptrie.Longest.{same_bits, same_bits_eq, same_bits_refl}
use fast_socket_rs.Poptrie.Walk.{child_of}

module _ (bin : List BinNode) (node index : ℕ) (inside : node < length bin) where
  -- The array after `self.bin[node].value = index`.
  abbrev pub set_value : List BinNode
  set_value = set bin node (record (node_at bin node) { value = index })

  node_at-set_value :
      (j : ℕ)
      → node_at set_value j
        ≡ (if j == node then record (node_at bin node) { value = index } else node_at bin j)
  node_at-set_value j = get_or-set bin node j _ empty inside

  child-set_value : (j : ℕ) (b : Bool) → child (node_at set_value j) b ≡ child (node_at bin j) b
  child-set_value j b = elim (Bool-cases (j == node)) [
    | inl e ↦
        let same : j ≡ node = (==_iff j node).0 e in
        let at_j : node_at set_value j ≡ record (node_at bin node) { value = index } =
          node_at-set_value j ∙ rw e refl in
        rw (at_j, same) (same_child (node_at bin node) b)
    | inr e ↦
        let at_j : node_at set_value j ≡ node_at bin j = node_at-set_value j ∙ rw e refl in
        rw at_j refl
  ]
    where
      same_child : (n : BinNode) (b : Bool) → child (record n { value = index }) b ≡ child n b
      same_child n true = refl
      same_child n false = refl

  child_of-set_value :
      (from : Option ℕ) (b : Bool) → child_of set_value from b ≡ child_of bin from b
  unfolding child_of
  child_of-set_value none b = refl
  child_of-set_value (some j) false = child-set_value j false
  child_of-set_value (some j) true = child-set_value j true

  reach-set_value : (q : List Bool) (from : Option ℕ) → reach set_value from q ≡ reach bin from q
  unfolding reach
  reach-set_value [] from = refl
  reach-set_value (b ∷ q) from =
      rw (child_of-set_value from b) (reach-set_value q (child_of bin from b))

  pub Labelled-set_value :
      (width : ℕ) (path : ℕ → List Bool) → Labelled width bin path → Labelled width set_value path
  Labelled-set_value width path l = record {
    nonempty =
        omega
          (arith, l.nonempty, length-set bin node (record (node_at bin node) { value = index }));
    root = l.root;
    edges = λ i c b h.
        let edge = l.edges i c b (sym (child-set_value i b) ∙ h) in
        (
          omega (arith, edge.0, length-set bin node (record (node_at bin node) { value = index })),
          edge.1,
        );
    depth = λ k h.
        l.depth k
          (omega (arith, h, length-set bin node (record (node_at bin node) { value = index })));
  }

  value-set_value :
      (j : ℕ) → (node_at set_value j).value ≡ (if j == node then index else (node_at bin j).value)
  value-set_value j = elim (Bool-cases (j == node)) [
    | inl e ↦
        let at_j : node_at set_value j ≡ record (node_at bin node) { value = index } =
          node_at-set_value j ∙ rw e refl in
        rw (at_j, e) refl
    | inr e ↦
        let at_j : node_at set_value j ≡ node_at bin j = node_at-set_value j ∙ rw e refl in
        rw (at_j, e) refl
  ]

  module _ (width : ℕ) (path : ℕ → List Bool) (p : List Bool) (l : Labelled width bin path)
      (to_node : reach bin (some 0) p ≡ some node) where
    other_prefix : (q : List Bool) → ¬ (reach bin (some 0) q ≡ some node) → same_bits q p ≡ false
    other_prefix q h = elim (Bool-cases (same_bits q p)) [
      | inl same ↦ let q_is_p : q ≡ p = same_bits_eq q p same in absurd (h (rw q_is_p to_node))
      | inr differs ↦ differs
    ]

    that_prefix : (q : List Bool) → reach bin (some 0) q ≡ some node → same_bits q p ≡ true
    that_prefix q h =
        let at_q = label_of_reach width bin path l q 0 node h in
        let at_p = label_of_reach width bin path l p 0 node to_node in
        let q_is_p : q ≡ p =
          sym (ap (λ r. r ++ q) l.root) ∙ sym at_q ∙ at_p ∙ ap (λ r. r ++ p) l.root in
        rw q_is_p (same_bits_refl p)

    -- The value is stored for the prefix that leads to the node, and for no other.
    pub stored-set_value :
        (q : List Bool) → stored set_value q ≡ (if same_bits q p then index else stored bin q)
    unfolding stored own
    stored-set_value q = elim (Option-cases (reach bin (some 0) q)) [
      | inl e ↦ rw (reach-set_value q (some 0), e, other_prefix q (λ h. none≢some (sym e ∙ h))) refl
      | inr (k, e) ↦ elim (Bool-cases (k == node)) [
        | inl at_node ↦
            let same : k ≡ node = (==_iff k node).0 at_node in
            rw (reach-set_value q (some 0), e, that_prefix q (e ∙ ap some same))
              (value-set_value k ∙ rw at_node refl)
        | inr other ↦
            let differs : ¬ (reach bin (some 0) q ≡ some node) =
              λ h. (let same : k ≡ node = eq_of_some (sym e ∙ h) in ground arith) in
            rw (reach-set_value q (some 0), e, other_prefix q differs)
              (value-set_value k ∙ rw other refl)
      ]
    ]
