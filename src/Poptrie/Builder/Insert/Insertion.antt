-- ===== src/Poptrie/Builder/Insert/Insertion.antt =====
-- `insert` as a whole.
use fast_socket_rs.Prelude.{
  ℕ, ◌⊎◌, ◌+◌, ◌^◌, ◌≤◌, ◌<◌, ◌≡◌, refl, sym, ◌∙◌, ap, subst, inl, inr, Bool, true, none, some,
  List, ◌∷◌, length, arith, Bool-cases, length-append, length-set, if◌then◌else◌, leb,
}
use fast_socket_rs.Poptrie.{value}
use fast_socket_rs.Poptrie.Builder.{BinNode, node_at, walk_prefix, PoptrieBuilder, intern, insert}
use fast_socket_rs.Poptrie.Builder.Insert.Holds.{Holds, value-append, Interned, intern-Interned}
use fast_socket_rs.Poptrie.Builder.Insert.Values.{set_value, Labelled-set_value, stored-set_value}
use fast_socket_rs.Poptrie.Builder.Insert.Walk.{
  key_bits, length-key_bits, Walked, walk_prefix-Walked,
}
use fast_socket_rs.Poptrie.Builder.Reach.{stored, Labelled}
use fast_socket_rs.Poptrie.Longest.{exact, same_bits}

module _ {ℓ} {V : Type ℓ} (eq : Discrete V) (width prefix prefix_len : ℕ) (v : V)
    (routes : List (List Bool × V)) (b : PoptrieBuilder V) where
  -- The builder after `insert`: the route is there, and how far the arrays may have grown.
  pub record Inserted (out : PoptrieBuilder V) : Type ℓ where
    pub holds : Holds eq width ((key_bits width prefix 0 prefix_len, v) ∷ routes) out
    pub nodes_at_most : length out.bin ≤ length b.bin + prefix_len
    pub values_at_most : length out.values ≤ length b.values + 1

  -- The two parts of `insert`, and what they give.
  module _ (index : ℕ) (b' : PoptrieBuilder V) (walked : ℕ × List BinNode)
      (holds : Holds eq width routes b) (interned : Interned eq v b (index, b'))
      (w : Walked width prefix b'.bin 0 (key_bits width prefix 0 prefix_len) walked) where
    inserted_answers :
        (q : List Bool)
        → value b'.values
            (if same_bits q (key_bits width prefix 0 prefix_len) then index else stored walked.1 q)
          ≡ some (exact ((key_bits width prefix 0 prefix_len, v) ∷ routes) q)
    unfolding exact
    inserted_answers q = elim (Bool-cases (same_bits q (key_bits width prefix 0 prefix_len))) [
      | inl e ↦ rw e interned.named.names
      | inr e ↦
          rw (e, w.same_stored q, interned.same_bin, interned.appended)
            (value-append eq b.values interned.more (stored b.bin q) (holds.in_range q)
              ∙ holds.answers q)
    ]

    inserted_range :
        (q : List Bool)
        → (if same_bits q (key_bits width prefix 0 prefix_len) then index else stored walked.1 q)
          ≤ length b'.values
    inserted_range q = elim (Bool-cases (same_bits q (key_bits width prefix 0 prefix_len))) [
      | inl e ↦ rw e interned.named.in_range
      | inr e ↦
          rw (e, w.same_stored q, interned.same_bin, interned.appended)
            (omega (arith, holds.in_range q, length-append b.values interned.more))
    ]

    inserted : PoptrieBuilder V
    inserted = record b' { bin = set_value walked.1 walked.0 index w.inside }

    inserted-Holds : Holds eq width ((key_bits width prefix 0 prefix_len, v) ∷ routes) inserted
    unfolding inserted
    inserted-Holds =
        let at =
          stored-set_value walked.1 walked.0 index w.inside width w.path
            (key_bits width prefix 0 prefix_len) w.labelled w.reached in
        record {
          path = w.path;
          labelled = Labelled-set_value walked.1 walked.0 index w.inside width w.path w.labelled;
          index_right = interned.right;
          in_range = λ q. rw (at q) (inserted_range q);
          answers = λ q. rw (at q) (inserted_answers q);
        }

    inserted-Inserted : Inserted inserted
    unfolding inserted
    inserted-Inserted = record {
      holds = inserted-Holds;
      nodes_at_most = omega (
        arith,
        w.at_most,
        ap length interned.same_bin,
        length-key_bits width prefix prefix_len 0,
        length-set walked.1 walked.0 (record (node_at walked.1 walked.0) { value = index }),
      );
      values_at_most = omega (
        arith,
        ap length interned.appended,
        length-append b.values interned.more,
        interned.at_most_one,
      );
    }

    insert-eq :
        intern eq v b ≡ (index, b')
        → walk_prefix width prefix prefix_len 0 0 b'.bin ≡ walked
        → prefix_len ≤ width
        → insert eq width prefix prefix_len v b ≡ some inserted
    unfolding insert inserted
    insert-eq to_intern to_walk short =
        let ok : leb prefix_len width ≡ true = ground (arith, short) in
        rw (to_intern, to_walk, ok) refl

  pub insert-Inserted :
      Holds eq width routes b
      → length b.values < 2 ^ 32
      → length b.bin + width < 2 ^ 32
      → ((prefix_len ≤ width)
          × (out : PoptrieBuilder V) × (insert eq width prefix prefix_len v b ≡ some out)
          × Inserted out)
        ⊎ ((width < prefix_len) × (insert eq width prefix prefix_len v b ≡ none))
  unfolding insert
  insert-Inserted holds few_values few_nodes = elim (Bool-cases (leb prefix_len width)) [
    | inl short ↦
        let out = intern eq v b in
        let interned = intern-Interned eq v b holds.index_right few_values in
        let same_bin : b.bin ≡ out.1.bin = sym interned.same_bin in
        let w =
          walk_prefix-Walked width prefix prefix_len 0 0 out.1.bin holds.path
            (subst (λ bin. Labelled width bin holds.path) same_bin holds.labelled)
            (omega (arith, holds.labelled.nonempty, ap length interned.same_bin))
            (omega (arith, ap length holds.labelled.root)) (ground arith)
            (ground (arith, few_nodes, short, ap length interned.same_bin)) in
        inl (
          ground arith,
          inserted out.0 out.1 _ holds interned w,
          insert-eq out.0 out.1 _ holds interned w refl refl (ground arith),
          inserted-Inserted out.0 out.1 _ holds interned w,
        )
    | inr long ↦ inr (ground arith, rw long refl)
  ]
