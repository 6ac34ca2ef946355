-- ===== src/Poptrie/Builder/Insert/Holds.antt =====
-- The invariant of the builder, for `new` and `intern`.
use mathlib.Core.List.{append-nil}
use mathlib.Core.Logic.{ite}
use native.Mathlib.Nat.{mod-eq_of_lt}
use fast_socket_rs.Prelude.{
  ℕ, zero, suc, ◌+◌, ◌-◌, ◌^◌, ◌≤◌, ◌<◌, ◌≡◌, ◌≢◌, refl, sym, ◌∙◌, ap, subst, inl, inr, Bool, true,
  false, Option, some, List, [], ◌∷◌, ◌++◌, length, arith, Option-cases, Bool-cases, ◌⊎◌,
  length-append, get_elem?-append_last, get_elem?-append_left, ◌==◌,
}
use fast_socket_rs.Prelude.Results.{eq_of_some}
use fast_socket_rs.Prelude.Words.{as_u32}
use fast_socket_rs.Poptrie.{value}
use fast_socket_rs.Poptrie.Builder.{empty, child, node_at, PoptrieBuilder, new, find, intern}
use fast_socket_rs.Poptrie.Builder.Reach.{reach, own, stored, Labelled, reach-none}
use fast_socket_rs.Poptrie.Walk.{child_of}
use fast_socket_rs.Poptrie.Longest.{exact}

module _ {ℓ} {V : Type ℓ} (eq : Discrete V) where
  -- The encoding names this value.
  pub record Names (values : List V) (e : ℕ) (v : V) : Type ℓ where
    pub names : value values e ≡ some (some v)
    pub in_range : e ≤ length values
    pub nonzero : e ≢ 0

  pub record Holds (width : ℕ) (routes : List (List Bool × V)) (b : PoptrieBuilder V) : Type ℓ where
    pub path : ℕ → List Bool
    pub labelled : Labelled width b.bin path
    pub index_right : (v : V) (i : ℕ) → find eq v b.value_index ≡ some i → Names b.values i v
    pub in_range : (q : List Bool) → stored b.bin q ≤ length b.values
    pub answers : (q : List Bool) → value b.values (stored b.bin q) ≡ some (exact routes q)

  pub value-append :
      (values more : List V) (e : ℕ) → e ≤ length values → value (values ++ more) e ≡ value values e
  unfolding value
  value-append values more e h = elim (Bool-cases (e == 0)) [
    | inl z ↦ rw z refl
    | inr z ↦ let at = get_elem?-append_left values more (e - 1) (ground arith) in rw (z, at) refl
  ]

  Names-append :
      (values more : List V) (e : ℕ) (v : V) → Names values e v → Names (values ++ more) e v
  Names-append values more e v n = record {
    names = value-append values more e n.in_range ∙ n.names;
    in_range = omega (arith, n.in_range, length-append values more);
    nonzero = n.nonzero;
  }

  Names-last : (values : List V) (v : V) → Names (values ++ (v ∷ [])) (length values + 1) v
  unfolding value
  Names-last values v =
      let index : length values + 1 - 1 ≡ length values = omega arith in
      let new_test : (length values + 1 == 0) ≡ false = ground arith in
      record {
        names = rw (new_test, index, get_elem?-append_last values v (length values) refl) refl;
        in_range = omega (arith, length-append values (v ∷ []));
        nonzero = omega arith;
      }

  -- A value is interned: the index names it, and what was named before still is.
  pub record Interned (v : V) (b : PoptrieBuilder V) (out : ℕ × PoptrieBuilder V) : Type ℓ where
    pub named : Names out.1.values out.0 v
    pub same_bin : out.1.bin ≡ b.bin
    pub more : List V
    pub at_most_one : length more ≤ 1
    pub appended : out.1.values ≡ b.values ++ more
    pub right : (w : V) (i : ℕ) → find eq w out.1.value_index ≡ some i → Names out.1.values i w

  find_in :
      (v w : V) (index i : ℕ) (rest : Option ℕ) (d : Dec (v ≡ w))
      → ite d (some index) rest ≡ some i
      → ((v ≡ w) × (index ≡ i)) ⊎ (rest ≡ some i)
  find_in v w index i rest (yes p) h = inl (p, eq_of_some h)
  find_in v w index i rest (no _) h = inr h

  module _ (v : V) (b : PoptrieBuilder V)
      (right : (w : V) (i : ℕ) → find eq w b.value_index ≡ some i → Names b.values i w) where
    known : (i : ℕ) → find eq v b.value_index ≡ some i → Interned v b (i, b)
    known i e = record {
      named = right v i e;
      same_bin = refl;
      more = [];
      at_most_one = omega arith;
      appended = sym (append-nil b.values);
      right = right;
    }

    -- The builder after a value was appended.
    abbrev appended_value : ℕ → PoptrieBuilder V
    appended_value index = record b {
      values = b.values ++ (v ∷ []);
      value_index = (v, index) ∷ b.value_index;
    }

    right_after :
        (w : V) (i : ℕ)
        → find eq w ((v, length b.values + 1) ∷ b.value_index) ≡ some i
        → Names (b.values ++ (v ∷ [])) i w
    unfolding find
    right_after w i h =
        elim (find_in v w (length b.values + 1) i (find eq w b.value_index) (eq v w) h) [
          | inl (same, index) ↦ rw (← same, ← index) (Names-last b.values v)
          | inr older ↦ Names-append b.values (v ∷ []) i w (right w i older)
        ]

    fresh_value : Interned v b (length b.values + 1, appended_value (length b.values + 1))
    fresh_value = record {
      named = Names-last b.values v;
      same_bin = refl;
      more = v ∷ [];
      at_most_one = omega arith;
      appended = refl;
      right = right_after;
    }

    pub intern-Interned : length b.values < 2 ^ 32 → Interned v b (intern eq v b)
    unfolding intern
    intern-Interned fits = elim (Option-cases (find eq v b.value_index)) [
      | inl e ↦
          let index : as_u32 (length b.values) + 1 ≡ length b.values + 1 =
            ap (λ k. k + 1) (mod-eq_of_lt fits) in
          let same : intern eq v b ≡ (length b.values + 1, appended_value (length b.values + 1)) =
            rw (e, intern) (ap (λ k. (k, appended_value k)) index) in
          subst (Interned v b) (sym same) fresh_value
      | inr (i, e) ↦
          let same : intern eq v b ≡ (i, b) = rw (e, intern) refl in
          subst (Interned v b) (sym same) (known i e)
    ]

  stored-new : (q : List Bool) → stored ((new {V = V}).bin) q ≡ 0
  unfolding stored own reach new child_of
  stored-new [] = refl
  stored-new (false ∷ q) = rw (reach-none (empty ∷ []) q) refl
  stored-new (true ∷ q) = rw (reach-none (empty ∷ []) q) refl

  pub new-Holds : (width : ℕ) → Holds width [] new
  unfolding new value find exact
  new-Holds width = record {
    path = λ _. [];
    labelled = record {
      nonempty = omega arith;
      root = refl;
      edges = λ i c d h. absurd (no_child i c d h);
      depth = λ k h. omega arith;
    };
    index_right = λ v i h. cc;
    in_range = λ q. omega (arith, stored-new q);
    answers = λ q. rw (stored-new q) refl;
  }
    where
      no_child : (i c : ℕ) (d : Bool) → ¬ (child (node_at (empty ∷ []) i) d ≡ some c)
      no_child zero c false h = cc
      no_child zero c true h = cc
      no_child (suc i) c false h = cc
      no_child (suc i) c true h = cc
