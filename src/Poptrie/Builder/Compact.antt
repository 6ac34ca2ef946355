-- ===== src/Poptrie/Builder/Compact.antt =====
-- `compact_live_values` of build.rs, and how it renames value encodings.
use native.Mathlib.Nat.{mod-eq_of_lt}
use mathlib.Core.List.{append_assoc, append-nil}
use fast_socket_rs.Prelude.{
  ℕ, zero, suc, ◌+◌, ◌-◌, ◌^◌, ◌≤◌, ◌<◌, ◌≡◌, ◌≢◌, refl, sym, ◌∙◌, ap, subst, inl, inr, true, false,
  some, List, [], ◌∷◌, ◌++◌, length, get_elem?, set, replicate, arith, Bool-cases, length-append,
  get_elem?-set, get_elem?-append_left, get_elem?-append_last, length-set, ◌==◌, ==_iff,
  lt_of_get_elem?,
}
use fast_socket_rs.Prelude.Results.{>>=-eq-some, eq_of_some}
use fast_socket_rs.Prelude.Words.{as_u32}
use fast_socket_rs.Poptrie.{value}
use fast_socket_rs.Poptrie.Builder.{
  BinNode, node_at, compact_node, compact_nodes, compact_live_values,
}

module _ {ℓ} {V : Type ℓ} (values : List V) where
  -- A new encoding names in `live` what the old one names in `values`.
  pub record Renamed (live : List V) (old new : ℕ) : Type ℓ where
    pub same_value : value live new ≡ value values old
    pub bounded : new ≤ length live
    pub used : (new == 0) ≡ (old == 0)

  -- An array entry after compaction.
  pub record Kept (live : List V) (n m : BinNode) : Type ℓ where
    pub zero_same : m.zero_child ≡ n.zero_child
    pub one_same : m.one_child ≡ n.one_child
    pub renamed : Renamed live n.value m.value

  -- The map from old to new encodings: those found so far are right.
  abbrev Remap : List ℕ → List V → Type ℓ
  Remap remap live =
      (old new : ℕ) → get_elem? remap old ≡ some new → new ≢ 0 → old ≢ 0 → Renamed live old new

  record Round (n : BinNode) (live : List V) (out : BinNode × List ℕ × List V) : Type ℓ where
    remap_right : Remap out.1 out.2
    kept : Kept out.2 n out.0
    added : List V
    appended : out.2 ≡ live ++ added

  value-append :
      (live added : List V) (e : ℕ) → e ≤ length live → value (live ++ added) e ≡ value live e
  unfolding value
  value-append live added e h = elim (Bool-cases (e == 0)) [
    | inl z ↦ rw z refl
    | inr z ↦ let at = get_elem?-append_left live added (e - 1) (ground arith) in rw (z, at) refl
  ]

  Renamed-append :
      (live added : List V) (old new : ℕ) → Renamed live old new → Renamed (live ++ added) old new
  Renamed-append live added old new r = record {
    same_value = value-append live added new r.bounded ∙ r.same_value;
    bounded = omega (arith, r.bounded, length-append live added);
    used = r.used;
  }

  pub value-zero : (live : List V) → Renamed live 0 0
  unfolding value
  value-zero live = record { same_value = refl; bounded = omega arith; used = refl }

  value-append_last :
      (live : List V) (v : V) (old : ℕ)
      → old ≢ 0
      → get_elem? values (old - 1) ≡ some v
      → Renamed (live ++ (v ∷ [])) old (length live + 1)
  unfolding value
  value-append_last live v old nonzero at_old =
      let index : length live + 1 - 1 ≡ length live = omega arith in
      let new_test : (length live + 1 == 0) ≡ false = ground arith in
      let old_test : (old == 0) ≡ false = ground arith in
      record {
        same_value =
            rw (new_test, old_test, index, at_old, get_elem?-append_last live v (length live) refl)
              refl;
        bounded = omega (arith, length-append live (v ∷ []));
        used = new_test ∙ sym old_test;
      }

  module _ (n : BinNode) (remap : List ℕ) (live : List V) (right : Remap remap live)
      (fits : length live < 2 ^ 32) where
    set_remap :
        (v : V) (old new : ℕ)
        → Renamed (live ++ (v ∷ [])) n.value (length live + 1)
        → get_elem? (set remap n.value (length live + 1)) old ≡ some new
        → new ≢ 0
        → old ≢ 0
        → Renamed (live ++ (v ∷ [])) old new
    set_remap v old new renamed at_old new_nonzero old_nonzero =
        let at_set = get_elem?-set remap n.value old (length live + 1) (
          subst (λ k. old < k) (length-set remap n.value (length live + 1))
            (lt_of_get_elem? _ old at_old)) in
        elim (Bool-cases (old == n.value)) [
          | inl e ↦
              let same_old : old ≡ n.value = (==_iff old n.value).0 e in
              let same_new : length live + 1 ≡ new = eq_of_some (sym (rw e at at_set) ∙ at_old) in
              rw (same_old, ← same_new) renamed
          | inr e ↦
              Renamed-append live (v ∷ []) old new
                (right old new (sym (rw e at at_set) ∙ at_old) new_nonzero old_nonzero)
        ]

    first_seen :
        (v : V) (known : ℕ)
        → n.value ≢ 0
        → get_elem? remap n.value ≡ some known
        → known ≡ 0
        → get_elem? values (n.value - 1) ≡ some v
        → Round n live (
          record n { value = as_u32 (length live) + 1 },
          set remap n.value (as_u32 (length live) + 1),
          live ++ (v ∷ []),
        )
    first_seen v known nonzero at_remap none_yet at_value =
        let index : as_u32 (length live) ≡ length live = mod-eq_of_lt fits in
        let renamed = value-append_last live v n.value nonzero at_value in
        rw index (record {
          remap_right = λ old new at_old new_nonzero old_nonzero.
              set_remap v old new renamed at_old new_nonzero old_nonzero;
          kept = record { zero_same = refl; one_same = refl; renamed = renamed };
          added = v ∷ [];
          appended = refl;
        })

    kept_live : (m : BinNode) → Kept live n m → Round n live (m, remap, live)
    kept_live m k = record {
      remap_right = right;
      kept = k;
      added = [];
      appended = sym (append-nil live);
    }

    unchanged : (n.value == 0) ≡ true → Round n live (n, remap, live)
    unchanged z =
        let is_zero : n.value ≡ 0 = (==_iff n.value 0).0 z in
        kept_live n
          (record { zero_same = refl; one_same = refl; renamed = rw is_zero (value-zero live) })

    seen :
        (known : ℕ)
        → known ≢ 0
        → n.value ≢ 0
        → get_elem? remap n.value ≡ some known
        → Round n live (record n { value = known }, remap, live)
    seen known known_nonzero nonzero at_remap =
        kept_live (record n { value = known })
          (record {
            zero_same = refl;
            one_same = refl;
            renamed = right n.value known at_remap known_nonzero nonzero;
          })

    compact_node-Round :
        (out : BinNode × List ℕ × List V)
        → compact_node values n remap live ≡ some out
        → Round n live out
    unfolding compact_node
    compact_node-Round out h = elim (Bool-cases (n.value == 0)) [
      | inl z ↦ subst (Round n live) (eq_of_some (sym (rw z refl) ∙ h)) (unchanged z)
      | inr z ↦
          let (known, at_remap, h') = >>=-eq-some (get_elem? remap n.value) _ (rw z at h) in
          elim (Bool-cases (known == 0)) [
            | inl k ↦
                let (v, at_value, h'') =
                  >>=-eq-some (get_elem? values (n.value - 1)) _ (rw k at h') in
                subst (Round n live) (eq_of_some h'')
                  (first_seen v known (ground arith) at_remap (ground arith) at_value)
            | inr k ↦
                subst (Round n live) (eq_of_some (rw k at h'))
                  (seen known (ground arith) (ground arith) at_remap)
          ]
    ]

  compact_node-grows :
      (n : BinNode) (remap : List ℕ) (live : List V) (out : BinNode × List ℕ × List V)
      → compact_node values n remap live ≡ some out
      → length live ≤ length out.2
  unfolding compact_node
  compact_node-grows n remap live out h = elim (Bool-cases (n.value == 0)) [
    | inl z ↦ omega (arith, ap (λ p. length p.2) (eq_of_some (rw z at h)))
    | inr z ↦
        let (known, at_remap, h') = >>=-eq-some (get_elem? remap n.value) _ (rw z at h) in
        elim (Bool-cases (known == 0)) [
          | inl k ↦
              let (v, at_value, h'') =
                >>=-eq-some (get_elem? values (n.value - 1)) _ (rw k at h') in
              omega (arith, ap (λ p. length p.2) (eq_of_some h''), length-append live (v ∷ []))
          | inr k ↦ omega (arith, ap (λ p. length p.2) (eq_of_some (rw k at h')))
        ]
  ]

  compact_nodes-grows :
      (ns : List BinNode) (remap : List ℕ) (live : List V) (out : List BinNode × List V)
      → compact_nodes values ns remap live ≡ some out
      → length live ≤ length out.1
  unfolding compact_nodes
  compact_nodes-grows [] remap live out h = ground arith
  compact_nodes-grows (n ∷ ns) remap live out h =
      let (first, h1, h2) = >>=-eq-some (compact_node values n remap live) _ h in
      let (rest, h3, h4) = >>=-eq-some (compact_nodes values ns first.1 first.2) _ h2 in
      let same : length rest.1 ≡ length out.1 = ap (λ p. length p.1) (eq_of_some h4) in
      omega (
        arith,
        compact_node-grows n remap live first h1,
        compact_nodes-grows ns first.1 first.2 rest h3,
      )

  record Rounds (ns : List BinNode) (live : List V) (out : List BinNode × List V) : Type ℓ where
    all_kept : (i : ℕ) → Kept out.1 (node_at ns i) (node_at out.0 i)
    all_added : List V
    all_appended : out.1 ≡ live ++ all_added

  Kept-append : (live added : List V) (n m : BinNode) → Kept live n m → Kept (live ++ added) n m
  Kept-append live added n m k = record {
    zero_same = k.zero_same;
    one_same = k.one_same;
    renamed = Renamed-append live added n.value m.value k.renamed;
  }

  cons-Rounds :
      (n : BinNode) (ns : List BinNode) (live : List V) (first : BinNode × List ℕ × List V)
      (rest : List BinNode × List V)
      → Round n live first
      → Rounds ns first.2 rest
      → Rounds (n ∷ ns) live (first.0 ∷ rest.0, rest.1)
  cons-Rounds n ns live first rest r rs = record {
    all_kept = λ i.
        elim i as (λ k. Kept rest.1 (node_at (n ∷ ns) k) (node_at (first.0 ∷ rest.0) k)) [
          | zero ↦
              subst (λ l. Kept l n first.0) (sym rs.all_appended)
                (Kept-append first.2 rs.all_added n first.0 r.kept)
          | suc j ↦ rs.all_kept j
        ];
    all_added = r.added ++ rs.all_added;
    all_appended =
        rs.all_appended
        ∙ ap (λ l. l ++ rs.all_added) r.appended
        ∙ append_assoc live r.added rs.all_added;
  }

  compact_nodes-Rounds :
      (ns : List BinNode) (remap : List ℕ) (live : List V) (out : List BinNode × List V)
      → Remap remap live
      → length out.1 < 2 ^ 32
      → compact_nodes values ns remap live ≡ some out
      → Rounds ns live out
  unfolding compact_nodes
  compact_nodes-Rounds [] remap live out right fits h =
      subst (Rounds [] live) (eq_of_some h) (record {
        all_kept = λ i. record { zero_same = refl; one_same = refl; renamed = value-zero live };
        all_added = [];
        all_appended = sym (append-nil live);
      })
  compact_nodes-Rounds (n ∷ ns) remap live out right fits h =
      let (first, h1, h2) = >>=-eq-some (compact_node values n remap live) _ h in
      let (rest, h3, h4) = >>=-eq-some (compact_nodes values ns first.1 first.2) _ h2 in
      let fits_rest : length rest.1 < 2 ^ 32 = rw (ap (λ p. length p.1) (eq_of_some h4)) fits in
      let round =
        compact_node-Round n remap live right
          (omega (
            arith,
            compact_node-grows n remap live first h1,
            compact_nodes-grows ns first.1 first.2 rest h3,
          ))
          first h1 in
      let rounds = compact_nodes-Rounds ns first.1 first.2 rest round.remap_right fits_rest h3 in
      subst (Rounds (n ∷ ns) live) (eq_of_some h4) (cons-Rounds n ns live first rest round rounds)

  get_elem?-replicate : (n i : ℕ) {k : ℕ} → get_elem? (replicate n 0) i ≡ some k → k ≡ 0
  get_elem?-replicate zero i h = cc
  get_elem?-replicate (suc n) zero h = sym (eq_of_some h)
  get_elem?-replicate (suc n) (suc i) h = get_elem?-replicate n i h

  -- If compaction succeeds with fewer than 2^32 live values, every node keeps its children, and
  -- its new value encoding names in the live values what the old one named, lies within them, and
  -- is 0 exactly if the old one was.
  pub compact_live_values-Kept :
      (bin : List BinNode) (out : List BinNode × List V)
      → compact_live_values bin values ≡ some out
      → length out.1 < 2 ^ 32
      → (i : ℕ) → Kept out.1 (node_at bin i) (node_at out.0 i)
  unfolding compact_live_values
  compact_live_values-Kept bin out h fits =
      (compact_nodes-Rounds bin (replicate (length values + 1) 0) [] out
        (λ old new at_old new_nonzero old_nonzero.
          absurd (new_nonzero (get_elem?-replicate (length values + 1) old at_old)))
        fits h).all_kept
