-- ===== src/Poptrie/Emitter/Direct/Blocks.antt =====
-- `fill_direct` on a block of entries that share their first bits.
use native.Mathlib.Nat.{div-one}
use fast_socket_rs.Poptrie.Emitter.Direct.{
  Trie, EntryServes, leaf-EntryServes, build_subtree-Grows, build_subtree-Built,
}
use fast_socket_rs.Prelude.{
  ℕ, zero, suc, ◌+◌, ◌*◌, ◌/◌, ◌^◌, ◌≤◌, ◌<◌, ◌≡◌, ◌≢◌, refl, sym, ◌∙◌, ap, subst, inl, inr, true,
  false, Option, none, some, List, length, get_elem?, set, length-set, get_elem?-set, arith,
  Bool-cases, leb,
}
use fast_socket_rs.Prelude.Results.{>>=-eq-some, ◌>>=◌, ◌>>◌, checked, checked-passed, eq_of_some}
use fast_socket_rs.Prelude.Bits.{set_bit}
use fast_socket_rs.Poptrie.{leaf_bit}
use fast_socket_rs.Poptrie.Builder.{BinNode}
use fast_socket_rs.Poptrie.Walk.{low_bits, child_of, route-effective}
use fast_socket_rs.Poptrie.Emitter.{
  Arrays, build_subtree, hand_off, fill_direct, fill_range, branches, effective, in_bin,
}
use fast_socket_rs.Poptrie.Emitter.Range.{length-fill_range}
use fast_socket_rs.Poptrie.Emitter.Stride.{get_elem?-fill_block, children-child_of}
use fast_socket_rs.Poptrie.Emitter.Frame.{Grows, Fits, Agrees}

-- The three cases of `fill_direct`.
module _ (bin : List BinNode) (strides : ℕ) (from : Option ℕ) (e : ℕ) where
  pub fill_direct-uniform :
      (shift pattern : ℕ) (direct : List ℕ) (a : Arrays)
      → branches bin from ≡ false
      → fill_direct bin strides shift from e pattern direct a ≡ (
          checked (in_bin bin from)
          >> (checked (leb (pattern * 2 ^ shift + 2 ^ shift) (length direct))
              >> some (
                fill_range direct
                    (pattern * 2 ^ shift)
                    (2 ^ shift)
                    (set_bit (effective bin from e) leaf_bit),
                a,
              )))
  unfolding fill_direct
  fill_direct-uniform zero pattern direct a h =
      let one : pattern * 1 ≡ pattern = omega arith in rw (h, one)
  fill_direct-uniform (suc shift) pattern direct a h = rw h

  pub fill_direct-entry :
      (pattern : ℕ) (direct : List ℕ) (a : Arrays)
      → branches bin from ≡ true
      → fill_direct bin strides 0 from e pattern direct a ≡ (
          checked (in_bin bin from)
          >> hand_off bin strides from (effective bin from e) pattern direct a)
  unfolding fill_direct
  fill_direct-entry pattern direct a h = rw h

  pub fill_direct-split :
      (shift pattern : ℕ) (direct : List ℕ) (a : Arrays)
      → branches bin from ≡ true
      → fill_direct bin strides (suc shift) from e pattern direct a ≡ (
          checked (in_bin bin from)
          >> (fill_direct bin strides shift
                (child_of bin from false)
                (effective bin from e)
                (pattern * 2)
                direct
                a
              >>= λ p.
                  fill_direct bin strides shift
                    (child_of bin from true)
                    (effective bin from e)
                    (pattern * 2 + 1)
                    p.0
                    p.1))
  unfolding fill_direct
  fill_direct-split shift pattern direct a h = rw (h, children-child_of bin from)

-- What a call that returns went through, in the three cases.
module _ (bin : List BinNode) (strides : ℕ) (from : Option ℕ) (e shift pattern : ℕ)
    (direct : List ℕ) (a : Arrays) (out : List ℕ × Arrays) where
  pub uniform_returned :
      fill_direct bin strides shift from e pattern direct a ≡ some out
      → branches bin from ≡ false
      → (
        fill_range direct
            (pattern * 2 ^ shift)
            (2 ^ shift)
            (set_bit (effective bin from e) leaf_bit),
        a,
      )
        ≡ out
  uniform_returned h b =
      let (_, k) =
        checked-passed _ _
          (sym (fill_direct-uniform bin strides from e shift pattern direct a b) ∙ h) in
      let (_, r) = checked-passed _ _ k in eq_of_some r

  pub entry_returned :
      fill_direct bin strides 0 from e pattern direct a ≡ some out
      → branches bin from ≡ true
      → hand_off bin strides from (effective bin from e) pattern direct a ≡ some out
  entry_returned h b =
      (checked-passed _ _ (sym (fill_direct-entry bin strides from e pattern direct a b) ∙ h)).1

  pub split_returned :
      fill_direct bin strides (suc shift) from e pattern direct a ≡ some out
      → branches bin from ≡ true
      → (p : List ℕ × Arrays) × (fill_direct bin strides shift
            (child_of bin from false)
            (effective bin from e)
            (pattern * 2)
            direct
            a
          ≡ some p)
        × (fill_direct bin strides shift
              (child_of bin from true)
              (effective bin from e)
              (pattern * 2 + 1)
              p.0
              p.1
            ≡ some out)
  split_returned h b =
      >>=-eq-some _ _
        (checked-passed _ _
          (sym (fill_direct-split bin strides from e shift pattern direct a b) ∙ h)).1

module _ (t : Trie) where
  open t use {bin, width, direct_bits, strides, aligned, small}

  -- A call of `fill_direct` on the block of entries that start with `pattern`.
  pub record Pointed (shift : ℕ) (from : Option ℕ) (e pattern : ℕ) (direct : List ℕ) (a : Arrays)
      (out : List ℕ × Arrays) : Type 0 where
    pub grows : Grows a out.1
    pub kept : Agrees (λ j. Unit {0}) a out.1
    pub same_length : length out.0 ≡ length direct
    pub outside :
        (v : ℕ)
        → v < length direct
        → v / 2 ^ shift ≢ pattern
        → get_elem? out.0 v ≡ get_elem? direct v
    pub inside :
        (v : ℕ)
        → v < length direct
        → v / 2 ^ shift ≡ pattern
        → (entry : ℕ) × (get_elem? out.0 v ≡ some entry)
          × ((later : Arrays)
              → Agrees (λ j. length a.nodes ≤ j) out.1 later
              → EntryServes t later entry from e (low_bits shift v))

  -- A block under which the trie does not branch.
  pub uniform-Pointed :
      (shift : ℕ) (from : Option ℕ) (e pattern : ℕ) (direct : List ℕ) (a : Arrays)
      → e < 2 ^ 31
      → branches bin from ≡ false
      → Pointed shift from e pattern direct a (
        fill_range direct
            (pattern * 2 ^ shift)
            (2 ^ shift)
            (set_bit (effective bin from e) leaf_bit),
        a,
      )
  uniform-Pointed shift from e pattern direct a h none_below =
      let entry = set_bit (effective bin from e) leaf_bit in
      record {
        grows = omega arith;
        kept = record { nodes_same = λ j i k. refl; leaves_same = λ j i. refl };
        same_length = length-fill_range direct (pattern * 2 ^ shift) (2 ^ shift) entry;
        outside = λ v i ne. get_elem?-fill_block direct pattern shift v entry i ∙ ground arith;
        inside = λ v i same. (
          entry,
          get_elem?-fill_block direct pattern shift v entry i ∙ ground arith,
          λ later _. leaf-EntryServes t later from e (low_bits shift v) h none_below,
        );
      }

  -- One entry that points to a subtree.
  pub hand_off-Pointed :
      (from : Option ℕ) (e pattern : ℕ) (direct : List ℕ) (a : Arrays) (out : List ℕ × Arrays)
      → Fits out.1
      → length out.1.nodes < 2 ^ 31
      → hand_off bin strides from (effective bin from e) pattern direct a ≡ some out
      → Pointed 0 from e pattern direct a out
  unfolding hand_off low_bits
  hand_off-Pointed none e pattern direct a out fits few h = cc
  hand_off-Pointed (some id) e pattern direct a out fits few h =
      let v = effective bin (some id) e in
      let (p, hp, hc) = >>=-eq-some (build_subtree bin strides id v a) _ h in
      let (_, hr) = checked-passed _ _ hc in
      let whole : (set direct pattern p.0, p.1) ≡ out = eq_of_some hr in
      let same : p.1 ≡ out.1 = ap (λ o. o.1) whole in
      let built =
        build_subtree-Built t id v a p (subst Fits (sym same) fits)
          (subst (λ s. length s.nodes < 2 ^ 31) (sym same) few) hp in
      subst (Pointed 0 (some id) e pattern direct a) whole (record {
        grows = built.grows;
        kept = built.kept;
        same_length = length-set direct pattern p.0;
        outside = λ w i ne. ground (arith, div-one w, get_elem?-set direct pattern w p.0 i);
        inside = λ w i same_block. (
          p.0,
          ground (arith, div-one w, get_elem?-set direct pattern w p.0 i),
          λ later agrees key.
              built.serves later agrees key
              ∙ ap some (route-effective bin (some id) e (low_bits (6 * strides) key)),
        );
      })

  hand_off-Grows :
      (from : Option ℕ) (e pattern : ℕ) (direct : List ℕ) (a : Arrays) (out : List ℕ × Arrays)
      → hand_off bin strides from e pattern direct a ≡ some out
      → Grows a out.1
  unfolding hand_off
  hand_off-Grows none e pattern direct a out h = cc
  hand_off-Grows (some id) e pattern direct a out h =
      let (p, hp, hc) = >>=-eq-some (build_subtree bin strides id e a) _ h in
      let (_, hr) = checked-passed _ _ hc in
      let same : p.1 ≡ out.1 = ap (λ o. o.1) (eq_of_some hr) in
      subst (Grows a) same (build_subtree-Grows t id e a p hp)

  pub fill_direct-Grows :
      (shift : ℕ) (from : Option ℕ) (e pattern : ℕ) (direct : List ℕ) (a : Arrays)
      (out : List ℕ × Arrays)
      → fill_direct bin strides shift from e pattern direct a ≡ some out
      → Grows a out.1
  fill_direct-Grows zero from e pattern direct a out h = elim (Bool-cases (branches bin from)) [
    | inl b ↦
        hand_off-Grows from _ pattern direct a out
          (entry_returned bin strides from e 0 pattern direct a out h b)
    | inr b ↦
        let same : a ≡ out.1 =
          ap (λ p. p.1) (uniform_returned bin strides from e 0 pattern direct a out h b) in
        subst (Grows a) same (omega arith)
  ]
  fill_direct-Grows (suc shift) from e pattern direct a out h =
      elim (Bool-cases (branches bin from)) [
        | inl b ↦
            let (p, hp, hr) = split_returned bin strides from e shift pattern direct a out h b in
            let first = fill_direct-Grows shift _ _ (pattern * 2) direct a p hp in
            let second = fill_direct-Grows shift _ _ (pattern * 2 + 1) p.0 p.1 out hr in
            omega (arith, first, second)
        | inr b ↦
            let same : a ≡ out.1 =
              ap (λ p. p.1)
                (uniform_returned bin strides from e (suc shift) pattern direct a out h b) in
            subst (Grows a) same (omega arith)
      ]
