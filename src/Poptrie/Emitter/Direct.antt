-- ===== src/Poptrie/Emitter/Direct.antt =====
-- `fill_direct` and `build_subtree`: what an entry of the direct array stands for.
pub mod Blocks
pub mod Halves
use native.Mathlib.Nat.{mod-eq_of_lt, div-one}
use fast_socket_rs.Prelude.{
  ℕ, zero, suc, ◌+◌, ◌*◌, ◌/◌, ◌%◌, ◌^◌, ◌≤◌, ◌<◌, ◌≡◌, ◌≢◌, refl, sym, ◌∙◌, ap, subst, ◌⊎◌, inl,
  inr, Bool, true, false, Option, none, some, List, [], ◌∷◌, ◌++◌, length, get_elem?, set,
  length-set, get_elem?-set, get_elem?-append_left, length-append, arith, Bool-cases, ◌==◌,
  if◌then◌else◌, ==_iff,
}
use fast_socket_rs.Prelude.Results.{>>=-eq-some, ◌>>=◌}
use fast_socket_rs.Prelude.Words.{as_u32}
use fast_socket_rs.Prelude.Bits.{
  test_bit, mask_below, set_bit, test_bit_top, test_bit_out, set_bit_top, mask_add_top,
}
use fast_socket_rs.Poptrie.{descend, leaf_bit}
use fast_socket_rs.Poptrie.Builder.{BinNode, node_at}
use fast_socket_rs.Poptrie.Walk.{low_bits, child_of, route, route-leaf, route-effective}
use fast_socket_rs.Poptrie.Emitter.{
  Arrays, default_node, fill, build_subtree, hand_off, fill_direct, fill_range, branches, effective,
  children,
}
use fast_socket_rs.Poptrie.Emitter.Range.{length-fill_range, get_elem?-fill_range}
use fast_socket_rs.Poptrie.Emitter.Stride.{block_halves, get_elem?-fill_block, children-child_of}
use fast_socket_rs.Poptrie.Emitter.Frame.{
  Grows, Fits, Fits-Grows, Agrees, Agrees-weaken, Agrees-trans, Filled,
}
use fast_socket_rs.Poptrie.Emitter.Fill.{Serves, fill-Grows, fill-Filled}

-- What `lookup` makes of an entry of the direct array.
abbrev pub resolve_entry : ℕ → ℕ → ℕ → Arrays → ℕ → ℕ → Option ℕ
resolve_entry width direct_bits strides a key entry =
    if test_bit entry leaf_bit
    then some (mask_below entry leaf_bit)
    else descend width key a.nodes a.leaves strides entry direct_bits

-- Values that leave room for the leaf flag.
abbrev pub SmallValues : List BinNode → Type 0
SmallValues bin = (id : ℕ) → (node_at bin id).value < 2 ^ 31

-- A binary trie and the shape of the table to emit for it.
pub record Trie : Type 0 where
  pub bin : List BinNode
  pub width : ℕ
  pub direct_bits : ℕ
  pub strides : ℕ
  pub aligned : width ≡ direct_bits + 6 * strides
  pub small : SmallValues bin

module _ (t : Trie) where
  open t use {bin, width, direct_bits, strides, aligned, small}

  -- The entry answers for a node of the binary trie, along the given bits and then the key's.
  abbrev pub EntryServes : Arrays → ℕ → Option ℕ → ℕ → List Bool → Type 0
  EntryServes a entry from e bs =
      (key : ℕ)
      → resolve_entry width direct_bits strides a key entry
        ≡ some (route bin from e (bs ++ low_bits (6 * strides) key))

  pub effective_small : (from : Option ℕ) (e : ℕ) → e < 2 ^ 31 → effective bin from e < 2 ^ 31
  unfolding effective
  effective_small none e h = h
  effective_small (some id) e h = ground (arith, small id)

  pub leaf-EntryServes :
      (a : Arrays) (from : Option ℕ) (e : ℕ) (bs : List Bool)
      → e < 2 ^ 31
      → branches bin from ≡ false
      → EntryServes a (set_bit (effective bin from e) leaf_bit) from e bs
  leaf-EntryServes a from e bs h none_below key =
      let v = effective bin from e in
      let fits = effective_small from e h in
      rw (
        set_bit_top 31 v fits,
        test_bit_top 31 v fits,
        mask_add_top 31 v fits,
        route-leaf bin from e (bs ++ low_bits (6 * strides) key) none_below,
      )

  node-EntryServes :
      (a : Arrays) (slot c e : ℕ)
      → slot < 2 ^ 31
      → Serves bin width strides a slot c e
      → EntryServes a slot (some c) e []
  node-EntryServes a slot c e h serves key =
      rw (test_bit_out 31 31 slot h (omega arith)) (serves key direct_bits aligned)

  -- The subtree for one entry: its root stands right behind the nodes that were there.
  pub record Built (a : Arrays) (c e : ℕ) (out : ℕ × Arrays) : Type 0 where
    pub grows : Grows a out.1
    pub kept : Agrees (λ j. Unit {0}) a out.1
    pub serves :
        (later : Arrays)
        → Agrees (λ j. length a.nodes ≤ j) out.1 later
        → EntryServes later out.0 (some c) e []

  -- The arrays with the root reserved.
  abbrev reserved : Arrays → Arrays
  reserved a = record a { nodes = a.nodes ++ (default_node ∷ []) }

  pub build_subtree-Grows :
      (c e : ℕ) (a : Arrays) (out : ℕ × Arrays)
      → build_subtree bin strides c e a ≡ some out
      → Grows a out.1
  unfolding build_subtree
  build_subtree-Grows c e a out h =
      let (m, hm, hr) =
        >>=-eq-some (fill bin strides (as_u32 (length a.nodes)) c e (reserved a)) _ h in
      let same : m ≡ out.1 = cc in
      let grown = fill-Grows bin width strides _ c e (reserved a) m hm in
      subst (Grows a) same (omega (arith, grown, length-append a.nodes (default_node ∷ [])))

  pub build_subtree-Built :
      (c e : ℕ) (a : Arrays) (out : ℕ × Arrays)
      → Fits out.1
      → length out.1.nodes < 2 ^ 31
      → build_subtree bin strides c e a ≡ some out
      → Built a c e out
  unfolding build_subtree
  build_subtree-Built c e a out fits few h =
      let root = as_u32 (length a.nodes) in
      let (m, hm, hr) = >>=-eq-some (fill bin strides root c e (reserved a)) _ h in
      let same : m ≡ out.1 = cc in
      let whole : (root, m) ≡ out = cc in
      let grown = fill-Grows bin width strides root c e (reserved a) m hm in
      let one_more = length-append a.nodes (default_node ∷ []) in
      let few_nodes : length m.nodes < 2 ^ 31 =
        subst (λ t. length t.nodes < 2 ^ 31) (sym same) few in
      let at_end : root ≡ length a.nodes = mod-eq_of_lt (omega (arith, grown, one_more)) in
      let filled =
        fill-Filled bin width strides root c e (reserved a) m (omega (arith, one_more))
          (subst Fits (sym same) fits) hm in
      subst (Built a c e) whole (record {
        grows = omega (arith, grown, one_more);
        kept = record {
          nodes_same = λ j inside _.
              filled.kept.nodes_same j (omega (arith, one_more)) (omega arith)
              ∙ get_elem?-append_left a.nodes (default_node ∷ []) j inside;
          leaves_same = filled.kept.leaves_same;
        };
        serves = λ later agrees.
            node-EntryServes later root c e (omega (arith, grown, one_more))
              (filled.serves later (Agrees-weaken (λ j touched. omega (arith, one_more)) agrees));
      })
