-- ===== src/Poptrie/Correct/Lookup.antt =====
-- `PoptrieBuilder::build` and `Poptrie::lookup` of crates/poptrie together.
use fast_socket_rs.Prelude.{
  ℕ, ◌-◌, ◌/◌, ◌^◌, ◌<◌, ◌≡◌, refl, subst, Bool, true, false, some, List, [], length, replicate,
  length-replicate, ◌∙◌, arith, ltb, ltb→lt,
}
use fast_socket_rs.Prelude.Results.{>>=-eq-some, eq_of_some, checked}
use fast_socket_rs.Poptrie.{Poptrie, value, lookup}
use fast_socket_rs.Poptrie.Builder.{BinNode, PoptrieBuilder, compact_live_values}
use fast_socket_rs.Poptrie.Builder.Compact.{value-zero, compact_live_values-Kept}
use fast_socket_rs.Poptrie.Builder.Reach.{Labelled, Labelled-Shallow, Labelled-Closed}
use fast_socket_rs.Poptrie.Correct.{emit-resolves}
use fast_socket_rs.Poptrie.Correct.Renaming.{route-Renamed}
use fast_socket_rs.Poptrie.Emitter.{Arrays, shape_ok, emit, build}
use fast_socket_rs.Poptrie.Emitter.Direct.{Trie}
use fast_socket_rs.Poptrie.Emitter.Total.{fill_direct-total}
use fast_socket_rs.Poptrie.Walk.{low_bits, route}

pub checked-eq-some : (b : Bool) → checked b ≡ some tt → b ≡ true
checked-eq-some true h = refl
checked-eq-some false h = cc

-- For a shape that passes the checks of `build` and a binary trie whose nodes have distinct
-- prefixes of at most `width` bits as labels, the emitter ends with arrays, the direct one with
-- 2^direct_bits entries: it neither reads nor writes outside an array nor needs more strides than
-- the key has.
pub emit_total :
    (width direct_bits : ℕ) (bin : List BinNode) (path : ℕ → List Bool)
    → Labelled width bin path
    → shape_ok width direct_bits ≡ true
    → (out : List ℕ × Arrays) × (emit width direct_bits bin ≡ some out)
      × (length out.0 ≡ 2 ^ direct_bits)
unfolding emit
emit_total width direct_bits bin path labelled ok =
    let entries : length (replicate {A = ℕ} (2 ^ direct_bits) 0) ≡ 2 ^ direct_bits =
      length-replicate (2 ^ direct_bits) 0 in
    let inside = labelled.nonempty in
    let (out, h, same_length) =
      fill_direct-total bin (Labelled-Closed width bin path labelled) ((width - direct_bits) / 6)
        direct_bits width (some 0) 0 0 (replicate (2 ^ direct_bits) 0)
        (record { nodes = []; leaves = [] }) (ground arith)
        (let t : ltb 0 (length bin) ≡ true = ground arith in t) (omega (arith, entries))
        (Labelled-Shallow width bin path labelled width 0 (omega arith)) in
    (out, h, same_length ∙ length-replicate (2 ^ direct_bits) 0)

module _ {ℓ} {V : Type ℓ} (width direct_bits : ℕ) (b : PoptrieBuilder V) where
  -- What a successful `build` went through.
  record Emitted (t : Poptrie V) : Type ℓ where
    compacted : List BinNode
    out : Arrays
    shape : shape_ok width direct_bits ≡ true
    compaction : compact_live_values b.bin b.values ≡ some (compacted, t.values)
    few_values : length t.values < 2 ^ 31 - 1
    emission : emit width direct_bits compacted ≡ some (t.direct, out)
    few_nodes : length out.nodes < 2 ^ 31
    nodes_are : t.nodes ≡ out.nodes
    leaves_are : t.leaves ≡ out.leaves

  build-Emitted : (t : Poptrie V) → build width direct_bits b ≡ some t → Emitted t
  unfolding build
  build-Emitted t h =
      let (_, c1, h1) = >>=-eq-some (checked (shape_ok width direct_bits)) _ h in
      let (compact, c2, h2) = >>=-eq-some (compact_live_values b.bin b.values) _ h1 in
      let (_, c3, h3) = >>=-eq-some (checked (ltb (length compact.1) (2 ^ 31 - 1))) _ h2 in
      let (out, c4, h4) = >>=-eq-some (emit width direct_bits compact.0) _ h3 in
      let (_, c5, h5) = >>=-eq-some (checked (ltb (length out.1.nodes) (2 ^ 31))) _ h4 in
      subst Emitted (eq_of_some h5) (record {
        compacted = compact.0;
        out = out.1;
        shape = checked-eq-some _ c1;
        compaction = c2;
        few_values = ltb→lt _ _ (checked-eq-some _ c3);
        emission = c4;
        few_nodes = ltb→lt _ _ (checked-eq-some _ c5);
        nodes_are = refl;
        leaves_are = refl;
      })

  -- If `build` returns a table with fewer than 2^32 leaves, then `lookup` of any key of `width`
  -- bits reads only entries that exist and returns what the bit-by-bit walk through the builder's
  -- binary trie ends with.
  pub lookup-build :
      (t : Poptrie V) (key : ℕ)
      → build width direct_bits b ≡ some t
      → length t.leaves < 2 ^ 32
      → key < 2 ^ width
      → lookup width direct_bits t key
        ≡ value b.values (route b.bin (some 0) 0 (low_bits width key))
  unfolding lookup
  lookup-build t key built few_leaves small_key =
      let e = build-Emitted t built in
      let kept =
        compact_live_values-Kept b.values b.bin (e.compacted, t.values) e.compaction
          (omega (arith, e.few_values)) in
      let strides = (width - direct_bits) / 6 in
      let trie : Trie = record {
        bin = e.compacted;
        width = width;
        direct_bits = direct_bits;
        strides = strides;
        aligned = ground (arith, e.shape);
        small = λ id. omega (arith, (kept id).renamed.bounded, e.few_values);
      } in
      let (entry, at_entry, resolved) =
        emit-resolves trie (t.direct, e.out) key e.emission
          (record {
            nodes_fit = omega (arith, e.few_nodes);
            leaves_fit = rw (← e.leaves_are) few_leaves;
          })
          e.few_nodes small_key in
      let renamed =
        route-Renamed b.values t.values b.bin e.compacted kept (low_bits width key) (some 0) 0 0
          (value-zero b.values t.values) in
      rw (e.nodes_are, e.leaves_are, at_entry, resolved) renamed.same_value
