-- ===== src/Poptrie/Tests.antt =====
-- Small tables over 8-bit keys, with a direct array of four entries and one stride: the calls, the
-- table and its answers, and the statements at these inputs.
use native.Mathlib.Decide.{ℕ_discrete}
use fast_socket_rs.Prelude.{
  ℕ, zero, suc, ◌≡◌, refl, ap, Option, none, some, List, [], ◌∷◌, arith, length, get_elem?,
}
use fast_socket_rs.Poptrie.{Poptrie, lookup, value}
use fast_socket_rs.Poptrie.Builder.{
  BinNode, node_at, PoptrieBuilder, new, insert, compact_live_values, walk_prefix,
}
use fast_socket_rs.Poptrie.Builder.Compact.{Kept, compact_live_values-Kept}
use fast_socket_rs.Poptrie.Builder.Insert.Holds.{Holds, new-Holds}
use fast_socket_rs.Poptrie.Builder.Insert.Walk.{key_bits, Walked, walk_prefix-Walked}
use fast_socket_rs.Poptrie.Correct.{emit-resolves}
use fast_socket_rs.Poptrie.Correct.Lookup.{emit_total, lookup-build}
use fast_socket_rs.Poptrie.Correct.Table.{
  insert_all, routes_of, insert_all-Holds, lookup-longest, lookup-insert_all,
}
use fast_socket_rs.Poptrie.Emitter.{Arrays, emit, build}
use fast_socket_rs.Poptrie.Emitter.Direct.{Trie, SmallValues, resolve_entry}
use fast_socket_rs.Poptrie.Key.{direct_index, bit}
use fast_socket_rs.Prelude.Bits.{set_bit, test_bit}
use fast_socket_rs.Poptrie.Longest.{exact, longest}
use fast_socket_rs.Poptrie.Walk.{low_bits, route}

-- A default route, a prefix of three bits, and one that ends in the stride, inserted twice.
abbrev calls : List (ℕ × ℕ × ℕ)
calls = (0, 0, 100) ∷ (0xc0, 3, 101) ∷ (0xc4, 6, 102) ∷ (0xc4, 6, 103) ∷ []

abbrev or {ℓ} : {A : Type ℓ} → A → Option A → A
or a none = a
or a (some b) = b

-- The binary trie of the calls; the first 103 replaced 102, which no node names any more.
abbrev trie_nodes : List BinNode
trie_nodes =
    record { zero_child = none; one_child = some 1; value = 1 }
    ∷ record { zero_child = none; one_child = some 2; value = 0 }
    ∷ record { zero_child = some 3; one_child = none; value = 0 }
    ∷ record { zero_child = some 4; one_child = none; value = 2 }
    ∷ record { zero_child = some 5; one_child = none; value = 0 }
    ∷ record { zero_child = none; one_child = some 6; value = 0 }
    ∷ record { zero_child = none; one_child = none; value = 4 }
    ∷ []

abbrev builder : PoptrieBuilder ℕ
builder = record {
  bin = trie_nodes;
  values = 100 ∷ 101 ∷ 102 ∷ 103 ∷ [];
  value_index = (103, 4) ∷ (102, 3) ∷ (101, 2) ∷ (100, 1) ∷ [];
}

abbrev table : Poptrie ℕ
table = record {
  direct = 0x80000001 ∷ 0x80000001 ∷ 0x80000001 ∷ 0 ∷ [];
  nodes = record { vector = 0; leafvec = 4294967569; base0 = 0; base1 = 1 } ∷ [];
  leaves = 2 ∷ 3 ∷ 2 ∷ 1 ∷ [];
  values = 100 ∷ 101 ∷ 103 ∷ [];
}

inserted : insert_all ℕ_discrete 8 2 calls new ≡ some builder
unfolding insert_all insert new bit ℕ_discrete
inserted = refl

built : build 8 2 builder ≡ some table
unfolding build compact_live_values set_bit test_bit
built = refl

holds : Holds ℕ_discrete 8 (routes_of ℕ_discrete 8 2 calls []) builder
unfolding new
holds =
    insert_all-Holds ℕ_discrete 8 2 calls [] new builder (new-Holds ℕ_discrete 8) (omega arith)
      (omega arith) inserted

lookup-insert_all_example : lookup 8 2 table 0xc9 ≡ some (some 101)
unfolding longest exact low_bits routes_of key_bits bit
lookup-insert_all_example =
    lookup-insert_all ℕ_discrete 8 2 calls builder table 0xc9 inserted built (omega arith)
      (omega arith) (omega arith) (omega arith)

lookup-longest_example : lookup 8 2 table 0xc6 ≡ some (some 103)
unfolding longest exact low_bits routes_of key_bits bit
lookup-longest_example =
    lookup-longest ℕ_discrete 8 2 (routes_of ℕ_discrete 8 2 calls []) builder table 0xc6 holds built
      (omega arith) (omega arith)

lookup-build_example :
    lookup 8 2 table 0x80 ≡ value builder.values (route builder.bin (some 0) 0 (low_bits 8 0x80))
lookup-build_example = lookup-build 8 2 builder table 0x80 built (omega arith) (omega arith)

emit_total_example :
    (out : List ℕ × Arrays) × (emit 8 2 builder.bin ≡ some out) × (length out.0 ≡ 4)
emit_total_example = emit_total 8 2 builder.bin holds.path holds.labelled refl

walk_prefix-Walked_example :
    Walked 8 0xb0 builder.bin 0 (key_bits 8 0xb0 0 4) (walk_prefix 8 0xb0 4 0 0 builder.bin)
walk_prefix-Walked_example =
    walk_prefix-Walked 8 0xb0 4 0 0 builder.bin holds.path holds.labelled (omega arith)
      (ap length holds.labelled.root) (omega arith) (omega arith)

-- A root with a route, and a child for the keys that start with a 1.
abbrev two_nodes : List BinNode
two_nodes =
    record { zero_child = none; one_child = some 1; value = 1 }
    ∷ record { zero_child = none; one_child = none; value = 2 }
    ∷ []

small_values : SmallValues two_nodes
small_values zero = omega arith
small_values (suc zero) = omega arith
small_values (suc (suc id)) = omega arith

abbrev two_nodes_trie : Trie
two_nodes_trie = record {
  bin = two_nodes;
  width = 8;
  direct_bits = 2;
  strides = 1;
  aligned = refl;
  small = small_values;
}

abbrev emitted : List ℕ × Arrays
emitted = or ([], record { nodes = []; leaves = [] }) (emit 8 2 two_nodes)

emit-resolves_example :
    (entry : ℕ) × (get_elem? emitted.0 (direct_index 8 0xc5 2) ≡ some entry)
    × (resolve_entry 8 2 1 emitted.1 0xc5 entry
        ≡ some (route two_nodes (some 0) 0 (low_bits 8 0xc5)))
unfolding emit
emit-resolves_example =
    emit-resolves two_nodes_trie emitted 0xc5 refl
      (record { nodes_fit = omega arith; leaves_fit = omega arith }) (omega arith) (omega arith)

abbrev compacted : List BinNode × List ℕ
compacted = or ([], []) (compact_live_values two_nodes (7 ∷ 8 ∷ 9 ∷ []))

compact_live_values-Kept_example :
    Kept (7 ∷ 8 ∷ 9 ∷ []) compacted.1 (node_at two_nodes 1) (node_at compacted.0 1)
unfolding compact_live_values
compact_live_values-Kept_example =
    compact_live_values-Kept (7 ∷ 8 ∷ 9 ∷ []) two_nodes compacted refl (omega arith) 1
