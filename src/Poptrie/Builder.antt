-- ===== src/Poptrie/Builder.antt =====
-- `PoptrieBuilder` of crates/poptrie/src/build.rs: the binary trie, an array of nodes that name
-- their children by index, with its table of values. `none` is a panic.
pub mod Reach
pub mod Insert
pub mod Compact
use mathlib.Core.Logic.{ite}
use fast_socket_rs.Prelude.{
  ℕ, zero, suc, ◌+◌, ◌-◌, Bool, true, false, Option, none, some, List, [], ◌∷◌, ◌++◌, get_elem?,
  get_or, set, length, replicate, leb, ◌==◌, if◌then◌else◌,
}
use fast_socket_rs.Prelude.Results.{◌>>=◌}
use fast_socket_rs.Prelude.Words.{as_u32}
use fast_socket_rs.Poptrie.Key.{bit}

-- `children` is an array of two; a value of 0 says that no prefix ends here.
pub record BinNode : Type 0 where
  pub zero_child : Option ℕ
  pub one_child : Option ℕ
  pub value : ℕ

abbrev pub empty : BinNode
empty = record { zero_child = none; one_child = none; value = 0 }

abbrev pub child : BinNode → Bool → Option ℕ
child n false = n.zero_child
child n true = n.one_child

abbrev pub set_child : BinNode → Bool → ℕ → BinNode
set_child n false c = record n { zero_child = some c }
set_child n true c = record n { one_child = some c }

-- `bin[id]`. The trie's own indexes are in range; the emitter, which is given any trie, checks them.
abbrev pub node_at : List BinNode → ℕ → BinNode
node_at bin id = get_or bin id empty

-- A fresh child of `node`, at the end of the array.
unfoldable pub add_child : List BinNode → ℕ → Bool → List BinNode
add_child bin node branch =
    let grown = bin ++ (empty ∷ []) in
    set grown node (set_child (node_at grown node) branch (as_u32 (length bin)))

-- The loop of `insert` from bit `i` on, `rounds` bits: the node reached, and the array.
unfoldable pub walk_prefix : ℕ → ℕ → ℕ → ℕ → ℕ → List BinNode → ℕ × List BinNode
unfolding add_child
walk_prefix width prefix zero i node bin = (node, bin)
walk_prefix width prefix (suc rounds) i node bin =
    elim (child (node_at bin node) (bit width prefix i)) [
      | some c ↦ walk_prefix width prefix rounds (i + 1) c bin
      | none ↦
          walk_prefix width prefix rounds (i + 1) (as_u32 (length bin))
            (add_child bin node (bit width prefix i))
    ]

pub record PoptrieBuilder {ℓ} (V : Type ℓ) : Type ℓ where
  pub bin : List BinNode
  pub values : List V
  pub value_index : List (V × ℕ)

module _ {ℓ} {V : Type ℓ} where
  unfoldable pub new : PoptrieBuilder V
  new = record { bin = empty ∷ []; values = []; value_index = [] }

  -- `HashMap::get`, over the list of its entries.
  unfoldable pub find : Discrete V → V → List (V × ℕ) → Option ℕ
  find eq v [] = none
  find eq v ((w, i) ∷ rest) = ite (eq w v) (some i) (find eq v rest)

  unfoldable pub intern : Discrete V → V → PoptrieBuilder V → ℕ × PoptrieBuilder V
  unfolding find
  intern eq v b = elim (find eq v b.value_index) [
    | some index ↦ (index, b)
    | none ↦
        let index = as_u32 (length b.values) + 1 in
        (
          index,
          record b { values = b.values ++ (v ∷ []); value_index = (v, index) ∷ b.value_index },
        )
  ]

  unfoldable pub insert : Discrete V → ℕ → ℕ → ℕ → V → PoptrieBuilder V → Option (PoptrieBuilder V)
  unfolding intern walk_prefix
  insert eq width prefix prefix_len v b =
      let (index, b') = intern eq v b in
      let (node, bin) = walk_prefix width prefix prefix_len 0 0 b'.bin in
      if leb prefix_len width
      then some (record b' { bin = set bin node (record (node_at bin node) { value = index }) })
      else none

  -- One round of the loop of `compact_live_values`: the node with its new value, the map from old to
  -- new values, and the live values so far.
  unfoldable pub compact_node :
      List V → BinNode → List ℕ → List V → Option (BinNode × List ℕ × List V)
  compact_node values n remap live = if n.value == 0 then some (n, remap, live) else (do
    known ← get_elem? remap n.value
    let index = as_u32 (length live) + 1
    if known == 0
        then (do
          v ← get_elem? values (n.value - 1)
          some (record n { value = index }, set remap n.value index, live ++ (v ∷ [])))
        else some (record n { value = known }, remap, live))

  unfoldable pub compact_nodes :
      List V → List BinNode → List ℕ → List V → Option (List BinNode × List V)
  unfolding compact_node
  compact_nodes values [] remap live = some ([], live)
  compact_nodes values (n ∷ ns) remap live = do
    (n', remap', live') ← compact_node values n remap live
    (ns', live'') ← compact_nodes values ns remap' live'
    some (n' ∷ ns', live'')

  unfoldable pub compact_live_values : List BinNode → List V → Option (List BinNode × List V)
  unfolding compact_nodes
  compact_live_values bin values = compact_nodes values bin (replicate (length values + 1) 0) []
