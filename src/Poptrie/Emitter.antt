-- ===== src/Poptrie/Emitter.antt =====
-- `Emitter` and `PoptrieBuilder::build` of crates/poptrie/src/build.rs: from the binary trie to the
-- arrays of the read side. `none` is a panic, or a trie deeper than the strides allow.
pub mod Range
pub mod Stride
pub mod Slots
pub mod Frame
pub mod Fill
pub mod Direct
pub mod Total
use fast_socket_rs.Prelude.{
  ℕ, zero, suc, ◌+◌, ◌-◌, ◌*◌, ◌/◌, ◌%◌, ◌^◌, Bool, true, false, ◌&&◌, ◌||◌, Option, none, some,
  List, [], ◌∷◌, ◌++◌, set, length, replicate, ltb, leb, ◌==◌, if◌then◌else◌,
}
use fast_socket_rs.Prelude.Results.{◌>>=◌, ◌>>◌, checked}
use fast_socket_rs.Prelude.Words.{as_u32}
use fast_socket_rs.Prelude.Bits.{set_bit}
use fast_socket_rs.Poptrie.{Node, Poptrie, leaf_bit}
use fast_socket_rs.Poptrie.Builder.{BinNode, node_at, PoptrieBuilder, compact_live_values}

pub data Slot : Type 0 where
  internal : ℕ → ℕ → Slot
  leaf : ℕ → Slot

-- `xs[start..start + len].fill(v)`; that the range is in the list is checked where it is called.
unfoldable pub fill_range {ℓ} : {A : Type ℓ} → List A → ℕ → ℕ → A → List A
fill_range [] start len v = []
fill_range (x ∷ xs) zero zero v = x ∷ xs
fill_range (x ∷ xs) zero (suc len) v = v ∷ fill_range xs zero len v
fill_range (x ∷ xs) (suc start) len v = x ∷ fill_range xs start len v

-- The two arrays that the emitter grows.
pub record Arrays : Type 0 where
  pub nodes : List Node
  pub leaves : List ℕ

abbrev pub default_node : Node
default_node = record { vector = 0; leafvec = 0; base0 = 0; base1 = 0 }

abbrev is_some : Option ℕ → Bool
is_some none = false
is_some (some c) = true

-- What the loop of `fill` keeps while it goes over the slots.
pub record Scan : Type 0 where
  pub vector : ℕ
  pub leafvec : ℕ
  pub leaves : List ℕ
  pub children : List (ℕ × ℕ)
  pub current_run : Option ℕ

-- `current_run == Some(value)`.
abbrev pub in_run : Option ℕ → ℕ → Bool
in_run none v = false
in_run (some r) v = r == v

-- An internal slot ends any leaf run.
unfoldable pub add_child_slot : ℕ → ℕ → ℕ → Scan → Scan
add_child_slot i c inherited s = record s {
  vector = set_bit s.vector i;
  children = s.children ++ ((c, inherited) ∷ []);
  current_run = none;
}

unfoldable pub start_run : ℕ → ℕ → Scan → Scan
start_run i v s = record s {
  leafvec = set_bit s.leafvec i;
  leaves = s.leaves ++ (v ∷ []);
  current_run = some v;
}

unfoldable pub scan_slot : ℕ → Slot → Scan → Scan
unfolding add_child_slot start_run
scan_slot i (internal c inherited) s = add_child_slot i c inherited s
scan_slot i (leaf v) s = if in_run s.current_run v then s else start_run i v s

unfoldable pub scan : ℕ → List Slot → Scan → Scan
unfolding scan_slot
scan i [] s = s
scan i (x ∷ xs) s = scan (suc i) xs (scan_slot i x s)

-- The children of a node are filled in order, from index `base` on.
unfoldable pub fill_children :
    (ℕ → ℕ → ℕ → Arrays → Option Arrays) → ℕ → List (ℕ × ℕ) → Arrays → Option Arrays
fill_children fill_one base [] a = some a
fill_children fill_one base ((c, inherited) ∷ rest) a = do
  a' ← fill_one base c inherited a
  fill_children fill_one (base + 1) rest a'

-- The node that `fill` writes, from what the loop over its slots kept.
abbrev pub node_of : ℕ → ℕ → Scan → Node
node_of base0 base1 s = record {
  vector = s.vector;
  leafvec = s.leafvec;
  base0 = as_u32 base0;
  base1 = as_u32 base1;
}

-- The node is written, and its children are reserved behind all nodes.
unfoldable pub write_node : ℕ → Scan → Arrays → Arrays
write_node slot s a = record {
  nodes =
      set (a.nodes ++ replicate (length s.children) default_node) slot
        (node_of (length a.leaves) (length a.nodes) s);
  leaves = s.leaves;
}

abbrev pub scan_start : List ℕ → Scan
scan_start leaves = record {
  vector = 0;
  leafvec = 0;
  leaves = leaves;
  children = [];
  current_run = none;
}

module _ (bin : List BinNode) where
  -- `self.bin[id]` exists; elsewhere the read panics.
  abbrev pub in_bin : Option ℕ → Bool
  in_bin none = true
  in_bin (some id) = ltb id (length bin)

  unfoldable pub effective : Option ℕ → ℕ → ℕ
  effective none inherited = inherited
  effective (some id) inherited = let v = (node_at bin id).value in if v == 0 then inherited else v

  unfoldable pub has_children : ℕ → Bool
  has_children id = is_some (node_at bin id).zero_child || is_some (node_at bin id).one_child

  -- `node.is_some_and(|id| self.has_children(id))`.
  unfoldable pub branches : Option ℕ → Bool
  unfolding has_children
  branches none = false
  branches (some id) = has_children id

  unfoldable pub children : Option ℕ → Option ℕ × Option ℕ
  children none = (none, none)
  children (some id) = ((node_at bin id).zero_child, (node_at bin id).one_child)

  -- `resolve_stride` at `depth = 6 - shift`; `node.expect` cannot fail, since the node branches.
  unfoldable pub expect_internal : Option ℕ → ℕ → Slot
  expect_internal none inherited = leaf 0
  expect_internal (some id) inherited = internal id inherited

  unfoldable pub resolve_stride : ℕ → Option ℕ → ℕ → ℕ → List Slot → List Slot
  unfolding effective branches children expect_internal fill_range
  resolve_stride zero node inherited pattern out =
      if branches node
      then set out pattern (expect_internal node (effective node inherited))
      else fill_range out pattern 1 (leaf (effective node inherited))
  resolve_stride (suc shift) node inherited pattern out =
      let e = effective node inherited in
      let (zero_side, one_side) = children node in
      elim (branches node) [
        | false ↦ fill_range out (pattern * 2 ^ suc shift) (2 ^ suc shift) (leaf e)
        | true ↦
            resolve_stride shift one_side e (pattern * 2 + 1)
              (resolve_stride shift zero_side e (pattern * 2) out)
      ]

  -- What `resolve_stride` panics for: it reads nodes that exist and writes slots that exist.
  unfoldable pub stride_ok : ℕ → Option ℕ → ℕ → Bool
  unfolding branches children
  stride_ok zero node pattern = in_bin node && ltb pattern 64
  stride_ok (suc shift) node pattern =
      let (zero_side, one_side) = children node in
      let halves =
        stride_ok shift zero_side (pattern * 2) && stride_ok shift one_side (pattern * 2 + 1) in
      in_bin node
      && (if branches node then halves else leb (pattern * 2 ^ suc shift + 2 ^ suc shift) 64)

  -- The first argument is the number of strides left below the node.
  unfoldable pub fill : ℕ → ℕ → ℕ → ℕ → Arrays → Option Arrays
  unfolding resolve_stride stride_ok scan fill_children write_node
  fill zero slot bin_id inherited a = none
  fill (suc strides) slot bin_id inherited a =
      let slots = resolve_stride 6 (some bin_id) inherited 0 (replicate 64 (leaf 0)) in
      let s = scan 0 slots (scan_start a.leaves) in
      checked (stride_ok 6 (some bin_id) 0)
      >> (checked (ltb slot (length a.nodes + length s.children))
          >> fill_children (fill strides) (as_u32 (length a.nodes)) s.children
              (write_node slot s a))

  unfoldable pub build_subtree : ℕ → ℕ → ℕ → Arrays → Option (ℕ × Arrays)
  unfolding fill
  build_subtree strides bin_id inherited a = do
    let slot = as_u32 (length a.nodes)
    a' ← fill strides slot bin_id inherited (record a { nodes = a.nodes ++ (default_node ∷ []) })
    some (slot, a')

  -- `depth == direct_bits`: the subtree below one entry of the direct array.
  unfoldable pub hand_off : ℕ → Option ℕ → ℕ → ℕ → List ℕ → Arrays → Option (List ℕ × Arrays)
  unfolding build_subtree
  hand_off strides none inherited pattern direct a = none
  hand_off strides (some id) inherited pattern direct a = do
    (root, a') ← build_subtree strides id inherited a
    checked (ltb pattern (length direct))
    some (set direct pattern root, a')

  -- `fill_direct` at `depth = direct_bits - shift`. The flag is or-ed to a value index below it.
  unfoldable pub fill_direct : ℕ → ℕ → Option ℕ → ℕ → ℕ → List ℕ → Arrays → Option (List ℕ × Arrays)
  unfolding effective branches children hand_off fill_range
  fill_direct strides zero node inherited pattern direct a = do
    checked (in_bin node)
    if branches node then hand_off strides node (effective node inherited) pattern direct a else (do
      checked (leb (pattern + 1) (length direct))
      some (fill_range direct pattern 1 (set_bit (effective node inherited) leaf_bit), a))
  fill_direct strides (suc shift) node inherited pattern direct a = do
    checked (in_bin node)
    let e = effective node inherited
    let (zero_side, one_side) = children node
    elim (branches node) [
      | false ↦ (do
        checked (leb (pattern * 2 ^ suc shift + 2 ^ suc shift) (length direct))
        some (fill_range direct (pattern * 2 ^ suc shift) (2 ^ suc shift) (set_bit e leaf_bit), a))
      | true ↦ (do
        (direct', a') ← fill_direct strides shift zero_side e (pattern * 2) direct a
        fill_direct strides shift one_side e (pattern * 2 + 1) direct' a')
    ]

-- The checks that `build` makes before it emits anything.
abbrev pub shape_ok : ℕ → ℕ → Bool
shape_ok width direct_bits =
    leb 1 direct_bits && (ltb direct_bits width && ((width - direct_bits) % 6 == 0))

unfoldable pub emit : ℕ → ℕ → List BinNode → Option (List ℕ × Arrays)
unfolding fill_direct
emit width direct_bits bin =
    fill_direct bin ((width - direct_bits) / 6) direct_bits (some 0) 0 0
      (replicate (2 ^ direct_bits) 0) (record { nodes = []; leaves = [] })

unfoldable pub build {ℓ} : {V : Type ℓ} → ℕ → ℕ → PoptrieBuilder V → Option (Poptrie V)
unfolding emit
build width direct_bits b = do
  checked (shape_ok width direct_bits)
  (bin, values) ← compact_live_values b.bin b.values
  checked (ltb (length values) (2 ^ 31 - 1))
  (direct, a) ← emit width direct_bits bin
  checked (ltb (length a.nodes) (2 ^ 31))
  some (record { direct = direct; nodes = a.nodes; leaves = a.leaves; values = values })
