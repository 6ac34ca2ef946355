-- ===== src/Poptrie.antt =====
-- crates/poptrie/src/lib.rs: the read side of the longest-prefix-match table.
-- `width` is `K::BITS`, 32 or 128, and `direct_bits` is `DIRECT_BITS`. A read that the source makes
-- unchecked gives `none` here where it would lie out of range, and so does a walk that has more
-- strides than the key; so a result `some r` says that the lookup is defined and returns `r`.
pub mod Key
pub mod Builder
pub mod Walk
pub mod Longest
pub mod Scan
pub mod Bits
pub mod Emitter
pub mod Correct
mod Tests
use fast_socket_rs.Prelude.{
  ℕ, zero, suc, ◌+◌, ◌-◌, ◌/◌, List, Option, none, some, get_elem?, ◌==◌, if◌then◌else◌,
}
use fast_socket_rs.Prelude.Results.{◌>>=◌}
use fast_socket_rs.Prelude.Bits.{test_bit, mask_below, count_ones}
use Key.{stride, direct_index}

pub record Node : Type 0 where
  pub vector : ℕ
  pub leafvec : ℕ
  pub base0 : ℕ
  pub base1 : ℕ

pub record Poptrie {ℓ} (V : Type ℓ) : Type ℓ where
  pub direct : List ℕ
  pub nodes : List Node
  pub leaves : List ℕ
  pub values : List V

-- `LEAF_FLAG` is `1 << 31`.
abbrev pub leaf_bit : ℕ
leaf_bit = 31

-- The child of slot `v`, or the leaf that covers it. `bit | (bit - 1)` masks the bits up to `v`.
abbrev pub child_index : Node → ℕ → ℕ
child_index node v = node.base1 + count_ones (mask_below node.vector v)

abbrev pub leaf_index : Node → ℕ → ℕ
leaf_index node v = node.base0 + count_ones (mask_below node.leafvec (suc v)) - 1

module _ (width : ℕ) (key : ℕ) (nodes : List Node) (leaves : List ℕ) where
  -- The loop of `lookup` from a node on: the value encoding of the leaf that it ends at.
  unfoldable pub descend : ℕ → ℕ → ℕ → Option ℕ
  descend zero node_index offset = none
  descend (suc fuel) node_index offset = do
    node ← get_elem? nodes node_index
    let v = stride width key offset
    let next = descend fuel (child_index node v) (offset + 6)
    if test_bit node.vector v then next else get_elem? leaves (leaf_index node v)

-- A value encoding: 0 is no route, `n` is `values[n - 1]`.
unfoldable pub value {ℓ} : {V : Type ℓ} → List V → ℕ → Option (Option V)
value values encoding =
    if encoding == 0 then some none else (do v ← get_elem? values (encoding - 1); some (some v))

unfoldable pub lookup {ℓ} : {V : Type ℓ} → ℕ → ℕ → Poptrie V → ℕ → Option (Option V)
unfolding descend value
lookup width direct_bits t key = do
  entry ← get_elem? t.direct (direct_index width key direct_bits)
  let walk = descend width key t.nodes t.leaves ((width - direct_bits) / 6) entry direct_bits
  encoding ← (if test_bit entry leaf_bit then some (mask_below entry leaf_bit) else walk)
  value t.values encoding
