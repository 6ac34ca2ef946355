-- ===== src/Poptrie/Correct.antt =====
-- The arrays that `build` of crates/poptrie emits, read by `lookup`.
pub mod Renaming
pub mod Lookup
pub mod Table
use native.Mathlib.Nat.{div-eq_of_lt}
use fast_socket_rs.Prelude.{
  ℕ, ◌-◌, ◌*◌, ◌/◌, ◌^◌, ◌<◌, ◌≡◌, sym, ◌∙◌, ap, some, List, length, get_elem?, replicate,
  length-replicate, refl, [], arith,
}
use fast_socket_rs.Poptrie.Key.{direct_index}
use fast_socket_rs.Poptrie.Walk.{low_bits, route}
use fast_socket_rs.Poptrie.Bits.{low_bits-direct, div-lt_pow}
use fast_socket_rs.Poptrie.Emitter.{Arrays, emit}
use fast_socket_rs.Poptrie.Emitter.Frame.{Fits}
use fast_socket_rs.Poptrie.Emitter.Direct.{Trie, resolve_entry}
use fast_socket_rs.Poptrie.Emitter.Direct.Halves.{fill_direct-Pointed}
use fast_socket_rs.Poptrie.Emitter.Direct.Halves.{fill_direct-Pointed}

module _ (t : Trie) where
  open t use {bin, width, direct_bits, strides, aligned}

  -- For a binary trie with values below 2^31 whose width is the direct bits and whole strides: if
  -- `emit` returns arrays with fewer than 2^31 nodes and 2^32 leaves, then the direct entry of
  -- every key of `width` bits exists and resolves, as a leaf or through the nodes, to the value
  -- that the bit-by-bit walk ends with.
  pub emit-resolves :
      (out : List ℕ × Arrays) (key : ℕ)
      → emit width direct_bits bin ≡ some out
      → Fits out.1
      → length out.1.nodes < 2 ^ 31
      → key < 2 ^ width
      → (entry : ℕ) × (get_elem? out.0 (direct_index width key direct_bits) ≡ some entry)
        × (resolve_entry width direct_bits strides out.1 key entry
            ≡ some (route bin (some 0) 0 (low_bits width key)))
  unfolding emit direct_index
  emit-resolves out key h fits few small_key =
      let n = 6 * strides in
      let v = key / 2 ^ n in
      let start : Arrays = record { nodes = []; leaves = [] } in
      let width_split : width - direct_bits ≡ n = omega arith in
      let rounds : (width - direct_bits) / 6 ≡ strides = omega arith in
      let inside : v < 2 ^ direct_bits = div-lt_pow key direct_bits n (rw (← aligned) small_key) in
      let first_bits : v / 2 ^ direct_bits ≡ 0 = div-eq_of_lt inside in
      let room = length-replicate {A = ℕ} (2 ^ direct_bits) 0 in
      let pointed =
        fill_direct-Pointed t direct_bits (some 0) 0 0 (replicate (2 ^ direct_bits) 0) start out
          (omega arith) fits few (rw rounds at h) in
      let (entry, at_v, serves) = pointed.inside v (omega (arith, room)) first_bits in
      (
        entry,
        ap (λ k. get_elem? out.0 (key / 2 ^ k)) width_split ∙ at_v,
        serves out.1 (record { nodes_same = λ j i k. refl; leaves_same = λ j i. refl }) key
            ∙ ap (λ bs. some (route bin (some 0) 0 bs))
                (sym (low_bits-direct direct_bits n key) ∙ ap (λ w. low_bits w key) (sym aligned)),
      )
