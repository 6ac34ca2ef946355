-- ===== src/Poptrie/Emitter/Total.antt =====
-- The emitter on tries of bounded depth, with the strides of the key as fuel.
use fast_socket_rs.Prelude.{
  ℕ, zero, suc, ◌+◌, ◌*◌, ◌^◌, ◌<◌, ◌≡◌, refl, ◌∙◌, ap, inl, inr, Bool, true, false, Option, none,
  some, List, [], ◌∷◌, ◌++◌, length, set, replicate, length-replicate, length-set, lt_of_get_elem?,
  arith, Bool-cases, Option-cases, ltb, leb, ◌≤◌, length-append,
}
use fast_socket_rs.Prelude.Bits.{set_bit}
use fast_socket_rs.Poptrie.{leaf_bit}
use fast_socket_rs.Prelude.Words.{as_u32}
use fast_socket_rs.Poptrie.Builder.{BinNode}
use fast_socket_rs.Poptrie.Walk.{low_bits, child_of, slot_of}
use fast_socket_rs.Poptrie.Emitter.{
  internal, leaf, Arrays, default_node, branches, effective, expect_internal, scan, scan_start,
  write_node, fill_children, fill, hand_off, fill_direct, in_bin, stride_ok, fill_range,
}
use fast_socket_rs.Poptrie.Emitter.Range.{length-fill_range}
use fast_socket_rs.Poptrie.Emitter.Stride.{length-resolve_stride, children-child_of}
use fast_socket_rs.Poptrie.Emitter.Slots.Loop.{scan-AllChildren, AllInternal, AllChildren}
use fast_socket_rs.Poptrie.Emitter.Fill.{slots_of, slots_of_lem, length-write_node, fill-Grows}
use fast_socket_rs.Poptrie.Emitter.Direct.Blocks.{
  fill_direct-uniform, fill_direct-entry, fill_direct-split,
}

-- Below `from` the trie branches for fewer than `n` further bits.
abbrev pub Shallow : List BinNode → ℕ → Option ℕ → Type 0
Shallow bin zero from = branches bin from ≡ false
Shallow bin (suc n) from =
    Shallow bin n (child_of bin from false) × Shallow bin n (child_of bin from true)

-- Every child is in the array.
abbrev pub Closed : List BinNode → Type 0
Closed bin = (i c : ℕ) (b : Bool) → child_of bin (some i) b ≡ some c → c < length bin

lt_ltb : (i n : ℕ) → i < n → ltb i n ≡ true
lt_ltb i n h = ground arith

-- The halves of a block of entries.
halves_inside :
    (p s n : ℕ)
    → p * 2 ^ suc s + 2 ^ suc s ≤ n
    → (p * 2 * 2 ^ s + 2 ^ s ≤ n) × ((p * 2 + 1) * 2 ^ s + 2 ^ s ≤ n)
halves_inside p s n h = (grind arith, grind arith)

module _ (bin : List BinNode) (closed : Closed bin) where
  Shallow-child :
      (n : ℕ) (from : Option ℕ) (b : Bool)
      → Shallow bin (suc n) from
      → Shallow bin n (child_of bin from b)
  Shallow-child n from false h = h.0
  Shallow-child n from true h = h.1

  in_bin-child : (from : Option ℕ) (b : Bool) → in_bin bin (child_of bin from b) ≡ true
  unfolding child_of
  in_bin-child none false = refl
  in_bin-child none true = refl
  in_bin-child (some id) b = elim (Option-cases (child_of bin (some id) b)) [
    | inl e ↦ rw e refl
    | inr (c, e) ↦
        let inside = closed id c b e in rw e (let t : ltb c (length bin) ≡ true = ground arith in t)
  ]

  -- No read and no write of `resolve_stride` panics.
  stride_ok-inside :
      (shift : ℕ) (from : Option ℕ) (pattern : ℕ)
      → in_bin bin from ≡ true
      → pattern * 2 ^ shift + 2 ^ shift ≤ 64
      → stride_ok bin shift from pattern ≡ true
  unfolding stride_ok
  stride_ok-inside zero from pattern k h =
      let t : ltb pattern 64 ≡ true = ground arith in rw (k, t) refl
  stride_ok-inside (suc shift) from pattern k h =
      let (first, second) = halves_inside pattern shift 64 h in
      let z =
        stride_ok-inside shift (child_of bin from false) (pattern * 2) (in_bin-child from false)
          first in
      let o =
        stride_ok-inside shift (child_of bin from true) (pattern * 2 + 1) (in_bin-child from true)
          second in
      elim (Bool-cases (branches bin from)) [
        | inl b ↦ rw (k, b, children-child_of bin from, z, o) refl
        | inr b ↦
            let t : leb (pattern * 2 ^ suc shift + 2 ^ suc shift) 64 ≡ true = ground arith in
            rw (k, b, t) refl
      ]

  -- A child that `fill` is called for.
  abbrev Deep : ℕ → ℕ → ℕ → Type 0
  Deep n c e =
      (branches bin (some c) ≡ true) × (in_bin bin (some c) ≡ true) × Shallow bin n (some c)

  expect-Deep :
      (n : ℕ) (from : Option ℕ) (v c e : ℕ)
      → branches bin from ≡ true
      → in_bin bin from ≡ true
      → Shallow bin n from
      → expect_internal bin from v ≡ internal c e
      → Deep n c e
  unfolding expect_internal branches
  expect-Deep n none v c e b k h s = cc
  expect-Deep n (some id) v c e b k h s = let same : id ≡ c = cc in rw (← same) (b, k, h)

  slot_of-Deep :
      (bs : List Bool) (n m : ℕ) (from : Option ℕ) (inherited c e : ℕ)
      → m ≡ length bs + n
      → in_bin bin from ≡ true
      → Shallow bin m from
      → slot_of bin from inherited bs ≡ internal c e
      → Deep n c e
  unfolding slot_of
  slot_of-Deep [] n m from inherited c e len k h s =
      let same : m ≡ n = omega arith in
      elim (Bool-cases (branches bin from)) [
        | inl b ↦ expect-Deep n from _ c e b k (rw (← same) h) (rw b at s)
        | inr b ↦ absurd (ground arith)
      ]
  slot_of-Deep (b ∷ bs) n zero from inherited c e len k h s = absurd (omega arith)
  slot_of-Deep (b ∷ bs) n (suc m) from inherited c e len k h s =
      elim (Bool-cases (branches bin from)) [
        | inl br ↦
            slot_of-Deep bs n m (child_of bin from b) _ c e (omega arith) (in_bin-child from b)
              (Shallow-child m from b h) (rw br at s)
        | inr br ↦ absurd (ground arith)
      ]

  length-low_bits : (n x : ℕ) → length (low_bits n x) ≡ n
  unfolding low_bits
  length-low_bits zero x = refl
  length-low_bits (suc n) x = ap suc (length-low_bits n x)

  slots_of-Deep :
      (n c e : ℕ)
      → in_bin bin (some c) ≡ true
      → Shallow bin (6 + n) (some c)
      → AllInternal (Deep n) (slots_of bin c e)
  slots_of-Deep n c e is_node h k d f at_k =
      let inside : k < 64 = omega (
        arith,
        lt_of_get_elem? (slots_of bin c e) k at_k,
        length-resolve_stride bin 6 (some c) e 0 (replicate 64 (leaf 0)),
        length-replicate 64 (leaf 0),
      ) in
      slot_of-Deep (low_bits 6 k) n (6 + n) (some c) e d f (omega (arith, length-low_bits 6 k))
        is_node h (cc (slots_of_lem bin c e k inside))

  fill_children-total :
      (n : ℕ) (fill_one : ℕ → ℕ → ℕ → Arrays → Option Arrays)
      → ((slot c e : ℕ) (a : Arrays)
          → Deep n c e
          → slot < length a.nodes
          → (b : Arrays) × (fill_one slot c e a ≡ some b) × (length a.nodes ≤ length b.nodes))
      → (base : ℕ) (cs : List (ℕ × ℕ)) (a : Arrays) → AllChildren (Deep n) cs
      → base + length cs ≤ length a.nodes
      → (b : Arrays) × (fill_children fill_one base cs a ≡ some b)
  unfolding fill_children
  fill_children-total n fill_one one base [] a deep room = (a, refl)
  fill_children-total n fill_one one base ((c, e) ∷ cs) a deep room =
      let (m, hm, grown) = one base c e a (deep 0 c e refl) (omega arith) in
      let (b, hb) =
        fill_children-total n fill_one one (base + 1) cs m (λ k. deep (suc k)) (omega arith) in
      (b, rw hm hb)

  pub fill-total :
      (strides slot c e : ℕ) (a : Arrays)
      → Deep (6 * strides) c e
      → slot < length a.nodes
      → (b : Arrays) × (fill bin strides slot c e a ≡ some b) × (length a.nodes ≤ length b.nodes)
  unfolding fill
  fill-total zero slot c e a (b, is_node, below) inside = absurd (ground arith)
  fill-total (suc strides) slot c e a (b, is_node, below) inside =
      let s = scan 0 (slots_of bin c e) (scan_start a.leaves) in
      let split : 6 * suc strides ≡ 6 + 6 * strides = omega arith in
      let size = length-write_node slot s a in
      let (out, h) =
        fill_children-total (6 * strides) (fill bin strides) (fill-total strides)
          (as_u32 (length a.nodes)) s.children (write_node slot s a)
          (scan-AllChildren (Deep (6 * strides)) 0 (slots_of bin c e) (scan_start a.leaves)
            (slots_of-Deep (6 * strides) c e is_node (rw split at below)) (λ k d f none_yet. cc))
          (omega (arith, size)) in
      let reads = stride_ok-inside 6 (some c) 0 is_node (omega arith) in
      let room = lt_ltb slot (length a.nodes + length s.children) (omega arith) in
      let returned : fill bin (suc strides) slot c e a ≡ some out = rw (reads, room) h in
      (out, returned, (fill-Grows bin 0 (suc strides) slot c e a out returned).nodes_grow)

  hand_off-total :
      (strides : ℕ) (from : Option ℕ) (e pattern : ℕ) (direct : List ℕ) (a : Arrays)
      → branches bin from ≡ true
      → in_bin bin from ≡ true
      → pattern < length direct
      → Shallow bin (6 * strides) from
      → (out : List ℕ × Arrays) × (hand_off bin strides from e pattern direct a ≡ some out)
        × (length out.0 ≡ length direct)
  unfolding hand_off branches
  hand_off-total strides none e pattern direct a b k inside h = cc
  hand_off-total strides (some id) e pattern direct a b k inside h =
      let root = as_u32 (length a.nodes) in
      let start = record a { nodes = a.nodes ++ (default_node ∷ []) } in
      let (m, hm, _) =
        fill-total strides root id e start (b, k, h)
          (omega (arith, length-append a.nodes (default_node ∷ []))) in
      let room : ltb pattern (length direct) ≡ true = ground arith in
      ((set direct pattern root, m), rw (hm, room) refl, length-set direct pattern root)

  uniform_total :
      (strides shift : ℕ) (from : Option ℕ) (e pattern : ℕ) (direct : List ℕ) (a : Arrays)
      → branches bin from ≡ false
      → in_bin bin from ≡ true
      → pattern * 2 ^ shift + 2 ^ shift ≤ length direct
      → (out : List ℕ × Arrays) × (fill_direct bin strides shift from e pattern direct a ≡ some out)
        × (length out.0 ≡ length direct)
  uniform_total strides shift from e pattern direct a b k room =
      let fits : leb (pattern * 2 ^ shift + 2 ^ shift) (length direct) ≡ true = ground arith in
      let entry = set_bit (effective bin from e) leaf_bit in
      (
        (fill_range direct (pattern * 2 ^ shift) (2 ^ shift) entry, a),
        fill_direct-uniform bin strides from e shift pattern direct a b ∙ rw (k, fits) refl,
        length-fill_range direct (pattern * 2 ^ shift) (2 ^ shift) entry,
      )

  pub fill_direct-total :
      (strides shift n : ℕ) (from : Option ℕ) (e pattern : ℕ) (direct : List ℕ) (a : Arrays)
      → n ≡ shift + 6 * strides
      → in_bin bin from ≡ true
      → pattern * 2 ^ shift + 2 ^ shift ≤ length direct
      → Shallow bin n from
      → (out : List ℕ × Arrays) × (fill_direct bin strides shift from e pattern direct a ≡ some out)
        × (length out.0 ≡ length direct)
  fill_direct-total strides zero n from e pattern direct a len k room h =
      let same : n ≡ 6 * strides = omega arith in
      elim (Bool-cases (branches bin from)) [
        | inl b ↦
            let (out, ho, same_length) =
              hand_off-total strides from (effective bin from e) pattern direct a b k (omega arith)
                (rw same at h) in
            (out, fill_direct-entry bin strides from e pattern direct a b ∙ rw k ho, same_length)
        | inr b ↦ uniform_total strides 0 from e pattern direct a b k room
      ]
  fill_direct-total strides (suc shift) zero from e pattern direct a len k room h =
      absurd (omega arith)
  fill_direct-total strides (suc shift) (suc n) from e pattern direct a len k room h =
      elim (Bool-cases (branches bin from)) [
        | inl b ↦
            let v = effective bin from e in
            let (low, high) = halves_inside pattern shift (length direct) room in
            let (p, hp, first) =
              fill_direct-total strides shift n (child_of bin from false) v (pattern * 2) direct a
                (omega arith) (in_bin-child from false) low h.0 in
            let (out, ho, second) =
              fill_direct-total strides shift n (child_of bin from true) v (pattern * 2 + 1) p.0 p.1
                (omega arith) (in_bin-child from true) (omega (arith, first, high)) h.1 in
            (
              out,
              fill_direct-split bin strides from e shift pattern direct a b ∙ rw (k, hp) ho,
              second ∙ first,
            )
        | inr b ↦ uniform_total strides (suc shift) from e pattern direct a b k room
      ]
