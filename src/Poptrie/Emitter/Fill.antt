-- ===== src/Poptrie/Emitter/Fill.antt =====
-- `fill`: a node, its leaves and its children.
use native.Mathlib.Nat.{mod-eq_of_lt, mod-lt}
use fast_socket_rs.Prelude.{
  ℕ, zero, suc, ◌+◌, ◌*◌, ◌≤◌, ◌<◌, ◌≡◌, ◌≢◌, refl, sym, ◌∙◌, ap, subst, ◌⊎◌, inl, inr, some, List,
  ◌++◌, length, get_elem?, replicate, length-replicate, length-set_append, get_elem?-set_self,
  length-append, get_elem?-append_left, get_elem?-set_ne, lt_of_get_elem?, arith,
}
use fast_socket_rs.Prelude.Results.{checked-passed}
use fast_socket_rs.Prelude.Words.{as_u32}
use fast_socket_rs.Prelude.Bits.{count_ones, ones, ones-mask_below}
use fast_socket_rs.Poptrie.{descend}
use fast_socket_rs.Poptrie.Key.{stride}
use fast_socket_rs.Poptrie.Builder.{BinNode}
use fast_socket_rs.Poptrie.Walk.{low_bits, route, slot_of, finish, route-append}
use fast_socket_rs.Poptrie.Bits.{low_bits-stride}
use fast_socket_rs.Poptrie.Emitter.{
  Slot, internal, leaf, Arrays, default_node, Scan, scan, scan_start, node_of, fill_children, fill,
  write_node, resolve_stride,
}
use fast_socket_rs.Poptrie.Emitter.Stride.{get_elem?-resolve_stride}
use fast_socket_rs.Poptrie.Emitter.Slots.{Recorded, Scanned}
use fast_socket_rs.Poptrie.Emitter.Slots.Loop.{scan-Recorded, scan-leaves}
use fast_socket_rs.Poptrie.Emitter.Frame.{
  Grows, Fits, Agrees, Agrees-weaken, Filled, FilledAll, fill_children-Grows,
  fill_children-FilledAll,
}

-- Node `slot` of the arrays answers for the binary-trie node `c` with inherited value `e`, over the
-- key bits below `strides` strides.
abbrev pub Serves : List BinNode → ℕ → ℕ → Arrays → ℕ → ℕ → ℕ → Type 0
Serves bin width strides a slot c e =
    (key offset : ℕ)
    → width ≡ offset + 6 * strides
    → descend width key a.nodes a.leaves strides slot offset
      ≡ some (route bin (some c) e (low_bits (6 * strides) key))

-- The slots of one stride, as `fill` resolves them.
abbrev pub slots_of : List BinNode → ℕ → ℕ → List Slot
slots_of bin c e = resolve_stride bin 6 (some c) e 0 (replicate 64 (leaf 0))

pub slots_of_lem :
    (bin : List BinNode) (c e v : ℕ)
    → v < 64
    → get_elem? (slots_of bin c e) v ≡ some (slot_of bin (some c) e (low_bits 6 v))
slots_of_lem bin c e v h =
    get_elem?-resolve_stride bin 6 (some c) e 0 (replicate 64 (leaf 0)) v
      (omega (arith, length-replicate 64 (leaf 0)))
    ∙ ground arith

scan_start-Scanned : (leaves : List ℕ) → Scanned (length leaves) 0 (scan_start leaves)
unfolding ones
scan_start-Scanned leaves = record {
  vector_below = omega arith;
  leafvec_below = omega arith;
  children_counted = refl;
  leaves_counted = omega arith;
  run_open = λ r e. cc;
}

-- What `write_node` leaves in the arrays.
module _ (slot : ℕ) (s : Scan) (a : Arrays) where
  pub length-write_node : length (write_node slot s a).nodes ≡ length a.nodes + length s.children
  unfolding write_node
  length-write_node =
      length-set_append a.nodes (replicate (length s.children) default_node) slot _
      ∙ ap (λ k. length a.nodes + k) (length-replicate (length s.children) default_node)

  write_node_self :
      slot < length a.nodes
      → get_elem? (write_node slot s a).nodes slot
        ≡ some (node_of (length a.leaves) (length a.nodes) s)
  unfolding write_node
  write_node_self h =
      get_elem?-set_self _ slot _
        (omega (arith, length-append a.nodes (replicate (length s.children) default_node)))

  write_node-kept :
      (j : ℕ)
      → j < length a.nodes
      → j ≢ slot
      → get_elem? (write_node slot s a).nodes j ≡ get_elem? a.nodes j
  unfolding write_node
  write_node-kept j h ne =
      get_elem?-set_ne (a.nodes ++ replicate (length s.children) default_node) _ (λ e. ne (sym e))
      ∙ get_elem?-append_left a.nodes _ j h

-- One round of `descend`, at a node that `fill` wrote.
module _ (bin : List BinNode) (width strides : ℕ) (later : Arrays) (slot base0 base1 : ℕ) (s : Scan)
    (key offset : ℕ)
    (here : get_elem? later.nodes slot
      ≡ some (record { vector = s.vector; leafvec = s.leafvec; base0 = base0; base1 = base1 }))
    (below : (k d f : ℕ)
      → get_elem? s.children k ≡ some (d, f)
      → Serves bin width strides later (base1 + k) d f)
    (leaves_here : (j x : ℕ) → get_elem? s.leaves j ≡ some x → get_elem? later.leaves j ≡ some x)
    (aligned : width ≡ offset + 6 + 6 * strides) where
  descend-slot :
      (y : Slot)
      → Recorded base0 s (stride width key offset) y
      → stride width key offset < 64
      → descend width key later.nodes later.leaves (suc strides) slot offset
        ≡ some (finish bin y (low_bits (6 * strides) key))
  unfolding descend finish count_ones
  descend-slot (internal d f) rec in_stride =
      rw (here, rec.0, ones-mask_below 64 (stride width key offset) s.vector (omega arith))
        (below _ d f rec.1 key (offset + 6) aligned)
  descend-slot (leaf x) rec in_stride =
      rw (here, rec.0, ones-mask_below 64 (suc (stride width key offset)) s.leafvec in_stride)
        (leaves_here _ x rec.2)

module _ (bin : List BinNode) (width : ℕ) where
  pub fill-Grows :
      (strides slot c e : ℕ) (a b : Arrays) → fill bin strides slot c e a ≡ some b → Grows a b
  unfolding fill
  fill-Grows zero slot c e a b h = cc
  fill-Grows (suc strides) slot c e a b h =
      let s = scan 0 (slots_of bin c e) (scan_start a.leaves) in
      let (_, read) = checked-passed _ _ h in
      let (_, done) = checked-passed _ _ read in
      let rest =
        fill_children-Grows (fill bin strides) (fill-Grows strides) _ s.children
          (write_node slot s a) b done in
      omega (
        arith,
        rest,
        length-write_node slot s a,
        (scan-leaves 0 0 (slots_of bin c e) (scan_start a.leaves)).0,
      )

  stride_in : (key offset : ℕ) → stride width key offset < 64
  unfolding stride
  stride_in key offset = mod-lt _ (omega arith)

  -- The arrays after `fill`, given those after its children.
  Serves-node :
      (strides slot c e : ℕ) (a b : Arrays) (s : Scan)
      → s ≡ scan 0 (slots_of bin c e) (scan_start a.leaves)
      → slot < length a.nodes
      → Fits b
      → Grows (write_node slot s a) b
      → FilledAll (Serves bin width strides) (write_node slot s a) (length a.nodes) s.children b
      → (later : Arrays) → Agrees (λ j. (j ≡ slot) ⊎ (length a.nodes ≤ j)) b later
      → Serves bin width (suc strides) later slot c e
  unfolding write_node
  Serves-node strides slot c e a b s scanned inside fits grown all later agrees key offset w =
      let v = stride width key offset in
      let aligned : width ≡ offset + 6 + 6 * strides = omega arith in
      let grew = (scan-leaves 0 0 (slots_of bin c e) (scan_start a.leaves)).0 in
      let same_length = ap (λ (t : Scan). length t.leaves) scanned in
      let base0 : as_u32 (length a.leaves) ≡ length a.leaves = mod-eq_of_lt (omega arith) in
      let base1 : as_u32 (length a.nodes) ≡ length a.nodes =
        mod-eq_of_lt (omega (arith, length-write_node slot s a)) in
      let room : slot < length b.nodes = omega (arith, length-write_node slot s a) in
      let at_slot =
        agrees.nodes_same slot room (inl refl)
        ∙ all.kept.nodes_same slot (omega (arith, length-write_node slot s a)) (inl inside)
        ∙ write_node_self slot s a inside in
      let recorded : Recorded (length a.leaves) s v (slot_of bin (some c) e (low_bits 6 v)) =
        rw scanned (
          scan-Recorded (length a.leaves) 0 v (scan_start a.leaves) (slots_of bin c e) v _
            (scan_start-Scanned a.leaves) (omega arith)
            (slots_of_lem bin c e v (stride_in key offset))) in
      let step =
        descend-slot bin width strides later slot (length a.leaves) (length a.nodes) s key offset
          (rw (base0, base1) at at_slot) (all.serves later (Agrees-weaken (λ j h. inr h) agrees))
          (λ j x h.
            let inside_s = lt_of_get_elem? s.leaves j h in
            agrees.leaves_same j (omega (arith, grown.leaves_grow))
            ∙ all.kept.leaves_same j inside_s
            ∙ h)
          aligned _ recorded (stride_in key offset) in
      let split : 6 * suc strides ≡ 6 + 6 * strides = omega arith in
      rw (split, low_bits-stride width key offset (6 * strides) aligned)
        (step ∙ ap some (sym (route-append bin (some c) e (low_bits 6 v) _)))

  pub fill-Filled :
      (strides slot c e : ℕ) (a b : Arrays)
      → slot < length a.nodes
      → Fits b
      → fill bin strides slot c e a ≡ some b
      → Filled (Serves bin width strides) a slot c e b
  unfolding fill
  fill-Filled zero slot c e a b inside fits h = cc
  fill-Filled (suc strides) slot c e a b inside fits h =
      let s = scan 0 (slots_of bin c e) (scan_start a.leaves) in
      let mid = write_node slot s a in
      let (_, read) = checked-passed _ _ h in
      let (_, done) = checked-passed _ _ read in
      let grown =
        fill_children-Grows (fill bin strides) (fill-Grows strides) (as_u32 (length a.nodes))
          s.children mid b done in
      let whole = fill-Grows (suc strides) slot c e a b h in
      let base : as_u32 (length a.nodes) ≡ length a.nodes =
        mod-eq_of_lt (omega (arith, fits.nodes_fit, whole.nodes_grow)) in
      let all =
        fill_children-FilledAll (Serves bin width strides) (fill bin strides) (fill-Grows strides)
          (fill-Filled strides) (length a.nodes) s.children mid b
          (omega (arith, length-write_node slot s a)) fits
          (subst (λ k. fill_children (fill bin strides) k s.children mid ≡ some b) base done) in
      record {
        grows = whole;
        kept = record {
          nodes_same = λ j inside_a other.
              all.kept.nodes_same j (omega (arith, length-write_node slot s a)) (inl inside_a)
              ∙ write_node-kept slot s a j inside_a other;
          leaves_same = λ j inside_a.
              let kept = scan-leaves j 0 (slots_of bin c e) (scan_start a.leaves) in
              all.kept.leaves_same j (omega (arith, kept.0)) ∙ kept.1 inside_a;
        };
        serves = Serves-node strides slot c e a b s refl inside fits grown all;
      }
