-- ===== src/Poptrie/Builder/Insert/Walk.antt =====
-- `walk_prefix`, the loop of `insert`.
use native.Mathlib.Nat.{mod-eq_of_lt}
use fast_socket_rs.Prelude.{
  ℕ, zero, suc, ◌+◌, ◌^◌, ◌≤◌, ◌<◌, ◌≡◌, refl, sym, ◌∙◌, ap, subst, inl, inr, Bool, none, some,
  List, [], ◌∷◌, length, arith, Option-cases, length-append,
}
use fast_socket_rs.Prelude.Words.{as_u32}
use fast_socket_rs.Poptrie.Key.{bit}
use fast_socket_rs.Poptrie.Builder.{BinNode, child, node_at, add_child, walk_prefix}
use fast_socket_rs.Poptrie.Builder.Insert.{
  length-add_child, child_of_node, reach_kept, stored-add_child, label, label_new,
  Labelled-add_child,
}
use fast_socket_rs.Poptrie.Builder.Reach.{reach, stored, Labelled, child_of-child}
use fast_socket_rs.Poptrie.Walk.{child_of}

-- Bits `i` to `i + n - 1` of a key.
unfoldable pub key_bits : ℕ → ℕ → ℕ → ℕ → List Bool
key_bits width key i zero = []
key_bits width key i (suc n) = bit width key i ∷ key_bits width key (i + 1) n

pub length-key_bits : (width key n i : ℕ) → length (key_bits width key i n) ≡ n
unfolding key_bits
length-key_bits width key zero i = refl
length-key_bits width key (suc n) i = ap suc (length-key_bits width key n (i + 1))

module _ (width prefix : ℕ) where
  -- The walk from `node` along `bs` ended in `out`.
  pub record Walked (bin : List BinNode) (node : ℕ) (bs : List Bool) (out : ℕ × List BinNode)
      : Type 0 where
    pub path : ℕ → List Bool
    pub labelled : Labelled width out.1 path
    pub inside : out.0 < length out.1
    pub longer : length bin ≤ length out.1
    pub at_most : length out.1 ≤ length bin + length bs
    pub same_stored : (q : List Bool) → stored out.1 q ≡ stored bin q
    pub kept :
        (q : List Bool) (i k : ℕ) → reach bin (some i) q ≡ some k → reach out.1 (some i) q ≡ some k
    pub reached : reach out.1 (some node) bs ≡ some out.0

  -- A first step to `c`, in an array that may have grown by the node for it.
  Walked-step :
      (bin grown : List BinNode) (node c : ℕ) (b : Bool) (bs : List Bool) (out : ℕ × List BinNode)
      → child (node_at grown node) b ≡ some c
      → length bin ≤ length grown
      → length grown ≤ length bin + 1
      → ((q : List Bool) → stored grown q ≡ stored bin q)
      → ((q : List Bool) (i k : ℕ)
          → reach bin (some i) q ≡ some k
          → reach grown (some i) q ≡ some k)
      → Walked grown c bs out
      → Walked bin node (b ∷ bs) out
  unfolding reach
  Walked-step bin grown node c b bs out to_c longer at_most same kept w = record {
    path = w.path;
    labelled = w.labelled;
    inside = w.inside;
    longer = omega (arith, longer, w.longer);
    at_most = omega (arith, at_most, w.at_most);
    same_stored = λ q. w.same_stored q ∙ same q;
    kept = λ q i k h. w.kept q i k (kept q i k h);
    reached =
        let first : child_of out.1 (some node) b ≡ some c =
          w.kept (b ∷ []) node c (child_of-child grown node b ∙ to_c) in
        rw first w.reached;
  }

  module _ (rounds i node : ℕ) (bin : List BinNode) where
    walk_prefix-some :
        (c : ℕ)
        → child (node_at bin node) (bit width prefix i) ≡ some c
        → walk_prefix width prefix (suc rounds) i node bin
          ≡ walk_prefix width prefix rounds (i + 1) c bin
    unfolding walk_prefix
    walk_prefix-some c e = rw (e, walk_prefix) refl

    walk_prefix-none :
        child (node_at bin node) (bit width prefix i) ≡ none
        → as_u32 (length bin) ≡ length bin
        → walk_prefix width prefix (suc rounds) i node bin
          ≡ walk_prefix width prefix rounds
              (i + 1)
              (length bin)
              (add_child bin node (bit width prefix i))
    unfolding walk_prefix
    walk_prefix-none e at_end =
        rw (e, walk_prefix)
          (ap
            (λ k.
              walk_prefix width prefix rounds (i + 1) k (add_child bin node (bit width prefix i)))
            at_end)

  -- From a node of a labelled trie at depth i, walking i + rounds at most `width` bits with fewer
  -- than 2^32 nodes in sight reaches the node of these bits, adds at most one node for each bit,
  -- keeps the trie labelled, and changes neither a stored value nor where a path led.
  pub walk_prefix-Walked :
      (rounds i node : ℕ) (bin : List BinNode) (path : ℕ → List Bool)
      → Labelled width bin path
      → node < length bin
      → length (path node) ≡ i
      → i + rounds ≤ width
      → length bin + rounds < 2 ^ 32
      → Walked bin node
          (key_bits width prefix i rounds)
          (walk_prefix width prefix rounds i node bin)
  unfolding walk_prefix key_bits reach
  walk_prefix-Walked zero i node bin path l inside depth short fits = record {
    path = path;
    labelled = l;
    inside = inside;
    longer = omega arith;
    at_most = omega arith;
    same_stored = λ q. refl;
    kept = λ q j k h. h;
    reached = refl;
  }
  walk_prefix-Walked (suc rounds) i node bin path l inside depth short fits =
      let b = bit width prefix i in
      elim (Option-cases (child (node_at bin node) b)) [
        | inl e ↦
            let small : length bin < 2 ^ 32 = omega (arith, fits) in
            let at_end : as_u32 (length bin) ≡ length bin = mod-eq_of_lt small in
            let one_more = length-add_child bin node b inside small in
            let room : length (path node) < width = omega (arith, depth, short) in
            let deeper : length (label bin node b inside small width path l room (length bin))
                ≡ i + 1 =
              omega (
                arith,
                ap length (label_new bin node b inside small width path l room),
                length-append (path node) (b ∷ []),
              ) in
            subst (Walked bin node _) (sym (walk_prefix-none rounds i node bin e at_end)) (
              Walked-step bin (add_child bin node b) node (length bin) b _ _
                (child_of_node bin node b inside small) (omega (arith, one_more))
                (omega (arith, one_more)) (stored-add_child bin node b inside small e width path l)
                (reach_kept bin node b inside small e)
                (walk_prefix-Walked rounds (i + 1) (length bin) (add_child bin node b)
                  (label bin node b inside small width path l room)
                  (Labelled-add_child bin node b inside small width path l room)
                  (omega (arith, one_more)) deeper (omega arith) (omega (arith, one_more))))
        | inr (c, e) ↦
            let edge = l.edges node c b e in
            subst (Walked bin node _) (sym (walk_prefix-some rounds i node bin c e)) (
              Walked-step bin bin node c b _ _ e (omega arith) (omega arith) (λ q. refl)
                (λ q j k h. h)
                (walk_prefix-Walked rounds (i + 1) c bin path l edge.0
                  (omega (arith, ap length edge.1, length-append (path node) (b ∷ [])))
                  (omega arith) (omega arith)))
      ]
