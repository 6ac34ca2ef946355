-- ===== src/Poptrie/Emitter/Direct/Halves.antt =====
-- `fill_direct` as a whole, from the two halves of each block.
use fast_socket_rs.Poptrie.Emitter.Direct.Blocks.{
  Pointed, uniform-Pointed, hand_off-Pointed, fill_direct-Grows, uniform_returned, entry_returned,
  split_returned,
}
use fast_socket_rs.Poptrie.Emitter.Direct.{Trie, EntryServes, effective_small}
use fast_socket_rs.Prelude.{
  ℕ, zero, suc, ◌+◌, ◌*◌, ◌/◌, ◌%◌, ◌^◌, ◌≤◌, ◌<◌, ◌≡◌, ◌∙◌, subst, inl, inr, true, false, Option,
  some, List, length, get_elem?, arith, Bool-cases, ◌==◌, ==_iff,
}
use fast_socket_rs.Poptrie.Walk.{low_bits, child_of, route}
use fast_socket_rs.Poptrie.Emitter.{Arrays, fill_direct, branches, effective}
use fast_socket_rs.Poptrie.Emitter.Stride.{block_halves}
use fast_socket_rs.Poptrie.Emitter.Frame.{Fits, Fits-Grows, Agrees, Agrees-weaken, Agrees-trans}

module _ (t : Trie) where
  open t use {bin, strides}

  -- The two halves of a branching block make up the block.
  module _ (shift : ℕ) (from : Option ℕ) (e pattern : ℕ) (direct : List ℕ) (a : Arrays)
      (p out : List ℕ × Arrays)
      (first : Pointed t shift
        (child_of bin from false)
        (effective bin from e)
        (pattern * 2)
        direct
        a
        p)
      (second : Pointed t shift
        (child_of bin from true)
        (effective bin from e)
        (pattern * 2 + 1)
        p.0
        p.1
        out) where
    inside_halves :
        (v : ℕ)
        → v < length direct
        → v / 2 ^ suc shift ≡ pattern
        → (entry : ℕ) × (get_elem? out.0 v ≡ some entry)
          × ((later : Arrays)
              → Agrees (λ j. length a.nodes ≤ j) out.1 later
              → EntryServes t later entry from e (low_bits (suc shift) v))
    unfolding low_bits route
    inside_halves v i same = elim (Bool-cases (v / 2 ^ shift % 2 == 1)) [
      | inl odd ↦
          let halves = block_halves v shift in
          let is_odd = (==_iff (v / 2 ^ shift % 2) 1).0 odd in
          let (entry, at_v, serves) =
            second.inside v (omega (arith, first.same_length)) (omega arith) in
          (
            entry,
            at_v,
            λ later agrees.
                rw odd (serves later (Agrees-weaken (λ j h. omega (arith, first.grows)) agrees)),
          )
      | inr even ↦
          let halves = block_halves v shift in
          let (entry, at_v, serves) = first.inside v i (ground arith) in
          (
            entry,
            second.outside v (omega (arith, first.same_length)) (ground arith) ∙ at_v,
            λ later agrees. rw even (
                serves later
                  (Agrees-trans second.grows (Agrees-weaken (λ j h. tt) second.kept) agrees)),
          )
    ]

    halves-Pointed : Pointed t (suc shift) from e pattern direct a out
    halves-Pointed = record {
      grows = omega (arith, first.grows, second.grows);
      kept = Agrees-trans first.grows first.kept second.kept;
      same_length = second.same_length ∙ first.same_length;
      outside = λ v i ne.
          let halves = block_halves v shift in
          second.outside v (omega (arith, first.same_length)) (omega arith)
          ∙ first.outside v i (omega arith);
      inside = inside_halves;
    }

  pub fill_direct-Pointed :
      (shift : ℕ) (from : Option ℕ) (e pattern : ℕ) (direct : List ℕ) (a : Arrays)
      (out : List ℕ × Arrays)
      → e < 2 ^ 31
      → Fits out.1
      → length out.1.nodes < 2 ^ 31
      → fill_direct bin strides shift from e pattern direct a ≡ some out
      → Pointed t shift from e pattern direct a out
  fill_direct-Pointed zero from e pattern direct a out h fits few d =
      elim (Bool-cases (branches bin from)) [
        | inl b ↦
            hand_off-Pointed t from e pattern direct a out fits few
              (entry_returned bin strides from e 0 pattern direct a out d b)
        | inr b ↦
            subst (Pointed t 0 from e pattern direct a)
              (uniform_returned bin strides from e 0 pattern direct a out d b)
              (uniform-Pointed t 0 from e pattern direct a h b)
      ]
  fill_direct-Pointed (suc shift) from e pattern direct a out h fits few d =
      elim (Bool-cases (branches bin from)) [
        | inl b ↦
            let v = effective bin from e in
            let (p, hp, hr) = split_returned bin strides from e shift pattern direct a out d b in
            let rest_grown =
              fill_direct-Grows t shift (child_of bin from true) v (pattern * 2 + 1) p.0 p.1 out
                hr in
            let v_small = effective_small t from e h in
            halves-Pointed shift from e pattern direct a p out
              (fill_direct-Pointed shift (child_of bin from false) v (pattern * 2) direct a p
                v_small (Fits-Grows p.1 out.1 rest_grown fits) (omega (arith, rest_grown)) hp)
              (fill_direct-Pointed shift (child_of bin from true) v (pattern * 2 + 1) p.0 p.1 out
                v_small fits few hr)
        | inr b ↦
            subst (Pointed t (suc shift) from e pattern direct a)
              (uniform_returned bin strides from e (suc shift) pattern direct a out d b)
              (uniform-Pointed t (suc shift) from e pattern direct a h b)
      ]
