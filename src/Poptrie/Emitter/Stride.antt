-- ===== src/Poptrie/Emitter/Stride.antt =====
-- `resolve_stride`: the 64 slots of a stride.
use native.Mathlib.Nat.{div-one, div-div-eq-div-mul, pow-suc}
use fast_socket_rs.Prelude.{
  ℕ, zero, suc, ◌+◌, ◌*◌, ◌/◌, ◌^◌, ◌<◌, ◌≡◌, refl, sym, ◌∙◌, ap, inl, inr, true, false, Option,
  none, some, List, length, get_elem?, length-set, get_elem?-set, arith, Bool-cases, ◌==◌,
  if◌then◌else◌,
}
use fast_socket_rs.Prelude.Bits.{pow_pos}
use fast_socket_rs.Poptrie.Builder.{BinNode}
use fast_socket_rs.Poptrie.Walk.{low_bits, child_of, slot_of}
use fast_socket_rs.Poptrie.Emitter.{
  Slot, leaf, fill_range, effective, branches, children, expect_internal, resolve_stride,
}
use fast_socket_rs.Poptrie.Emitter.Range.{length-fill_range, get_elem?-fill_range, in_block}

-- One step down: the two halves of a block are the blocks of the two children.
pub block_halves : (v shift : ℕ) → v / 2 ^ suc shift ≡ v / 2 ^ shift / 2
block_halves v shift = ap (λ k. v / k) (pow-suc 2 shift) ∙ sym (div-div-eq-div-mul v (2 ^ shift) 2)

-- A uniform block is filled whole.
pub get_elem?-fill_block {ℓ} :
    {A : Type ℓ} (xs : List A) (pattern shift v : ℕ) (a : A)
    → v < length xs
    → get_elem? (fill_range xs (pattern * 2 ^ shift) (2 ^ shift) a) v
      ≡ (if v / 2 ^ shift == pattern then some a else get_elem? xs v)
get_elem?-fill_block xs pattern shift v a h =
    get_elem?-fill_range xs (pattern * 2 ^ shift) (2 ^ shift) a v h
    ∙ ap (λ b. if b then some a else get_elem? xs v)
        (in_block pattern (2 ^ shift) v (pow_pos shift))

module _ (bin : List BinNode) where
  pub children-child_of :
      (from : Option ℕ) → children bin from ≡ (child_of bin from false, child_of bin from true)
  unfolding children child_of
  children-child_of none = refl
  children-child_of (some id) = refl

  pub length-resolve_stride :
      (shift : ℕ) (from : Option ℕ) (inherited pattern : ℕ) (out : List Slot)
      → length (resolve_stride bin shift from inherited pattern out) ≡ length out
  unfolding resolve_stride
  length-resolve_stride zero from inherited pattern out = ground (
    arith,
    length-set out pattern (expect_internal bin from (effective bin from inherited)),
    length-fill_range out pattern 1 (leaf (effective bin from inherited)),
  )
  length-resolve_stride (suc shift) from inherited pattern out =
      let e = effective bin from inherited in
      let (zero_side, one_side) = children bin from in
      let below = resolve_stride bin shift zero_side e (pattern * 2) out in
      ground (
        arith,
        length-fill_range out (pattern * 2 ^ suc shift) (2 ^ suc shift) (leaf e),
        length-resolve_stride shift one_side e (pattern * 2 + 1) below,
        length-resolve_stride shift zero_side e (pattern * 2) out,
      )

  pub get_elem?-resolve_stride :
      (shift : ℕ) (from : Option ℕ) (inherited pattern : ℕ) (out : List Slot) (v : ℕ)
      → v < length out
      → get_elem? (resolve_stride bin shift from inherited pattern out) v ≡ (
          if v / 2 ^ shift == pattern
          then some (slot_of bin from inherited (low_bits shift v))
          else get_elem? out v)
  unfolding resolve_stride slot_of low_bits
  get_elem?-resolve_stride zero from inherited pattern out v h =
      let e = effective bin from inherited in
      ground (
        arith,
        div-one v,
        get_elem?-set out pattern v (expect_internal bin from e) h,
        get_elem?-fill_range out pattern 1 (leaf e) v h,
      )
  get_elem?-resolve_stride (suc shift) from inherited pattern out v h =
      let e = effective bin from inherited in
      let (zero_side, one_side) = children bin from in
      let below = resolve_stride bin shift zero_side e (pattern * 2) out in
      elim (Bool-cases (branches bin from)) [
        | inl b ↦ rw b (
            ground (
              arith,
              block_halves v shift,
              children-child_of from,
              length-resolve_stride shift zero_side e (pattern * 2) out,
              get_elem?-resolve_stride shift one_side e (pattern * 2 + 1) below v,
              get_elem?-resolve_stride shift zero_side e (pattern * 2) out v h,
            ))
        | inr b ↦ ground (arith, get_elem?-fill_block out pattern (suc shift) v (leaf e) h)
      ]
