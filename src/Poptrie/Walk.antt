-- ===== src/Poptrie/Walk.antt =====
-- The reference walk that the table must agree with: the binary trie read bit by bit, each node's
-- own value standing for its subtree until a deeper one replaces it.
use fast_socket_rs.Prelude.{
  ℕ, zero, suc, ◌/◌, ◌%◌, ◌^◌, ◌≡◌, refl, sym, ◌∙◌, ap, inl, inr, Bool, true, false, Option, none,
  some, List, [], ◌∷◌, ◌++◌, arith, Bool-cases, ◌==◌, if◌then◌else◌,
}
use fast_socket_rs.Poptrie.Builder.{BinNode, node_at}
use fast_socket_rs.Poptrie.Emitter.{Slot, internal, leaf, effective, branches, expect_internal}

-- The low `n` bits, the most significant one first.
unfoldable pub low_bits : ℕ → ℕ → List Bool
low_bits zero x = []
low_bits (suc n) x = (x / 2 ^ n % 2 == 1) ∷ low_bits n x

module _ (bin : List BinNode) where
  unfoldable pub child_of : Option ℕ → Bool → Option ℕ
  child_of none b = none
  child_of (some id) false = (node_at bin id).zero_child
  child_of (some id) true = (node_at bin id).one_child

  -- The value encoding for an address whose remaining bits are given.
  unfoldable pub route : Option ℕ → ℕ → List Bool → ℕ
  unfolding effective child_of
  route from inherited [] = effective bin from inherited
  route from inherited (b ∷ bs) = route (child_of from b) (effective bin from inherited) bs

  -- What one slot of a stride resolves to, along its bits.
  unfoldable pub slot_of : Option ℕ → ℕ → List Bool → Slot
  unfolding effective child_of branches expect_internal
  slot_of from inherited [] =
      if branches bin from
      then expect_internal bin from (effective bin from inherited)
      else leaf (effective bin from inherited)
  slot_of from inherited (b ∷ bs) =
      if branches bin from
      then slot_of (child_of from b) (effective bin from inherited) bs
      else leaf (effective bin from inherited)

  effective_twice :
      (from : Option ℕ) (inherited : ℕ)
      → effective bin from (effective bin from inherited) ≡ effective bin from inherited
  unfolding effective
  effective_twice none inherited = refl
  effective_twice (some id) inherited = ground arith

  -- The value that a node hands down may count its own already.
  pub route-effective :
      (from : Option ℕ) (inherited : ℕ) (bs : List Bool)
      → route from (effective bin from inherited) bs ≡ route from inherited bs
  unfolding route
  route-effective from inherited [] = effective_twice from inherited
  route-effective from inherited (b ∷ bs) =
      ap (λ e. route (child_of from b) e bs) (effective_twice from inherited)

  route-none : (inherited : ℕ) (bs : List Bool) → route none inherited bs ≡ inherited
  unfolding route
  route-none inherited [] = refl
  route-none inherited (b ∷ bs) = route-none inherited bs

  child_of-none : (from : Option ℕ) (b : Bool) → branches bin from ≡ false → child_of from b ≡ none
  unfolding child_of branches
  child_of-none none _ h = refl
  child_of-none (some id) false h = ground arith
  child_of-none (some id) true h = ground arith

  -- Below a node with no children nothing changes the value.
  pub route-leaf :
      (from : Option ℕ) (inherited : ℕ) (bs : List Bool)
      → branches bin from ≡ false
      → route from inherited bs ≡ effective bin from inherited
  unfolding route
  route-leaf from inherited [] h = refl
  route-leaf from inherited (b ∷ bs) h =
      rw (child_of-none from b h) (route-none (effective bin from inherited) bs)

  -- The rest of the walk below what a stride resolved to.
  unfoldable pub finish : Slot → List Bool → ℕ
  finish (leaf v) rest = v
  finish (internal c inherited) rest = route (some c) inherited rest

  finish-expect :
      (from : Option ℕ) (inherited : ℕ) (rest : List Bool)
      → branches bin from ≡ true
      → finish (expect_internal bin from inherited) rest ≡ route from inherited rest
  unfolding finish expect_internal branches
  finish-expect none inherited rest h = cc
  finish-expect (some id) inherited rest h = refl

  -- A walk goes through the slot of its first bits.
  pub route-append :
      (from : Option ℕ) (inherited : ℕ) (bs rest : List Bool)
      → route from inherited (bs ++ rest) ≡ finish (slot_of from inherited bs) rest
  unfolding route slot_of
  route-append from inherited [] rest = elim (Bool-cases (branches bin from)) [
    | inl e ↦ rw e (
        sym (route-effective from inherited rest)
        ∙ sym (finish-expect from (effective bin from inherited) rest e))
    | inr e ↦ rw e (unfold finish in route-leaf from inherited rest e)
  ]
  route-append from inherited (b ∷ bs) rest = elim (Bool-cases (branches bin from)) [
    | inl e ↦ rw e (route-append (child_of from b) (effective bin from inherited) bs rest)
    | inr e ↦ rw e (unfold finish in route-leaf from inherited (b ∷ (bs ++ rest)) e)
  ]
