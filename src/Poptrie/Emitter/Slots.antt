-- ===== src/Poptrie/Emitter/Slots.antt =====
-- One round of the loop of `fill` over the 64 slots: what the bitmaps and the two lists hold.
pub mod Loop
use native.Mathlib.Nat.{pow-suc}
use fast_socket_rs.Prelude.{
  ℕ, zero, suc, ◌+◌, ◌-◌, ◌*◌, ◌^◌, ◌≤◌, ◌<◌, ◌≡◌, refl, inl, inr, true, false, Bool-cases, Option,
  none, some, List, [], ◌∷◌, ◌++◌, length, get_elem?, length-append, get_elem?-append_left,
  get_elem?-append_last, lt_of_get_elem?, ◌∙◌, arith,
}
use fast_socket_rs.Prelude.Bits.{
  test_bit, ones, ones-add_above, ones-add_top, test_bit_below, test_bit_top, test_bit_out,
  ones_out, set_bit_top,
}
use fast_socket_rs.Poptrie.Emitter.{
  Slot, internal, leaf, Scan, add_child_slot, start_run, scan_slot, scan, in_run,
}

-- What the scan must have recorded for slot `v`: an internal slot has its bit in `vector`, and its
-- child stands at the rank of that bit; a leaf slot has no bit there, and the last run that starts
-- at or before it holds its value.
abbrev pub Recorded : ℕ → Scan → ℕ → Slot → Type 0
Recorded base s v (internal c inherited) =
    (test_bit s.vector v ≡ true) × (get_elem? s.children (ones v s.vector) ≡ some (c, inherited))
Recorded base s v (leaf x) =
    (test_bit s.vector v ≡ false)
    × (1 ≤ ones (suc v) s.leafvec)
    × (get_elem? s.leaves (base + ones (suc v) s.leafvec - 1) ≡ some x)

-- The state of the loop before slot `i`; `base` leaves stood in the array when it began.
pub record Scanned (base i : ℕ) (s : Scan) : Type 0 where
  pub vector_below : s.vector < 2 ^ i
  pub leafvec_below : s.leafvec < 2 ^ i
  pub children_counted : length s.children ≡ ones i s.vector
  pub leaves_counted : length s.leaves ≡ base + ones i s.leafvec
  pub run_open :
      (r : ℕ)
      → s.current_run ≡ some r
      → (1 ≤ ones i s.leafvec) × (get_elem? s.leaves (base + ones i s.leafvec - 1) ≡ some r)

in_run→eq : (r : Option ℕ) (x : ℕ) → in_run r x ≡ true → r ≡ some x
in_run→eq none x h = cc
in_run→eq (some y) x h = ground arith

module _ (base i : ℕ) (s : Scan) (inv : Scanned base i s) where
  double : 2 ^ suc i ≡ 2 ^ i * 2
  double = pow-suc 2 i

  -- A leaf that goes on with the run leaves the state as it is.
  same_run-Scanned : Scanned base (suc i) s
  same_run-Scanned = record {
    vector_below = omega (arith, double, inv.vector_below);
    leafvec_below = omega (arith, double, inv.leafvec_below);
    children_counted = omega (arith, inv.children_counted, ones_out i s.vector inv.vector_below);
    leaves_counted = omega (arith, inv.leaves_counted, ones_out i s.leafvec inv.leafvec_below);
    run_open = λ r e. rw (ones_out i s.leafvec inv.leafvec_below) (inv.run_open r e);
  }

  same_run-Recorded : (x : ℕ) → in_run s.current_run x ≡ true → Recorded base s i (leaf x)
  same_run-Recorded x e =
      let open_run = inv.run_open x (in_run→eq s.current_run x e) in
      rw (ones_out i s.leafvec inv.leafvec_below)
        (test_bit_out i i s.vector inv.vector_below (omega arith), open_run.0, open_run.1)

  new_leaf : (x : ℕ) → get_elem? (s.leaves ++ (x ∷ [])) (base + (ones i s.leafvec + 1) - 1) ≡ some x
  new_leaf x = get_elem?-append_last s.leaves x _ (omega (arith, inv.leaves_counted))

  start_run-Scanned : (x : ℕ) → Scanned base (suc i) (start_run i x s)
  unfolding start_run
  start_run-Scanned x = rw (set_bit_top i s.leafvec inv.leafvec_below) (record {
    vector_below = omega (arith, double, inv.vector_below);
    leafvec_below = omega (arith, double, inv.leafvec_below);
    children_counted = omega (arith, inv.children_counted, ones_out i s.vector inv.vector_below);
    leaves_counted = omega (
      arith,
      inv.leaves_counted,
      length-append s.leaves (x ∷ []),
      ones-add_top i s.leafvec inv.leafvec_below,
    );
    run_open = λ r e. rw (ones-add_top i s.leafvec inv.leafvec_below) (omega arith, new_leaf x ∙ e);
  })

  start_run-Recorded : (x : ℕ) → Recorded base (start_run i x s) i (leaf x)
  unfolding start_run
  start_run-Recorded x =
      rw (set_bit_top i s.leafvec inv.leafvec_below, ones-add_top i s.leafvec inv.leafvec_below)
        (test_bit_out i i s.vector inv.vector_below (omega arith), omega arith, new_leaf x)

  add_child_slot-Scanned : (c inherited : ℕ) → Scanned base (suc i) (add_child_slot i c inherited s)
  unfolding add_child_slot
  add_child_slot-Scanned c inherited = rw (set_bit_top i s.vector inv.vector_below) (record {
    vector_below = omega (arith, double, inv.vector_below);
    leafvec_below = omega (arith, double, inv.leafvec_below);
    children_counted = omega (
      arith,
      inv.children_counted,
      length-append s.children ((c, inherited) ∷ []),
      ones-add_top i s.vector inv.vector_below,
    );
    leaves_counted = omega (arith, inv.leaves_counted, ones_out i s.leafvec inv.leafvec_below);
    run_open = λ r e. cc;
  })

  add_child_slot-Recorded :
      (c inherited : ℕ) → Recorded base (add_child_slot i c inherited s) i (internal c inherited)
  unfolding add_child_slot
  add_child_slot-Recorded c inherited = rw (set_bit_top i s.vector inv.vector_below) (
    test_bit_top i s.vector inv.vector_below,
    get_elem?-append_last s.children (c, inherited) _
        (omega (arith, inv.children_counted, ones-add_above i i s.vector (omega arith))),
  )

  pub scan_slot-Scanned : (x : Slot) → Scanned base (suc i) (scan_slot i x s)
  unfolding scan_slot
  scan_slot-Scanned (internal c inherited) = add_child_slot-Scanned c inherited
  scan_slot-Scanned (leaf x) = elim (Bool-cases (in_run s.current_run x)) [
    | inl e ↦ rw e same_run-Scanned
    | inr e ↦ rw e (start_run-Scanned x)
  ]

  pub scan_slot-Recorded_new : (x : Slot) → Recorded base (scan_slot i x s) i x
  unfolding scan_slot
  scan_slot-Recorded_new (internal c inherited) = add_child_slot-Recorded c inherited
  scan_slot-Recorded_new (leaf x) = elim (Bool-cases (in_run s.current_run x)) [
    | inl e ↦ rw e (same_run-Recorded x e)
    | inr e ↦ rw e (start_run-Recorded x)
  ]

  -- What is recorded of the slots below `i` stays.
  start_run-Recorded_old :
      (x v : ℕ) (y : Slot) → v < i → Recorded base s v y → Recorded base (start_run i x s) v y
  unfolding start_run
  start_run-Recorded_old x v (internal c inherited) h rec = rec
  start_run-Recorded_old x v (leaf y) h rec =
      rw (set_bit_top i s.leafvec inv.leafvec_below, ones-add_above (suc v) i s.leafvec h)
        (
          rec.0,
          rec.1,
          get_elem?-append_left s.leaves _ _ (lt_of_get_elem? s.leaves _ rec.2) ∙ rec.2,
        )

  add_child_slot-Recorded_old :
      (c inherited v : ℕ) (y : Slot)
      → v < i
      → Recorded base s v y
      → Recorded base (add_child_slot i c inherited s) v y
  unfolding add_child_slot
  add_child_slot-Recorded_old c inherited v (internal d e) h rec =
      rw
        (
          set_bit_top i s.vector inv.vector_below,
          test_bit_below i v s.vector h,
          ones-add_above v i s.vector (omega arith),
        )
        (rec.0, get_elem?-append_left s.children _ _ (lt_of_get_elem? s.children _ rec.1) ∙ rec.1)
  add_child_slot-Recorded_old c inherited v (leaf y) h rec =
      rw (set_bit_top i s.vector inv.vector_below, test_bit_below i v s.vector h) rec

  pub scan_slot-Recorded_old :
      (x : Slot) (v : ℕ) (y : Slot)
      → v < i
      → Recorded base s v y
      → Recorded base (scan_slot i x s) v y
  unfolding scan_slot
  scan_slot-Recorded_old (internal c inherited) v y h rec =
      add_child_slot-Recorded_old c inherited v y h rec
  scan_slot-Recorded_old (leaf x) v y h rec = elim (Bool-cases (in_run s.current_run x)) [
    | inl e ↦ rw e rec
    | inr e ↦ rw e (start_run-Recorded_old x v y h rec)
  ]
