-- ===== src/Poptrie/Emitter/Slots/Loop.antt =====
-- The whole loop of `fill` over the slots of a stride.
use fast_socket_rs.Prelude.{
  subst, sym, ℕ, zero, suc, ◌+◌, ◌≤◌, ◌<◌, ◌≡◌, refl, inl, inr, Bool-cases, some, List, [], ◌∷◌,
  ◌++◌, length, get_elem?, length-append, get_elem?-append_left, ◌∙◌, arith,
}
use fast_socket_rs.Poptrie.Emitter.Slots.{
  Recorded, Scanned, scan_slot-Scanned, scan_slot-Recorded_new, scan_slot-Recorded_old,
}
use fast_socket_rs.Poptrie.Emitter.{
  Slot, internal, leaf, Scan, add_child_slot, start_run, scan_slot, scan, in_run,
}

scan-Recorded_old :
    (base i : ℕ) (s : Scan) (xs : List Slot) (v : ℕ) (y : Slot)
    → Scanned base i s
    → v < i
    → Recorded base s v y
    → Recorded base (scan i xs s) v y
unfolding scan
scan-Recorded_old base i s [] v y inv h rec = rec
scan-Recorded_old base i s (x ∷ xs) v y inv h rec =
    scan-Recorded_old base (suc i) (scan_slot i x s) xs v y (scan_slot-Scanned base i s inv x)
      (omega arith) (scan_slot-Recorded_old base i s inv x v y h rec)

-- After the loop every slot is recorded.
pub scan-Recorded :
    (base i v : ℕ) (s : Scan) (xs : List Slot) (k : ℕ) (y : Slot)
    → Scanned base i s
    → i + k ≡ v
    → get_elem? xs k ≡ some y
    → Recorded base (scan i xs s) v y
unfolding scan
scan-Recorded base i v s [] k y inv e h = cc
scan-Recorded base i v s (x ∷ xs) zero y inv e h =
    let at_i : i ≡ v = omega arith in
    let same : x ≡ y = cc in
    rw (← at_i, ← same)
      (scan-Recorded_old base (suc i) (scan_slot i x s) xs i x (scan_slot-Scanned base i s inv x)
        (omega arith) (scan_slot-Recorded_new base i s inv x))
scan-Recorded base i v s (x ∷ xs) (suc k) y inv e h =
    scan-Recorded base (suc i) v (scan_slot i x s) xs k y (scan_slot-Scanned base i s inv x)
      (omega arith) h

-- The array of leaves only grows, and keeps what it held.
module _ (j : ℕ) where
  scan_slot-leaves :
      (i : ℕ) (x : Slot) (s : Scan)
      → (length s.leaves ≤ length (scan_slot i x s).leaves)
        × (j < length s.leaves → get_elem? (scan_slot i x s).leaves j ≡ get_elem? s.leaves j)
  unfolding scan_slot
  scan_slot-leaves i (internal c inherited) s = (omega arith, λ h. refl)
  scan_slot-leaves i (leaf x) s = elim (Bool-cases (in_run s.current_run x)) [
    | inl e ↦ rw e (omega arith, λ h. refl)
    | inr e ↦ rw e (
      omega (arith, length-append s.leaves (x ∷ [])),
      λ h. get_elem?-append_left s.leaves (x ∷ []) j h,
    )
  ]

  pub scan-leaves :
      (i : ℕ) (xs : List Slot) (s : Scan)
      → (length s.leaves ≤ length (scan i xs s).leaves)
        × (j < length s.leaves → get_elem? (scan i xs s).leaves j ≡ get_elem? s.leaves j)
  unfolding scan
  scan-leaves i [] s = (omega arith, λ h. refl)
  scan-leaves i (x ∷ xs) s =
      let one = scan_slot-leaves i x s in
      let rest = scan-leaves (suc i) xs (scan_slot i x s) in
      (omega (arith, one.0, rest.0), λ h. rest.1 (omega (arith, one.0)) ∙ one.1 h)

-- Every child that the loop collects comes from an internal slot.
module _ {ℓ} (P : ℕ → ℕ → Type ℓ) where
  abbrev pub AllInternal : List Slot → Type ℓ
  AllInternal xs = (k c e : ℕ) → get_elem? xs k ≡ some (internal c e) → P c e

  abbrev pub AllChildren : List (ℕ × ℕ) → Type ℓ
  AllChildren cs = (k c e : ℕ) → get_elem? cs k ≡ some (c, e) → P c e

  leaf-children : (i x : ℕ) (s : Scan) → (scan_slot i (leaf x) s).children ≡ s.children
  unfolding scan_slot start_run
  leaf-children i x s = ground arith

  AllChildren-snoc :
      (cs : List (ℕ × ℕ)) (c e : ℕ) → AllChildren cs → P c e → AllChildren (cs ++ ((c, e) ∷ []))
  AllChildren-snoc [] c e all p zero d f h =
      let same_child : c ≡ d = cc in
      let same_value : e ≡ f = cc in rw (← same_child, ← same_value) p
  AllChildren-snoc [] c e all p (suc k) d f h = cc
  AllChildren-snoc (x ∷ cs) c e all p zero d f h = all 0 d f h
  AllChildren-snoc (x ∷ cs) c e all p (suc k) d f h =
      AllChildren-snoc cs c e (λ k. all (suc k)) p k d f h

  pub scan-AllChildren :
      (i : ℕ) (xs : List Slot) (s : Scan)
      → AllInternal xs
      → AllChildren s.children
      → AllChildren (scan i xs s).children
  unfolding scan
  scan-AllChildren i [] s xs_ok all = all
  scan-AllChildren i (internal c e ∷ xs) s xs_ok all =
      scan-AllChildren (suc i) xs (add_child_slot i c e s) (λ k. xs_ok (suc k))
        (unfold add_child_slot in AllChildren-snoc s.children c e all (xs_ok 0 c e refl))
  scan-AllChildren i (leaf x ∷ xs) s xs_ok all =
      scan-AllChildren (suc i) xs (scan_slot i (leaf x) s) (λ k. xs_ok (suc k))
        (subst (λ cs. AllChildren cs) (sym (leaf-children i x s)) all)
