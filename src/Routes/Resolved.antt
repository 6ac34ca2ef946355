-- ===== src/Routes/Resolved.antt =====
-- crates/fast-socket-xdp-rs/src/route.rs: the folded egress index, against the routes, neighbours and
-- interfaces that it was rebuilt from.
use fast_socket_rs.Prelude.{
  ℕ, ◌-◌, ◌^◌, ◌<◌, ◌≡◌, refl, sym, ap, ◌∙◌, true, false, Option, none, some, List, [], ◌∷◌, length,
  get_elem?, lt_of_get_elem?, get_elem?-eq-get_or, ◌==◌, if◌then◌else◌, arith, Bool-cases,
  Option-cases, none≢some, inl, inr,
}
use fast_socket_rs.Prelude.Results.{◌>>=◌, eq_of_some}
use fast_socket_rs.Prelude.Maps.{lookup, insert, lookup-insert_self, lookup-insert_ne}
use fast_socket_rs.Routes.{Ipv4Route, InterfaceInfo, InterfaceEgress, RouteSnapshot, interface_of}
use fast_socket_rs.Routes.Lookup.{
  Slot, skipped, slot_for, Folded, fold_routes, unfolded, index_interfaces, open_slot,
}
use fast_socket_rs.Routes.Folding.{Extends, fold_routes-Slots}

-- An interface stands under its own index, and there only.
abbrev pub Keyed : List (ℕ × InterfaceInfo) → Type 0
Keyed [] = Unit
Keyed ((key, interface) ∷ rest) =
    (interface.ifindex ≡ key) × (lookup ◌==◌ key rest ≡ none) × Keyed rest

pub nil_of {ℓ} : {A : Type ℓ} (xs : List A) → (length xs == 0) ≡ true → xs ≡ []
nil_of [] h = refl
nil_of (x ∷ xs) h = absurd (ground arith)

test_sym : (a b : ℕ) → (a == b) ≡ true → a ≡ b
test_sym a b h = ground arith

module _ {V : Type 0} where
  lookup_nil : (k : ℕ) {v : V} → lookup {V = V} ◌==◌ k [] ≡ some v → ⊥
  unfolding lookup
  lookup_nil k h = none≢some h

  lookup_rest :
      (key k : ℕ) (v : V) (rest : List (ℕ × V))
      → (key == k) ≡ false
      → lookup ◌==◌ k rest ≡ lookup ◌==◌ k ((key, v) ∷ rest)
  unfolding lookup
  lookup_rest key k v rest h = rw h refl

  lookup_head :
      (key k : ℕ) (v : V) (rest : List (ℕ × V)) {w : V}
      → (key == k) ≡ true
      → lookup ◌==◌ k ((key, v) ∷ rest) ≡ some w
      → v ≡ w
  unfolding lookup
  lookup_head key k v rest same h = eq_of_some (rw same at h)

  lookup-none :
      (key k : ℕ) (v : V) (rest : List (ℕ × V))
      → lookup ◌==◌ k ((key, v) ∷ rest) ≡ none
      → (key == k) ≡ false
  unfolding lookup
  lookup-none key k v rest h = elim (Bool-cases (key == k)) [
    | inl same ↦ absurd (none≢some (sym (rw same at h)))
    | inr other ↦ other
  ]

-- What `upsert_interface` does to the map.
pub insert-Keyed :
    (interface : InterfaceInfo) (interfaces : List (ℕ × InterfaceInfo))
    → Keyed interfaces
    → Keyed (insert ◌==◌ interface.ifindex interface interfaces)
unfolding insert lookup
insert-Keyed interface [] k = (refl, refl, tt)
insert-Keyed interface ((key, own) ∷ rest) (is_key, once, k) =
    elim (Bool-cases (key == interface.ifindex)) [
      | inl same ↦ let e : interface.ifindex ≡ key = ground arith in rw same (e, once, k)
      | inr other ↦
          let apart : (interface.ifindex == key) ≡ false = ground arith in
          rw other (
            is_key,
            lookup-insert_ne ◌==◌ interface.ifindex key interface rest apart (λ j h. ground arith)
                ∙ once,
            insert-Keyed interface rest k,
          )
    ]

abbrev default_route : Ipv4Route
default_route = record {
  destination = 0;
  prefix_len = 0;
  ifindex = 0;
  gateway = none;
  priority = 0;
  mtu = 0;
}

module _ (s : RouteSnapshot) where
  abbrev pub folded : InterfaceInfo → List ℕ × Folded
  folded interface = fold_routes s interface s.routes_v4 unfolded

  abbrev pub kept : List ℕ × Folded → Option InterfaceEgress
  kept (slots, f) =
      if f.egressable then some (record { slots = slots; egresses = f.egresses }) else none

  abbrev add : InterfaceInfo → List (ℕ × InterfaceEgress) → List (ℕ × InterfaceEgress)
  add interface index =
      let (slots, f) = folded interface in
      if f.egressable
      then insert ◌==◌ interface.ifindex (record { slots = slots; egresses = f.egresses }) index
      else index

  add_other :
      (interface : InterfaceInfo) (index : List (ℕ × InterfaceEgress)) (ifindex : ℕ)
      → (interface.ifindex == ifindex) ≡ false
      → lookup ◌==◌ ifindex (add interface index) ≡ lookup ◌==◌ ifindex index
  add_other interface index ifindex other = elim (Bool-cases (folded interface).1.egressable) [
    | inl some_route ↦
        rw some_route
          (lookup-insert_ne ◌==◌ interface.ifindex ifindex _ index other (λ j h. ground arith))
    | inr no_route ↦ rw no_route refl
  ]

  add_self :
      (interface : InterfaceInfo) (index : List (ℕ × InterfaceEgress))
      → lookup ◌==◌ interface.ifindex index ≡ none
      → lookup ◌==◌ interface.ifindex (add interface index) ≡ kept (folded interface)
  add_self interface index absent = elim (Bool-cases (folded interface).1.egressable) [
    | inl some_route ↦
        rw some_route (lookup-insert_self ◌==◌ interface.ifindex _ index (ground arith))
    | inr no_route ↦ rw no_route absent
  ]

  index_interfaces_absent :
      (ifindex : ℕ) (interfaces : List (ℕ × InterfaceInfo)) (index : List (ℕ × InterfaceEgress))
      → Keyed interfaces
      → lookup ◌==◌ ifindex interfaces ≡ none
      → lookup ◌==◌ ifindex (index_interfaces s interfaces index) ≡ lookup ◌==◌ ifindex index
  unfolding index_interfaces
  index_interfaces_absent ifindex [] index k h = refl
  index_interfaces_absent ifindex ((key, interface) ∷ rest) index (is_key, once, k) h =
      let differs : (key == ifindex) ≡ false = lookup-none key ifindex interface rest h in
      let own_differs : (interface.ifindex == ifindex) ≡ false = rw is_key differs in
      index_interfaces_absent ifindex rest (add interface index) k
        (lookup_rest key ifindex interface rest differs ∙ h)
      ∙ add_other interface index ifindex own_differs

  index_interfaces_present :
      (ifindex : ℕ) (interface : InterfaceInfo) (interfaces : List (ℕ × InterfaceInfo))
      (index : List (ℕ × InterfaceEgress))
      → Keyed interfaces
      → lookup ◌==◌ ifindex interfaces ≡ some interface
      → lookup ◌==◌ ifindex index ≡ none
      → lookup ◌==◌ ifindex (index_interfaces s interfaces index) ≡ kept (folded interface)
  unfolding index_interfaces
  index_interfaces_present ifindex interface [] index k h absent = absurd (lookup_nil ifindex h)
  index_interfaces_present ifindex interface ((key, own) ∷ rest) index (is_key, once, k) h absent =
      elim (Bool-cases (key == ifindex)) [
        | inl same ↦
            let is_own : own ≡ interface = lookup_head key ifindex own rest same h in
            let at_key : key ≡ ifindex = test_sym key ifindex same in
            let once_here = ap (λ i. lookup ◌==◌ i rest) (sym at_key) ∙ once in
            let own_index : own.ifindex ≡ ifindex = is_key ∙ at_key in
            index_interfaces_absent ifindex rest (add own index) k once_here
            ∙ ap (λ i. lookup ◌==◌ i (add own index)) (sym own_index)
            ∙ add_self own index (ap (λ i. lookup ◌==◌ i index) own_index ∙ absent)
            ∙ ap (λ i. kept (folded i)) is_own
        | inr other ↦
            let own_other : (own.ifindex == ifindex) ≡ false = rw is_key other in
            index_interfaces_present ifindex interface rest (add own index) k
              (lookup_rest key ifindex own rest other ∙ h)
              (add_other own index ifindex own_other ∙ absent)
      ]

  abbrev pub or_skipped : Option Slot → Slot
  or_skipped none = skipped
  or_skipped (some slot) = slot

  -- The slot, computed from the route itself.
  abbrev pub direct_slot : Option InterfaceInfo → Ipv4Route → Slot
  direct_slot none route = skipped
  direct_slot (some interface) route = slot_for s interface route

  pub kept-slot :
      (interface : InterfaceInfo) (j : ℕ) (route : Ipv4Route)
      → length s.routes_v4 < 2 ^ 32 - 2
      → get_elem? s.routes_v4 j ≡ some route
      → or_skipped (do
        e ← kept (folded interface)
        slot ← get_elem? e.slots j
        some (open_slot e.egresses slot))
        ≡ slot_for s interface route
  kept-slot interface j route few h =
      let all = fold_routes-Slots s interface s.routes_v4 unfolded tt (omega (arith, few)) in
      elim (Bool-cases (folded interface).1.egressable) [
        | inl some_route ↦
            let (slot, at_j, opened) =
              all.opened_all (folded interface).1.egresses j route (unfold Extends in λ n r k. k)
                h in
            rw (some_route, at_j) opened
        | inr no_route ↦ rw no_route (sym (all.all_skipped j route no_route h))
      ]

  pub slots_end :
      (interface : InterfaceInfo) (j : ℕ)
      → length s.routes_v4 < 2 ^ 32 - 2
      → get_elem? s.routes_v4 j ≡ none
      → get_elem? (folded interface).0 j ≡ none
  slots_end interface j few h =
      let all = fold_routes-Slots s interface s.routes_v4 unfolded tt (omega (arith, few)) in
      elim (Option-cases (get_elem? (folded interface).0 j)) [
        | inl out ↦ out
        | inr (slot, at_j) ↦
            let inside = lt_of_get_elem? (folded interface).0 j at_j in
            absurd (
              none≢some (
                sym h
                ∙ get_elem?-eq-get_or s.routes_v4 j default_route (omega (arith, all.same_length))))
      ]

  pub index_eq :
      (ifindex : ℕ)
      → Keyed s.interfaces
      → lookup ◌==◌ ifindex (index_interfaces s s.interfaces [])
        ≡ (do interface ← interface_of s ifindex; kept (folded interface))
  index_eq ifindex keyed = elim (Option-cases (interface_of s ifindex)) [
    | inl absent ↦
        index_interfaces_absent ifindex s.interfaces [] keyed absent
        ∙ rw absent (unfold lookup in refl)
    | inr (interface, present) ↦
        index_interfaces_present ifindex interface s.interfaces [] keyed present
          (unfold lookup in refl)
        ∙ rw present refl
  ]
