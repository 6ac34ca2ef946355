-- ===== src/Routes/Direct.antt =====
-- crates/fast-socket-xdp-rs/src/route.rs: resolving a destination through the egress index, and without it.
use fast_socket_rs.Prelude.{
  ℕ, ◌-◌, ◌^◌, ◌<◌, ◌≡◌, refl, sym, ap, ◌∙◌, true, Option, none, some, List, [], length, get_elem?,
  ◌==◌, Bool-cases, Option-cases, inl, inr,
}
use fast_socket_rs.Prelude.Results.{◌>>=◌}
use fast_socket_rs.Prelude.Maps.{lookup}
use fast_socket_rs.Egress.{XdpResolvedEgress}
use fast_socket_rs.Routes.{Ipv4Route, InterfaceInfo, InterfaceEgress, RouteSnapshot, interface_of}
use fast_socket_rs.Routes.Lookup.{
  Slot, skipped, on_link, gateway_slot, slot_for, fold_routes, unfolded, index_interfaces,
  rebuild_egress_index_v4, open_slot, slot_at, resolve_slot, resolve_at, resolved_v4_for_interface,
}
use fast_socket_rs.Routes.Index.{lookup_route_index_v4}
use fast_socket_rs.Routes.Resolved.{
  Keyed, nil_of, folded, kept, or_skipped, direct_slot, kept-slot, slots_end, index_eq,
}

module _ (width direct_bits : ℕ) where
  -- The resolution without the folded index: the route, the interface and the neighbours themselves.
  unfoldable pub resolve_direct : RouteSnapshot → ℕ → ℕ → ℕ → Option ℕ → Option XdpResolvedEgress
  unfolding slot_for resolve_slot
  resolve_direct s dst ifindex queue none = none
  resolve_direct s dst ifindex queue (some route_index) = do
    route ← get_elem? s.routes_v4 route_index
    resolve_slot width direct_bits s route_index dst ifindex queue
        (direct_slot s (interface_of s ifindex) route)

module _ (width direct_bits : ℕ) (s : RouteSnapshot) where
  module _ (index : List (ℕ × InterfaceEgress)) where
    abbrev with_index : RouteSnapshot
    with_index = record s { egress_index_v4 = index }

    resolve_slot_same :
        (j dst ifindex queue : ℕ) (slot : Slot)
        → resolve_slot width direct_bits with_index j dst ifindex queue slot
          ≡ resolve_slot width direct_bits s j dst ifindex queue slot
    unfolding resolve_slot
    resolve_slot_same j dst ifindex queue skipped = refl
    resolve_slot_same j dst ifindex queue on_link = refl
    resolve_slot_same j dst ifindex queue (gateway_slot resolved) = refl

    slot_in : ℕ → Option InterfaceEgress → Option Slot
    slot_in j found = do e ← found; slot ← get_elem? e.slots j; some (open_slot e.egresses slot)

    resolved_in :
        (j dst ifindex queue : ℕ) (found : Option Slot)
        → (do slot ← found; resolve_slot width direct_bits with_index j dst ifindex queue slot)
          ≡ resolve_slot width direct_bits s j dst ifindex queue (or_skipped s found)
    resolved_in j dst ifindex queue none = unfold resolve_slot in refl
    resolved_in j dst ifindex queue (some slot) = resolve_slot_same j dst ifindex queue slot

    slots_end_in :
        (interface : InterfaceInfo) (j : ℕ)
        → length s.routes_v4 < 2 ^ 32 - 2
        → get_elem? s.routes_v4 j ≡ none
        → slot_in j (kept s (folded s interface)) ≡ none
    unfolding slot_in
    slots_end_in interface j few h = elim (Bool-cases (folded s interface).1.egressable) [
      | inl some_route ↦ rw (some_route, slots_end s interface j few h) refl
      | inr no_route ↦ rw no_route refl
    ]

    slots_direct :
        (dst ifindex queue j : ℕ)
        → length s.routes_v4 < 2 ^ 32 - 2
        → (own : Option InterfaceInfo)
        → resolve_slot width direct_bits s j dst ifindex queue
            (or_skipped s (slot_in j (do interface ← own; kept s (folded s interface))))
          ≡ (do
            route ← get_elem? s.routes_v4 j
            resolve_slot width direct_bits s j dst ifindex queue (direct_slot s own route))
    unfolding resolve_slot slot_in
    slots_direct dst ifindex queue j few none = elim (Option-cases (get_elem? s.routes_v4 j)) [
      | inl end ↦ rw end refl
      | inr (route, h) ↦ rw h refl
    ]
    slots_direct dst ifindex queue j few (some interface) =
        let resolve = resolve_slot width direct_bits s j dst ifindex queue in
        elim (Option-cases (get_elem? s.routes_v4 j)) [
          | inl end ↦
              ap (λ o. resolve (or_skipped s o)) (slots_end_in interface j few end) ∙ rw end refl
          | inr (route, h) ↦ ap resolve (kept-slot s interface j route few h) ∙ rw h refl
        ]

    resolve_at-direct :
        (dst ifindex queue j : ℕ)
        → length s.routes_v4 < 2 ^ 32 - 2
        → lookup ◌==◌ ifindex index
          ≡ (do interface ← interface_of s ifindex; kept s (folded s interface))
        → resolve_at width direct_bits with_index dst ifindex queue (some j)
          ≡ resolve_direct width direct_bits s dst ifindex queue (some j)
    unfolding slot_at resolve_direct slot_in
    resolve_at-direct dst ifindex queue j few at_index =
        let found = lookup ◌==◌ ifindex index in
        resolved_in j dst ifindex queue (slot_in j found)
        ∙ ap
            (λ o. resolve_slot width direct_bits s j dst ifindex queue (or_skipped s (slot_in j o)))
            at_index
        ∙ slots_direct dst ifindex queue j few (interface_of s ifindex)

    resolve_at_all :
        (dst ifindex queue : ℕ)
        → length s.routes_v4 < 2 ^ 32 - 2
        → lookup ◌==◌ ifindex index
          ≡ (do interface ← interface_of s ifindex; kept s (folded s interface))
        → (found : Option ℕ)
        → resolve_at width direct_bits with_index dst ifindex queue found
          ≡ resolve_direct width direct_bits s dst ifindex queue found
    resolve_at_all dst ifindex queue few at_index none = unfold resolve_direct in refl
    resolve_at_all dst ifindex queue few at_index (some j) =
        resolve_at-direct dst ifindex queue j few at_index

    resolved-direct :
        (dst ifindex queue : ℕ)
        → length s.routes_v4 < 2 ^ 32 - 2
        → lookup ◌==◌ ifindex index
          ≡ (do interface ← interface_of s ifindex; kept s (folded s interface))
        → resolved_v4_for_interface width direct_bits with_index dst ifindex queue ≡ (do
          found ← lookup_route_index_v4 width direct_bits s dst
          some (resolve_direct width direct_bits s dst ifindex queue found))
    unfolding resolved_v4_for_interface
    resolved-direct dst ifindex queue few at_index =
        let same : lookup_route_index_v4 width direct_bits with_index dst
            ≡ lookup_route_index_v4 width direct_bits s dst =
          unfold lookup_route_index_v4 in refl in
        elim (Option-cases (lookup_route_index_v4 width direct_bits s dst)) [
          | inl fault ↦ rw (same, fault) refl
          | inr (found, h) ↦
              rw (same, h) (ap some (resolve_at_all dst ifindex queue few at_index found))
        ]

    direct_slot_same :
        (own : Option InterfaceInfo) (route : Ipv4Route)
        → direct_slot with_index own route ≡ direct_slot s own route
    direct_slot_same none route = refl
    direct_slot_same (some interface) route = unfold slot_for in refl

    -- The direct resolution does not read the egress index.
    pub resolve_direct_same :
        (dst ifindex queue : ℕ) (found : Option ℕ)
        → resolve_direct width direct_bits with_index dst ifindex queue found
          ≡ resolve_direct width direct_bits s dst ifindex queue found
    unfolding resolve_direct
    resolve_direct_same dst ifindex queue none = refl
    resolve_direct_same dst ifindex queue (some j) = elim (Option-cases (get_elem? s.routes_v4 j)) [
      | inl end ↦ rw end refl
      | inr (route, h) ↦
          let own = interface_of s ifindex in
          rw h (
            resolve_slot_same j dst ifindex queue (direct_slot with_index own route)
            ∙ ap (resolve_slot width direct_bits s j dst ifindex queue)
                (direct_slot_same own route))
    ]

  no_entry : (ifindex : ℕ) → lookup {V = InterfaceEgress} ◌==◌ ifindex [] ≡ none
  unfolding lookup
  no_entry ifindex = refl

  none_kept :
      (interface : InterfaceInfo)
      → (length s.routes_v4 == 0) ≡ true
      → kept s (folded s interface) ≡ none
  none_kept interface h =
      ap (λ routes. kept s (fold_routes s interface routes unfolded)) (nil_of s.routes_v4 h)
      ∙ (unfold fold_routes in refl)

  -- With the egress index rebuilt, a destination is resolved for an interface as it is without the
  -- index, from the route that the poptrie gives, the interface and the neighbours; for fewer than
  -- 2^32 - 2 routes and interfaces that each stand under their own index and once.
  pub resolved_v4_for_interface-direct :
      (dst ifindex queue : ℕ)
      → length s.routes_v4 < 2 ^ 32 - 2
      → Keyed s.interfaces
      → resolved_v4_for_interface width direct_bits (rebuild_egress_index_v4 s) dst ifindex queue
        ≡ (do
          index ← lookup_route_index_v4 width direct_bits s dst
          some (resolve_direct width direct_bits s dst ifindex queue index))
  unfolding rebuild_egress_index_v4
  resolved_v4_for_interface-direct dst ifindex queue few keyed =
      elim (Bool-cases (length s.routes_v4 == 0)) [
        | inl empty ↦ rw empty (
            resolved-direct [] dst ifindex queue few (elim (Option-cases (interface_of s ifindex)) [
              | inl absent ↦ rw absent (no_entry ifindex)
              | inr (interface, present) ↦
                  rw present (no_entry ifindex ∙ sym (none_kept interface empty))
            ]))
        | inr some_route ↦ rw some_route (
            resolved-direct (index_interfaces s s.interfaces []) dst ifindex queue few
              (index_eq s ifindex keyed))
      ]
