-- ===== src/Routes/Lookup.antt =====
-- crates/fast-socket-xdp-rs/src/route.rs: the folded egress index, `rebuild_egress_index_v4`, and the
-- resolution of a destination through it.
use fast_socket_rs.Prelude.{
  ℕ, Bool, true, false, ◌&&◌, ◌||◌, Option, none, some, List, [], ◌∷◌, ◌++◌, length, get_elem?,
  ◌==◌, if◌then◌else◌, min,
}
use fast_socket_rs.Prelude.Results.{◌>>=◌, or_else}
use fast_socket_rs.Prelude.Words.{as_u32}
use fast_socket_rs.Prelude.Maps.{lookup, insert}
use fast_socket_rs.Egress.{
  LinkAddr, octets, XdpEgress, ipv4, XdpResolvedEgress, from_egress, with_queue, l2_header,
  ResolvedL2, borrowed, inline, build_ethernet_header,
}
use fast_socket_rs.Routes.{
  Ipv4Route, InterfaceInfo, InterfaceEgress, RouteSnapshot, egress_none, egress_on_link, neighbor,
  interface_of, same_option,
}
use fast_socket_rs.Routes.Index.{lookup_route_index_v4, lookup_route_v4}

-- The derived equality of `XdpResolvedEgress`.
unfoldable pub same_bytes : List ℕ → List ℕ → Bool
same_bytes [] [] = true
same_bytes (a ∷ xs) (b ∷ ys) = (a == b) && same_bytes xs ys
same_bytes [] (b ∷ ys) = false
same_bytes (a ∷ xs) [] = false

unfoldable pub same_resolved : XdpResolvedEgress → XdpResolvedEgress → Bool
unfolding same_bytes
same_resolved a b =
    (a.egress.ifindex == b.egress.ifindex)
    && ((a.egress.queue == b.egress.queue)
        && (same_bytes (octets a.egress.dst_mac) (octets b.egress.dst_mac)
            && (same_bytes (octets a.egress.src_mac) (octets b.egress.src_mac)
                && ((a.egress.ethertype == b.egress.ethertype)
                    && (same_option a.egress.vlan b.egress.vlan
                        && ((a.egress.mtu == b.egress.mtu)
                            && (same_bytes a.l2_bytes b.l2_bytes && (a.l2_len == b.l2_len))))))))

-- What one route means for one interface.
pub data Slot : Type 0 where
  skipped on_link : Slot
  gateway_slot : XdpResolvedEgress → Slot

-- A route egresses through its own interface, or through one that is enslaved to it.
abbrev pub egresses_through : InterfaceInfo → Ipv4Route → Bool
egresses_through interface route =
    (route.ifindex == interface.ifindex)
    || same_option interface.master_ifindex (some route.ifindex)

-- The neighbour, known on the interface or on the route's.
abbrev pub neighbor_on : RouteSnapshot → ℕ → Ipv4Route → ℕ → Option LinkAddr
neighbor_on s ifindex route ip = or_else (neighbor s ifindex ip) (neighbor s route.ifindex ip)

abbrev pub egress_on : InterfaceInfo → ℕ → Ipv4Route → LinkAddr → XdpEgress
egress_on interface queue route dst_mac =
    ipv4 interface.ifindex queue dst_mac interface.mac (min route.mtu interface.mtu)

unfoldable pub slot_for : RouteSnapshot → InterfaceInfo → Ipv4Route → Slot
slot_for s interface route =
    if egresses_through interface route
    then elim route.gateway [
      | none ↦ on_link
      | some gateway ↦ elim (neighbor_on s interface.ifindex route gateway) [
        | none ↦ skipped
        | some dst_mac ↦
            gateway_slot (from_egress (egress_on interface interface.queue route dst_mac))
      ]
    ]
    else skipped

-- The egresses so far, the map from each to its index, and whether a route egresses here.
pub record Folded : Type 0 where
  pub egresses : List XdpResolvedEgress
  pub dedup : List (XdpResolvedEgress × ℕ)
  pub egressable : Bool

-- `dedup.entry(resolved).or_insert_with(...)`.
unfoldable pub intern : XdpResolvedEgress → Folded → ℕ × Folded
unfolding same_resolved
intern resolved f = elim (lookup same_resolved resolved f.dedup) [
  | some slot ↦ (slot, record f { egressable = true })
  | none ↦
      let slot = as_u32 (length f.egresses) in
      (
        slot,
        record {
          egresses = f.egresses ++ (resolved ∷ []);
          dedup = insert same_resolved resolved slot f.dedup;
          egressable = true;
        },
      )
]

-- One round: the route's slot, in a list that starts as `EGRESS_NONE` everywhere.
unfoldable pub fold_slot : Slot → Folded → ℕ × Folded
unfolding intern
fold_slot skipped f = (egress_none, f)
fold_slot on_link f = (egress_on_link, record f { egressable = true })
fold_slot (gateway_slot resolved) f = intern resolved f

unfoldable pub fold_routes :
    RouteSnapshot → InterfaceInfo → List Ipv4Route → Folded → List ℕ × Folded
unfolding slot_for fold_slot
fold_routes s interface [] f = ([], f)
fold_routes s interface (route ∷ routes) f =
    let (slot, f') = fold_slot (slot_for s interface route) f in
    let (slots, f'') = fold_routes s interface routes f' in (slot ∷ slots, f'')

abbrev pub unfolded : Folded
unfolded = record { egresses = []; dedup = []; egressable = false }

-- An interface that no route egresses through is left out.
unfoldable pub index_interfaces :
    RouteSnapshot
    → List (ℕ × InterfaceInfo)
    → List (ℕ × InterfaceEgress)
    → List (ℕ × InterfaceEgress)
unfolding fold_routes
index_interfaces s [] index = index
index_interfaces s ((key, interface) ∷ rest) index =
    let (slots, f) = fold_routes s interface s.routes_v4 unfolded in
    index_interfaces s rest (
      if f.egressable
      then insert ◌==◌ interface.ifindex (record { slots = slots; egresses = f.egresses }) index
      else index)

unfoldable pub rebuild_egress_index_v4 : RouteSnapshot → RouteSnapshot
unfolding index_interfaces
rebuild_egress_index_v4 s =
    if length s.routes_v4 == 0
    then record s { egress_index_v4 = [] }
    else record s { egress_index_v4 = index_interfaces s s.interfaces [] }

-- What a slot stands for: a sentinel, or an index into `egresses`, where the source would panic out of
-- range.
unfoldable pub open_slot : List XdpResolvedEgress → ℕ → Slot
open_slot egresses slot =
    if slot == egress_none
    then skipped
    else if slot == egress_on_link
    then on_link
    else elim (get_elem? egresses slot) [ some resolved ↦ gateway_slot resolved | none ↦ skipped ]

module _ (width direct_bits : ℕ) where
  -- The slot of the route at an index on an interface.
  unfoldable pub slot_at : RouteSnapshot → ℕ → ℕ → Option Slot
  unfolding open_slot
  slot_at s ifindex route_index = do
    interface_egress ← lookup ◌==◌ ifindex s.egress_index_v4
    slot ← get_elem? interface_egress.slots route_index
    some (open_slot interface_egress.egresses slot)

  -- The egress to a destination on the link itself, by the destination's own neighbour entry.
  unfoldable pub egress_on_link_v4 : RouteSnapshot → ℕ → ℕ → ℕ → Option ℕ → Option XdpEgress
  egress_on_link_v4 s route_index dst ifindex queue = do
    route ← get_elem? s.routes_v4 route_index
    interface ← interface_of s ifindex
    dst_mac ← neighbor_on s ifindex route dst
    some (
        ipv4 ifindex (elim queue [ none ↦ interface.queue | some q ↦ q ]) dst_mac interface.mac
          (min route.mtu interface.mtu))

  unfoldable pub resolve_slot : RouteSnapshot → ℕ → ℕ → ℕ → ℕ → Slot → Option XdpResolvedEgress
  unfolding egress_on_link_v4
  resolve_slot s route_index dst ifindex queue skipped = none
  resolve_slot s route_index dst ifindex queue on_link = do
    egress ← egress_on_link_v4 s route_index dst ifindex (some queue)
    some (from_egress egress)
  resolve_slot s route_index dst ifindex queue (gateway_slot resolved) =
      some (with_queue queue resolved)

  abbrev pub resolve_at : RouteSnapshot → ℕ → ℕ → ℕ → Option ℕ → Option XdpResolvedEgress
  resolve_at s dst ifindex queue none = none
  resolve_at s dst ifindex queue (some route_index) = do
    slot ← slot_at s ifindex route_index
    resolve_slot s route_index dst ifindex queue slot

  unfoldable pub resolved_v4_for_interface :
      RouteSnapshot → ℕ → ℕ → ℕ → Option (Option XdpResolvedEgress)
  unfolding slot_at resolve_slot
  resolved_v4_for_interface s dst ifindex queue = do
    index ← lookup_route_index_v4 width direct_bits s dst
    some (resolve_at s dst ifindex queue index)

  unfoldable pub egress_v4_for_interface : RouteSnapshot → ℕ → ℕ → ℕ → Option (Option XdpEgress)
  unfolding resolved_v4_for_interface
  egress_v4_for_interface s dst ifindex queue = do
    resolved ← resolved_v4_for_interface s dst ifindex queue
    some (do r ← resolved; some r.egress)

  -- The header and the MTU only, the header of a gateway's egress borrowed.
  unfoldable pub resolve_l2_slot : RouteSnapshot → ℕ → ℕ → ℕ → ℕ → Slot → Option ResolvedL2
  unfolding egress_on_link_v4
  resolve_l2_slot s route_index dst ifindex mtu skipped = none
  resolve_l2_slot s route_index dst ifindex mtu on_link = do
    egress ← egress_on_link_v4 s route_index dst ifindex none
    let (l2_header, l2_len) = build_ethernet_header egress
    some (inline l2_header l2_len (min mtu egress.mtu))
  resolve_l2_slot s route_index dst ifindex mtu (gateway_slot resolved) =
      some (borrowed (l2_header resolved) (min mtu resolved.egress.mtu))

  abbrev pub resolve_l2_at : RouteSnapshot → ℕ → ℕ → ℕ → Option ℕ → Option ResolvedL2
  resolve_l2_at s dst ifindex mtu none = none
  resolve_l2_at s dst ifindex mtu (some route_index) = do
    slot ← slot_at s ifindex route_index
    resolve_l2_slot s route_index dst ifindex mtu slot

  unfoldable pub resolve_l2_for_interface : RouteSnapshot → ℕ → ℕ → ℕ → Option (Option ResolvedL2)
  unfolding slot_at resolve_l2_slot
  resolve_l2_for_interface s dst ifindex mtu = do
    index ← lookup_route_index_v4 width direct_bits s dst
    some (resolve_l2_at s dst ifindex mtu index)

  abbrev pub egress_by : RouteSnapshot → ℕ → Option Ipv4Route → Option XdpEgress
  egress_by s dst none = none
  egress_by s dst (some route) = do
    dst_mac ← neighbor s route.ifindex (elim route.gateway [ none ↦ dst | some gateway ↦ gateway ])
    interface ← interface_of s route.ifindex
    some (ipv4 route.ifindex interface.queue dst_mac interface.mac (min route.mtu interface.mtu))

  unfoldable pub egress_v4 : RouteSnapshot → ℕ → Option (Option XdpEgress)
  egress_v4 s dst = do route ← lookup_route_v4 width direct_bits s dst; some (egress_by s dst route)
