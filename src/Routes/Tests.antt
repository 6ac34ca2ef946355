-- ===== src/Routes/Tests.antt =====
-- A small snapshot over 8-bit addresses, with a default route through a gateway and a route on the link,
-- and a queue that follows a monitor.
use fast_socket_rs.Prelude.{ℕ, ◌≡◌, refl, Option, none, some, List, [], ◌∷◌, arith}
use fast_socket_rs.Prelude.Results.{◌>>=◌}
use fast_socket_rs.Egress.{LinkAddr}
use fast_socket_rs.Routes.{Ipv4Route, InterfaceInfo, RouteSnapshot, new}
use fast_socket_rs.Routes.Index.{lookup_route_index_v4, lookup_route_v4, scan}
use fast_socket_rs.Routes.Lookup.{resolved_v4_for_interface}
use fast_socket_rs.Routes.Direct.{resolve_direct}
use fast_socket_rs.Routes.Snapshot.{
  upsert_routes_v4, upsert_neighbor_v4, upsert_interface, IsFresh, many_routes, one_neighbor,
  one_interface, Reachable, at_new, step, Reachable-IsFresh, resolved_v4_for_interface-Reachable,
  lookup_route_v4-Reachable,
}
use fast_socket_rs.Routes.Monitor.{
  Event, published, polled, react, run, started, handle_apply, run-polled,
}

abbrev mac : ℕ → LinkAddr
mac n = record { octet0 = 2; octet1 = 0; octet2 = 0; octet3 = 0; octet4 = 0; octet5 = n }

abbrev interface : InterfaceInfo
interface = record { ifindex = 3; master_ifindex = none; mac = mac 1; mtu = 1500; queue = 0 }

abbrev routes : List Ipv4Route
routes =
    record {
      destination = 0;
      prefix_len = 0;
      ifindex = 3;
      gateway = some 0xc1;
      priority = 5;
      mtu = 9000;
    }
    ∷ record {
      destination = 0xc0;
      prefix_len = 2;
      ifindex = 3;
      gateway = none;
      priority = 1;
      mtu = 1400;
    }
    ∷ []

abbrev known : RouteSnapshot
known = upsert_neighbor_v4 8 2 3 0xc1 (mac 2) (upsert_interface 8 2 interface new)

abbrev or_known : Option RouteSnapshot → RouteSnapshot
or_known none = known
or_known (some s) = s

abbrev full : RouteSnapshot
full = or_known (upsert_routes_v4 8 2 routes known)

inserted : upsert_routes_v4 8 2 routes known ≡ some full
unfolding upsert_routes_v4 upsert_neighbor_v4 upsert_interface fast_socket_rs.Poptrie.Emitter.build
    fast_socket_rs.Poptrie.Builder.compact_live_values fast_socket_rs.Poptrie.Key.bit
    fast_socket_rs.Poptrie.Builder.new native.Mathlib.Decide.ℕ_discrete
inserted = refl

full-Reachable : Reachable 8 2 full
full-Reachable =
    step (step (step at_new (one_interface interface)) (one_neighbor 3 0xc1 (mac 2)))
      (many_routes routes inserted)

Reachable-IsFresh_example : IsFresh 8 2 full
Reachable-IsFresh_example = Reachable-IsFresh 8 2 full-Reachable

resolved_v4_for_interface-Reachable_example : resolved_v4_for_interface 8 2 full 0x10 3 1 ≡ (do
  index ← lookup_route_index_v4 8 2 full 0x10
  some (resolve_direct 8 2 full 0x10 3 1 index))
unfolding upsert_routes_v4 upsert_neighbor_v4 upsert_interface fast_socket_rs.Poptrie.Emitter.build
    fast_socket_rs.Poptrie.Builder.compact_live_values fast_socket_rs.Poptrie.Key.bit
    fast_socket_rs.Poptrie.Builder.new native.Mathlib.Decide.ℕ_discrete
resolved_v4_for_interface-Reachable_example =
    resolved_v4_for_interface-Reachable 8 2 full-Reachable 0x10 3 1 (omega arith)

lookup_route_v4-Reachable_example :
    lookup_route_v4 8 2 full 0xc7 ≡ some (scan 8 2 0xc7 full.routes_v4)
unfolding upsert_routes_v4 upsert_neighbor_v4 upsert_interface fast_socket_rs.Poptrie.Emitter.build
    fast_socket_rs.Poptrie.Builder.compact_live_values fast_socket_rs.Poptrie.Key.bit
    fast_socket_rs.Poptrie.Builder.new native.Mathlib.Decide.ℕ_discrete
lookup_route_v4-Reachable_example =
    lookup_route_v4-Reachable 8 2 full-Reachable 0xc7 (omega arith) (omega arith) (omega arith)
      (omega arith)

abbrev history : List (Event ℕ)
history = published 7 ∷ polled ∷ published 8 ∷ published 9 ∷ []

run-polled_example :
    let w = react polled (run history (started 1)) in
    (w.routes.snapshot ≡ 9)
    × ((handle_apply w.monitor.shared w.handle w.routes).0 ≡ 0)
    × (react polled w ≡ w)
run-polled_example = run-polled 1 history (omega arith)
