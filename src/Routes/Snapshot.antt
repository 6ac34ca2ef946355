-- ===== src/Routes/Snapshot.antt =====
-- crates/fast-socket-xdp-rs/src/route.rs: the operations that change a `RouteSnapshot`, and the invariant
-- that they keep.
use fast_socket_rs.Prelude.{
  ℕ, ◌+◌, ◌-◌, ◌*◌, ◌^◌, ◌<◌, ◌≡◌, refl, sym, subst, ap, ◌∙◌, Option, some, List, [], ◌∷◌, length,
  ◌==◌, Bool-cases, Option-cases, inl, inr,
}
use fast_socket_rs.Prelude.Results.{◌>>=◌, >>=-eq-some, eq_of_some}
use fast_socket_rs.Prelude.Maps.{insert}
use fast_socket_rs.Egress.{LinkAddr}
use fast_socket_rs.Routes.{Ipv4Route, InterfaceInfo, InterfaceEgress, RouteSnapshot, new, same_pair}
use fast_socket_rs.Routes.Table.{
  upsert_route_v4_no_sort, sort_routes_v4, rebuild_route_index_v4, Sorted, sort_routes_v4-Sorted,
}
use fast_socket_rs.Routes.Index.{
  Indexed, unindexed, indexed, rebuild_route_index_v4-Indexed, lookup_route_index_v4,
  lookup_route_v4, scan, FewLeaves, lookup_route_v4-scan,
}
use fast_socket_rs.Routes.Lookup.{rebuild_egress_index_v4, resolved_v4_for_interface}
use fast_socket_rs.Routes.Resolved.{Keyed, insert-Keyed}
use fast_socket_rs.Routes.Direct.{
  resolve_direct, resolve_direct_same, resolved_v4_for_interface-direct,
}

module _ (width direct_bits : ℕ) where
  -- Both rebuilds, after a change of the routes.
  abbrev rebuild : RouteSnapshot → Option RouteSnapshot
  rebuild s = do s' ← rebuild_route_index_v4 width direct_bits s; some (rebuild_egress_index_v4 s')

  unfoldable pub upsert_route_v4 : Ipv4Route → RouteSnapshot → Option RouteSnapshot
  unfolding upsert_route_v4_no_sort sort_routes_v4 rebuild_route_index_v4 rebuild_egress_index_v4
  upsert_route_v4 route s =
      rebuild (record s { routes_v4 = sort_routes_v4 (upsert_route_v4_no_sort route s.routes_v4) })

  unfoldable pub upsert_all : List Ipv4Route → List Ipv4Route → List Ipv4Route
  unfolding upsert_route_v4_no_sort
  upsert_all [] routes = routes
  upsert_all (route ∷ rest) routes = upsert_all rest (upsert_route_v4_no_sort route routes)

  -- `any` is whether there is a route to insert.
  unfoldable pub upsert_routes_v4 : List Ipv4Route → RouteSnapshot → Option RouteSnapshot
  unfolding upsert_all sort_routes_v4 rebuild_route_index_v4 rebuild_egress_index_v4
  upsert_routes_v4 [] s = some s
  upsert_routes_v4 (route ∷ rest) s =
      rebuild (record s { routes_v4 = sort_routes_v4 (upsert_all (route ∷ rest) s.routes_v4) })

  unfoldable pub upsert_neighbor_v4 : ℕ → ℕ → LinkAddr → RouteSnapshot → RouteSnapshot
  unfolding rebuild_egress_index_v4
  upsert_neighbor_v4 ifindex ip mac s =
      rebuild_egress_index_v4
        (record s { neighbors_v4 = insert same_pair (ifindex, ip) mac s.neighbors_v4 })

  unfoldable pub upsert_interface : InterfaceInfo → RouteSnapshot → RouteSnapshot
  unfolding rebuild_egress_index_v4
  upsert_interface interface s =
      rebuild_egress_index_v4
        (record s { interfaces = insert ◌==◌ interface.ifindex interface s.interfaces })

  -- Sorted routes, the poptrie of exactly these routes, interfaces under their own index, and the
  -- egress index that the other fields give.
  pub record IsFresh (s : RouteSnapshot) : Type 0 where
    pub sorted : Sorted s.routes_v4
    pub is_indexed : Indexed width direct_bits s
    pub keyed : Keyed s.interfaces
    pub stale : List (ℕ × InterfaceEgress)
    pub rebuilt : rebuild_egress_index_v4 (record s { egress_index_v4 = stale }) ≡ s

  -- The egress index is the only field that its rebuild changes.
  rebuild_egress_only :
      (s : RouteSnapshot)
      → rebuild_egress_index_v4 s
        ≡ record s { egress_index_v4 = (rebuild_egress_index_v4 s).egress_index_v4 }
  unfolding rebuild_egress_index_v4
  rebuild_egress_only s = elim (Bool-cases (length s.routes_v4 == 0)) [
    | inl empty ↦ rw empty refl
    | inr some_route ↦ rw some_route refl
  ]

  Indexed-same :
      (s : RouteSnapshot) (neighbors : List ((ℕ × ℕ) × LinkAddr))
      (interfaces : List (ℕ × InterfaceInfo)) (egress : List (ℕ × InterfaceEgress))
      → Indexed width direct_bits s
      → Indexed width direct_bits
          (record s { egress_index_v4 = egress; neighbors_v4 = neighbors; interfaces = interfaces })
  Indexed-same s neighbors interfaces egress (unindexed a b) = unindexed a b
  Indexed-same s neighbors interfaces egress (indexed builder index a b c) =
      indexed builder index a b c

  rebuild_egress_index_v4-IsFresh :
      (s : RouteSnapshot)
      → Sorted s.routes_v4
      → Indexed width direct_bits s
      → Keyed s.interfaces
      → IsFresh (rebuild_egress_index_v4 s)
  rebuild_egress_index_v4-IsFresh s sorted i keyed =
      let egress = (rebuild_egress_index_v4 s).egress_index_v4 in
      subst IsFresh (sym (rebuild_egress_only s)) (record {
        sorted = sorted;
        is_indexed = Indexed-same s s.neighbors_v4 s.interfaces egress i;
        keyed = keyed;
        stale = s.egress_index_v4;
        rebuilt = rebuild_egress_only s;
      })

  rebuild-IsFresh :
      (s s' : RouteSnapshot)
      → Sorted s.routes_v4
      → Keyed s.interfaces
      → rebuild s ≡ some s'
      → IsFresh s'
  rebuild-IsFresh s s' sorted keyed h =
      let (t, at_t, last) = >>=-eq-some (rebuild_route_index_v4 width direct_bits s) _ h in
      let (i, same) = rebuild_route_index_v4-Indexed width direct_bits s t at_t in
      subst IsFresh (eq_of_some last) (
        rebuild_egress_index_v4-IsFresh t (subst Sorted (sym (ap (λ r. r.routes_v4) same)) sorted) i
          (subst Keyed (sym (ap (λ r. r.interfaces) same)) keyed))

  new-IsFresh : IsFresh new
  new-IsFresh = record {
    sorted = tt;
    is_indexed = unindexed refl refl;
    keyed = tt;
    stale = [];
    rebuilt = unfold rebuild_egress_index_v4 in refl;
  }

  -- A change of a snapshot that does not panic.
  pub data Step (s : RouteSnapshot) : RouteSnapshot → Type 0 where
    one_route :
        {s' : RouteSnapshot} (route : Ipv4Route) → upsert_route_v4 route s ≡ some s' → Step s s'
    many_routes :
        {s' : RouteSnapshot} (routes : List Ipv4Route)
        → upsert_routes_v4 routes s ≡ some s'
        → Step s s'
    one_neighbor : (ifindex ip : ℕ) (mac : LinkAddr) → Step s (upsert_neighbor_v4 ifindex ip mac s)
    one_interface : (interface : InterfaceInfo) → Step s (upsert_interface interface s)

  pub data Reachable : RouteSnapshot → Type 0 where
    at_new : Reachable new
    step : {s s' : RouteSnapshot} → Reachable s → Step s s' → Reachable s'

  Step-IsFresh : {s s' : RouteSnapshot} → Step s s' → IsFresh s → IsFresh s'
  unfolding upsert_route_v4 upsert_routes_v4 upsert_neighbor_v4 upsert_interface
  Step-IsFresh {s = s} {s' = s'} (one_route route h) f =
      let routes = upsert_route_v4_no_sort route s.routes_v4 in
      rebuild-IsFresh (record s { routes_v4 = sort_routes_v4 routes }) s'
        (sort_routes_v4-Sorted routes) f.keyed h
  Step-IsFresh {s = s} {s' = s'} (many_routes [] h) f = subst IsFresh (eq_of_some h) f
  Step-IsFresh {s = s} {s' = s'} (many_routes (route ∷ rest) h) f =
      let routes = upsert_all (route ∷ rest) s.routes_v4 in
      rebuild-IsFresh (record s { routes_v4 = sort_routes_v4 routes }) s'
        (sort_routes_v4-Sorted routes) f.keyed h
  Step-IsFresh {s = s} (one_neighbor ifindex ip mac) f =
      rebuild_egress_index_v4-IsFresh
        (record s { neighbors_v4 = insert same_pair (ifindex, ip) mac s.neighbors_v4 }) f.sorted
        (Indexed-same s (insert same_pair (ifindex, ip) mac s.neighbors_v4) s.interfaces
          s.egress_index_v4 f.is_indexed)
        f.keyed
  Step-IsFresh {s = s} (one_interface interface) f =
      let interfaces = insert ◌==◌ interface.ifindex interface s.interfaces in
      rebuild_egress_index_v4-IsFresh (record s { interfaces = interfaces }) f.sorted
        (Indexed-same s s.neighbors_v4 interfaces s.egress_index_v4 f.is_indexed)
        (insert-Keyed interface s.interfaces f.keyed)

  -- Every snapshot that routes, neighbours and interfaces were inserted into, in any order, from
  -- the new one on, has sorted routes, the poptrie that exactly these routes build, each interface
  -- under its own index and once, and the egress index that a rebuild from its other fields gives.
  pub Reachable-IsFresh : {s : RouteSnapshot} → Reachable s → IsFresh s
  Reachable-IsFresh at_new = new-IsFresh
  Reachable-IsFresh (step r h) = Step-IsFresh h (Reachable-IsFresh r)

  same_lookup :
      (s : RouteSnapshot) (stale : List (ℕ × InterfaceEgress)) (dst ifindex queue : ℕ)
      → (do
        index ← lookup_route_index_v4 width direct_bits (record s { egress_index_v4 = stale }) dst
        some (
            resolve_direct width direct_bits
              (record s { egress_index_v4 = stale })
              dst
              ifindex
              queue
              index))
        ≡ (do
          index ← lookup_route_index_v4 width direct_bits s dst
          some (resolve_direct width direct_bits s dst ifindex queue index))
  same_lookup s stale dst ifindex queue =
      let old = record s { egress_index_v4 = stale } in
      let same : lookup_route_index_v4 width direct_bits old dst
          ≡ lookup_route_index_v4 width direct_bits s dst =
        unfold lookup_route_index_v4 in refl in
      elim (Option-cases (lookup_route_index_v4 width direct_bits s dst)) [
        | inl fault ↦ rw (same, fault) refl
        | inr (found, h) ↦
            rw (same, h)
              (ap some (resolve_direct_same width direct_bits s stale dst ifindex queue found))
      ]

  -- In every snapshot that routes, neighbours and interfaces were inserted into from the new one
  -- on, with fewer than 2^32 - 2 routes, resolving a destination for an interface through the
  -- folded egress index is the same as resolving it from the route that the poptrie gives, the
  -- interface and the neighbours.
  pub resolved_v4_for_interface-Reachable :
      {s : RouteSnapshot}
      → Reachable s
      → (dst ifindex queue : ℕ) → length s.routes_v4 < 2 ^ 32 - 2
      → resolved_v4_for_interface width direct_bits s dst ifindex queue ≡ (do
        index ← lookup_route_index_v4 width direct_bits s dst
        some (resolve_direct width direct_bits s dst ifindex queue index))
  resolved_v4_for_interface-Reachable {s = s} r dst ifindex queue few =
      let f = Reachable-IsFresh r in
      let old = record s { egress_index_v4 = f.stale } in
      ap (λ t. resolved_v4_for_interface width direct_bits t dst ifindex queue) (sym f.rebuilt)
      ∙ resolved_v4_for_interface-direct width direct_bits old dst ifindex queue few f.keyed
      ∙ same_lookup s f.stale dst ifindex queue

  -- In every snapshot that routes, neighbours and interfaces were inserted into from the new one
  -- on, looking up a destination through the poptrie gives the first of its sorted routes that
  -- covers it, for fewer than 2^32 leaves and 1 + width * routes below 2^32.
  pub lookup_route_v4-Reachable :
      {s : RouteSnapshot}
      → Reachable s
      → (dst : ℕ) → length s.routes_v4 < 2 ^ 32
      → 1 + width * length s.routes_v4 < 2 ^ 32
      → FewLeaves s.route_index_v4
      → dst < 2 ^ width
      → lookup_route_v4 width direct_bits s dst ≡ some (scan width direct_bits dst s.routes_v4)
  lookup_route_v4-Reachable {s = s} r dst few few_nodes few_leaves small =
      let f = Reachable-IsFresh r in
      lookup_route_v4-scan width direct_bits s dst f.sorted f.is_indexed few few_nodes few_leaves
        small
