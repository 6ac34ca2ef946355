-- ===== src/Routes/Table.antt =====
-- crates/fast-socket-xdp-rs/src/route.rs: `upsert_route_v4_no_sort`, `sort_routes_v4` and the index that is
-- rebuilt from the sorted routes.
use native.Mathlib.Decide.{ℕ_discrete}
use fast_socket_rs.Prelude.{
  ℕ, ◌+◌, ◌≡◌, Bool, true, false, ◌&&◌, ◌||◌, Option, none, some, List, [], ◌∷◌, ◌++◌, length, ltb,
  leb, ◌==◌, if◌then◌else◌, min, arith, Bool-cases, inl, inr,
}
use fast_socket_rs.Prelude.Results.{◌>>=◌}
use fast_socket_rs.Prelude.Words.{as_u32}
use fast_socket_rs.Poptrie.Builder.{PoptrieBuilder, insert}
use fast_socket_rs.Poptrie.Emitter.{build}
use fast_socket_rs.Poptrie.Correct.Table.{insert_all}
use fast_socket_rs.Routes.{Ipv4Route, RouteSnapshot, same_option}

abbrev pub same_route : Ipv4Route → Ipv4Route → Bool
same_route existing route =
    (existing.destination == route.destination)
    && ((existing.prefix_len == route.prefix_len)
        && ((existing.ifindex == route.ifindex) && same_option existing.gateway route.gateway))

-- The first entry for the same route is replaced, or the route comes last.
unfoldable pub upsert_route_v4_no_sort : Ipv4Route → List Ipv4Route → List Ipv4Route
upsert_route_v4_no_sort route [] = route ∷ []
upsert_route_v4_no_sort route (existing ∷ routes) =
    let rest = upsert_route_v4_no_sort route routes in
    if same_route existing route then route ∷ routes else existing ∷ rest

-- The comparison that routes are sorted by is not `Greater`.
abbrev pub in_order : Ipv4Route → Ipv4Route → Bool
in_order left right =
    ltb right.prefix_len left.prefix_len
    || ((left.prefix_len == right.prefix_len) && leb left.priority right.priority)

unfoldable pub insert_sorted : Ipv4Route → List Ipv4Route → List Ipv4Route
insert_sorted route [] = route ∷ []
insert_sorted route (next ∷ routes) =
    let rest = insert_sorted route routes in
    if in_order route next then route ∷ (next ∷ routes) else next ∷ rest

-- `sort_by`, which is stable.
unfoldable pub sort_routes_v4 : List Ipv4Route → List Ipv4Route
unfolding insert_sorted
sort_routes_v4 [] = []
sort_routes_v4 (route ∷ routes) = insert_sorted route (sort_routes_v4 routes)

module _ (width direct_bits : ℕ) where
  -- The inserts of `enumerate().rev()`: the last route first.
  unfoldable pub inserts : ℕ → List Ipv4Route → List (ℕ × ℕ × ℕ)
  inserts index [] = []
  inserts index (route ∷ routes) =
      inserts (index + 1) routes
      ++ ((route.destination, min route.prefix_len width, as_u32 index) ∷ [])

  unfoldable pub rebuild_route_index_v4 : RouteSnapshot → Option RouteSnapshot
  unfolding inserts insert_all
  rebuild_route_index_v4 s =
      let inserted =
        insert_all ℕ_discrete width direct_bits (inserts 0 s.routes_v4)
          fast_socket_rs.Poptrie.Builder.new in
      if length s.routes_v4 == 0 then some (record s { route_index_v4 = none }) else (do
        builder ← inserted
        index ← build width direct_bits builder
        some (record s { route_index_v4 = some index }))

-- Longest prefix first, then the lowest priority.
abbrev pub Sorted : List Ipv4Route → Type 0
Sorted [] = Unit
Sorted (route ∷ []) = Unit
Sorted (route ∷ next ∷ routes) = (in_order route next ≡ true) × Sorted (next ∷ routes)

in_order_total : (a b : Ipv4Route) → in_order a b ≡ false → in_order b a ≡ true
in_order_total a b h = ground arith

insert_sorted_keeps :
    (head route : Ipv4Route) (routes : List Ipv4Route)
    → in_order head route ≡ true
    → Sorted (head ∷ routes)
    → Sorted (head ∷ insert_sorted route routes)
unfolding insert_sorted
insert_sorted_keeps head route [] h s = (h, tt)
insert_sorted_keeps head route (next ∷ routes) h (a, s) = elim (Bool-cases (in_order route next)) [
  | inl before ↦ rw before (h, (before, s))
  | inr behind ↦
      rw behind (a, insert_sorted_keeps next route routes (in_order_total route next behind) s)
]

insert_sorted-Sorted :
    (route : Ipv4Route) (routes : List Ipv4Route)
    → Sorted routes
    → Sorted (insert_sorted route routes)
unfolding insert_sorted
insert_sorted-Sorted route [] s = tt
insert_sorted-Sorted route (next ∷ routes) s = elim (Bool-cases (in_order route next)) [
  | inl before ↦ rw before (before, s)
  | inr behind ↦
      rw behind (insert_sorted_keeps next route routes (in_order_total route next behind) s)
]

-- Sorting puts the routes with the longest prefix first, and of these the one with the lowest
-- priority.
pub sort_routes_v4-Sorted : (routes : List Ipv4Route) → Sorted (sort_routes_v4 routes)
unfolding sort_routes_v4
sort_routes_v4-Sorted [] = tt
sort_routes_v4-Sorted (route ∷ routes) =
    insert_sorted-Sorted route (sort_routes_v4 routes) (sort_routes_v4-Sorted routes)
