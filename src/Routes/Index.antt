-- ===== src/Routes/Index.antt =====
-- crates/fast-socket-xdp-rs/src/route.rs: `lookup_route_v4` through the poptrie, against a scan of the
-- sorted routes.
use mathlib.Core.List.{append_assoc}
use native.Mathlib.Decide.{ℕ_discrete}
use fast_socket_rs.Prelude.{
  ℕ, ◌+◌, ◌*◌, ◌^◌, ◌≤◌, ◌<◌, ◌≡◌, refl, subst, ap, ◌∙◌, Bool, Option, none, some, List, [], ◌∷◌,
  ◌++◌, length, length-append, get_elem?, ◌==◌, if◌then◌else◌, min, arith, Bool-cases, inl, inr,
}
use fast_socket_rs.Prelude.Results.{◌>>=◌, >>=-eq-some, eq_of_some}
use fast_socket_rs.Prelude.Words.{as_u32}
use fast_socket_rs.Poptrie.{Poptrie}
use fast_socket_rs.Poptrie.Builder.{PoptrieBuilder}
use fast_socket_rs.Poptrie.Builder.Insert.Walk.{key_bits, length-key_bits}
use fast_socket_rs.Poptrie.Emitter.{build}
use fast_socket_rs.Poptrie.Longest.{exact, longest}
use fast_socket_rs.Poptrie.Scan.{starts, first_start, AtMost, longest-first_start}
use fast_socket_rs.Poptrie.Walk.{low_bits}
use fast_socket_rs.Poptrie.Correct.Table.{insert_all, routes_of, lookup-insert_all}
use fast_socket_rs.Routes.{Ipv4Route, RouteSnapshot}
use fast_socket_rs.Routes.Table.{Sorted, inserts, rebuild_route_index_v4}

get_elem?-middle {ℓ} :
    {A : Type ℓ} (xs : List A) (y : A) (ys : List A)
    → get_elem? (xs ++ (y ∷ ys)) (length xs) ≡ some y
get_elem?-middle [] y ys = refl
get_elem?-middle (x ∷ xs) y ys = get_elem?-middle xs y ys

abbrev pub FewLeaves : Option (Poptrie ℕ) → Type 0
FewLeaves none = Unit
FewLeaves (some index) = length index.leaves < 2 ^ 32

module _ (width direct_bits : ℕ) where
  unfoldable pub lookup_route_index_v4 : RouteSnapshot → ℕ → Option (Option ℕ)
  lookup_route_index_v4 s dst = elim s.route_index_v4 [
    | none ↦ some none
    | some index ↦ fast_socket_rs.Poptrie.lookup width direct_bits index dst
  ]

  abbrev pub route_at : List Ipv4Route → Option ℕ → Option Ipv4Route
  route_at routes none = none
  route_at routes (some index) = get_elem? routes index

  unfoldable pub lookup_route_v4 : RouteSnapshot → ℕ → Option (Option Ipv4Route)
  unfolding lookup_route_index_v4
  lookup_route_v4 s dst = do index ← lookup_route_index_v4 s dst; some (route_at s.routes_v4 index)

  -- The route's prefix is the start of the destination.
  unfoldable pub covers : ℕ → Ipv4Route → Bool
  unfolding starts low_bits key_bits
  covers dst route =
      starts (low_bits width dst) (key_bits width route.destination 0 (min route.prefix_len width))

  -- The first route that covers the destination, as a linear scan finds it.
  unfoldable pub scan : ℕ → List Ipv4Route → Option Ipv4Route
  unfolding covers
  scan dst [] = none
  scan dst (route ∷ routes) = if covers dst route then some route else scan dst routes

  entries : ℕ → List Ipv4Route → List (List Bool × ℕ)
  entries index [] = []
  entries index (route ∷ routes) =
      (key_bits width route.destination 0 (min route.prefix_len width), as_u32 index)
      ∷ entries (index + 1) routes

  routes_of-append :
      (calls : List (ℕ × ℕ × ℕ)) (prefix len v : ℕ) (known : List (List Bool × ℕ))
      → routes_of ℕ_discrete width direct_bits (calls ++ ((prefix, len, v) ∷ [])) known
        ≡ (key_bits width prefix 0 len, v) ∷ routes_of ℕ_discrete width direct_bits calls known
  unfolding routes_of
  routes_of-append [] prefix len v known = refl
  routes_of-append ((p, l, w) ∷ calls) prefix len v known =
      routes_of-append calls prefix len v ((key_bits width p 0 l, w) ∷ known)

  -- Inserted from the last one on, the routes stand as in the table.
  routes_of-inserts :
      (index : ℕ) (routes : List Ipv4Route)
      → routes_of ℕ_discrete width direct_bits (inserts width direct_bits index routes) []
        ≡ entries index routes
  unfolding inserts entries
  routes_of-inserts index [] = unfold routes_of in refl
  routes_of-inserts index (route ∷ routes) =
      routes_of-append (inserts width direct_bits (index + 1) routes) route.destination
        (min route.prefix_len width) (as_u32 index) []
      ∙ ap
          (λ r. (key_bits width route.destination 0 (min route.prefix_len width), as_u32 index) ∷ r)
          (routes_of-inserts (index + 1) routes)

  length-inserts :
      (index : ℕ) (routes : List Ipv4Route)
      → length (inserts width direct_bits index routes) ≡ length routes
  unfolding inserts
  length-inserts index [] = refl
  length-inserts index (route ∷ routes) = omega (
    arith,
    length-append (inserts width direct_bits (index + 1) routes)
        ((route.destination, min route.prefix_len width, as_u32 index) ∷ []),
    length-inserts (index + 1) routes,
  )

  abbrev HeadAtMost : ℕ → List Ipv4Route → Type 0
  HeadAtMost n [] = Unit
  HeadAtMost n (route ∷ routes) = min route.prefix_len width ≤ n

  entries-AtMost :
      (n index : ℕ) (routes : List Ipv4Route)
      → Sorted routes
      → HeadAtMost n routes
      → AtMost n (entries index routes)
  unfolding entries
  entries-AtMost n index [] s h = tt
  entries-AtMost n index (route ∷ []) s h =
      (omega (arith, length-key_bits width route.destination (min route.prefix_len width) 0), tt)
  entries-AtMost n index (route ∷ (next ∷ routes)) (order, s) h =
      let len = min route.prefix_len width in
      let bits = length-key_bits width route.destination len 0 in
      let below : min next.prefix_len width ≤ len = ground arith in
      (
        omega (arith, bits),
        entries-AtMost (length (key_bits width route.destination 0 len)) (index + 1) (next ∷ routes)
            s (omega (arith, bits, below)),
      )

  first_start-scan :
      (dst index : ℕ) (routes done : List Ipv4Route)
      → length done ≡ index
      → length done + length routes < 2 ^ 32
      → route_at (done ++ routes) (first_start (entries index routes) (low_bits width dst))
        ≡ scan dst routes
  unfolding first_start entries scan
  first_start-scan dst index [] done e small = refl
  first_start-scan dst index (route ∷ routes) done e small = elim (Bool-cases (covers dst route)) [
    | inl here ↦
        let at_index : as_u32 index ≡ length done = omega arith in
        rw (here, at_index) (get_elem?-middle done route routes)
    | inr other ↦
        rw (other, ← append_assoc done (route ∷ []) routes)
          (first_start-scan dst (index + 1) routes (done ++ (route ∷ []))
            (omega (arith, length-append done (route ∷ [])))
            (omega (arith, length-append done (route ∷ []))))
  ]

  no_routes :
      (dst : ℕ) (routes : List Ipv4Route) (s : RouteSnapshot)
      → length routes ≡ 0
      → lookup_route_v4 (record s { route_index_v4 = none }) dst ≡ some (scan dst routes)
  unfolding lookup_route_v4 scan
  no_routes dst [] s h = refl
  no_routes dst (route ∷ routes) s h = absurd (omega arith)

  some_head : (routes : List Ipv4Route) → HeadAtMost width routes
  some_head [] = tt
  some_head (route ∷ routes) = omega arith

  with_index :
      (s : RouteSnapshot) (builder : PoptrieBuilder ℕ) (index : Poptrie ℕ) (dst : ℕ)
      → Sorted s.routes_v4
      → insert_all ℕ_discrete width direct_bits
          (inserts width direct_bits 0 s.routes_v4)
          fast_socket_rs.Poptrie.Builder.new
        ≡ some builder
      → build width direct_bits builder ≡ some index
      → length s.routes_v4 < 2 ^ 32
      → 1 + width * length s.routes_v4 < 2 ^ 32
      → length index.leaves < 2 ^ 32
      → dst < 2 ^ width
      → lookup_route_v4 (record s { route_index_v4 = some index }) dst ≡ some (scan dst s.routes_v4)
  unfolding lookup_route_v4
  with_index s builder index dst sorted inserted built few few_nodes leaves small =
      let routes = s.routes_v4 in
      let calls = inserts width direct_bits 0 routes in
      let n : length calls ≡ length routes = length-inserts 0 routes in
      let answer =
        lookup-insert_all ℕ_discrete width direct_bits calls builder index dst inserted built
          (rw n few) (rw n few_nodes) leaves small in
      let listed =
        ap (λ r. longest (exact r) (low_bits width dst)) (routes_of-inserts 0 routes)
        ∙ longest-first_start width (entries 0 routes) (low_bits width dst)
            (entries-AtMost width 0 routes sorted (some_head routes)) in
      ap (λ o. o >>= λ i. some (route_at routes i)) (answer ∙ ap some listed)
      ∙ ap some (first_start-scan dst 0 routes [] refl (omega (arith, few)))

  -- The index of a snapshot is the poptrie that its routes build, or none if it has no routes.
  pub data Indexed (s : RouteSnapshot) : Type 0 where
    unindexed : length s.routes_v4 ≡ 0 → s.route_index_v4 ≡ none → Indexed s
    indexed :
        (builder : PoptrieBuilder ℕ) (index : Poptrie ℕ)
        → insert_all ℕ_discrete width direct_bits
            (inserts width direct_bits 0 s.routes_v4)
            fast_socket_rs.Poptrie.Builder.new
          ≡ some builder
        → build width direct_bits builder ≡ some index
        → s.route_index_v4 ≡ some index
        → Indexed s

  -- What a rebuild of the index leaves: the same snapshot but for the index, which is up to date.
  pub rebuild_route_index_v4-Indexed :
      (s s' : RouteSnapshot)
      → rebuild_route_index_v4 width direct_bits s ≡ some s'
      → Indexed s' × (s' ≡ record s { route_index_v4 = s'.route_index_v4 })
  unfolding rebuild_route_index_v4
  rebuild_route_index_v4-Indexed s s' rebuilt =
      let Left : RouteSnapshot → Type 0 =
        λ t. Indexed t × (t ≡ record s { route_index_v4 = t.route_index_v4 }) in
      elim (Bool-cases (length s.routes_v4 == 0)) [
        | inl empty ↦
            subst Left (eq_of_some (rw empty at rebuilt)) (unindexed (ground arith) refl, refl)
        | inr some_route ↦
            let (builder, inserted, rest) =
              >>=-eq-some
                (insert_all ℕ_discrete width direct_bits (inserts width direct_bits 0 s.routes_v4)
                  fast_socket_rs.Poptrie.Builder.new)
                _ (rw some_route at rebuilt) in
            let (index, built, last) = >>=-eq-some (build width direct_bits builder) _ rest in
            subst Left (eq_of_some last) (indexed builder index inserted built refl, refl)
      ]

  at_index :
      (s : RouteSnapshot) (index : Option (Poptrie ℕ))
      → s.route_index_v4 ≡ index
      → s ≡ record s { route_index_v4 = index }
  at_index s index h = ap {A = Option (Poptrie ℕ)} (λ o. record s { route_index_v4 = o }) h

  -- Where the poptrie is up to date with sorted routes, looking up any destination gives the first of
  -- the routes that covers it, which is the one with the longest prefix and of these one with the
  -- lowest priority; for fewer than 2^32 leaves and 1 + width * routes below 2^32.
  pub lookup_route_v4-scan :
      (s : RouteSnapshot) (dst : ℕ)
      → Sorted s.routes_v4
      → Indexed s
      → length s.routes_v4 < 2 ^ 32
      → 1 + width * length s.routes_v4 < 2 ^ 32
      → FewLeaves s.route_index_v4
      → dst < 2 ^ width
      → lookup_route_v4 s dst ≡ some (scan dst s.routes_v4)
  lookup_route_v4-scan s dst sorted (unindexed empty is_none) few few_nodes few_leaves small =
      ap (λ t. lookup_route_v4 t dst) (at_index s none is_none) ∙ no_routes dst s.routes_v4 s empty
  lookup_route_v4-scan s dst sorted (indexed builder index inserted built is_index) few few_nodes
        few_leaves small =
      ap (λ t. lookup_route_v4 t dst) (at_index s (some index) is_index)
      ∙ with_index s builder index dst sorted inserted built few few_nodes
          (subst FewLeaves is_index few_leaves) small
