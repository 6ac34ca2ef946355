-- ===== src/Poptrie/Correct/Table.antt =====
-- The whole table: routes inserted one after the other, built, and looked up.
use native.Mathlib.Nat.{mul-suc}
use fast_socket_rs.Prelude.{
  ℕ, suc, ◌+◌, ◌-◌, ◌^◌, ◌<◌, ◌≡◌, ◌*◌, subst, refl, sym, ◌∙◌, ap, inl, inr, Bool, Option, none,
  some, List, [], ◌∷◌, get_elem?, length, arith, Bool-cases, ◌==◌, if◌then◌else◌, none≢some,
}
use fast_socket_rs.Prelude.Results.{or_else, ◌>>=◌, >>=-eq-some, eq_of_some}
use fast_socket_rs.Poptrie.{Poptrie, value, lookup}
use fast_socket_rs.Poptrie.Builder.{PoptrieBuilder, new, insert}
use fast_socket_rs.Poptrie.Builder.Insert.Holds.{Holds, new-Holds}
use fast_socket_rs.Poptrie.Builder.Insert.Insertion.{Inserted, insert-Inserted}
use fast_socket_rs.Poptrie.Builder.Insert.Walk.{key_bits}
use fast_socket_rs.Poptrie.Builder.Reach.{last_value, stored, route-last_value}
use fast_socket_rs.Poptrie.Correct.Lookup.{lookup-build}
use fast_socket_rs.Poptrie.Emitter.{build}
use fast_socket_rs.Poptrie.Longest.{exact, longest}
use fast_socket_rs.Poptrie.Walk.{low_bits}

or_else_assoc {ℓ} :
    {A : Type ℓ} (x y z : Option A) → or_else x (or_else y z) ≡ or_else (or_else x y) z
or_else_assoc (some a) y z = refl
or_else_assoc none y z = refl

module _ {ℓ} {V : Type ℓ} where
  value-effective :
      (values : List V) (g e : ℕ) (own inherited : Option V)
      → value values g ≡ some own
      → value values e ≡ some inherited
      → value values (if g == 0 then e else g) ≡ some (or_else own inherited)
  unfolding value
  value-effective values g e own inherited at_g at_e = elim (Bool-cases (g == 0)) [
    | inl z ↦ let no_own : none ≡ own = eq_of_some (rw z at at_g) in rw (z, ← no_own) at_e
    | inr z ↦
        let (v, _, at_own) = >>=-eq-some (get_elem? values (g - 1)) _ (rw z at at_g) in
        let some_own : some v ≡ own = eq_of_some at_own in
        let taken : (if g == 0 then e else g) ≡ g = rw z refl in
        let is_own : own ≡ or_else own inherited = rw (← some_own) refl in
        ap (value values) taken ∙ at_g ∙ ap some is_own
  ]

  -- The last value above 0 along the prefixes names the longest match.
  last_value-longest :
      (values : List V) (bs : List Bool) (g : List Bool → ℕ) (f : List Bool → Option V) (e : ℕ)
      (inherited : Option V)
      → ((q : List Bool) → value values (g q) ≡ some (f q))
      → value values e ≡ some inherited
      → value values (last_value g e bs) ≡ some (or_else (longest f bs) inherited)
  unfolding last_value longest
  last_value-longest values [] g f e inherited h at_e =
      value-effective values (g []) e (f []) inherited (h []) at_e
  last_value-longest values (b ∷ bs) g f e inherited h at_e =
      last_value-longest values bs (λ q. g (b ∷ q)) (λ q. f (b ∷ q)) _ _ (λ q. h (b ∷ q))
        (value-effective values (g []) e (f []) inherited (h []) at_e)
      ∙ ap some (or_else_assoc (longest (λ q. f (b ∷ q)) bs) (f []) inherited)

  or_else-none : (x : Option V) → or_else x none ≡ x
  or_else-none none = refl
  or_else-none (some a) = refl

  module _ (eq : Discrete V) (width direct_bits : ℕ) where
    -- If a builder holds a list of routes and `build` returns a table with fewer than 2^32 leaves,
    -- then looking up any key of `width` bits returns the value of the longest of these routes
    -- that the key starts with, and none if there is none.
    pub lookup-longest :
        (routes : List (List Bool × V)) (b : PoptrieBuilder V) (t : Poptrie V) (key : ℕ)
        → Holds eq width routes b
        → build width direct_bits b ≡ some t
        → length t.leaves < 2 ^ 32
        → key < 2 ^ width
        → lookup width direct_bits t key ≡ some (longest (exact routes) (low_bits width key))
    unfolding value
    lookup-longest routes b t key holds built few_leaves small_key =
        lookup-build width direct_bits b t key built few_leaves small_key
        ∙ ap (value b.values) (route-last_value b.bin (low_bits width key))
        ∙ last_value-longest b.values (low_bits width key) (stored b.bin) (exact routes) 0 none
            holds.answers refl
        ∙ ap some (or_else-none (longest (exact routes) (low_bits width key)))

    -- A sequence of calls of `insert`, the first one first.
    unfoldable pub insert_all : List (ℕ × ℕ × V) → PoptrieBuilder V → Option (PoptrieBuilder V)
    unfolding insert
    insert_all [] b = some b
    insert_all ((prefix, prefix_len, v) ∷ rest) b = do
      b' ← insert eq width prefix prefix_len v b
      insert_all rest b'

    -- The routes that they add to those already there.
    unfoldable pub routes_of : List (ℕ × ℕ × V) → List (List Bool × V) → List (List Bool × V)
    routes_of [] routes = routes
    routes_of ((prefix, prefix_len, v) ∷ rest) routes =
        routes_of rest ((key_bits width prefix 0 prefix_len, v) ∷ routes)

    pub insert_all-Holds :
        (calls : List (ℕ × ℕ × V)) (routes : List (List Bool × V)) (b out : PoptrieBuilder V)
        → Holds eq width routes b
        → length b.values + length calls < 2 ^ 32
        → length b.bin + width * length calls < 2 ^ 32
        → insert_all calls b ≡ some out
        → Holds eq width (routes_of calls routes) out
    unfolding insert_all routes_of
    insert_all-Holds [] routes b out holds few_values few_nodes h =
        subst (Holds eq width routes) (eq_of_some h) holds
    insert_all-Holds ((prefix, prefix_len, v) ∷ rest) routes b out holds few_values few_nodes h =
        let (b', h1, h2) = >>=-eq-some (insert eq width prefix prefix_len v b) _ h in
        let product : width * suc (length rest) ≡ width * length rest + width =
          mul-suc width (length rest) in
        elim (insert-Inserted eq width prefix prefix_len v routes b holds
          (omega (arith, few_values)) (omega (arith, few_nodes, product))) [
            | inl (short, out', h3, i) ↦
                let same : out' ≡ b' = eq_of_some (sym h3 ∙ h1) in
                let i' = subst (Inserted eq width prefix prefix_len v routes b) same i in
                insert_all-Holds rest _ b' out i'.holds
                  (omega (arith, few_values, i'.values_at_most))
                  (omega (arith, few_nodes, product, i'.nodes_at_most, short)) h2
            | inr (long, h3) ↦ absurd (none≢some (sym h3 ∙ h1))
          ]

    -- If a sequence of inserts into a new builder succeeds and `build` returns a table, then
    -- looking up any key of `width` bits returns the value of the longest inserted prefix that the
    -- key starts with, the newest where one was inserted twice, and none if there is none; for
    -- fewer than 2^32 inserts, 1 + width * inserts below 2^32 and fewer than 2^32 leaves.
    pub lookup-insert_all :
        (calls : List (ℕ × ℕ × V)) (b : PoptrieBuilder V) (t : Poptrie V) (key : ℕ)
        → insert_all calls new ≡ some b
        → build width direct_bits b ≡ some t
        → length calls < 2 ^ 32
        → 1 + width * length calls < 2 ^ 32
        → length t.leaves < 2 ^ 32
        → key < 2 ^ width
        → lookup width direct_bits t key
          ≡ some (longest (exact (routes_of calls [])) (low_bits width key))
    unfolding new
    lookup-insert_all calls b t key inserted built few_values few_nodes few_leaves small_key =
        lookup-longest (routes_of calls []) b t key
          (insert_all-Holds calls [] new b (new-Holds eq width) (omega (arith, few_values))
            few_nodes inserted)
          built few_leaves small_key
