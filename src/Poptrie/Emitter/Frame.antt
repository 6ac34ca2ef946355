-- ===== src/Poptrie/Emitter/Frame.antt =====
-- What a step of the emitter may write: the two arrays before and after it.
use fast_socket_rs.Prelude.{
  ℕ, zero, suc, ◌+◌, ◌^◌, ◌≤◌, ◌<◌, ◌≡◌, ◌≢◌, refl, ◌∙◌, subst, ◌⊎◌, Option, some, List, [], ◌∷◌,
  length, get_elem?, arith,
}
use fast_socket_rs.Prelude.Results.{>>=-eq-some}
use fast_socket_rs.Poptrie.Emitter.{Arrays, fill_children}

pub record Grows (a b : Arrays) : Type 0 where
  pub nodes_grow : length a.nodes ≤ length b.nodes
  pub leaves_grow : length a.leaves ≤ length b.leaves

-- Every index into the arrays is a `u32`.
pub record Fits (a : Arrays) : Type 0 where
  pub nodes_fit : length a.nodes < 2 ^ 32
  pub leaves_fit : length a.leaves < 2 ^ 32

pub Fits-Grows : (a b : Arrays) → Grows a b → Fits b → Fits a
Fits-Grows a b g f = omega arith

-- The entries that `b` takes over from `a`: all leaves, and the nodes that `Keep` names.
pub record Agrees (Keep : ℕ → Type 0) (a b : Arrays) : Type 0 where
  pub nodes_same : (j : ℕ) → j < length a.nodes → Keep j → get_elem? b.nodes j ≡ get_elem? a.nodes j
  pub leaves_same : (j : ℕ) → j < length a.leaves → get_elem? b.leaves j ≡ get_elem? a.leaves j

pub Agrees-weaken :
    {K L : ℕ → Type 0} {a b : Arrays} → ((j : ℕ) → L j → K j) → Agrees K a b → Agrees L a b
Agrees-weaken sub p = record {
  nodes_same = λ j h l. p.nodes_same j h (sub j l);
  leaves_same = p.leaves_same;
}

pub Agrees-trans :
    {K : ℕ → Type 0} {a b c : Arrays} → Grows a b → Agrees K a b → Agrees K b c → Agrees K a c
Agrees-trans g p q = record {
  nodes_same = λ j h l. q.nodes_same j (omega (arith, g.nodes_grow)) l ∙ p.nodes_same j h l;
  leaves_same = λ j h. q.leaves_same j (omega (arith, g.leaves_grow)) ∙ p.leaves_same j h;
}

-- One call of `fill`: it wrote node `slot` and what it appended, and in any arrays that agree there
-- the node serves its binary-trie node `c` with inherited value `e`.
pub record Filled (Serves : Arrays → ℕ → ℕ → ℕ → Type 0) (a : Arrays) (slot c e : ℕ) (b : Arrays)
    : Type 0 where
  pub grows : Grows a b
  pub kept : Agrees (λ j. j ≢ slot) a b
  pub serves :
      (later : Arrays)
      → Agrees (λ j. (j ≡ slot) ⊎ (length a.nodes ≤ j)) b later
      → Serves later slot c e

-- A row of calls, for the nodes reserved from `base` on.
pub record FilledAll (Serves : Arrays → ℕ → ℕ → ℕ → Type 0) (a : Arrays) (base : ℕ)
    (cs : List (ℕ × ℕ)) (b : Arrays) : Type 0 where
  pub grows : Grows a b
  pub kept : Agrees (λ j. (j < base) ⊎ (base + length cs ≤ j)) a b
  pub serves :
      (later : Arrays)
      → Agrees (λ j. base ≤ j) b later
      → (k c e : ℕ) → get_elem? cs k ≡ some (c, e)
      → Serves later (base + k) c e

module _ (fill_one : ℕ → ℕ → ℕ → Arrays → Option Arrays)
    (one_grows : (slot c e : ℕ) (a b : Arrays) → fill_one slot c e a ≡ some b → Grows a b) where
  pub fill_children-Grows :
      (base : ℕ) (cs : List (ℕ × ℕ)) (a b : Arrays)
      → fill_children fill_one base cs a ≡ some b
      → Grows a b
  unfolding fill_children
  fill_children-Grows base [] a b h = let same : a ≡ b = cc in subst (Grows a) same (omega arith)
  fill_children-Grows base ((c, e) ∷ cs) a b h =
      let (m, hm, hr) = >>=-eq-some (fill_one base c e a) _ h in
      let g = one_grows base c e a m hm in
      let r = fill_children-Grows (base + 1) cs m b hr in omega arith

module _ (Serves : Arrays → ℕ → ℕ → ℕ → Type 0) (fill_one : ℕ → ℕ → ℕ → Arrays → Option Arrays)
    (one_grows : (slot c e : ℕ) (a b : Arrays) → fill_one slot c e a ≡ some b → Grows a b)
    (one : (slot c e : ℕ) (a b : Arrays)
      → slot < length a.nodes
      → Fits b
      → fill_one slot c e a ≡ some b
      → Filled Serves a slot c e b) where
  Serves-cons :
      (base c e : ℕ) (cs : List (ℕ × ℕ)) (a m b : Arrays)
      → Filled Serves a base c e m
      → FilledAll Serves m (base + 1) cs b
      → base + suc (length cs) ≤ length a.nodes
      → Grows m b
      → (later : Arrays) → Agrees (λ j. base ≤ j) b later
      → (k d f : ℕ) → get_elem? ((c, e) ∷ cs) k ≡ some (d, f)
      → Serves later (base + k) d f
  Serves-cons base c e cs a m b first rest room grown later agrees zero d f h =
      let same_child : c ≡ d = cc in
      let same_value : e ≡ f = cc in
      let here : base ≡ base + 0 = omega arith in
      rw (← same_child, ← same_value, ← here)
        (first.serves later (
          Agrees-trans grown (Agrees-weaken (λ j h. omega arith) rest.kept)
            (Agrees-weaken (λ j h. omega arith) agrees)))
  Serves-cons base c e cs a m b first rest room grown later agrees (suc k) d f h =
      let there : base + 1 + k ≡ base + suc k = omega arith in
      rw (← there) (rest.serves later (Agrees-weaken (λ j h. omega arith) agrees) k d f h)

  pub fill_children-FilledAll :
      (base : ℕ) (cs : List (ℕ × ℕ)) (a b : Arrays)
      → base + length cs ≤ length a.nodes
      → Fits b
      → fill_children fill_one base cs a ≡ some b
      → FilledAll Serves a base cs b
  unfolding fill_children
  fill_children-FilledAll base [] a b room fits h =
      let same : a ≡ b = cc in
      subst (FilledAll Serves a base []) same (record {
        grows = omega arith;
        kept = record { nodes_same = λ j h k. refl; leaves_same = λ j h. refl };
        serves = λ later agrees k c e none_left. cc;
      })
  fill_children-FilledAll base ((c, e) ∷ cs) a b room fits h =
      let (m, hm, hr) = >>=-eq-some (fill_one base c e a) _ h in
      let grown = one_grows base c e a m hm in
      let rest_grown = fill_children-Grows fill_one one_grows (base + 1) cs m b hr in
      let first = one base c e a m (omega arith) (Fits-Grows m b rest_grown fits) hm in
      let rest =
        fill_children-FilledAll (base + 1) cs m b (omega (arith, grown.nodes_grow)) fits hr in
      record {
        grows = omega (arith, grown, rest_grown);
        kept =
            Agrees-trans grown (Agrees-weaken (λ j h. omega arith) first.kept)
              (Agrees-weaken (λ j h. omega arith) rest.kept);
        serves = Serves-cons base c e cs a m b first rest room rest_grown;
      }
