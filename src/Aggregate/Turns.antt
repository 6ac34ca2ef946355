-- ===== src/Aggregate/Turns.antt =====
-- The order in which `recv` of crates/fast-socket-xdp-rs/src/aggregate.rs polls the members.
use native.Mathlib.Nat.{mod-lt, mod-eq_of_lt, add-mod_right, mod-add-mod}
use fast_socket_rs.Prelude.{
  ℕ, suc, ◌+◌, ◌-◌, ◌%◌, ◌≤◌, ◌<◌, ◌≡◌, ◌≢◌, sym, ◌∙◌, ap, inl, inr, some, List, length, get_elem?,
  set, get_elem?-set_self, get_elem?-set_ne, arith, Bool-cases, ltb,
}
use fast_socket_rs.Batch.{RecvBatch, remaining}
use fast_socket_rs.Aggregate.{MemberOps}

-- Of `n` members in a circle, `polled` received in turn from `cursor` on: each from what it was
-- before into what it is afterwards, while the batch that it was given had room, and the batch that
-- it left went to the next one.
pub data Turns {M T E : Type 0} (ops : MemberOps M T E) (n : ℕ) (before after : List M)
    : ℕ → ℕ → RecvBatch T → RecvBatch T → Type 0 where
  none_left : {cursor : ℕ} {out : RecvBatch T} → Turns ops n before after cursor 0 out out
  turn :
      {cursor polled : ℕ} {out out' : RecvBatch T} (m : M)
      → remaining out ≢ 0
      → get_elem? before (cursor % n) ≡ some m
      → get_elem? after (cursor % n) ≡ some (ops.recv_member m out).1
      → Turns ops n before after (cursor + 1) polled (ops.recv_member m out).2 out'
      → Turns ops n before after cursor (suc polled) out out'

-- The members that had no turn are as they were.
unfoldable pub Untouched : {M : Type 0} → ℕ → List M → List M → ℕ → ℕ → Type 0
Untouched n before after cursor polled =
    (i : ℕ)
    → ((k : ℕ) → cursor ≤ k → k < cursor + polled → i ≢ k % n)
    → get_elem? after i ≡ get_elem? before i

-- Fewer than `n` turns apart, two turns are of two members.
other_member : (n c k : ℕ) → c < k → k < c + n → c % n ≢ k % n
other_member n c k lo hi same =
    let j = k - c in
    let small : c % n < n = mod-lt c (omega arith) in
    let at_k : (c % n + j) % n ≡ k % n =
      mod-add-mod c n j ∙ ap (λ x. x % n) (let e : c + j ≡ k = omega arith in e) in
    elim (Bool-cases (ltb (c % n + j) n)) [
      | inl below ↦
          let below' : c % n + j < n = ground arith in
          omega (arith, at_k, mod-eq_of_lt below', same)
      | inr above ↦
          let above' : n ≤ c % n + j = ground arith in
          let rest = c % n + j - n in
          let wrapped : (c % n + j) % n ≡ rest % n =
            ap (λ x. x % n) (let e : c % n + j ≡ rest + n = omega arith in e)
            ∙ add-mod_right rest n in
          let is_rest : rest % n ≡ rest = mod-eq_of_lt (omega arith) in
          omega (arith, at_k, wrapped, is_rest, same)
    ]

module _ {M T E : Type 0} (ops : MemberOps M T E) (n : ℕ) where
  -- Turns depend on no member but those that have them.
  Turns-before :
      (before members after : List M) {cursor polled : ℕ} {out out' : RecvBatch T}
      → ((k : ℕ)
          → cursor ≤ k
          → k < cursor + polled
          → get_elem? before (k % n) ≡ get_elem? members (k % n))
      → Turns ops n before after cursor polled out out'
      → Turns ops n members after cursor polled out out'
  Turns-before before members after agree none_left = none_left
  Turns-before before members after {cursor = cursor} agree (turn m room at_before at_after rest) =
      turn m room (sym (agree cursor (omega arith) (omega arith)) ∙ at_before) at_after
        (Turns-before before members after (λ k lo hi. agree k (omega arith) (omega arith)) rest)

  -- One turn, and those that follow it.
  module _ (members after : List M) (cursor polled : ℕ) (out out' : RecvBatch T) (m : M)
      (few : polled < n) (inside : cursor % n < length members) (room : remaining out ≢ 0)
      (here : get_elem? members (cursor % n) ≡ some m)
      (untouched : Untouched n
        (set members (cursor % n) (ops.recv_member m out).1)
        after
        (cursor + 1)
        polled)
      (rest : Turns ops n
        (set members (cursor % n) (ops.recv_member m out).1)
        after
        (cursor + 1)
        polled
        (ops.recv_member m out).2
        out') where
    abbrev next : List M
    next = set members (cursor % n) (ops.recv_member m out).1

    pub turn-Turns : Turns ops n members after cursor (suc polled) out out'
    unfolding Untouched
    turn-Turns =
        turn m room here
          (untouched (cursor % n) (λ k lo hi. other_member n cursor k (omega arith) (omega arith))
            ∙ get_elem?-set_self members (cursor % n) _ inside)
          (Turns-before next members after
            (λ k lo hi.
              get_elem?-set_ne members _ (other_member n cursor k (omega arith) (omega arith)))
            rest)

    pub turn-Untouched : Untouched n members after cursor (suc polled)
    unfolding Untouched
    turn-Untouched i no_turn =
        untouched i (λ k lo hi. no_turn k (omega arith) (omega arith))
        ∙ get_elem?-set_ne members _ (λ e. no_turn cursor (omega arith) (omega arith) (sym e))
