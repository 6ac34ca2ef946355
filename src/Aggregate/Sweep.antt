-- ===== src/Aggregate/Sweep.antt =====
-- `recv` of aggregate.rs and its loop over the members.
use native.Mathlib.Nat.{mod-lt}
use fast_socket_rs.Prelude.{
  ℕ, zero, suc, ◌+◌, ◌%◌, ◌≤◌, ◌<◌, ◌≡◌, ◌≢◌, refl, sym, subst, ◌∙◌, ap, ◌⊎◌, inl, inr, some, List,
  [], ◌∷◌, length, get_elem?, set, length-set, arith, Bool-cases, ◌==◌, ==_iff,
}
use fast_socket_rs.Batch.{RecvBatch, remaining}
use fast_socket_rs.Prelude.Results.{Result, ok, err}
use fast_socket_rs.Aggregate.{MemberOps, Aggregate, sweep, recv}
use fast_socket_rs.Aggregate.Turns.{Turns, none_left, Untouched, turn-Turns, turn-Untouched}

module _ {M T E : Type 0} where
  -- A member appends as many items as it says, and no more than fit.
  abbrev pub Honest : MemberOps M T E → Type 0
  Honest ops =
      (m : M) (out : RecvBatch T)
      → let r = ops.recv_member m out in
        (r.2.capacity ≡ out.capacity)
        × (length out.items ≤ length r.2.items)
        × (length r.2.items ≤ length out.items + remaining out)
        × ((n : ℕ) → r.0 ≡ ok n → length r.2.items ≡ length out.items + n)

  module _ (ops : MemberOps M T E) (honest : Honest ops) where
    -- A sweep: which members had a turn, and if none of them failed, its total is what it appended,
    -- and it stopped at the last member or with a full batch.
    pub record Swept (rounds cursor total : ℕ) (out : RecvBatch T)
        (r : Result (ℕ × ℕ) E × List M × RecvBatch T) (members : List M) : Type 0 where
      pub same_members : length r.1 ≡ length members
      pub same_capacity : r.2.capacity ≡ out.capacity
      pub fits : length r.2.items ≤ length out.items + remaining out
      pub polled : ℕ
      pub few : polled ≤ rounds
      pub turns : Turns ops (length members) members r.1 cursor polled out r.2
      pub untouched : Untouched (length members) members r.1 cursor polled
      pub counted :
          (got after : ℕ)
          → r.0 ≡ ok (got, after)
          → (length r.2.items + total ≡ length out.items + got)
            × (after ≡ cursor + polled)
            × ((polled ≡ rounds) ⊎ (remaining r.2 ≡ 0))

    present :
        (members : List M) (i : ℕ) → i < length members → (m : M) × (get_elem? members i ≡ some m)
    present [] i h = absurd (omega arith)
    present (m ∷ ms) zero h = (m, refl)
    present (m ∷ ms) (suc i) h = present ms i (omega arith)

    stopped :
        (rounds cursor total : ℕ) (members : List M) (out : RecvBatch T)
        → (rounds ≡ 0) ⊎ (remaining out ≡ 0)
        → Swept rounds cursor total out (ok (total, cursor), members, out) members
    unfolding Untouched
    stopped rounds cursor total members out why = record {
      same_members = refl;
      same_capacity = refl;
      fits = omega arith;
      polled = 0;
      few = omega arith;
      turns = none_left;
      untouched = λ i no_turn. refl;
      counted = λ got after h.
          let same_total : total ≡ got = ap (λ p. p.0) (ok_eq _ _ h) in
          let same_cursor : cursor ≡ after = ap (λ p. p.1) (ok_eq _ _ h) in
          (
            omega arith,
            omega arith,
            elim why [ inl no_round ↦ inl (sym no_round) | inr full ↦ inr full ],
          );
    }
      where
        ok_eq : (p q : ℕ × ℕ) → ◌≡◌ {A = Result (ℕ × ℕ) E} (ok p) (ok q) → p ≡ q
        ok_eq p q h = cc

    -- A member with its turn.
    module _ (rounds cursor total : ℕ) (members : List M) (out : RecvBatch T) (m : M)
        (few : rounds < length members) (room : remaining out ≢ 0)
        (here : get_elem? members (cursor % length members) ≡ some m) where
      abbrev received : Result ℕ E × M × RecvBatch T
      received = ops.recv_member m out

      abbrev next : List M
      next = set members (cursor % length members) received.1

      same_length : length next ≡ length members
      same_length = length-set members (cursor % length members) received.1

      in_list : cursor % length members < length members
      in_list = mod-lt cursor (omega arith)

      failed : (e : E) → Swept (suc rounds) cursor total out (err e, next, received.2) members
      unfolding Untouched
      failed e =
          let (cap, lower, upper, count) = honest m out in
          let no_turn : Untouched (length members) next next (cursor + 1) 0 =
            unfold Untouched in λ i k. refl in
          record {
            same_members = same_length;
            same_capacity = cap;
            fits = upper;
            polled = 1;
            few = omega arith;
            turns =
                turn-Turns ops (length members) members next cursor 0 out received.2 m (omega arith)
                  in_list room here no_turn none_left;
            untouched =
                turn-Untouched ops (length members) members next cursor 0 out received.2 m
                  (omega arith) in_list room here no_turn none_left;
            counted = λ got after h. cc;
          }

      went_on :
          (n : ℕ) (r : Result (ℕ × ℕ) E × List M × RecvBatch T)
          → received.0 ≡ ok n
          → Swept rounds (cursor + 1) (total + n) received.2 r next
          → Swept (suc rounds) cursor total out r members
      went_on n r e s =
          let (cap, lower, upper, count) = honest m out in
          let grew = count n e in
          let turns =
            subst (λ k. Turns ops k next r.1 (cursor + 1) s.polled received.2 r.2) same_length
              s.turns in
          let untouched =
            subst (λ k. Untouched k next r.1 (cursor + 1) s.polled) same_length s.untouched in
          record {
            same_members = s.same_members ∙ same_length;
            same_capacity = s.same_capacity ∙ cap;
            fits = omega (arith, s.fits, upper, cap);
            polled = suc s.polled;
            few = omega (arith, s.few);
            turns =
                turn-Turns ops (length members) members r.1 cursor s.polled out r.2 m
                  (omega (arith, s.few)) in_list room here untouched turns;
            untouched =
                turn-Untouched ops (length members) members r.1 cursor s.polled out r.2 m
                  (omega (arith, s.few)) in_list room here untouched turns;
            counted = λ got after h.
                let (total_is, at_end, why) = s.counted got after h in
                (
                  omega arith,
                  omega arith,
                  elim why [ inl all ↦ inl (omega arith) | inr full ↦ inr full ],
                );
          }

    Result-cases : (x : Result ℕ E) → ((n : ℕ) × (x ≡ ok n)) ⊎ ((e : E) × (x ≡ err e))
    Result-cases (ok n) = inl (n, refl)
    Result-cases (err e) = inr (e, refl)

    sweep-Swept :
        (rounds cursor total : ℕ) (members : List M) (out : RecvBatch T)
        → 0 < length members
        → rounds ≤ length members
        → (r : Result (ℕ × ℕ) E × List M × RecvBatch T) × (sweep ops rounds cursor total members out
            ≡ some r)
          × Swept rounds cursor total out r members
    unfolding sweep
    sweep-Swept zero cursor total members out some_member few = (
      (ok (total, cursor), members, out),
      refl,
      stopped 0 cursor total members out (inl (omega arith)),
    )
    sweep-Swept (suc rounds) cursor total members out some_member few =
        elim (Bool-cases (remaining out == 0)) [
          | inl full ↦ (
            (ok (total, cursor), members, out),
            rw (full, sweep) refl,
            stopped (suc rounds) cursor total members out (inr ((==_iff (remaining out) 0).0 full)),
          )
          | inr room ↦
              let i = cursor % length members in
              let (m, at) = present members i (mod-lt cursor some_member) in
              let r = ops.recv_member m out in
              let kept = length-set members i r.1 in
              let left : remaining out ≢ 0 = λ z. let full = (==_iff (remaining out) 0).1 z in cc in
              elim (Result-cases r.0) [
                | inl (n, e) ↦
                    let (u, h, s) =
                      sweep-Swept rounds (cursor + 1) (total + n) (set members i r.1) r.2
                        (omega (arith, kept)) (omega (arith, kept)) in
                    (
                      u,
                      rw (room, at, e, sweep) h,
                      went_on rounds cursor total members out m (omega arith) left at n u e s,
                    )
                | inr (e, h) ↦ (
                  (err e, set members i r.1, r.2),
                  rw (room, at, h, sweep) refl,
                  failed rounds cursor total members out m (omega arith) left at e,
                )
              ]
        ]

    -- `recv` on an aggregate with a member, whose cursor is in range.
    pub record Received (a : Aggregate M) (out : RecvBatch T)
        (r : Result ℕ E × Aggregate M × RecvBatch T) : Type 0 where
      pub same_members : length r.1.members ≡ length a.members
      pub same_capacity : r.2.capacity ≡ out.capacity
      pub same_tx_rr : r.1.tx_rr ≡ a.tx_rr
      pub same_umem : r.1.shared_umem ≡ a.shared_umem
      pub cursor_in_range : r.1.rx_rr < length a.members
      pub fits : length r.2.items ≤ length out.items + remaining out
      pub polled : ℕ
      pub once : polled ≤ length a.members
      pub turns : Turns ops (length a.members) a.members r.1.members a.rx_rr polled out r.2
      pub untouched : Untouched (length a.members) a.members r.1.members a.rx_rr polled
      pub counted : (n : ℕ) → r.0 ≡ ok n → length r.2.items ≡ length out.items + n
      pub went_on : (n : ℕ) → r.0 ≡ ok n → r.1.rx_rr ≡ (a.rx_rr + polled) % length a.members
      pub ended : (n : ℕ) → r.0 ≡ ok n → (polled ≡ length a.members) ⊎ (remaining r.2 ≡ 0)
      pub stays : (e : E) → r.0 ≡ err e → r.1.rx_rr ≡ a.rx_rr

    finished :
        (a : Aggregate M) (out : RecvBatch T) (u : Result (ℕ × ℕ) E × List M × RecvBatch T)
        → a.rx_rr < length a.members
        → sweep ops (length a.members) a.rx_rr 0 a.members out ≡ some u
        → Swept (length a.members) a.rx_rr 0 out u a.members
        → (r : Result ℕ E × Aggregate M × RecvBatch T) × (recv ops a out ≡ some r)
          × Received a out r
    unfolding recv
    finished a out (ok (got, after), members, out') in_range h s =
        let (total_is, at_end, why) = s.counted got after refl in
        (
          (ok got, record a { members = members; rx_rr = after % length a.members }, out'),
          rw h refl,
          record {
            same_members = s.same_members;
            same_capacity = s.same_capacity;
            same_tx_rr = refl;
            same_umem = refl;
            cursor_in_range = mod-lt after (omega arith);
            fits = s.fits;
            polled = s.polled;
            once = s.few;
            turns = s.turns;
            untouched = s.untouched;
            counted = λ n k. let same : got ≡ n = cc in omega arith;
            went_on = λ n k. ap (λ c. c % length a.members) at_end;
            ended = λ n k. why;
            stays = λ e k. cc;
          },
        )
    finished a out (err e, members, out') in_range h s = (
      (err e, record a { members = members }, out'),
      rw h refl,
      record {
        same_members = s.same_members;
        same_capacity = s.same_capacity;
        same_tx_rr = refl;
        same_umem = refl;
        cursor_in_range = in_range;
        fits = s.fits;
        polled = s.polled;
        once = s.few;
        turns = s.turns;
        untouched = s.untouched;
        counted = λ n j. cc;
        went_on = λ n j. cc;
        ended = λ n j. cc;
        stays = λ f j. refl;
      },
    )

    -- If every member keeps the batch's capacity, appends as many items as it reports and no more
    -- than fit, `recv` on an aggregate whose cursor is in range ends with a result: members have a
    -- turn one after the other from the cursor on, each at most once and while the batch has room,
    -- the batch going from one to the next, and the other members are as they were; the batch
    -- keeps its capacity and a successful total is the number of items appended; the sweep
    -- succeeds only after all members or with a full batch, and then the cursor is behind the last
    -- member that had a turn; after an error it stays.
    pub recv-Received :
        (a : Aggregate M) (out : RecvBatch T)
        → a.rx_rr < length a.members
        → (r : Result ℕ E × Aggregate M × RecvBatch T) × (recv ops a out ≡ some r)
          × Received a out r
    recv-Received a out in_range =
        let (u, h, s) =
          sweep-Swept (length a.members) a.rx_rr 0 a.members out (omega arith) (omega arith) in
        finished a out u in_range h s
