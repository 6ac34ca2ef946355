-- ===== src/Reclaim/Frames.antt =====
-- crates/fast-socket-xdp-rs/src/buffer.rs: the frames that a pool holds, free or on their way back to it.
use fast_socket_rs.Prelude.{
  ℕ, ◌+◌, ◌≤◌, ◌≡◌, refl, sym, ap, ◌∙◌, Bool, true, false, Option, none, some, List, [], ◌∷◌, ◌++◌,
  length, length-append, length-take, take, drop, ltb, ◌==◌, if◌then◌else◌, min, arith, Bool-cases,
  Option-cases, inl, inr, none≢some, ◌⊎◌, take-append-drop,
}
use fast_socket_rs.Reclaim.{
  ArrayQueue, MpscQueue, FrameReclaim, pop_free, pop, pop_many_with, push, remote_push, drain_into,
}
use fast_socket_rs.Reclaim.Drained.{
  count, count_nil, count-append, held, IsCounted, drain_remote-Keeps, drain_if-Keeps,
}

module _ (array_queue : ArrayQueue) where
  -- Taking frames from a pool whose counter is right always returns the pool, its counter still
  -- right, and the frames that were taken, as many as asked for or else all there were, free or in
  -- the queue; each frame is then as often among those taken and those left together as it was in
  -- the pool.
  pub pop_many_with-frames :
      (limit : ℕ) (r : FrameReclaim array_queue)
      → IsCounted array_queue r
      → (taken : List ℕ) × (r' : FrameReclaim array_queue) × (pop_many_with array_queue limit r
          ≡ some (taken, r'))
        × IsCounted array_queue r'
        × (length taken ≡ min limit (length (held array_queue r)))
        × ((a : ℕ) → count a taken + count a (held array_queue r') ≡ count a (held array_queue r))
  unfolding pop_many_with
  pop_many_with-frames limit r c = elim (Bool-cases (limit == 0)) [
    | inl nothing ↦ ([], r, rw nothing refl, c, ground arith, λ a. unfold count in omega arith)
    | inr something ↦
        let (r', h, k, state) = drain_if-Keeps array_queue (ltb (length r.free) limit) r c in
        let n = min limit (length r'.free) in
        let left : FrameReclaim array_queue = record r' { free = drop n r'.free } in
        let remote = array_queue.contents r'.remote.inner in
        let all = length-append r'.free remote in
        let enough : min limit (length r'.free) ≡ min limit (length (held array_queue r)) =
          elim state [
            | inl (many, same) ↦
                let free_same = ap (λ t. length t.free) same in
                let at_least : limit ≤ length r.free = ground arith in
                omega (arith, all, k.same_length, free_same, at_least)
            | inr empty ↦ omega (arith, all, k.same_length, ap length empty)
          ] in
        (
          take n r'.free,
          left,
          rw (something, h) refl,
          k.right,
          omega (arith, length-take n r'.free, enough),
          λ a. omega (
            arith,
            k.same_count a,
            count-append a r'.free remote,
            count-append a (drop n r'.free) remote,
            count-append a (take n r'.free) (drop n r'.free),
            ap (count a) (take-append-drop n r'.free),
          ),
        )
  ]

  -- A frame that is pushed by the owner, or by another thread where the queue has room, is held once
  -- more and every other frame as before; the push panics only if it comes from another thread
  -- and the queue is full.
  pub push-frames :
      (owns : Bool) (addr : ℕ) (r : FrameReclaim array_queue)
      → IsCounted array_queue r
      → ((r' : FrameReclaim array_queue) × (push array_queue owns addr r ≡ some r')
          × IsCounted array_queue r'
          × ((a : ℕ)
              → count a (held array_queue r')
                ≡ (if a == addr then 1 else 0) + count a (held array_queue r)))
        ⊎ ((push array_queue owns addr r ≡ none)
            × (owns ≡ false)
            × (array_queue.capacity r.remote.inner ≡ length (array_queue.contents r.remote.inner)))
  unfolding push remote_push count
  push-frames true addr r c = inl (record r { free = addr ∷ r.free }, refl, c, λ a. refl)
  push-frames false addr r c = elim (Option-cases (array_queue.push_back addr r.remote.inner)) [
    | inl full ↦ inr (rw full refl, refl, array_queue.push_back-none addr r.remote.inner full)
    | inr (q, room) ↦
        let more = array_queue.push_back-some addr r.remote.inner q room in
        let before = array_queue.contents r.remote.inner in
        inl (
          record r { remote = record { inner = q; len = r.remote.len + 1 } },
          rw room refl,
          omega (arith, c, ap length more, length-append before (addr ∷ [])),
          λ a. omega (
            arith,
            count-append a r.free (array_queue.contents q),
            count-append a r.free before,
            ap (count a) more,
            count-append a before (addr ∷ []),
          ),
        )
  ]

  -- What one frame that may have been taken counts for.
  abbrev pub count_taken : ℕ → Option ℕ → ℕ
  count_taken a none = 0
  count_taken a (some b) = if a == b then 1 else 0

  pop_free-frames :
      (r : FrameReclaim array_queue)
      → ((a : ℕ)
          → count_taken a (pop_free array_queue r).0
              + count a (held array_queue (pop_free array_queue r).1)
            ≡ count a (held array_queue r))
        × (((pop_free array_queue r).0 ≡ none) → length r.free ≡ 0)
  pop_free-frames r = by_free r.free r.remote
    where
      by_free :
          (free : List ℕ) (remote : MpscQueue array_queue)
          → let r : FrameReclaim array_queue = record { free = free; remote = remote } in
            ((a : ℕ)
              → count_taken a (pop_free array_queue r).0
                  + count a (held array_queue (pop_free array_queue r).1)
                ≡ count a (held array_queue r))
            × (((pop_free array_queue r).0 ≡ none) → length free ≡ 0)
      by_free [] remote = (λ a. omega arith, λ h. refl)
      by_free (v ∷ free) remote = (λ a. unfold count in refl, λ h. absurd (none≢some (sym h)))

  -- Taking one frame from a pool whose counter is right always returns, with none only if the pool
  -- holds no frame at all, free or in the queue; otherwise the pool holds the taken frame once less.
  pub pop-frames :
      (r : FrameReclaim array_queue)
      → IsCounted array_queue r
      → (taken : Option ℕ) × (r' : FrameReclaim array_queue) × (pop array_queue r
          ≡ some (taken, r'))
        × (taken ≡ none → length (held array_queue r) ≡ 0)
        × ((a : ℕ)
            → count_taken a taken + count a (held array_queue r') ≡ count a (held array_queue r))
  unfolding pop
  pop-frames r c =
      let (r', h, k, state) = drain_if-Keeps array_queue (length r.free == 0) r c in
      let (counts, at_none) = pop_free-frames r' in
      let all = length-append r'.free (array_queue.contents r'.remote.inner) in
      (
        (pop_free array_queue r').0,
        (pop_free array_queue r').1,
        rw h refl,
        λ none_taken. elim state [
          | inl (some_free, same) ↦
              let no_free = at_none none_taken in
              let free_same = ap (λ t. length t.free) same in absurd (ground arith)
          | inr empty ↦ omega (arith, at_none none_taken, all, k.same_length, ap length empty)
        ],
        λ a. counts a ∙ k.same_count a,
      )

  -- Giving the pool up hands over every frame that it held, before those that were there already, and
  -- leaves it empty.
  pub drain_into-frames :
      (r : FrameReclaim array_queue) (out : List ℕ)
      → IsCounted array_queue r
      → (out' : List ℕ) × (r' : FrameReclaim array_queue) × (drain_into array_queue r out
          ≡ some (out', r'))
        × (length (held array_queue r') ≡ 0)
        × ((a : ℕ) → count a out' ≡ count a (held array_queue r) + count a out)
  unfolding drain_into
  drain_into-frames r out c =
      let (r', h, k, empty) = drain_remote-Keeps array_queue r c in
      let remote = array_queue.contents r'.remote.inner in
      (
        r'.free ++ out,
        record r' { free = [] },
        rw h refl,
        ap length empty,
        λ a. omega (
          arith,
          k.same_count a,
          count-append a r'.free remote,
          count-append a r'.free out,
          ap (count a) empty,
          count_nil a,
        ),
      )
