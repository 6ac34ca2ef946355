-- ===== src/Reclaim/Drained.antt =====
-- crates/fast-socket-xdp-rs/src/buffer.rs: draining the frames that other threads gave back.
use fast_socket_rs.Prelude.{
  ℕ, zero, suc, ◌+◌, ◌-◌, ◌<◌, ◌≡◌, refl, ap, ◌∙◌, Bool, true, false, Option, some, List, [], ◌∷◌,
  ◌++◌, length, length-append, ◌==◌, if◌then◌else◌, arith, Bool-cases, Option-cases, inl, inr, ◌⊎◌,
}
use fast_socket_rs.Reclaim.{
  ArrayQueue, FrameReclaim, drain_loop, drain_into_list, drain_remote, drain_if,
}

-- How often a frame is in a list.
unfoldable pub count : ℕ → List ℕ → ℕ
count a [] = 0
count a (b ∷ frames) = (if a == b then 1 else 0) + count a frames

pub count_nil : (a : ℕ) → count a [] ≡ 0
unfolding count
count_nil a = refl

pub count-append : (a : ℕ) (xs ys : List ℕ) → count a (xs ++ ys) ≡ count a xs + count a ys
unfolding count
count-append a [] ys = omega arith
count-append a (x ∷ xs) ys = omega (arith, count-append a xs ys)

nil_of : (xs : List ℕ) → length xs ≡ 0 → xs ≡ []
nil_of [] h = refl
nil_of (x ∷ xs) h = absurd (omega arith)

module _ (array_queue : ArrayQueue) where
  abbrev pub held : FrameReclaim array_queue → List ℕ
  held r = r.free ++ array_queue.contents r.remote.inner

  -- The counter that the owner looks at is the number of frames in the queue.
  abbrev pub IsCounted : FrameReclaim array_queue → Type 0
  IsCounted r = r.remote.len ≡ length (array_queue.contents r.remote.inner)

  -- The loop empties the queue.
  record Drained (q : array_queue.Queue) (out : List ℕ) (drained : ℕ)
      (r : Option (array_queue.Queue × List ℕ × ℕ)) : Type 0 where
    q' : array_queue.Queue
    out' : List ℕ
    result : r ≡ some (q', out', drained + length (array_queue.contents q))
    emptied : array_queue.contents q' ≡ []
    longer : length out' ≡ length out + length (array_queue.contents q)
    counted : (a : ℕ) → count a out' ≡ count a out + count a (array_queue.contents q)

  drain_loop-Drained :
      (fuel : ℕ) (q : array_queue.Queue) (out : List ℕ) (drained : ℕ)
      → length (array_queue.contents q) < fuel
      → Drained q out drained (drain_loop array_queue fuel q out drained)
  unfolding drain_loop count
  drain_loop-Drained zero q out drained h = absurd (omega arith)
  drain_loop-Drained (suc fuel) q out drained h = elim (Option-cases (array_queue.pop_front q)) [
    | inl last ↦
        let empty = array_queue.pop_front-none q last in
        let none_left : drained ≡ drained + length (array_queue.contents q) =
          rw empty (omega arith) in
        rw (last, drain_loop)
          (record {
            q' = q;
            out' = out;
            result = ap (λ n. some (q, out, n)) none_left;
            emptied = empty;
            longer = rw empty (omega arith);
            counted = λ a. rw empty (omega arith);
          })
    | inr ((v, rest), more) ↦
        let split = array_queue.pop_front-some q v rest more in
        let size : length (array_queue.contents q) ≡ suc (length (array_queue.contents rest)) =
          ap length split in
        let d = drain_loop-Drained fuel rest (v ∷ out) (drained + 1) (omega (arith, size)) in
        let total : drained + 1 + length (array_queue.contents rest)
            ≡ drained + length (array_queue.contents q) =
          omega (arith, size) in
        rw (more, drain_loop)
          (record {
            q' = d.q';
            out' = d.out';
            result = d.result ∙ ap (λ n. some (d.q', d.out', n)) total;
            emptied = d.emptied;
            longer = omega (arith, d.longer, size);
            counted = λ a. omega (arith, d.counted a, ap (count a) split);
          })
  ]

  -- A pool with the same frames, its counter right.
  pub record Keeps (r r' : FrameReclaim array_queue) : Type 0 where
    pub right : IsCounted r'
    pub same_count : (a : ℕ) → count a (held r') ≡ count a (held r)
    pub same_length : length (held r') ≡ length (held r)

  Keeps-refl : (r : FrameReclaim array_queue) → IsCounted r → Keeps r r
  Keeps-refl r c = record { right = c; same_count = λ a. refl; same_length = refl }

  -- Draining the queue always ends, with every frame it held free.
  pub drain_remote-Keeps :
      (r : FrameReclaim array_queue)
      → IsCounted r
      → (r' : FrameReclaim array_queue) × (drain_remote array_queue r ≡ some r')
        × Keeps r r'
        × (array_queue.contents r'.remote.inner ≡ [])
  unfolding drain_remote drain_into_list count
  drain_remote-Keeps r c = elim (Bool-cases (r.remote.len == 0)) [
    | inl none_there ↦
        let no_frames : length (array_queue.contents r.remote.inner) ≡ 0 = ground arith in
        (r, rw none_there refl, Keeps-refl r c, nil_of _ no_frames)
    | inr some_there ↦
        let n = length (array_queue.contents r.remote.inner) in
        let d = drain_loop-Drained (n + 1) r.remote.inner r.free 0 (omega arith) in
        let len : r.remote.len - (0 + n) ≡ 0 = omega (arith, c) in
        (
          record { free = d.out'; remote = record { inner = d.q'; len = 0 } },
          rw (some_there, d.result, len) refl,
          record {
            right = rw d.emptied refl;
            same_count = λ a. omega (
              arith,
              d.counted a,
              count-append a d.out' (array_queue.contents d.q'),
              count-append a r.free (array_queue.contents r.remote.inner),
              ap (count a) d.emptied,
            );
            same_length = omega (
              arith,
              d.longer,
              length-append d.out' (array_queue.contents d.q'),
              length-append r.free (array_queue.contents r.remote.inner),
              ap length d.emptied,
            );
          },
          d.emptied,
        )
  ]

  pub drain_if-Keeps :
      (b : Bool) (r : FrameReclaim array_queue)
      → IsCounted r
      → (r' : FrameReclaim array_queue) × (drain_if array_queue b r ≡ some r')
        × Keeps r r'
        × (((b ≡ false) × (r' ≡ r)) ⊎ (array_queue.contents r'.remote.inner ≡ []))
  unfolding drain_if
  drain_if-Keeps true r c = let (r', h, k, empty) = drain_remote-Keeps r c in (r', h, k, inr empty)
  drain_if-Keeps false r c = (r, refl, Keeps-refl r c, inl (refl, refl))
