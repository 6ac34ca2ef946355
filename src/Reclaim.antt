-- ===== src/Reclaim.antt =====
-- crates/fast-socket-xdp-rs/src/buffer.rs: `FrameReclaim`, the free frames of a pool, and the queue through
-- which other threads give frames back to it. Each operation is one step; the counter `len` is
-- raised before the queue's push and lowered after its pops, within the step. The bounded queue of
-- the crate crossbeam is an interface, with the laws that its documentation states.
pub mod Frames
pub mod Drained
mod Tests
use fast_socket_rs.Prelude.{
  ℕ, zero, suc, ◌+◌, ◌-◌, ◌<◌, ◌≡◌, Bool, true, false, Option, none, some, List, [], ◌∷◌, ◌++◌,
  length, take, drop, ltb, ◌==◌, if◌then◌else◌, min, max,
}
use fast_socket_rs.Prelude.Results.{◌>>=◌}

-- `ArrayQueue<u64>`: first in, first out, and a push is refused exactly when the queue is full.
pub record ArrayQueue : Type 1 where
  pub Queue : Type 0
  pub contents : Queue → List ℕ
  pub capacity : Queue → ℕ
  pub create : ℕ → Queue
  pub push_back : ℕ → Queue → Option Queue
  pub pop_front : Queue → Option (ℕ × Queue)
  pub create-contents : (n : ℕ) → contents (create n) ≡ []
  pub push_back-none : (v : ℕ) (q : Queue) → push_back v q ≡ none → capacity q ≡ length (contents q)
  pub push_back-some :
      (v : ℕ) (q q' : Queue) → push_back v q ≡ some q' → contents q' ≡ contents q ++ (v ∷ [])
  pub pop_front-none : (q : Queue) → pop_front q ≡ none → contents q ≡ []
  pub pop_front-some :
      (q : Queue) (v : ℕ) (q' : Queue) → pop_front q ≡ some (v, q') → contents q ≡ v ∷ contents q'

module _ (array_queue : ArrayQueue) where
  abbrev Queue : Type 0
  Queue = array_queue.Queue

  pub record MpscQueue : Type 0 where
    pub inner : Queue
    pub len : ℕ

  -- The head of `free` is the end of the source's vector.
  pub record FrameReclaim : Type 0 where
    pub free : List ℕ
    pub remote : MpscQueue

  abbrev pub new_queue : ℕ → MpscQueue
  new_queue capacity = record { inner = array_queue.create (max capacity 1); len = 0 }

  abbrev pub with_remote_capacity : List ℕ → ℕ → FrameReclaim
  with_remote_capacity frames capacity = record { free = frames; remote = new_queue capacity }

  -- `none` is the panic of a full queue.
  unfoldable pub remote_push : ℕ → MpscQueue → Option MpscQueue
  remote_push v q = do
    inner ← array_queue.push_back v q.inner
    some (record { inner = inner; len = q.len + 1 })

  -- The loop of `drain_into`, on fuel: the queue, the list that it drains into, how many.
  unfoldable pub drain_loop : ℕ → Queue → List ℕ → ℕ → Option (Queue × List ℕ × ℕ)
  drain_loop zero q out drained = none
  drain_loop (suc fuel) q out drained = elim (array_queue.pop_front q) [
    | none ↦ some (q, out, drained)
    | some (v, q') ↦ drain_loop fuel q' (v ∷ out) (drained + 1)
  ]

  unfoldable pub drain_into_list : MpscQueue → List ℕ → Option (MpscQueue × List ℕ)
  unfolding drain_loop
  drain_into_list q out = do
    (inner, out', drained) ← drain_loop (length (array_queue.contents q.inner) + 1) q.inner out 0
    some (record { inner = inner; len = q.len - drained }, out')

  -- `none` is a loop that has not ended.
  unfoldable pub drain_remote : FrameReclaim → Option FrameReclaim
  unfolding drain_into_list
  drain_remote r =
      let drained = drain_into_list r.remote r.free in
      if r.remote.len == 0
      then some r
      else (do (remote, free) ← drained; some (record { free = free; remote = remote }))

  unfoldable pub drain_if : Bool → FrameReclaim → Option FrameReclaim
  unfolding drain_remote
  drain_if true r = drain_remote r
  drain_if false r = some r

  abbrev pub pop_free : FrameReclaim → Option ℕ × FrameReclaim
  pop_free r = elim r.free [ [] ↦ (none, r) | v ∷ free ↦ (some v, record r { free = free }) ]

  unfoldable pub pop : FrameReclaim → Option (Option ℕ × FrameReclaim)
  unfolding drain_if
  pop r = do r' ← drain_if (length r.free == 0) r; some (pop_free r')

  -- The frames that are handed to the callback, in its order.
  unfoldable pub pop_many_with : ℕ → FrameReclaim → Option (List ℕ × FrameReclaim)
  unfolding drain_if
  pop_many_with limit r =
      let drained = drain_if (ltb (length r.free) limit) r in
      if limit == 0 then some ([], r) else (do
        r' ← drained
        let count = min limit (length r'.free)
        some (take count r'.free, record r' { free = drop count r'.free }))

  -- By the owner's thread or by another.
  unfoldable pub push : Bool → ℕ → FrameReclaim → Option FrameReclaim
  unfolding remote_push
  push true addr r = some (record r { free = addr ∷ r.free })
  push false addr r = do remote ← remote_push addr r.remote; some (record r { remote = remote })

  unfoldable pub is_empty : FrameReclaim → Option (Bool × FrameReclaim)
  unfolding drain_if
  is_empty r = do r' ← drain_if (length r.free == 0) r; some (length r'.free == 0, r')

  -- The free frames, which are appended to `out`, with its end first.
  unfoldable pub drain_into : FrameReclaim → List ℕ → Option (List ℕ × FrameReclaim)
  unfolding drain_remote
  drain_into r out = do r' ← drain_remote r; some (r'.free ++ out, record r' { free = [] })
