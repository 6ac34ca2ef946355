-- ===== src/Reclaim/Tests.antt =====
-- A bounded queue as a list, and a pool with two free frames and two on their way back.
use fast_socket_rs.Prelude.{
  ℕ, zero, suc, ◌+◌, ◌≡◌, refl, sym, ap, Option, none, some, List, [], ◌∷◌, ◌++◌, length, arith,
  none≢some,
}
use fast_socket_rs.Prelude.Results.{eq_of_some}
use fast_socket_rs.Reclaim.{ArrayQueue, FrameReclaim, pop_many_with}
use fast_socket_rs.Reclaim.Drained.{count, held, IsCounted}
use fast_socket_rs.Reclaim.Frames.{pop_many_with-frames}

-- The frames in the queue, and the room that is left.
abbrev Room : Type 0
Room = List ℕ × ℕ

room_push : ℕ → Room → Option Room
room_push v (frames, zero) = none
room_push v (frames, suc room) = some (frames ++ (v ∷ []), room)

room_pop : Room → Option (ℕ × Room)
room_pop ([], room) = none
room_pop (v ∷ frames, room) = some (v, (frames, suc room))

push_none : (v : ℕ) (q : Room) → room_push v q ≡ none → length q.0 + q.1 ≡ length q.0
unfolding room_push
push_none v (frames, zero) h = omega arith
push_none v (frames, suc room) h = absurd (none≢some (sym h))

push_some : (v : ℕ) (q q' : Room) → room_push v q ≡ some q' → q'.0 ≡ q.0 ++ (v ∷ [])
unfolding room_push
push_some v (frames, zero) q' h = absurd (none≢some h)
push_some v (frames, suc room) q' h = sym (ap (λ k. k.0) (eq_of_some h))

pop_none : (q : Room) → room_pop q ≡ none → q.0 ≡ []
unfolding room_pop
pop_none ([], room) h = refl
pop_none (v ∷ frames, room) h = absurd (none≢some (sym h))

pop_some : (q : Room) (v : ℕ) (q' : Room) → room_pop q ≡ some (v, q') → q.0 ≡ v ∷ q'.0
unfolding room_pop
pop_some ([], room) v q' h = absurd (none≢some h)
pop_some (w ∷ frames, room) v q' h = ap (λ k. k.0 ∷ k.1.0) (eq_of_some h)

abbrev bounded : ArrayQueue
bounded = record {
  Queue = Room;
  contents = λ q. q.0;
  capacity = λ q. length q.0 + q.1;
  create = λ n. ([], n);
  push_back = room_push;
  pop_front = room_pop;
  create-contents = λ n. refl;
  push_back-none = push_none;
  push_back-some = push_some;
  pop_front-none = pop_none;
  pop_front-some = pop_some;
}

abbrev pool : FrameReclaim bounded
pool = record { free = 4096 ∷ 0 ∷ []; remote = record { inner = (2048 ∷ 6144 ∷ [], 1); len = 2 } }

pop_many_with-frames_example :
    (taken : List ℕ) × (r' : FrameReclaim bounded) × (pop_many_with bounded 3 pool
      ≡ some (taken, r'))
    × IsCounted bounded r'
    × (length taken ≡ 3)
    × ((a : ℕ) → count a taken + count a (held bounded r') ≡ count a (held bounded pool))
pop_many_with-frames_example = pop_many_with-frames bounded 3 pool refl
