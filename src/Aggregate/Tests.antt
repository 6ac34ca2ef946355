-- ===== src/Aggregate/Tests.antt =====
-- Two members that hold some packets each, and a batch with room for three.
use fast_socket_rs.Prelude.{
  ℕ, ◌≡◌, refl, some, List, [], ◌∷◌, ◌++◌, length, take, drop, arith, length-append, length-take,
  false,
}
use fast_socket_rs.Batch.{RecvBatch, remaining}
use fast_socket_rs.Prelude.Results.{Result, ok}
use fast_socket_rs.Aggregate.{MemberOps, Aggregate, recv}
use fast_socket_rs.Aggregate.Sweep.{Honest, Received, recv-Received}

-- A member's state is the packets that wait on its queue, and a receive takes what fits.
abbrev queue_ops : MemberOps (List ℕ) ℕ ℕ
queue_ops = record {
  recv_member = λ waiting out. (
    ok (length (take (remaining out) waiting)),
    drop (remaining out) waiting,
    record out { items = out.items ++ take (remaining out) waiting },
  );
  drain_member = λ waiting. (ok 0, waiting);
}

queue_ops-Honest : Honest queue_ops
queue_ops-Honest waiting out =
    let appended = length-append out.items (take (remaining out) waiting) in
    let taken = length-take (remaining out) waiting in
    (
      refl,
      omega (arith, appended),
      omega (arith, appended, taken),
      λ n e. (let same : length (take (remaining out) waiting) ≡ n = cc in omega (arith, appended)),
    )

abbrev two_queues : Aggregate (List ℕ)
two_queues = record {
  members = (1 ∷ 2 ∷ []) ∷ (3 ∷ []) ∷ [];
  rx_rr = 1;
  tx_rr = 0;
  shared_umem = false;
}

abbrev room_for_three : RecvBatch ℕ
room_for_three = record { items = []; capacity = 3 }

recv-Received_example :
    (r : Result ℕ ℕ × Aggregate (List ℕ) × RecvBatch ℕ) × (recv queue_ops two_queues room_for_three
      ≡ some r)
    × Received queue_ops queue_ops-Honest two_queues room_for_three r
recv-Received_example =
    recv-Received queue_ops queue_ops-Honest two_queues room_for_three (omega arith)
