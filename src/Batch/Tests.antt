-- ===== src/Batch/Tests.antt =====
-- A batch with room for one more item.
use fast_socket_rs.Prelude.{ℕ, ◌≡◌, [], ◌∷◌}
use fast_socket_rs.Batch.{RecvBatch}
use fast_socket_rs.Batch.Laws.{push_all, push_all_lem}

abbrev batch : RecvBatch ℕ
batch = record { items = 1 ∷ []; capacity = 2 }

push_all_lem_example :
    push_all batch (2 ∷ 3 ∷ 4 ∷ []) ≡ (3 ∷ 4 ∷ [], record { items = 1 ∷ 2 ∷ []; capacity = 2 })
push_all_lem_example = push_all_lem (2 ∷ 3 ∷ 4 ∷ []) batch
