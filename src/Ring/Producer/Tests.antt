-- ===== src/Ring/Producer/Tests.antt =====
-- A ring of four descriptors whose words have wrapped around.
use fast_socket_rs.Prelude.{◌+◌, ◌-◌, ◌^◌, arith}
use fast_socket_rs.Ring.Producer.{produce, produce_many, commit}
use fast_socket_rs.Ring.Producer.System.{
  Ring, Counts, Tracks, with_cursor, Produced, produce-Produced, ProducedMany,
  produce_many-ProducedMany, here, next, produces, commits, fresh, Reach-Tracks,
}

abbrev wrapped : Ring
wrapped = record {
  words = record { producer = 1; consumer = 2 ^ 32 - 1 };
  cursor = record { cached_producer = 2; cached_consumer = 2 ^ 32 - 2; size = 4 };
}

abbrev counts : Counts
counts = record {
  reserved = 2 ^ 32 + 2;
  published = 2 ^ 32 + 1;
  consumed = 2 ^ 32 - 1;
  seen = 2 ^ 32 - 2;
}

wrapped-Tracks : Tracks wrapped counts
wrapped-Tracks = omega arith

produce-Produced_example : Produced wrapped counts (produce wrapped.words wrapped.cursor)
produce-Produced_example = produce-Produced wrapped counts wrapped-Tracks

produce_many-ProducedMany_example :
    ProducedMany wrapped counts 3 (produce_many wrapped.words 3 wrapped.cursor)
produce_many-ProducedMany_example = produce_many-ProducedMany wrapped counts 3 wrapped-Tracks

-- One descriptor reserved and published.
abbrev reserved_one : Ring
reserved_one = with_cursor (fresh 4) (produce (fresh 4).words (fresh 4).cursor).1

abbrev published_one : Ring
published_one = record reserved_one { words = commit reserved_one.cursor reserved_one.words }

Reach-Tracks_example : (c : Counts) × Tracks published_one c
Reach-Tracks_example =
    Reach-Tracks 4 (omega arith) (next (next here (produces (fresh 4))) (commits reserved_one))
