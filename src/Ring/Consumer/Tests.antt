-- ===== src/Ring/Consumer/Tests.antt =====
-- A ring of four descriptors that the kernel has filled by two.
use fast_socket_rs.Prelude.{◌+◌, ◌-◌, ◌^◌, arith}
use fast_socket_rs.Ring.Consumer.{consume, consume_many}
use fast_socket_rs.Ring.Consumer.System.{
  Ring, Counts, Tracks, with_cursor, Consumed, consume-Consumed, ConsumedMany,
  consume_many-ConsumedMany, here, next, consumes, fresh, Reach-Tracks_consumer,
}

abbrev wrapped : Ring
wrapped = record {
  size = 4;
  words = record { producer = 1; consumer = 2 ^ 32 - 1 };
  cursor = record { cached_producer = 0; cached_consumer = 0 };
}

abbrev counts : Counts
counts = record { published = 2 ^ 32 + 1; seen = 2 ^ 32; taken = 2 ^ 32; released = 2 ^ 32 - 1 }

wrapped-Tracks : Tracks wrapped counts
wrapped-Tracks = omega arith

consume-Consumed_example : Consumed wrapped counts (consume wrapped.words wrapped.cursor)
consume-Consumed_example = consume-Consumed wrapped counts wrapped-Tracks

consume_many-ConsumedMany_example :
    ConsumedMany wrapped counts 3 (consume_many wrapped.words 3 wrapped.cursor)
consume_many-ConsumedMany_example = consume_many-ConsumedMany wrapped counts 3 wrapped-Tracks

Reach-Tracks_consumer_example :
    (c : Counts) × Tracks (with_cursor (fresh 4) (consume (fresh 4).words (fresh 4).cursor).1) c
Reach-Tracks_consumer_example =
    Reach-Tracks_consumer 4 (omega arith) (next here (consumes (fresh 4)))
