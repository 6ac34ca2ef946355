-- ===== src/Ring/Consumer.antt =====
-- `RingConsumer` of ring.rs, the cursor of the RX and COMPLETION rings.
pub mod System
mod Tests
use fast_socket_rs.Prelude.{ℕ, Option, none, some, min, ltb, ◌==◌, if◌then◌else◌}
use fast_socket_rs.Prelude.Words.{wrapping_add, wrapping_sub}
use fast_socket_rs.Ring.{Words, RingRange}

pub record RingConsumer : Type 0 where
  pub cached_producer : ℕ
  pub cached_consumer : ℕ

unfoldable pub new : RingConsumer
new = record { cached_producer = 0; cached_consumer = 0 }

unfoldable pub sync : Words → RingConsumer → RingConsumer
sync w r = record r { cached_producer = w.producer }

take_one : RingConsumer → Option ℕ × RingConsumer
take_one r =
    (some r.cached_consumer, record r { cached_consumer = wrapping_add r.cached_consumer 1 })

unfoldable pub consume : Words → RingConsumer → Option ℕ × RingConsumer
unfolding sync take_one
consume w r =
    if r.cached_consumer == r.cached_producer
    then (let r' = sync w r in
        if r'.cached_consumer == r'.cached_producer then (none, r') else take_one r')
    else take_one r

unfoldable pub available : RingConsumer → ℕ
available r = wrapping_sub r.cached_producer r.cached_consumer

take_many : ℕ → RingConsumer → RingRange × RingConsumer
unfolding available
take_many wanted r =
    let count = min wanted (available r) in
    (
      record { start = r.cached_consumer; count = count },
      record r { cached_consumer = wrapping_add r.cached_consumer count },
    )

unfoldable pub consume_many : Words → ℕ → RingConsumer → RingRange × RingConsumer
unfolding sync available take_many
consume_many w wanted r =
    if wanted == 0
    then (record { start = 0; count = 0 }, r)
    else take_many wanted (if ltb (available r) wanted then sync w r else r)

unfoldable pub release : RingConsumer → Words → Words
release r w = record w { consumer = r.cached_consumer }
