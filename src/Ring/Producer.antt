-- ===== src/Ring/Producer.antt =====
-- `RingProducer` of ring.rs, the cursor of the FILL and TX rings, against the kernel's consumer.
pub mod System
mod Tests
use fast_socket_rs.Prelude.{
  ℕ, ◌-◌, Bool, true, false, Option, none, some, min, ltb, leb, ◌==◌, if◌then◌else◌,
}
use fast_socket_rs.Prelude.Words.{wrapping_add, wrapping_sub}
use fast_socket_rs.Ring.{Words, RingRange}

pub record RingProducer : Type 0 where
  pub cached_producer : ℕ
  pub cached_consumer : ℕ
  pub size : ℕ

unfoldable pub new : ℕ → RingProducer
new size = record { cached_producer = 0; cached_consumer = 0; size = size }

unfoldable pub sync : Words → Bool → RingProducer → RingProducer
sync w load_producer r =
    let r' = if load_producer then record r { cached_producer = w.producer } else r in
    record r' { cached_consumer = w.consumer }

-- The indexes in flight by the cached words.
abbrev in_flight : RingProducer → ℕ
in_flight r = wrapping_sub r.cached_producer r.cached_consumer

-- What `produce` does once it has found room.
take_one : RingProducer → Option ℕ × RingProducer
take_one r =
    (some r.cached_producer, record r { cached_producer = wrapping_add r.cached_producer 1 })

unfoldable pub produce : Words → RingProducer → Option ℕ × RingProducer
unfolding sync take_one
produce w r =
    if leb r.size (in_flight r)
    then (let r' = sync w false r in if leb r'.size (in_flight r') then (none, r') else take_one r')
    else take_one r

-- The source's `debug_assert` says that the subtraction does not underflow.
unfoldable pub available : RingProducer → ℕ
available r = r.size - in_flight r

take_many : ℕ → RingProducer → RingRange × RingProducer
unfolding available
take_many wanted r =
    let count = min wanted (available r) in
    (
      record { start = r.cached_producer; count = count },
      record r { cached_producer = wrapping_add r.cached_producer count },
    )

unfoldable pub produce_many : Words → ℕ → RingProducer → RingRange × RingProducer
unfolding sync available take_many
produce_many w wanted r =
    if wanted == 0
    then (record { start = 0; count = 0 }, r)
    else take_many wanted (if ltb (available r) wanted then sync w false r else r)

unfoldable pub commit : RingProducer → Words → Words
commit r w = record w { producer = r.cached_producer }
