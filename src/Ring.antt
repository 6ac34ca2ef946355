-- ===== src/Ring.antt =====
-- crates/fast-socket-xdp-rs/src/ring.rs: the userspace cursors of the AF_XDP rings.
-- The two ring words that userspace and the kernel share are a record `Words`; an acquire load
-- reads them and a release store writes them, each as one step.
pub mod Producer
pub mod Consumer
use fast_socket_rs.Prelude.{ℕ, Bool, ◌==◌}

-- The atomics behind `producer` and `consumer`.
pub record Words : Type 0 where
  pub producer : ℕ
  pub consumer : ℕ

-- Reserved descriptor indexes.
pub record RingRange : Type 0 where
  pub start : ℕ
  pub count : ℕ

unfoldable pub is_empty : RingRange → Bool
is_empty r = r.count == 0
