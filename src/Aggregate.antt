-- ===== src/Aggregate.antt =====
-- crates/fast-socket-xdp-rs/src/aggregate.rs: one logical socket over the sockets of several
-- queues. The two aggregates differ in the type of their members; here a member is what the
-- aggregate uses of it, a record of operations. A call that fails still changes its member and the
-- batch.
pub mod Turns
pub mod Sweep
mod Tests
use fast_socket_rs.Prelude.{
  ℕ, zero, suc, ◌+◌, ◌%◌, ◌^◌, Bool, true, false, Option, none, some, List, [], ◌∷◌, length,
  get_elem?, set, ltb, ◌==◌, if◌then◌else◌,
}
use fast_socket_rs.Prelude.Results.{◌>>◌, ◌>>=◌, checked, Result, ok, err}
use fast_socket_rs.Batch.{RecvBatch, remaining}

-- What the aggregate asks of a member's socket.
pub record MemberOps (M T E : Type 0) : Type 0 where
  pub recv_member : M → RecvBatch T → Result ℕ E × M × RecvBatch T
  pub drain_member : M → Result ℕ E × M

pub record Aggregate (M : Type 0) : Type 0 where
  pub members : List M
  pub rx_rr : ℕ
  pub tx_rr : ℕ
  pub shared_umem : Bool

module _ {M : Type 0} where
  -- `from_members` refuses an empty list.
  unfoldable pub from_members : List M → Option (Aggregate M)
  from_members members =
      if length members == 0
      then none
      else some (record { members = members; rx_rr = 0; tx_rr = 0; shared_umem = false })

  unfoldable pub from_shared_umem_members : List M → Option (Aggregate M)
  unfolding from_members
  from_shared_umem_members members = do
    a ← from_members members
    some (record a { shared_umem = true })

  -- The index of the next member to transmit on. A `usize` wraps at 64 bits.
  unfoldable pub next_tx_member : Aggregate M → ℕ × Aggregate M
  next_tx_member a = (a.tx_rr % length a.members, record a { tx_rr = (a.tx_rr + 1) % 2 ^ 64 })

module _ {M T E : Type 0} (ops : MemberOps M T E) where
  -- The loop of `recv`: up to `rounds` members from `cursor` on. The result holds the total and the
  -- cursor after the last one.
  unfoldable pub sweep :
      ℕ → ℕ → ℕ → List M → RecvBatch T → Option (Result (ℕ × ℕ) E × List M × RecvBatch T)
  sweep zero cursor total members out = some (ok (total, cursor), members, out)
  sweep (suc rounds) cursor total members out =
      let index = cursor % length members in
      elim (remaining out == 0) [
        | true ↦ some (ok (total, cursor), members, out)
        | false ↦ (do
          m ← get_elem? members index
          let (result, m', out') = ops.recv_member m out
          elim result [
            | err e ↦ some (err e, set members index m', out')
            | ok n ↦ sweep rounds (cursor + 1) (total + n) (set members index m') out'
          ])
      ]

  -- `self.rx_rr` is written only when no member failed.
  unfoldable pub recv : Aggregate M → RecvBatch T → Option (Result ℕ E × Aggregate M × RecvBatch T)
  unfolding sweep
  recv a out = do
    (result, members, out') ← sweep (length a.members) a.rx_rr 0 a.members out
    elim result [
      | ok (total, cursor) ↦
          some (ok total, record a { members = members; rx_rr = cursor % length a.members }, out')
      | err e ↦ some (err e, record a { members = members }, out')
    ]

  -- The loop of `drain_tx_completions`, over the members from the first on.
  unfoldable pub drain_from : ℕ → List M → Result ℕ E × List M
  drain_from total [] = (ok total, [])
  drain_from total (m ∷ ms) =
      let (result, m') = ops.drain_member m in
      elim result [
        | err e ↦ (err e, m' ∷ ms)
        | ok n ↦ let (r, ms') = drain_from (total + n) ms in (r, m' ∷ ms')
      ]

  unfoldable pub drain_tx_completions : Aggregate M → Result ℕ E × Aggregate M
  unfolding drain_from
  drain_tx_completions a =
      let (result, members) = drain_from 0 a.members in (result, record a { members = members })
