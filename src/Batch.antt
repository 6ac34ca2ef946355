-- ===== src/Batch.antt =====
-- crates/fast-socket-rs/src/batch.rs: transmit slots and receive batches.
pub mod Laws
mod Tests
use fast_socket_rs.Prelude.{
  ℕ, ◌-◌, Bool, true, false, not, Option, none, some, List, [], ◌∷◌, ◌++◌, length, leb, ltb,
  if◌then◌else◌, ◌==◌,
}
use fast_socket_rs.Prelude.Results.{◌>>◌, checked, ◌>>=◌}

pub data TxSlot {ℓ} (T : Type ℓ) : Type ℓ where
  ready : T → TxSlot T
  taken : TxSlot T

pub record SendError {ℓ} (E : Type ℓ) : Type ℓ where
  pub accepted : ℕ
  pub kind : E

pub record RecvBatch {ℓ} (T : Type ℓ) : Type ℓ where
  pub items : List T
  pub capacity : ℕ

module _ {ℓ} {T : Type ℓ} where
  unfoldable pub is_ready : TxSlot T → Bool
  is_ready (ready item) = true
  is_ready taken = false

  unfoldable pub is_taken : TxSlot T → Bool
  is_taken (ready item) = false
  is_taken taken = true

  unfoldable pub as_ref : TxSlot T → Option T
  as_ref (ready item) = some item
  as_ref taken = none

  -- What is taken, and what the slot becomes.
  unfoldable pub take : TxSlot T → Option T × TxSlot T
  take (ready item) = (some item, taken)
  take taken = (none, taken)

  unfoldable pub with_capacity : ℕ → Option (RecvBatch T)
  with_capacity capacity = do
    checked (ltb 0 capacity)
    some (record { items = []; capacity = capacity })

  -- `saturating_sub` stops at 0.
  abbrev pub remaining : RecvBatch T → ℕ
  remaining batch = batch.capacity - length batch.items

  abbrev pub clear : RecvBatch T → RecvBatch T
  clear batch = record batch { items = [] }

  -- An item that does not fit comes back.
  unfoldable pub push : RecvBatch T → T → Option T × RecvBatch T
  push batch item =
      if leb batch.capacity (length batch.items)
      then (some item, batch)
      else (none, record batch { items = batch.items ++ (item ∷ []) })

  abbrev pub drain : RecvBatch T → List T × RecvBatch T
  drain batch = (batch.items, record batch { items = [] })
