-- ===== src/Routes/Local.antt =====
-- crates/fast-socket-xdp-rs/src/route.rs: `XdpLocalRoutes`, the snapshot that a queue reads and the updates
-- that it has not adopted yet. The snapshots are of any type.
use fast_socket_rs.Prelude.{
  ℕ, suc, ◌+◌, ◌%◌, ◌^◌, ◌<◌, ◌≡◌, ap, ◌∙◌, List, [], ◌∷◌, ◌++◌, length, ◌==◌, if◌then◌else◌, arith,
}

pub record XdpLocalRoutes {ℓ} (S : Type ℓ) : Type ℓ where
  pub snapshot : S
  pub pending : List S
  pub generation : ℕ

module _ {ℓ} {S : Type ℓ} where
  unfoldable pub new : S → XdpLocalRoutes S
  new snapshot = record { snapshot = snapshot; pending = []; generation = 0 }

  unfoldable pub push_update : S → XdpLocalRoutes S → XdpLocalRoutes S
  push_update snapshot r = record r { pending = r.pending ++ (snapshot ∷ []) }

  -- The loop over the pending snapshots: the one adopted last, and how many there were.
  unfoldable pub adopt : S → ℕ → List S → S × ℕ
  adopt snapshot applied [] = (snapshot, applied)
  adopt snapshot applied (next ∷ pending) = adopt next (applied + 1) pending

  unfoldable pub apply_updates : XdpLocalRoutes S → ℕ × XdpLocalRoutes S
  unfolding adopt
  apply_updates r =
      let (snapshot, applied) = adopt r.snapshot 0 r.pending in
      (
        applied,
        record {
          snapshot = snapshot;
          pending = [];
          generation = if applied == 0 then r.generation else (r.generation + applied) % 2 ^ 64;
        },
      )

  abbrev pub last : S → List S → S
  last s [] = s
  last s (next ∷ rest) = last next rest

  adopt-last :
      (s : S) (applied : ℕ) (pending : List S)
      → adopt s applied pending ≡ (last s pending, applied + length pending)
  unfolding adopt
  adopt-last s applied [] = let e : applied ≡ applied + 0 = omega arith in ap (λ n. (s, n)) e
  adopt-last s applied (next ∷ pending) =
      let e : applied + 1 + length pending ≡ applied + suc (length pending) = omega arith in
      adopt-last next (applied + 1) pending ∙ ap (λ n. (last next pending, n)) e

  abbrev finish : XdpLocalRoutes S → S × ℕ → ℕ × XdpLocalRoutes S
  finish r (snapshot, applied) = (
    applied,
    record {
      snapshot = snapshot;
      pending = [];
      generation = if applied == 0 then r.generation else (r.generation + applied) % 2 ^ 64;
    },
  )

  -- Applying the updates adopts the newest pending snapshot, leaves none pending, and moves the
  -- generation on by their number, which it returns; for a generation of 64 bits.
  pub apply_updates-last :
      (r : XdpLocalRoutes S)
      → r.generation < 2 ^ 64
      → apply_updates r ≡ (
        length r.pending,
        record {
          snapshot = last r.snapshot r.pending;
          pending = [];
          generation = (r.generation + length r.pending) % 2 ^ 64;
        },
      )
  unfolding apply_updates
  apply_updates-last r small =
      let n = length r.pending in
      let applied : 0 + n ≡ n = omega arith in
      let moved : (if n == 0 then r.generation else (r.generation + n) % 2 ^ 64)
          ≡ (r.generation + n) % 2 ^ 64 =
        ground arith in
      ap (finish r)
        (adopt-last r.snapshot 0 r.pending ∙ ap (λ k. (last r.snapshot r.pending, k)) applied)
      ∙ ap (λ g. (n, record { snapshot = last r.snapshot r.pending; pending = []; generation = g }))
          moved
