-- ===== src/Batch/Laws.antt =====
-- Sequences of `RecvBatch::push` of batch.rs.
use mathlib.Core.List.{append-nil, append_assoc}
use fast_socket_rs.Prelude.{
  ℕ, zero, suc, ◌≡◌, refl, sym, ◌∙◌, ap, inl, inr, true, false, Option, none, some, List, [], ◌∷◌,
  ◌++◌, length, leb, arith, Bool-cases, length-append,
}
use fast_socket_rs.Prelude.{take, drop}
use fast_socket_rs.Batch.{RecvBatch, push, remaining}

module _ {ℓ} {T : Type ℓ} where
  abbrev keep_back : Option T → List T × RecvBatch T → List T × RecvBatch T
  keep_back (some item) (back, batch) = (item ∷ back, batch)
  keep_back none (back, batch) = (back, batch)

  -- A call of `push` for each item: what came back, and the batch.
  unfoldable pub push_all : RecvBatch T → List T → List T × RecvBatch T
  push_all batch [] = ([], batch)
  push_all batch (item ∷ rest) =
      let (back, batch') = push batch item in keep_back back (push_all batch' rest)

  push_full :
      (batch : RecvBatch T) (item : T)
      → leb batch.capacity (length batch.items) ≡ true
      → push batch item ≡ (some item, batch)
  unfolding push
  push_full batch item h = rw h refl

  push_room :
      (batch : RecvBatch T) (item : T)
      → leb batch.capacity (length batch.items) ≡ false
      → push batch item ≡ (none, record batch { items = batch.items ++ (item ∷ []) })
  unfolding push
  push_room batch item h = rw h refl

  module _ (batch : RecvBatch T) (item : T) (rest : List T) where
    push_all_full :
        leb batch.capacity (length batch.items) ≡ true
        → push_all batch (item ∷ rest) ≡ (item ∷ (push_all batch rest).0, (push_all batch rest).1)
    unfolding push_all
    push_all_full h = ap (λ p. keep_back p.0 (push_all p.1 rest)) (push_full batch item h)

    push_all_room :
        leb batch.capacity (length batch.items) ≡ false
        → push_all batch (item ∷ rest)
          ≡ push_all (record batch { items = batch.items ++ (item ∷ []) }) rest
    unfolding push_all
    push_all_room h = ap (λ p. keep_back p.0 (push_all p.1 rest)) (push_room batch item h)

    abbrev stored : ℕ → List T × RecvBatch T
    stored k = (drop k (item ∷ rest), record batch { items = batch.items ++ take k (item ∷ rest) })

  -- Pushing items one after the other stores the first ones that fit, in order behind those there,
  -- and gives exactly the others back in order.
  pub push_all_lem :
      (rest : List T) (batch : RecvBatch T)
      → push_all batch rest ≡ (
        drop (remaining batch) rest,
        record batch { items = batch.items ++ take (remaining batch) rest },
      )
  unfolding push_all
  push_all_lem [] batch = empty_rest (remaining batch)
    where
      empty_rest :
          (k : ℕ)
          → ◌≡◌ {A = List T × RecvBatch T}
              ([], batch)
              (drop k [], record batch { items = batch.items ++ take k [] })
      empty_rest zero = ap (λ l. ([], record batch { items = l })) (sym (append-nil batch.items))
      empty_rest (suc k) = ap (λ l. ([], record batch { items = l })) (sym (append-nil batch.items))
  push_all_lem (item ∷ rest) batch = elim (Bool-cases (leb batch.capacity (length batch.items))) [
    | inl full ↦
        let no_room : remaining batch ≡ 0 = ground arith in
        push_all_full batch item rest full
        ∙ ap (λ p. (item ∷ p.0, p.1))
            (push_all_lem rest batch
              ∙ ap (λ k. (drop k rest, record batch { items = batch.items ++ take k rest }))
                  no_room)
        ∙ ap (stored batch item rest) (sym no_room)
    | inr room ↦
        let after : RecvBatch T = record batch { items = batch.items ++ (item ∷ []) } in
        let one_less : remaining batch ≡ suc (remaining after) =
          ground (arith, length-append batch.items (item ∷ [])) in
        push_all_room batch item rest room
        ∙ push_all_lem rest after
        ∙ ap (λ l. (drop (remaining after) rest, record batch { items = l }))
            (append_assoc batch.items (item ∷ []) (take (remaining after) rest))
        ∙ ap (stored batch item rest) (sym one_less)
  ]
