-- ===== src/Prelude/Slices.antt =====
-- Parts of lists: what `take` and `drop` leave of appended lists and of each other.
use fast_socket_rs.Prelude.{
  ℕ, zero, suc, ◌+◌, ◌-◌, ◌≤◌, ◌≡◌, refl, sym, ap, ◌∙◌, List, [], ◌∷◌, ◌++◌, length, take, drop,
  get_or, ◌<◌, arith,
}

module _ {ℓ} {A : Type ℓ} where
  pub take_behind :
      (front bytes : List A) (k n : ℕ)
      → n ≡ length front + k
      → take n (front ++ bytes) ≡ front ++ take k bytes
  take_behind [] bytes k n e = let h : n ≡ k = omega arith in ap (λ m. take m bytes) h
  take_behind (x ∷ front) bytes k zero e = absurd (omega arith)
  take_behind (x ∷ front) bytes k (suc n) e =
      ap (λ r. x ∷ r) (take_behind front bytes k n (omega arith))

  pub drop_behind :
      (front bytes : List A) (k n : ℕ)
      → n ≡ length front + k
      → drop n (front ++ bytes) ≡ drop k bytes
  drop_behind [] bytes k n e = let h : n ≡ k = omega arith in ap (λ m. drop m bytes) h
  drop_behind (x ∷ front) bytes k zero e = absurd (omega arith)
  drop_behind (x ∷ front) bytes k (suc n) e = drop_behind front bytes k n (omega arith)

  pub take_all : (xs : List A) (n : ℕ) → length xs ≤ n → take n xs ≡ xs
  take_all [] zero h = refl
  take_all [] (suc n) h = refl
  take_all (x ∷ xs) zero h = absurd (omega arith)
  take_all (x ∷ xs) (suc n) h = ap (λ r. x ∷ r) (take_all xs n (omega arith))

  pub drop-append : (n : ℕ) (xs ys : List A) → n ≤ length xs → drop n (xs ++ ys) ≡ drop n xs ++ ys
  drop-append zero xs ys h = refl
  drop-append (suc n) [] ys h = absurd (omega arith)
  drop-append (suc n) (x ∷ xs) ys h = drop-append n xs ys (omega arith)

  drop_nil : (n : ℕ) → drop {A = A} n [] ≡ []
  drop_nil zero = refl
  drop_nil (suc n) = refl

  take_nil : (n : ℕ) → take {A = A} n [] ≡ []
  take_nil zero = refl
  take_nil (suc n) = refl

  pub drop-drop : (n m : ℕ) (xs : List A) → drop m (drop n xs) ≡ drop (n + m) xs
  drop-drop zero m xs = let e : m ≡ 0 + m = omega arith in ap (λ k. drop k xs) e
  drop-drop (suc n) m [] = drop_nil m ∙ sym (drop_nil (suc n + m))
  drop-drop (suc n) m (x ∷ xs) =
      let e : suc (n + m) ≡ suc n + m = omega arith in
      drop-drop n m xs ∙ ap (λ k. drop k (x ∷ xs)) e

  pub drop-take : (n m : ℕ) (xs : List A) → drop n (take m xs) ≡ take (m - n) (drop n xs)
  drop-take zero m xs = let e : m ≡ m - 0 = omega arith in ap (λ k. take k xs) e
  drop-take (suc n) zero [] = sym (take_nil (0 - suc n))
  drop-take (suc n) zero (x ∷ xs) =
      let e : 0 ≡ 0 - suc n = omega arith in ap (λ k. take k (drop n xs)) e
  drop-take (suc n) (suc m) [] = sym (take_nil (suc m - suc n))
  drop-take (suc n) (suc m) (x ∷ xs) =
      let e : m - n ≡ suc m - suc n = omega arith in
      drop-take n m xs ∙ ap (λ k. take k (drop n xs)) e

  pub take-take : (n m : ℕ) (xs : List A) → n ≤ m → take n (take m xs) ≡ take n xs
  take-take zero m xs h = refl
  take-take (suc n) zero xs h = absurd (omega arith)
  take-take (suc n) (suc m) [] h = refl
  take-take (suc n) (suc m) (x ∷ xs) h = ap (λ r. x ∷ r) (take-take n m xs (omega arith))

pub get_or-take : (n i : ℕ) (xs : List ℕ) → i < n → get_or (take n xs) i 0 ≡ get_or xs i 0
get_or-take zero i xs h = absurd (omega arith)
get_or-take (suc n) i [] h = refl
get_or-take (suc n) zero (x ∷ xs) h = refl
get_or-take (suc n) (suc i) (x ∷ xs) h = get_or-take n i xs (omega arith)

pub get_or-drop : (n i : ℕ) (xs : List ℕ) → get_or (drop n xs) i 0 ≡ get_or xs (n + i) 0
get_or-drop zero i xs = ap (λ k. get_or xs k 0) (let e : i ≡ 0 + i = omega arith in e)
get_or-drop (suc n) i [] = refl
get_or-drop (suc n) i (x ∷ xs) =
    get_or-drop n i xs
    ∙ ap (λ k. get_or (x ∷ xs) k 0) (let e : suc (n + i) ≡ suc n + i = omega arith in e)
