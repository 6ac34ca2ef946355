-- ===== src/Poptrie/Bits.antt =====
-- The bits of a key, cut into the direct index and the strides.
use native.Mathlib.Nat.{two-pow-succ, pow-suc, div-div-eq-div-mul, div-one}
use fast_socket_rs.Prelude.{
  ℕ, zero, suc, ◌+◌, ◌-◌, ◌/◌, ◌%◌, ◌^◌, ◌≡◌, ◌<◌, sym, ◌∙◌, ap, ◌∷◌, ◌++◌, arith, ◌==◌,
}
use fast_socket_rs.Poptrie.Key.{stride}
use fast_socket_rs.Poptrie.Walk.{low_bits}

halve : (x n : ℕ) → x / 2 ^ suc n ≡ x / 2 ^ n / 2
halve x n = ap (λ k. x / k) (pow-suc 2 n) ∙ sym (div-div-eq-div-mul x (2 ^ n) 2)

digit : (p k : ℕ) → p % 64 / k % 2 ≡ p / k % 2 → (p % 64 / k % 2 == 1) ≡ (p / k % 2 == 1)
digit p k e = ap (λ d. d == 1) e

-- The six bits above the low `n` are those of the chunk.
chunk_bits :
    (x n : ℕ)
    → low_bits (suc (suc (suc (suc (suc (suc n)))))) x ≡ low_bits 6 (x / 2 ^ n % 64) ++ low_bits n x
unfolding low_bits
chunk_bits x n =
    let p = x / 2 ^ n in
    let e1 : x / 2 ^ suc n ≡ p / 2 = halve x n in
    let e2 : x / 2 ^ suc (suc n) ≡ p / 4 = omega (arith, halve x (suc n), e1) in
    let e3 : x / 2 ^ suc (suc (suc n)) ≡ p / 8 = omega (arith, halve x (suc (suc n)), e2) in
    let e4 : x / 2 ^ suc (suc (suc (suc n))) ≡ p / 16 =
      omega (arith, halve x (suc (suc (suc n))), e3) in
    let e5 : x / 2 ^ suc (suc (suc (suc (suc n)))) ≡ p / 32 =
      omega (arith, halve x (suc (suc (suc (suc n)))), e4) in
    rw (
      e5,
      e4,
      e3,
      e2,
      e1,
      digit p 32 (omega arith),
      digit p 16 (omega arith),
      digit p 8 (omega arith),
      digit p 4 (omega arith),
      digit p 2 (omega arith),
      digit p 1 (omega arith),
      div-one p,
    )

pub low_bits-stride :
    (width key offset n : ℕ)
    → width ≡ offset + 6 + n
    → low_bits (6 + n) key ≡ low_bits 6 (stride width key offset) ++ low_bits n key
unfolding stride
low_bits-stride width key offset n h =
    let chunk : width - offset - 6 ≡ n = omega arith in
    let unary : 6 + n ≡ suc (suc (suc (suc (suc (suc n))))) = omega arith in
    rw (chunk, unary) (chunk_bits key n)

shift_twice : (x m n : ℕ) → x / 2 ^ (m + n) ≡ x / 2 ^ n / 2 ^ m
shift_twice x zero n = ap (λ k. x / 2 ^ k) (omega arith) ∙ sym (div-one (x / 2 ^ n))
shift_twice x (suc m) n =
    let unary : suc m + n ≡ suc (m + n) = omega arith in
    rw unary (omega (arith, halve x (m + n), halve (x / 2 ^ n) m, shift_twice x m n))

-- All bits of a key: the direct index, and the rest.
pub low_bits-direct :
    (bits n key : ℕ) → low_bits (bits + n) key ≡ low_bits bits (key / 2 ^ n) ++ low_bits n key
unfolding low_bits
low_bits-direct zero n key = ap (λ k. low_bits k key) (omega arith)
low_bits-direct (suc bits) n key =
    let unary : suc bits + n ≡ suc (bits + n) = omega arith in
    rw (unary, shift_twice key bits n)
      (ap (λ bs. (key / 2 ^ n / 2 ^ bits % 2 == 1) ∷ bs) (low_bits-direct bits n key))

-- The first bits of a key that fits are a number that fits.
pub div-lt_pow : (x m n : ℕ) → x < 2 ^ (m + n) → x / 2 ^ n < 2 ^ m
div-lt_pow x m zero h = let same : m + 0 ≡ m = omega arith in rw (div-one x) (rw same at h)
div-lt_pow x m (suc n) h =
    let unary : m + suc n ≡ suc m + n = omega arith in
    let more = div-lt_pow x (suc m) n (rw unary at h) in
    omega (arith, halve x n, more, two-pow-succ m)
