-- ===== src/Prelude/Bits.antt =====
-- Bitmaps: single bits, masks and population counts of a machine word.
use native.Mathlib.Nat.{
  pow-succ', div-div-eq-div-mul, mod-lt, div-add-mod, mod-eq_of_lt, mul-add-mod_self_left, div-one,
  div-eq_of_lt, add-div_right, add-mod_right, le_trans, pow-le-pow_right,
}
use fast_socket_rs.Prelude.{
  ℕ, zero, suc, ◌+◌, ◌*◌, ◌/◌, ◌%◌, ◌^◌, ◌≤◌, ◌<◌, ◌≡◌, refl, sym, ◌∙◌, ap, Bool, true, false,
  arith, ◌==◌, if◌then◌else◌,
}

-- `x & (1 << i) != 0`.
unfoldable pub test_bit : ℕ → ℕ → Bool
test_bit x i = x / 2 ^ i % 2 == 1

-- `x | (1 << i)`.
unfoldable pub set_bit : ℕ → ℕ → ℕ
set_bit x i = if test_bit x i then x else x + 2 ^ i

-- `x & ((1 << i) - 1)`.
abbrev pub mask_below : ℕ → ℕ → ℕ
mask_below x i = x % 2 ^ i

-- The ones among the low `n` bits.
unfoldable pub ones : ℕ → ℕ → ℕ
ones zero x = 0
ones (suc n) x = x % 2 + ones n (x / 2)

-- `count_ones` of a `u64`.
unfoldable pub count_ones : ℕ → ℕ
count_ones x = ones 64 x

shift-suc : (x i : ℕ) → x / 2 ^ suc i ≡ x / 2 / 2 ^ i
shift-suc x i = rw (pow-succ' 2 i) (sym (div-div-eq-div-mul x 2 (2 ^ i)))

pub pow_pos : (i : ℕ) → 0 < 2 ^ i
pow_pos zero = omega arith
pow_pos (suc i) = omega (arith, pow_pos i, pow-succ' 2 i)

mask-suc : (x i : ℕ) → x % 2 ^ suc i ≡ x / 2 % 2 ^ i * 2 + x % 2
mask-suc x i =
    let p = 2 ^ i in
    let q = x / 2 / p in
    let r = x / 2 % p * 2 + x % 2 in
    let e : x ≡ 2 ^ suc i * q + r =
      omega (arith, ap (λ (t : ℕ). t * q) (pow-succ' 2 i), div-add-mod (x / 2) p) in
    ap (λ k. k % 2 ^ suc i) e
    ∙ mul-add-mod_self_left (2 ^ suc i) q r
    ∙ mod-eq_of_lt (omega (arith, pow-succ' 2 i, mod-lt (x / 2) (pow_pos i)))

half-mask : (x i : ℕ) → x % 2 ^ suc i / 2 ≡ x / 2 % 2 ^ i
half-mask x i = omega (arith, mask-suc x i)

parity-mask : (x i : ℕ) → x % 2 ^ suc i % 2 ≡ x % 2
parity-mask x i = omega (arith, mask-suc x i)

pub test_bit-suc : (x i : ℕ) → test_bit x (suc i) ≡ test_bit (x / 2) i
unfolding test_bit
test_bit-suc x i = ap (λ k. k % 2 == 1) (shift-suc x i)

ones-zero : (n : ℕ) → ones n 0 ≡ 0
unfolding ones
ones-zero zero = refl
ones-zero (suc n) = omega (arith, ones-zero n)

pub ones-mask_below : (n k x : ℕ) → k ≤ n → ones n (mask_below x k) ≡ ones k x
unfolding ones
ones-mask_below n zero x h = ap (ones n) (omega arith) ∙ ones-zero n
ones-mask_below zero (suc k) x h = absurd (omega arith)
ones-mask_below (suc n) (suc k) x h = omega (
  arith,
  half-mask x k,
  parity-mask x k,
  ap (ones n) (half-mask x k),
  ones-mask_below n k (x / 2) (omega arith),
)

-- Adding the bit at `i` to a word below it.
pub ones-add_above : (k i x : ℕ) → k ≤ i → ones k (x + 2 ^ i) ≡ ones k x
unfolding ones
ones-add_above zero i x h = refl
ones-add_above (suc k) zero x h = absurd (omega arith)
ones-add_above (suc k) (suc i) x h =
    let e : (x + 2 ^ suc i) / 2 ≡ x / 2 + 2 ^ i = omega (arith, pow-succ' 2 i) in
    omega (arith, pow-succ' 2 i, ap (ones k) e, ones-add_above k i (x / 2) (omega arith))

pub ones-add_top : (i x : ℕ) → x < 2 ^ i → ones (suc i) (x + 2 ^ i) ≡ ones i x + 1
unfolding ones
ones-add_top zero x h = omega arith
ones-add_top (suc i) x h =
    let e : (x + 2 ^ suc i) / 2 ≡ x / 2 + 2 ^ i = omega (arith, pow-succ' 2 i) in
    omega (
      arith,
      pow-succ' 2 i,
      ap (ones (suc i)) e,
      ones-add_top i (x / 2) (omega (arith, pow-succ' 2 i)),
    )

pub test_bit_below : (i j x : ℕ) → j < i → test_bit (x + 2 ^ i) j ≡ test_bit x j
test_bit_below zero j x h = elim h [ ]
test_bit_below (suc i) zero x h =
    unfold test_bit in ground (arith, pow-succ' 2 i, div-one (x + 2 ^ suc i), div-one x)
test_bit_below (suc i) (suc j) x h =
    let e : (x + 2 ^ suc i) / 2 ≡ x / 2 + 2 ^ i = omega (arith, pow-succ' 2 i) in
    test_bit-suc (x + 2 ^ suc i) j
    ∙ ap (λ k. test_bit k j) e
    ∙ test_bit_below i j (x / 2) (omega arith)
    ∙ sym (test_bit-suc x j)

pub test_bit_top : (i x : ℕ) → x < 2 ^ i → test_bit (x + 2 ^ i) i ≡ true
unfolding test_bit
test_bit_top i x h =
    let e : (x + 2 ^ i) / 2 ^ i ≡ 1 = omega (arith, add-div_right x (pow_pos i), div-eq_of_lt h) in
    rw e

-- A word below `2 ^ i` has no bit from `i` up.
pub test_bit_out : (i j x : ℕ) → x < 2 ^ i → i ≤ j → test_bit x j ≡ false
unfolding test_bit
test_bit_out i j x h le =
    let e : x / 2 ^ j ≡ 0 = div-eq_of_lt (le_trans h (pow-le-pow_right (omega arith) le)) in rw e

-- A bit at or above a word's end adds none to its count, and setting it adds its power.
pub ones_out : (i x : ℕ) → x < 2 ^ i → ones (suc i) x ≡ ones i x
unfolding ones
ones_out zero x h = omega arith
ones_out (suc i) x h = omega (arith, ones_out i (x / 2) (omega (arith, pow-succ' 2 i)))

pub set_bit_top : (i x : ℕ) → x < 2 ^ i → set_bit x i ≡ x + 2 ^ i
unfolding set_bit
set_bit_top i x h = rw (test_bit_out i i x h (omega arith))

pub mask_add_top : (i x : ℕ) → x < 2 ^ i → mask_below (x + 2 ^ i) i ≡ x
mask_add_top i x h = add-mod_right x (2 ^ i) ∙ mod-eq_of_lt h
