-- ===== src/Prelude/Words.antt =====
-- Machine words as numbers: the wrapping operations of `u32` and the casts to it.
use fast_socket_rs.Prelude.{ℕ, ◌+◌, ◌-◌, ◌%◌, ◌^◌, ◌≤◌, ◌<◌, ◌≡◌, arith}

-- `x as u32` of a larger word.
abbrev pub as_u32 : ℕ → ℕ
as_u32 x = x % 2 ^ 32

-- `a.wrapping_add(b)` and `a.wrapping_sub(b)` on `u32`.
abbrev pub wrapping_add : ℕ → ℕ → ℕ
wrapping_add a b = (a + b) % 2 ^ 32

abbrev pub wrapping_sub : ℕ → ℕ → ℕ
wrapping_sub a b = (a + 2 ^ 32 - b) % 2 ^ 32

-- The wrapped difference of two wrapped counters is their true distance, if that fits a word.
pub wrapping_sub-as_u32 :
    (p c : ℕ) → c ≤ p → p - c < 2 ^ 32 → wrapping_sub (as_u32 p) (as_u32 c) ≡ p - c
wrapping_sub-as_u32 p c h k = omega arith

pub wrapping_add-as_u32 : (p n : ℕ) → wrapping_add (as_u32 p) n ≡ as_u32 (p + n)
wrapping_add-as_u32 p n = omega arith
