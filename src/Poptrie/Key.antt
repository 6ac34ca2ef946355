-- ===== src/Poptrie/Key.antt =====
-- The trait `IpKey` of crates/poptrie/src/lib.rs, for an address of `width` bits.
use fast_socket_rs.Prelude.{ℕ, ◌-◌, ◌/◌, ◌%◌, ◌^◌, Bool, ◌==◌}

-- Bit `i` from the most significant one.
unfoldable pub bit : ℕ → ℕ → ℕ → Bool
bit width key i = key / 2 ^ (width - 1 - i) % 2 == 1

-- The 6-bit chunk that starts `offset` bits from the top; `& 0x3f` keeps the low 6 bits.
unfoldable pub stride : ℕ → ℕ → ℕ → ℕ
stride width key offset = key / 2 ^ (width - offset - 6) % 64

unfoldable pub direct_index : ℕ → ℕ → ℕ → ℕ
direct_index width key bits = key / 2 ^ (width - bits)
