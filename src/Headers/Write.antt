-- ===== src/Headers/Write.antt =====
-- crates/fast-socket-xdp-rs/src/socket.rs: `write_ipv4_udp_headers` and the header checksum.
use fast_socket_rs.Prelude.{
  ℕ, zero, suc, ◌+◌, ◌-◌, ◌/◌, ◌%◌, ◌^◌, Option, none, some, List, [], ◌∷◌, take, replicate, ◌==◌,
  if◌then◌else◌,
}
use fast_socket_rs.Prelude.Results.{◌>>=◌}
use fast_socket_rs.Prelude.Words.{as_u32}
use fast_socket_rs.Filter.{from_be_bytes}
use fast_socket_rs.Egress.{to_be_bytes, copy_from_slice}
use fast_socket_rs.Headers.{
  Ipv4Addr, EcnCodepoint, ecn_bits, ipv4_min_header_len, udp_header_len, udp_protocol,
}

abbrev pub octets : Ipv4Addr → List ℕ
octets a = a.octet0 ∷ a.octet1 ∷ a.octet2 ∷ a.octet3 ∷ []

-- The loop of `ipv4_header_checksum` over the 16-bit words, an odd byte at the end left out.
unfoldable pub sum_words : ℕ → List ℕ → ℕ
sum_words sum [] = sum
sum_words sum (high ∷ []) = sum
sum_words sum (high ∷ low ∷ rest) = sum_words (as_u32 (sum + from_be_bytes high low)) rest

-- The loop that adds the carries back in, on fuel; `none` is a loop that has not ended.
unfoldable pub fold_carries : ℕ → ℕ → Option ℕ
fold_carries zero sum = none
fold_carries (suc fuel) sum =
    let rest = fold_carries fuel (sum % 2 ^ 16 + sum / 2 ^ 16) in
    if sum / 2 ^ 16 == 0 then some sum else rest

-- `!x` of a `u16`.
abbrev pub complement : ℕ → ℕ
complement x = 2 ^ 16 - 1 - x

-- A `u32` has no carry left after two rounds.
unfoldable pub ipv4_header_checksum : List ℕ → Option ℕ
unfolding sum_words fold_carries
ipv4_header_checksum header = do
  sum ← fold_carries 3 (sum_words 0 header)
  some (complement (sum % 2 ^ 16))

pub record Ipv4UdpHeaderFields : Type 0 where
  pub source_port : ℕ
  pub destination_port : ℕ
  pub source : Ipv4Addr
  pub destination : Ipv4Addr
  pub total_len : ℕ
  pub udp_len : ℕ
  pub ttl : ℕ
  pub ecn : Option EcnCodepoint

-- The header before its checksum is known.
unfoldable pub unsummed : Ipv4UdpHeaderFields → List ℕ → List ℕ
unfolding ecn_bits
unsummed fields headers = copy_from_slice 16 (octets fields.destination) (
    copy_from_slice 12 (octets fields.source) (
      copy_from_slice 9 (udp_protocol ∷ []) (
        copy_from_slice 8 (fields.ttl ∷ []) (
          copy_from_slice 6 (to_be_bytes 0) (
            copy_from_slice 2 (to_be_bytes fields.total_len) (
              copy_from_slice 1 (ecn_bits fields.ecn ∷ [])
                (copy_from_slice 0 (0x45 ∷ []) headers)))))))

unfoldable pub write_ipv4_udp_headers : List ℕ → Ipv4UdpHeaderFields → Option (List ℕ)
unfolding unsummed ipv4_header_checksum
write_ipv4_udp_headers headers fields = do
  checksum ← ipv4_header_checksum (take ipv4_min_header_len (unsummed fields headers))
  let summed = copy_from_slice 10 (to_be_bytes checksum) (unsummed fields headers)
  some (
      copy_from_slice 26 (to_be_bytes 0) (
        copy_from_slice 24 (to_be_bytes fields.udp_len) (
          copy_from_slice 22 (to_be_bytes fields.destination_port)
            (copy_from_slice 20 (to_be_bytes fields.source_port) summed))))

-- `[0u8; IPV4_MIN_HEADER_LEN + UDP_HEADER_LEN]`.
abbrev pub zeroed : List ℕ
zeroed = replicate (ipv4_min_header_len + udp_header_len) 0
