-- ===== src/Headers.antt =====
-- crates/fast-socket-xdp-rs/src/socket.rs: the IP and UDP headers that the transmit path writes and
-- the receive path parses, as pure functions on lists of bytes. Every index that the source takes
-- is behind a test of the length, or into a header of a known size, so a byte is read by `byte`.
pub mod Write
pub mod Parse
pub mod Frame
pub mod Endpoint
pub mod Checksum
pub mod Layout
pub mod Accepted
pub mod Bounds
pub mod RoundTrip
pub mod Filtered
pub mod Chain
pub mod Patched
pub mod Prepared
pub mod Valid
pub mod Ports
pub mod Transmit
pub mod Restored
mod Tests
use fast_socket_rs.Prelude.{ℕ, ◌+◌, ◌*◌, ◌%◌, Option, none, some, List, get_or, ◌==◌, if◌then◌else◌}

-- The standard library's IPv4 address: its four octets.
pub record Ipv4Addr : Type 0 where
  pub octet0 : ℕ
  pub octet1 : ℕ
  pub octet2 : ℕ
  pub octet3 : ℕ

-- `Error` of crates/fast-socket-rs/src/error.rs, with the kinds that these functions return.
pub data Error : Type 0 where
  invalid_packet oversize_for_mtu no_egress_route : Error

pub data EcnCodepoint : Type 0 where
  not_ect ect0 ect1 ce : EcnCodepoint

abbrev pub ipv4_min_header_len : ℕ
ipv4_min_header_len = 20

abbrev pub ipv6_header_len : ℕ
ipv6_header_len = 40

abbrev pub udp_header_len : ℕ
udp_header_len = 8

abbrev pub udp_protocol : ℕ
udp_protocol = 17

abbrev pub ipv6_next_header_fragment : ℕ
ipv6_next_header_fragment = 44

abbrev pub ethertype_ipv6 : ℕ
ethertype_ipv6 = 0x86dd

-- `bytes[i]`, of an index in range.
abbrev pub byte : List ℕ → ℕ → ℕ
byte bytes i = get_or bytes i 0

unfoldable pub ecn_bits : Option EcnCodepoint → ℕ
ecn_bits (some EcnCodepoint.ect0) = 2
ecn_bits (some EcnCodepoint.ect1) = 1
ecn_bits (some EcnCodepoint.ce) = 3
ecn_bits (some EcnCodepoint.not_ect) = 0
ecn_bits none = 0

unfoldable pub ecn_from_bits : ℕ → Option EcnCodepoint
ecn_from_bits bits =
    let low = bits % 4 in
    some (
      if low == 0
      then EcnCodepoint.not_ect
      else if low == 1
      then EcnCodepoint.ect1
      else if low == 2
      then EcnCodepoint.ect0
      else EcnCodepoint.ce)
