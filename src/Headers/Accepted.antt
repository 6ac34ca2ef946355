-- ===== src/Headers/Accepted.antt =====
-- crates/fast-socket-xdp-rs/src/socket.rs: the datagrams that `parse_ipv4_udp_datagram` accepts.
use fast_socket_rs.Prelude.{
  ℕ, ◌+◌, ◌/◌, ◌%◌, ◌^◌, ◌≤◌, ◌≡◌, ◌↔◌, sym, ap, ◌∙◌, List, length, take, drop, arith,
}
use fast_socket_rs.Headers.{ipv4_min_header_len, udp_header_len, udp_protocol, byte}
use fast_socket_rs.Headers.Parse.{
  ParsedIpv4Udp, udp, word, header_len, parsed, parse_ipv4_udp_datagram,
}

abbrev pub udp_bytes_of : List ℕ → List ℕ
udp_bytes_of packet = take udp_header_len (drop (header_len packet) packet)

-- A whole UDP datagram over IPv4, each header inside the packet and of its minimal length at least.
pub record IsDatagram (packet : List ℕ) : Type 0 where
  pub min_len : ipv4_min_header_len ≤ length packet
  pub version : byte packet 0 / 16 ≡ 4
  pub min_header_len : ipv4_min_header_len ≤ header_len packet
  pub header_inside : header_len packet ≤ length packet
  pub total_len_inside : word packet 2 ≤ length packet
  pub unfragmented : word packet 6 % 2 ^ 14 ≡ 0
  pub protocol : byte packet 9 ≡ udp_protocol
  pub min_udp_len : udp_header_len ≤ word (udp_bytes_of packet) 4
  pub udp_len_inside : header_len packet + word (udp_bytes_of packet) 4 ≤ word packet 2

pub parse_ipv4_udp_datagram-IsDatagram :
    (packet : List ℕ)
    → IsDatagram packet
    → parse_ipv4_udp_datagram packet ≡ udp (parsed packet (udp_bytes_of packet))
unfolding parse_ipv4_udp_datagram
parse_ipv4_udp_datagram-IsDatagram packet d =
    let h1 = d.min_len in
    let h2 = d.version in
    let h3 = d.min_header_len in
    let h4 = d.header_inside in
    let h5 = d.total_len_inside in
    let h6 = d.unfragmented in
    let h7 = d.protocol in let h8 = d.min_udp_len in let h9 = d.udp_len_inside in ground arith

parse_inv :
    (packet : List ℕ) (p : ParsedIpv4Udp)
    → parse_ipv4_udp_datagram packet ≡ udp p
    → IsDatagram packet × (p ≡ parsed packet (udp_bytes_of packet))
unfolding parse_ipv4_udp_datagram
parse_inv packet p h = (
  record {
    min_len = ground arith;
    version = ground arith;
    min_header_len = ground arith;
    header_inside = ground arith;
    total_len_inside = ground arith;
    unfragmented = ground arith;
    protocol = ground arith;
    min_udp_len = ground arith;
    udp_len_inside = ground arith;
  },
  ground arith,
)

-- A packet parses to a UDP datagram exactly if it is one, whole and unfragmented, and to the fields
-- and the payload that its headers say.
pub parse_ipv4_udp_datagram_iff :
    (packet : List ℕ) (p : ParsedIpv4Udp)
    → (parse_ipv4_udp_datagram packet ≡ udp p)
      ↔ (IsDatagram packet × (p ≡ parsed packet (udp_bytes_of packet)))
parse_ipv4_udp_datagram_iff packet p =
    (parse_inv packet p, λ (d, e). parse_ipv4_udp_datagram-IsDatagram packet d ∙ ap udp (sym e))
