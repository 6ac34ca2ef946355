-- ===== src/Headers/Parse.antt =====
-- crates/fast-socket-xdp-rs/src/socket.rs: a received IPv4 datagram or Ethernet frame, parsed for its
-- UDP payload, and the destination ports that a socket accepts.
use fast_socket_rs.Prelude.{
  ℕ, ◌+◌, ◌-◌, ◌*◌, ◌/◌, ◌%◌, ◌^◌, not, ◌||◌, Option, List, length, drop, take, ltb, ◌==◌,
  if◌then◌else◌,
}
use fast_socket_rs.Filter.{from_be_bytes}
use fast_socket_rs.Egress.{
  ethertype_ipv4, vlan_ethertype, ethernet_header_len_plain, vlan_header_len,
}
use fast_socket_rs.Headers.{
  Ipv4Addr, EcnCodepoint, ecn_from_bits, ipv4_min_header_len, udp_header_len, udp_protocol, byte,
}

pub record ParsedIpv4Udp : Type 0 where
  pub source : Ipv4Addr
  pub destination : Ipv4Addr
  pub source_port : ℕ
  pub destination_port : ℕ
  pub ip_len : ℕ
  pub payload_offset : ℕ
  pub payload_len : ℕ
  pub ecn : Option EcnCodepoint

pub data UdpParse {ℓ} (A : Type ℓ) : Type ℓ where
  udp : A → UdpParse A
  fragment : UdpParse A
  dropped : UdpParse A

-- `u16::from_be_bytes` of the two bytes at an index in range.
abbrev pub word : List ℕ → ℕ → ℕ
word bytes i = from_be_bytes (byte bytes i) (byte bytes (i + 1))

abbrev pub address : List ℕ → ℕ → Ipv4Addr
address bytes i = record {
  octet0 = byte bytes i;
  octet1 = byte bytes (i + 1);
  octet2 = byte bytes (i + 2);
  octet3 = byte bytes (i + 3);
}

-- `usize::from(packet[0] & 0x0f) * 4`.
abbrev pub header_len : List ℕ → ℕ
header_len packet = byte packet 0 % 16 * 4

-- The datagram whose checks have passed, with its UDP header.
abbrev pub parsed : List ℕ → List ℕ → ParsedIpv4Udp
parsed packet udp_bytes = record {
  source = address packet 12;
  destination = address packet 16;
  source_port = word udp_bytes 0;
  destination_port = word udp_bytes 2;
  ip_len = word packet 2;
  payload_offset = header_len packet + udp_header_len;
  payload_len = word udp_bytes 4 - udp_header_len;
  ecn = ecn_from_bits (byte packet 1 % 4);
}

unfoldable pub parse_ipv4_udp_datagram : List ℕ → UdpParse ParsedIpv4Udp
parse_ipv4_udp_datagram packet =
    let ihl = header_len packet in
    let total_len = word packet 2 in
    let udp_bytes = take udp_header_len (drop ihl packet) in
    let udp_len = word udp_bytes 4 in
    if ltb (length packet) ipv4_min_header_len
    then dropped
    else if not (byte packet 0 / 16 == 4)
    then dropped
    else if ltb ihl ipv4_min_header_len || ltb (length packet) ihl
    then dropped
    else if ltb total_len ihl || ltb (length packet) total_len
    then dropped
    else if not (word packet 6 % 2 ^ 14 == 0)
    then fragment
    else if not (byte packet 9 == udp_protocol) || ltb total_len (ihl + udp_header_len)
    then dropped
    else if ltb udp_len udp_header_len || ltb total_len (ihl + udp_len)
    then dropped
    else udp (parsed packet udp_bytes)

-- The payload type and the length of the link-layer header, behind at most one tag.
unfoldable pub ethernet_ethertype : List ℕ → Option (ℕ × ℕ)
ethernet_ethertype frame =
    if ltb (length frame) ethernet_header_len_plain
    then Option.none
    else if word frame 12 == vlan_ethertype
    then (if ltb (length frame) vlan_header_len
        then Option.none
        else Option.some (word frame 16, vlan_header_len))
    else Option.some (word frame 12, ethernet_header_len_plain)

-- `ParsedEthernetIpv4Udp` has the same fields, its payload's offset into the frame.
abbrev pub shift : ℕ → UdpParse ParsedIpv4Udp → UdpParse ParsedIpv4Udp
shift l2_len (udp p) = udp (record p { payload_offset = l2_len + p.payload_offset })
shift l2_len fragment = fragment
shift l2_len dropped = dropped

unfoldable pub parse_behind : List ℕ → Option (ℕ × ℕ) → UdpParse ParsedIpv4Udp
unfolding parse_ipv4_udp_datagram
parse_behind frame Option.none = dropped
parse_behind frame (Option.some (ethertype, l2_len)) =
    if ethertype == ethertype_ipv4
    then shift l2_len (parse_ipv4_udp_datagram (drop l2_len frame))
    else dropped

unfoldable pub parse_ethernet_ipv4_udp : List ℕ → UdpParse ParsedIpv4Udp
unfolding ethernet_ethertype parse_behind
parse_ethernet_ipv4_udp frame = parse_behind frame (ethernet_ethertype frame)
