-- ===== src/Headers/Endpoint.antt =====
-- crates/fast-socket-xdp-rs/src/socket.rs: the header that a prepared UDP endpoint caches, and how a
-- send patches its lengths and its checksum in place. An early return is a clause of the function
-- for what follows it. The router is a parameter, the function that
-- `resolve_udp_l2` computes in the route context of the socket.
use fast_socket_rs.Prelude.{
  ℕ, ◌+◌, ◌-◌, ◌/◌, ◌%◌, ◌^◌, Bool, false, not, Option, none, some, List, ◌++◌, length, ltb, ◌==◌,
  if◌then◌else◌,
}
use fast_socket_rs.Prelude.Results.{◌>>=◌, Result, ok, err}
use fast_socket_rs.Egress.{to_be_bytes, copy_from_slice, ResolvedL2, resolved_l2_header, ip_mtu}
use fast_socket_rs.Headers.{
  Ipv4Addr, Error, invalid_packet, oversize_for_mtu, no_egress_route, EcnCodepoint,
  ipv4_min_header_len, udp_header_len,
}
use fast_socket_rs.Headers.Write.{complement, Ipv4UdpHeaderFields, write_ipv4_udp_headers, zeroed}
use fast_socket_rs.Headers.Parse.{word}

-- The standard library's addresses; what an IPv6 address holds is never read.
pub data IpAddr : Type 0 where
  ip_v4 : Ipv4Addr → IpAddr
  ip_v6 : List ℕ → IpAddr

pub data SocketAddr : Type 0 where
  socket_v4 : Ipv4Addr → ℕ → SocketAddr
  socket_v6 : List ℕ → ℕ → SocketAddr

pub record UdpEndpointSpec : Type 0 where
  pub destination : SocketAddr
  pub source_ip : Option IpAddr
  pub source_port : Option ℕ
  pub ecn : Option EcnCodepoint
  pub gso_segment_size : Option ℕ
  pub payload_len : Option ℕ

pub record UdpEndpointInfo : Type 0 where
  pub mtu : ℕ
  pub payload_len : Option ℕ
  pub gso_segment_size : Option ℕ

pub record XdpUdpEndpointCache : Type 0 where
  pub route_generation : ℕ
  pub header : List ℕ
  pub l2_len : ℕ

abbrev pub u16_max : ℕ
u16_max = 2 ^ 16 - 1

-- `if let Some(expected) = … && payload_len != expected`.
abbrev pub mismatch : Option ℕ → ℕ → Bool
mismatch none len = false
mismatch (some expected) len = not (len == expected)

unfoldable pub validate_payload : UdpEndpointInfo → ℕ → Result (Unit {0}) Error
validate_payload info len =
    if mismatch info.payload_len len
    then err invalid_packet
    else if ltb info.mtu len
    then err oversize_for_mtu
    else if ltb (u16_max - ipv4_min_header_len - udp_header_len) len
    then err oversize_for_mtu
    else ok tt

-- `ipv4_checksum_replace_word`: one round of carries, and the sum cut to 16 bits.
unfoldable pub replace_word : ℕ → ℕ → ℕ → ℕ
replace_word checksum old new =
    let sum = complement checksum + complement old + new in
    complement ((sum % 2 ^ 16 + sum / 2 ^ 16) % 2 ^ 16)

-- `write_be_u16`, of an index in range.
abbrev pub write_word : List ℕ → ℕ → ℕ → List ℕ
write_word bytes i value = copy_from_slice i (to_be_bytes value) bytes

unfoldable pub patch_lengths : List ℕ → ℕ → ℕ → Result (List ℕ) Error
unfolding replace_word
patch_lengths header ip_start payload_len =
    let udp_len = payload_len + udp_header_len in
    let total_len = udp_len + ipv4_min_header_len in
    if ltb u16_max total_len
    then err oversize_for_mtu
    else (let old_total_len = word header (ip_start + 2) in
        let old_checksum = word header (ip_start + 10) in
        let checksum = replace_word old_checksum old_total_len total_len in
        ok (
          write_word
            (write_word (write_word header (ip_start + 2) total_len) (ip_start + 10) checksum)
            (ip_start + 24) udp_len))

-- A fixed payload length leaves the header as it was built.
unfoldable pub update_header :
    XdpUdpEndpointCache → UdpEndpointInfo → ℕ → Result XdpUdpEndpointCache Error
unfolding validate_payload patch_lengths
update_header cache info len = elim (validate_payload info len) [
  | err e ↦ err e
  | ok _ ↦ elim info.payload_len [
    | some _ ↦ ok cache
    | none ↦ elim (patch_lengths cache.header cache.l2_len len) [
      | err e ↦ err e
      | ok header ↦ ok (record cache { header = header })
    ]
  ]
]

-- The source address, unless it is an IPv6 address.
abbrev pub source_of : Ipv4Addr → Option IpAddr → Option Ipv4Addr
source_of here none = some here
source_of here (some (ip_v4 a)) = some a
source_of here (some (ip_v6 a)) = none

abbrev pub or_zero : Option ℕ → ℕ
or_zero none = 0
or_zero (some n) = n

abbrev pub port_or : ℕ → Option ℕ → ℕ
port_or default none = default
port_or default (some port) = port

-- The fields of the header for a payload of `len` bytes.
abbrev pub fields_for :
    Ipv4Addr → Ipv4Addr → ℕ → ℕ → ℕ → Option EcnCodepoint → ℕ → Ipv4UdpHeaderFields
fields_for source destination source_port destination_port ttl ecn len = record {
  source_port = source_port;
  destination_port = destination_port;
  source = source;
  destination = destination;
  total_len = len + udp_header_len + ipv4_min_header_len;
  udp_len = len + udp_header_len;
  ttl = ttl;
  ecn = ecn;
}

module _ (resolve_udp_l2 : Ipv4Addr → Option ResolvedL2) (local_ip : Ipv4Addr) (local_port ttl : ℕ)
    (route_generation : ℕ) where
  abbrev Prepared : Type 0
  Prepared = Option (Result (XdpUdpEndpointCache × UdpEndpointInfo) Error)

  -- From where the payload is validated on. The outer `none` is a checksum loop that has not ended.
  unfoldable pub when_valid :
      UdpEndpointInfo → List ℕ → Ipv4UdpHeaderFields → Result (Unit {0}) Error → Prepared
  when_valid info l2_header fields (err e) = some (err e)
  when_valid info l2_header fields (ok _) =
      let written = write_ipv4_udp_headers zeroed fields in
      if ltb u16_max fields.total_len then some (err oversize_for_mtu) else (do
        ip_udp ← written
        some (
            ok (
              record {
                route_generation = route_generation;
                header = l2_header ++ ip_udp;
                l2_len = length l2_header;
              },
              info,
            )))

  unfoldable pub when_resolved :
      UdpEndpointSpec → Ipv4Addr → ℕ → Ipv4Addr → Option ResolvedL2 → Prepared
  unfolding validate_payload when_valid
  when_resolved spec destination destination_port source_ip none = some (err no_egress_route)
  when_resolved spec destination destination_port source_ip (some resolved) =
      let len = or_zero spec.payload_len in
      let info : UdpEndpointInfo = record {
        mtu = ip_mtu resolved - (ipv4_min_header_len + udp_header_len);
        payload_len = spec.payload_len;
        gso_segment_size = none;
      } in
      let fields =
        fields_for source_ip destination (port_or local_port spec.source_port) destination_port ttl
          spec.ecn len in
      if ltb (ip_mtu resolved) (ipv4_min_header_len + udp_header_len)
      then some (err invalid_packet)
      else when_valid info (resolved_l2_header resolved) fields (validate_payload info len)

  unfoldable pub when_unsegmented : UdpEndpointSpec → Ipv4Addr → ℕ → Ipv4Addr → Option ℕ → Prepared
  unfolding when_resolved
  when_unsegmented spec destination destination_port source_ip (some _) = some (err invalid_packet)
  when_unsegmented spec destination destination_port source_ip none =
      when_resolved spec destination destination_port source_ip (resolve_udp_l2 destination)

  unfoldable pub when_source : UdpEndpointSpec → Ipv4Addr → ℕ → Option Ipv4Addr → Prepared
  unfolding when_unsegmented
  when_source spec destination destination_port none = some (err invalid_packet)
  when_source spec destination destination_port (some source_ip) =
      when_unsegmented spec destination destination_port source_ip spec.gso_segment_size

  unfoldable pub when_destination : UdpEndpointSpec → SocketAddr → Prepared
  unfolding when_source
  when_destination spec (socket_v6 _ _) = some (err invalid_packet)
  when_destination spec (socket_v4 destination port) =
      when_source spec destination port (source_of local_ip spec.source_ip)

  unfoldable pub build_cache : UdpEndpointSpec → Prepared
  unfolding when_destination
  build_cache spec = when_destination spec spec.destination
