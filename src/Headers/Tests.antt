-- ===== src/Headers/Tests.antt =====
-- Headers from 10.0.0.1 to 172.16.196.192, written, patched, parsed and filtered.
use fast_socket_rs.Prelude.{
  ℕ, ◌+◌, ◌-◌, ◌%◌, ◌^◌, ◌≤◌, ◌≡◌, ◌≢◌, ◌↔◌, refl, true, Bool, Option, none, some, List, [], ◌∷◌,
  ◌++◌, take, replicate, arith,
}
use fast_socket_rs.Prelude.Results.{Result, ok, err}
use fast_socket_rs.PacketBuf.{as_slice}
use fast_socket_rs.PacketBuf.Refines.{IsInFrame, packet_of}
use fast_socket_rs.Headers.Transmit.{UdpTransmit, prepare_in_place, restore_in_place}
use fast_socket_rs.Headers.Restored.{restore_in_place-prepare}
use fast_socket_rs.Egress.{ResolvedL2, borrowed}
use fast_socket_rs.Filter.{packet_udp_destination_port}
use fast_socket_rs.Headers.{Ipv4Addr, Error, ipv6_header_len, byte}
use fast_socket_rs.Headers.Write.{
  Ipv4UdpHeaderFields, ipv4_header_checksum, write_ipv4_udp_headers, zeroed,
}
use fast_socket_rs.Headers.Parse.{udp, parse_ipv4_udp_datagram, parse_ethernet_ipv4_udp}
use fast_socket_rs.Headers.Frame.{has_ipv6_fragment_header}
use fast_socket_rs.Headers.Endpoint.{
  UdpEndpointSpec, socket_v4, patch_lengths, replace_word, fields_for,
}
use fast_socket_rs.Headers.Checksum.{folded, words_sum}
use fast_socket_rs.Headers.Layout.{
  ip_part, udp_part, Fits, rest_sum, ipv4_header_checksum-write, IsAddr, checksum_of,
  write_ipv4_udp_headers-parts,
}
use fast_socket_rs.Headers.RoundTrip.{read_back, parse_ipv4_udp_datagram-write}
use fast_socket_rs.Headers.Filtered.{parsed_behind, packet_udp_destination_port-parse}
use fast_socket_rs.Headers.Bounds.{parse_ethernet_ipv4_udp-inside}
use fast_socket_rs.Headers.Chain.{Leads, has_ipv6_fragment_header-Leads}
use fast_socket_rs.Headers.Patched.{patch_lengths-write}
use fast_socket_rs.Headers.Valid.{IsSpec}
use fast_socket_rs.Headers.Prepared.{Built, build_cache-Built}
use fast_socket_rs.Headers.Ports.{
  port_list, from_ports, accepts, contains, Ascends, from_ports-accepts,
}

abbrev source : Ipv4Addr
source = record { octet0 = 10; octet1 = 0; octet2 = 0; octet3 = 1 }

abbrev destination : Ipv4Addr
destination = record { octet0 = 172; octet1 = 16; octet2 = 196; octet3 = 192 }

abbrev fields : ℕ → Ipv4UdpHeaderFields
fields len = fields_for source destination 4000 4433 64 none len

is_source : IsAddr source
unfolding IsAddr
is_source = (omega arith, omega arith, omega arith, omega arith)

is_destination : IsAddr destination
unfolding IsAddr
is_destination = (omega arith, omega arith, omega arith, omega arith)

fields-Fits : (len : ℕ) → len ≤ 1000 → Fits (fields len)
fields-Fits len h = record {
  source_port_fits = omega arith;
  destination_port_fits = omega arith;
  source_fits = is_source;
  destination_fits = is_destination;
  total_len_fits = omega arith;
  udp_len_fits = omega arith;
  ttl_fits = omega arith;
}

abbrev payload : List ℕ
payload = 1 ∷ 2 ∷ 3 ∷ []

ipv4_header_checksum-write_example :
    (headers : List ℕ) × (write_ipv4_udp_headers zeroed (fields 3) ≡ some headers)
    × (words_sum (take 20 headers) % (2 ^ 16 - 1) ≡ 0)
    × (ipv4_header_checksum (take 20 headers) ≡ some 0)
ipv4_header_checksum-write_example =
    ipv4_header_checksum-write (fields 3) (fields-Fits 3 (omega arith))

parse_ipv4_udp_datagram-write_example :
    (headers : List ℕ) × (write_ipv4_udp_headers zeroed (fields 3) ≡ some headers)
    × (parse_ipv4_udp_datagram (headers ++ payload) ≡ udp (read_back (fields 3) 3))
parse_ipv4_udp_datagram-write_example =
    parse_ipv4_udp_datagram-write (fields 3) payload (fields-Fits 3 (omega arith)) refl refl

abbrev datagram : List ℕ
datagram = ip_part (fields 3) 0 ++ (udp_part (fields 3) ++ payload)

abbrev frame : List ℕ
frame = replicate 12 2 ++ (0x08 ∷ 0x00 ∷ datagram)

frame_parsed : parse_ethernet_ipv4_udp frame ≡ udp (parsed_behind 14 datagram)
unfolding parse_ethernet_ipv4_udp
frame_parsed = refl

packet_udp_destination_port-parse_example : packet_udp_destination_port frame ≡ some (some 4433)
packet_udp_destination_port-parse_example =
    packet_udp_destination_port-parse frame (parsed_behind 14 datagram) frame_parsed

parse_ethernet_ipv4_udp-inside_example :
    (l2_len : ℕ) × (14 ≤ l2_len) × (l2_len + 28 ≤ 42) × (42 + 3 ≤ l2_len + 31) × (l2_len + 31 ≤ 45)
parse_ethernet_ipv4_udp-inside_example =
    parse_ethernet_ipv4_udp-inside frame (parsed_behind 14 datagram) frame_parsed

-- A hop-by-hop header before a fragment header.
abbrev ipv6_fragment : List ℕ
ipv6_fragment = replicate 6 0 ++ (0 ∷ (replicate 33 0 ++ (44 ∷ 0 ∷ replicate 14 0)))

has_ipv6_fragment_header-Leads_example :
    (found : Bool) × (has_ipv6_fragment_header ipv6_fragment ≡ some found)
    × ((found ≡ true) ↔ Leads ipv6_fragment (byte ipv6_fragment 6) ipv6_header_len)
has_ipv6_fragment_header-Leads_example = has_ipv6_fragment_header-Leads ipv6_fragment (omega arith)

has_fragment : has_ipv6_fragment_header ipv6_fragment ≡ some true
unfolding has_ipv6_fragment_header
has_fragment = refl

abbrev header : ℕ → List ℕ
header len = ip_part (fields len) (checksum_of (fields len)) ++ udp_part (fields len)

patch_lengths-write_example :
    (patch_lengths (7 ∷ header 0) 1 3 ≡ ok (7 ∷ header 3))
    ↔ (folded (rest_sum (fields 0) + 28) + 31 ≢ 2 ^ 16 + 28)
patch_lengths-write_example =
    patch_lengths-write (fields 0) (fields-Fits 0 (omega arith)) (7 ∷ []) 3 (omega arith) (header 0)
      (header 3) (write_ipv4_udp_headers-parts (fields 0) (fields-Fits 0 (omega arith)))
      (write_ipv4_udp_headers-parts (fields 3) (fields-Fits 3 (omega arith)))

-- From no payload to one byte, the patched checksum is off by one: 65535 for 65534.
off_by_one :
    (checksum_of (fields 0) ≡ 0)
    × (checksum_of (fields 1) ≡ 65534)
    × (replace_word (checksum_of (fields 0)) 28 29 ≡ 65535)
unfolding checksum_of replace_word
off_by_one = (refl, refl, refl)

abbrev spec : UdpEndpointSpec
spec = record {
  destination = socket_v4 destination 4433;
  source_ip = none;
  source_port = none;
  ecn = none;
  gso_segment_size = none;
  payload_len = some 3;
}

spec-IsSpec : IsSpec spec
spec-IsSpec = record {
  is_destination = (is_destination, omega arith);
  is_source = tt;
  is_port = tt;
}

abbrev router : Ipv4Addr → Option ResolvedL2
router dst = some (borrowed (replicate 14 2) 1500)

build_cache-Built_example : Built router source 4000 64 0 spec
build_cache-Built_example =
    build_cache-Built router source 4000 64 0 spec spec-IsSpec is_source (omega arith) (omega arith)

from_ports-accepts_example :
    (kept : List ℕ) × (from_ports (9 ∷ 3 ∷ 9 ∷ []) ≡ some (port_list kept))
    × Ascends 0 kept
    × ((port : ℕ) → accepts (port_list kept) port ≡ contains (9 ∷ 3 ∷ 9 ∷ []) port)
from_ports-accepts_example = from_ports-accepts 9 (3 ∷ 9 ∷ [])

abbrev send : UdpTransmit
send = record {
  packet = record {
    frame = replicate 50 0 ++ (1 ∷ 2 ∷ 3 ∷ replicate 3 0);
    l2_headroom = 14;
    start = 50;
    end = 53;
  };
  destination = socket_v4 destination 4433;
  source_ip = none;
  source_port = none;
  ecn = none;
}

abbrev or_send : Option (Result UdpTransmit Error) → UdpTransmit
or_send (some (ok tx)) = tx
or_send (some (err e)) = send
or_send none = send

abbrev ready : UdpTransmit
ready = or_send (prepare_in_place source 4000 64 1500 send)

send_prepared : prepare_in_place source 4000 64 1500 send ≡ some (ok ready)
unfolding prepare_in_place
send_prepared = refl

send-IsInFrame : IsInFrame send.packet
send-IsInFrame = record { reserve = omega arith; in_order = omega arith; inside = omega arith }

restore_in_place-prepare_example :
    (written : Ipv4UdpHeaderFields) × (headers : List ℕ) × (write_ipv4_udp_headers zeroed written
      ≡ some headers)
    × (as_slice ready.packet ≡ headers ++ (1 ∷ 2 ∷ 3 ∷ []))
    × (back : UdpTransmit) × (restore_in_place ready ≡ ok back)
    × (packet_of back.packet ≡ packet_of send.packet)
restore_in_place-prepare_example =
    restore_in_place-prepare source 4000 64 1500 send ready send-IsInFrame send_prepared
