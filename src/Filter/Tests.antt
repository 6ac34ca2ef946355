-- ===== src/Filter/Tests.antt =====
-- A tagged UDP datagram to port 4433 with four bytes of IPv4 options, and the two programs on it.
use fast_socket_rs.Prelude.{
  ℕ, ◌≡◌, refl, Option, none, some, List, [], ◌∷◌, ◌++◌, arith, replicate, ◌==◌, if◌then◌else◌,
}
use fast_socket_rs.Egress.{
  LinkAddr, XdpEgress, ipv4, with_vlan, from_egress, l2_header, ethernet_header_len,
}
use fast_socket_rs.Egress.Framing.{packet_ethertype-l2_header}
use fast_socket_rs.Filter.{
  Maps, Action, xdp_redirect, packet_ethertype, packet_udp_destination_port,
}
use fast_socket_rs.Filter.Datagram.{Datagram, bytes_of, packet_udp_destination_port-frame}

abbrev mac : ℕ → LinkAddr
mac n = record { octet0 = 2; octet1 = 0; octet2 = 0; octet3 = 0; octet4 = 0; octet5 = n }

abbrev egress : XdpEgress
egress = with_vlan 7 (ipv4 3 0 (mac 1) (mac 2) 1500)

abbrev ip_header : List ℕ
ip_header =
    0x46 ∷ 0 ∷ 0 ∷ 32 ∷ 0 ∷ 0 ∷ 0x40 ∷ 0 ∷ 64 ∷ 17 ∷ 0 ∷ 0 ∷ 10 ∷ 0 ∷ 0 ∷ 1 ∷ 10 ∷ 0 ∷ 0 ∷ 2 ∷ []

abbrev datagram : Datagram
datagram = record {
  header = ip_header;
  options = replicate 4 1;
  udp = 0x30 ∷ 0x39 ∷ 0x11 ∷ 0x51 ∷ 0 ∷ 8 ∷ 0 ∷ 0 ∷ [];
  data_bytes = [];
  header_len = refl;
  options_len = refl;
  udp_len = refl;
  version = refl;
  not_fragment = refl;
  protocol = refl;
}

abbrev packet : List ℕ
packet = l2_header (from_egress egress) ++ bytes_of datagram

packet_ethertype-l2_header_example :
    packet_ethertype packet ≡ some (0x0800, ethernet_header_len egress)
packet_ethertype-l2_header_example =
    packet_ethertype-l2_header egress (bytes_of datagram) (omega arith) (omega arith) (omega arith)

packet_udp_destination_port-frame_example : packet_udp_destination_port packet ≡ some (some 4433)
packet_udp_destination_port-frame_example = packet_udp_destination_port-frame egress datagram refl

abbrev maps : Maps
maps = record {
  bound_port_count = 1 ∷ [];
  bound_ports = replicate 10 0;
  bound_port_range = 4000 ∷ 5000 ∷ [];
  drop_counters = 0 ∷ 0 ∷ [];
}

-- Queue 0 has a socket, the others have none.
abbrev redirect : ℕ → Option Action
redirect queue_id = if queue_id == 0 then some xdp_redirect else none
