-- ===== src/Filter/Datagram.antt =====
-- UDP datagrams behind a header of the transmit path, read by the filter of main.rs.
use mathlib.Core.List.{append_assoc}
use fast_socket_rs.Prelude.{
  ℕ, ◌+◌, ◌*◌, ◌/◌, ◌%◌, ◌^◌, ◌≡◌, refl, sym, ◌∙◌, ap, subst, true, some, List, ◌++◌, length,
  length-append, get_or, arith,
}
use fast_socket_rs.Egress.{XdpEgress, from_egress, l2_header, ethernet_header_len}
use fast_socket_rs.Egress.Framing.{read_array-append, packet_ethertype-l2_header, length-l2_header}
use fast_socket_rs.Filter.{
  from_be_bytes, read_array, is_whole_udp, ipv4_udp_destination_port, packet_udp_destination_port,
  packet_ethertype, ethertype_ipv4,
}

-- An IPv4 header of 20 bytes, its options, a UDP header, and the data.
pub record Datagram : Type 0 where
  pub header : List ℕ
  pub options : List ℕ
  pub udp : List ℕ
  pub data_bytes : List ℕ
  pub header_len : length header ≡ 20
  pub options_len : 20 + length options ≡ get_or header 0 0 % 16 * 4
  pub udp_len : length udp ≡ 8
  pub version : get_or header 0 0 / 16 ≡ 4
  -- Neither an offset nor a fragment to follow.
  pub not_fragment : (get_or header 6 0 * 256 + get_or header 7 0) % 2 ^ 14 ≡ 0
  pub protocol : get_or header 9 0 ≡ 17

abbrev pub bytes_of : Datagram → List ℕ
bytes_of d = d.header ++ (d.options ++ (d.udp ++ d.data_bytes))

module _ (front : List ℕ) (d : Datagram) where
  whole_udp : is_whole_udp d.header ≡ true
  unfolding is_whole_udp
  whole_udp =
      let version = d.version in
      let len = d.options_len in
      let not_fragment = d.not_fragment in let protocol = d.protocol in ground arith

  read_header : read_array 20 (front ++ bytes_of d) (length front) ≡ some d.header
  read_header =
      subst (λ n. read_array n (front ++ bytes_of d) (length front) ≡ some d.header) d.header_len
        (read_array-append front d.header (d.options ++ (d.udp ++ d.data_bytes)))

  regroup : (front ++ d.header ++ d.options) ++ (d.udp ++ d.data_bytes) ≡ front ++ bytes_of d
  regroup =
      append_assoc (front ++ d.header) d.options (d.udp ++ d.data_bytes)
      ∙ append_assoc front d.header (d.options ++ (d.udp ++ d.data_bytes))

  udp_offset : length (front ++ d.header ++ d.options) ≡ length front + get_or d.header 0 0 % 16 * 4
  udp_offset = omega (
    arith,
    length-append (front ++ d.header) d.options,
    length-append front d.header,
    d.header_len,
    d.options_len,
  )

  read_udp :
      read_array 8 (front ++ bytes_of d) (length front + get_or d.header 0 0 % 16 * 4) ≡ some d.udp
  read_udp =
      rw (← regroup, ← udp_offset, ← d.udp_len)
        (read_array-append (front ++ d.header ++ d.options) d.udp d.data_bytes)

  ipv4_port :
      ipv4_udp_destination_port (front ++ bytes_of d) (length front)
      ≡ some (some (from_be_bytes (get_or d.udp 2 0) (get_or d.udp 3 0)))
  unfolding ipv4_udp_destination_port
  ipv4_port = rw (read_header, whole_udp, read_udp) refl

-- Behind a payload type of IPv4.
pub behind_ethertype :
    (packet : List ℕ) (ethertype l2_len : ℕ)
    → packet_ethertype packet ≡ some (ethertype, l2_len)
    → ethertype ≡ ethertype_ipv4
    → packet_udp_destination_port packet ≡ ipv4_udp_destination_port packet l2_len
unfolding packet_udp_destination_port
behind_ethertype packet ethertype l2_len at_type ipv4 = rw (at_type, ipv4) refl

-- Behind the link-layer header of an egress for IPv4, tagged or not, the filter finds the
-- destination port of every datagram whose header says version 4, UDP, no fragment offset and no
-- fragment to follow, and has 20 bytes and options of the length that it says.
pub packet_udp_destination_port-frame :
    (e : XdpEgress) (d : Datagram)
    → e.ethertype ≡ ethertype_ipv4
    → packet_udp_destination_port (l2_header (from_egress e) ++ bytes_of d)
      ≡ some (some (from_be_bytes (get_or d.udp 2 0) (get_or d.udp 3 0)))
packet_udp_destination_port-frame e d ipv4 =
    let packet = l2_header (from_egress e) ++ bytes_of d in
    behind_ethertype packet e.ethertype (ethernet_header_len e)
      (packet_ethertype-l2_header e (bytes_of d) (omega arith) (omega arith) (omega arith)) ipv4
    ∙ ap (ipv4_udp_destination_port packet) (sym (length-l2_header e))
    ∙ ipv4_port (l2_header (from_egress e)) d
