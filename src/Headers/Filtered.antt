-- ===== src/Headers/Filtered.antt =====
-- crates/fast-socket-xdp-rs/src/socket.rs and crates/fast-socket-xdp-ebpf/src/main.rs: the frames that a
-- socket parses, against what the kernel's filter reads in them.
use fast_socket_rs.Prelude.{
  ℕ, ◌+◌, ◌≤◌, ◌≡◌, refl, sym, ap, ◌∙◌, true, false, none, some, List, length, take, drop, get_or,
  length-drop, arith, ltb, ◌==◌, Bool-cases, Option-cases, inl, inr,
}
use fast_socket_rs.Prelude.Slices.{drop-drop, get_or-take, get_or-drop}
use fast_socket_rs.Filter.{
  read_array, read_u16_be, is_whole_udp, packet_ethertype, ipv4_udp_destination_port,
  packet_udp_destination_port, ethertype_ipv4,
}
use fast_socket_rs.Filter.Datagram.{behind_ethertype}
use fast_socket_rs.Headers.{byte}
use fast_socket_rs.Headers.Parse.{
  ParsedIpv4Udp, UdpParse, udp, fragment, dropped, word, header_len, parsed, ethernet_ethertype,
  parse_ipv4_udp_datagram, shift, parse_behind, parse_ethernet_ipv4_udp,
}
use fast_socket_rs.Headers.Accepted.{IsDatagram, udp_bytes_of, parse_ipv4_udp_datagram_iff}

-- What is parsed from a datagram behind a link-layer header.
abbrev pub parsed_behind : ℕ → List ℕ → ParsedIpv4Udp
parsed_behind l2_len rest =
    let q = parsed rest (udp_bytes_of rest) in
    record q { payload_offset = l2_len + q.payload_offset }

-- What a parsed frame holds: a datagram behind the link-layer header.
pub record IsFrame (frame : List ℕ) (p : ParsedIpv4Udp) : Type 0 where
  pub l2_len : ℕ
  pub at_ipv4 : ethernet_ethertype frame ≡ some (ethertype_ipv4, l2_len)
  pub is_datagram : IsDatagram (drop l2_len frame)
  pub p_eq : p ≡ parsed_behind l2_len (drop l2_len frame)

shift-udp :
    (l2_len : ℕ) (r : UdpParse ParsedIpv4Udp) (p : ParsedIpv4Udp)
    → shift l2_len r ≡ udp p
    → (q : ParsedIpv4Udp) × (r ≡ udp q)
      × (p ≡ record q { payload_offset = l2_len + q.payload_offset })
shift-udp l2_len (udp q) p h = (q, refl, cc)
shift-udp l2_len fragment p h = cc
shift-udp l2_len dropped p h = cc

not_dropped : (frame : List ℕ) {p : ParsedIpv4Udp} → parse_behind frame none ≡ udp p → ⊥
unfolding parse_behind
not_dropped frame h = cc

behind-IsFrame :
    (frame : List ℕ) (p : ParsedIpv4Udp) (ethertype l2_len : ℕ)
    → ethernet_ethertype frame ≡ some (ethertype, l2_len)
    → parse_behind frame (some (ethertype, l2_len)) ≡ udp p
    → IsFrame frame p
unfolding parse_behind
behind-IsFrame frame p ethertype l2_len e h = elim (Bool-cases (ethertype == ethertype_ipv4)) [
  | inl is_ipv4 ↦
      let rest = drop l2_len frame in
      let (q, at_q, p_eq) = shift-udp l2_len (parse_ipv4_udp_datagram rest) p (rw is_ipv4 at h) in
      let (d, q_eq) = (parse_ipv4_udp_datagram_iff rest q).0 at_q in
      let ipv4 : ethertype ≡ ethertype_ipv4 = ground arith in
      record {
        l2_len = l2_len;
        at_ipv4 = e ∙ ap (λ k. some (k, l2_len)) ipv4;
        is_datagram = d;
        p_eq =
            p_eq
            ∙ ap {A = ParsedIpv4Udp} (λ k. record k { payload_offset = l2_len + k.payload_offset })
                q_eq;
      }
  | inr other ↦ let bad = rw other at h in cc
]

pub parse_ethernet_ipv4_udp-IsFrame :
    (frame : List ℕ) (p : ParsedIpv4Udp) → parse_ethernet_ipv4_udp frame ≡ udp p → IsFrame frame p
unfolding parse_ethernet_ipv4_udp
parse_ethernet_ipv4_udp-IsFrame frame p h = elim (Option-cases (ethernet_ethertype frame)) [
  | inl e ↦ absurd (not_dropped frame (sym (ap (parse_behind frame) e) ∙ h))
  | inr ((ethertype, l2_len), e) ↦
      behind-IsFrame frame p ethertype l2_len e (sym (ap (parse_behind frame) e) ∙ h)
]

-- The bytes of a datagram in the middle of a packet, read by the filter.
read_array_inside :
    (size offset : ℕ) (packet : List ℕ)
    → offset + size ≤ length packet
    → read_array size packet offset ≡ some (take size (drop offset packet))
unfolding read_array
read_array_inside size offset packet h =
    let e : ltb (length packet) (offset + size) ≡ false = ground arith in rw e refl

read_u16_be-word :
    (frame : List ℕ) (offset : ℕ)
    → offset + 2 ≤ length frame
    → read_u16_be frame offset ≡ some (word frame offset)
unfolding read_u16_be
read_u16_be-word frame offset h =
    let two = drop offset frame in
    let high : get_or (take 2 two) 0 0 ≡ byte frame offset =
      get_or-take 2 0 two (omega arith)
      ∙ get_or-drop offset 0 frame
      ∙ ap (byte frame) (omega arith) in
    let low : get_or (take 2 two) 1 0 ≡ byte frame (offset + 1) =
      get_or-take 2 1 two (omega arith) ∙ get_or-drop offset 1 frame in
    rw (read_array_inside 2 offset frame h, high, low) refl

-- Where the frame's payload type says IPv4, the filter reads the same type at the same place.
packet_ethertype-ethernet :
    (frame : List ℕ) (l2_len : ℕ)
    → ethernet_ethertype frame ≡ some (ethertype_ipv4, l2_len)
    → packet_ethertype frame ≡ some (ethertype_ipv4, l2_len)
unfolding packet_ethertype ethernet_ethertype
packet_ethertype-ethernet frame l2_len h = elim (Bool-cases (ltb (length frame) 14)) [
  | inl short ↦ let bad = rw short at h in cc
  | inr long ↦ elim (Bool-cases (word frame 12 == 0x8100)) [
    | inl tagged ↦ elim (Bool-cases (ltb (length frame) 18)) [
      | inl cut ↦ let bad = rw (long, tagged, cut) at h in cc
      | inr whole ↦
          let at_tag = read_u16_be-word frame 12 (ground arith) in
          let at_type = read_u16_be-word frame 16 (ground arith) in
          rw (at_tag, tagged, at_type) (rw (long, tagged, whole) at h)
    ]
    | inr plain ↦
        let at_type = read_u16_be-word frame 12 (ground arith) in
        let e = rw (long, plain) at h in
        let is_ipv4 : word frame 12 ≡ 0x0800 = cc in
        let other : (word frame 12 == 0x88a8) ≡ false = ground arith in rw (at_type, plain, other) e
  ]
]

ipv4_udp_destination_port-IsDatagram :
    (frame : List ℕ) (l2_len : ℕ)
    → IsDatagram (drop l2_len frame)
    → ipv4_udp_destination_port frame l2_len
      ≡ some (some (word (udp_bytes_of (drop l2_len frame)) 2))
unfolding ipv4_udp_destination_port
ipv4_udp_destination_port-IsDatagram frame l2_len d =
    let rest = drop l2_len frame in
    let size = length-drop l2_len frame in
    let at_0 = get_or-take 20 0 rest (omega arith) in
    let at_6 = get_or-take 20 6 rest (omega arith) in
    let at_7 = get_or-take 20 7 rest (omega arith) in
    let at_9 = get_or-take 20 9 rest (omega arith) in
    let h1 = d.version in
    let h2 = d.min_header_len in
    let h3 = d.unfragmented in
    let h4 = d.protocol in
    let whole : is_whole_udp (take 20 rest) ≡ true = unfold is_whole_udp in ground arith in
    let udp_at : drop (l2_len + header_len rest) frame ≡ drop (header_len rest) rest =
      sym (drop-drop l2_len (header_len rest) frame) in
    let inside : l2_len + header_len rest + 8 ≤ length frame =
      omega (arith, d.min_udp_len, d.udp_len_inside, d.total_len_inside, d.min_len) in
    rw
      (
        read_array_inside 20 l2_len frame (omega (arith, d.min_len)),
        whole,
        at_0,
        read_array_inside 8 (l2_len + header_len rest) frame inside,
        udp_at,
      )
      refl

-- Every frame that the socket parses to a UDP datagram is one in which the kernel's filter finds
-- that datagram's destination port.
pub packet_udp_destination_port-parse :
    (frame : List ℕ) (p : ParsedIpv4Udp)
    → parse_ethernet_ipv4_udp frame ≡ udp p
    → packet_udp_destination_port frame ≡ some (some p.destination_port)
packet_udp_destination_port-parse frame p h =
    let is = parse_ethernet_ipv4_udp-IsFrame frame p h in
    let l2 = is.l2_len in
    behind_ethertype frame ethertype_ipv4 l2 (packet_ethertype-ethernet frame l2 is.at_ipv4) refl
    ∙ ipv4_udp_destination_port-IsDatagram frame l2 is.is_datagram
    ∙ ap (λ q. some (some q.destination_port)) (sym is.p_eq)
