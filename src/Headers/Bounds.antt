-- ===== src/Headers/Bounds.antt =====
-- crates/fast-socket-xdp-rs/src/socket.rs: where the parsers say that the datagram and its payload stand.
use fast_socket_rs.Prelude.{ℕ, ◌+◌, ◌≤◌, ◌≡◌, List, length, length-drop, arith, ap, some}
use fast_socket_rs.Filter.{ethertype_ipv4}
use fast_socket_rs.Headers.Parse.{ParsedIpv4Udp, udp, ethernet_ethertype, parse_ethernet_ipv4_udp}
use fast_socket_rs.Headers.Filtered.{parse_ethernet_ipv4_udp-IsFrame}

ethernet_ethertype-le :
    (frame : List ℕ) (ethertype l2_len : ℕ)
    → ethernet_ethertype frame ≡ some (ethertype, l2_len)
    → (14 ≤ l2_len) × (l2_len ≤ length frame)
unfolding ethernet_ethertype
ethernet_ethertype-le frame ethertype l2_len h = ground arith

-- The payload of a frame that parses to a UDP datagram lies in its IP datagram, behind 28 bytes of
-- headers at least, and the IP datagram lies in the frame behind a link-layer header of at least
-- 14 bytes.
pub parse_ethernet_ipv4_udp-inside :
    (frame : List ℕ) (p : ParsedIpv4Udp)
    → parse_ethernet_ipv4_udp frame ≡ udp p
    → (l2_len : ℕ) × (14 ≤ l2_len)
      × (l2_len + 28 ≤ p.payload_offset)
      × (p.payload_offset + p.payload_len ≤ l2_len + p.ip_len)
      × (l2_len + p.ip_len ≤ length frame)
parse_ethernet_ipv4_udp-inside frame p h =
    let is = parse_ethernet_ipv4_udp-IsFrame frame p h in
    let d = is.is_datagram in
    let size = length-drop is.l2_len frame in
    let (min_l2, l2_inside) = ethernet_ethertype-le frame ethertype_ipv4 is.l2_len is.at_ipv4 in
    let offset = ap (λ q. q.payload_offset) is.p_eq in
    let len = ap (λ q. q.payload_len) is.p_eq in
    let ip_len = ap (λ q. q.ip_len) is.p_eq in
    (
      is.l2_len,
      min_l2,
      omega (arith, offset, d.min_header_len),
      omega (arith, offset, len, ip_len, d.udp_len_inside, d.min_udp_len),
      omega (arith, ip_len, d.total_len_inside, l2_inside, size),
    )
