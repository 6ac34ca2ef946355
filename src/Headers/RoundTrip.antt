-- ===== src/Headers/RoundTrip.antt =====
-- crates/fast-socket-xdp-rs/src/socket.rs: what the receive path's parser reads from the headers of the
-- transmit path.
use fast_socket_rs.Prelude.{
  ℕ, ◌+◌, ◌-◌, ◌*◌, ◌/◌, ◌%◌, ◌^◌, ◌<◌, ◌≡◌, refl, ap, ◌∙◌, Option, none, some, List, ◌++◌, length,
  arith,
}
use fast_socket_rs.Headers.{
  EcnCodepoint, not_ect, ect0, ect1, ce, ecn_bits, ecn_from_bits, ipv4_min_header_len,
  udp_header_len,
}
use fast_socket_rs.Headers.Write.{Ipv4UdpHeaderFields, write_ipv4_udp_headers, zeroed}
use fast_socket_rs.Headers.Parse.{ParsedIpv4Udp, udp, word, parsed, parse_ipv4_udp_datagram}
use fast_socket_rs.Headers.Accepted.{IsDatagram, udp_bytes_of, parse_ipv4_udp_datagram-IsDatagram}
use fast_socket_rs.Headers.Layout.{
  ip_part, udp_part, Fits, checksum_of, write_ipv4_udp_headers-parts,
}

-- No codepoint is written as that of a transport without ECN.
abbrev pub or_not_ect : Option EcnCodepoint → EcnCodepoint
or_not_ect none = not_ect
or_not_ect (some e) = e

ecn_from_bits-ecn_bits :
    (e : Option EcnCodepoint) → ecn_from_bits (ecn_bits e % 4) ≡ some (or_not_ect e)
unfolding ecn_bits ecn_from_bits
ecn_from_bits-ecn_bits (some ect0) = refl
ecn_from_bits-ecn_bits (some ect1) = refl
ecn_from_bits-ecn_bits (some ce) = refl
ecn_from_bits-ecn_bits (some not_ect) = refl
ecn_from_bits-ecn_bits none = refl

word_back : (x : ℕ) → x < 2 ^ 16 → x / 256 % 256 * 256 + x % 256 ≡ x
word_back x h = omega arith

abbrev pub read_back : Ipv4UdpHeaderFields → ℕ → ParsedIpv4Udp
read_back f len = record {
  source = f.source;
  destination = f.destination;
  source_port = f.source_port;
  destination_port = f.destination_port;
  ip_len = f.total_len;
  payload_offset = ipv4_min_header_len + udp_header_len;
  payload_len = len;
  ecn = some (or_not_ect f.ecn);
}

module _ (f : Ipv4UdpHeaderFields) (payload : List ℕ) (fits : Fits f)
    (is_total : f.total_len ≡ length payload + 28) (is_udp : f.udp_len ≡ length payload + 8) where
  packet : ℕ → List ℕ
  packet c = ip_part f c ++ (udp_part f ++ payload)

  packet-IsDatagram : (c : ℕ) → IsDatagram (packet c)
  unfolding packet
  packet-IsDatagram c =
      let total = fits.total_len_fits in
      let udp_fits = fits.udp_len_fits in
      let all_bytes : length (packet c) ≡ length payload + 28 = omega arith in
      let total_at : word (packet c) 2 ≡ f.total_len = omega arith in
      let udp_at : word (udp_bytes_of (packet c)) 4 ≡ f.udp_len = omega arith in
      record {
        min_len = omega arith;
        version = refl;
        min_header_len = omega arith;
        header_inside = omega arith;
        total_len_inside = omega arith;
        unfragmented = refl;
        protocol = refl;
        min_udp_len = omega arith;
        udp_len_inside = omega arith;
      }

  parsed-read_back :
      (c : ℕ) → parsed (packet c) (udp_bytes_of (packet c)) ≡ read_back f (length payload)
  unfolding packet
  parsed-read_back c =
      let len : f.udp_len - 8 ≡ length payload = omega arith in
      rw
        (
          word_back f.source_port fits.source_port_fits,
          word_back f.destination_port fits.destination_port_fits,
          word_back f.total_len fits.total_len_fits,
          word_back f.udp_len fits.udp_len_fits,
          len,
          ecn_from_bits-ecn_bits f.ecn,
        )
        refl

  parse_parts : (c : ℕ) → parse_ipv4_udp_datagram (packet c) ≡ udp (read_back f (length payload))
  parse_parts c =
      parse_ipv4_udp_datagram-IsDatagram (packet c) (packet-IsDatagram c)
      ∙ ap udp (parsed-read_back c)

  -- Writing headers of fields in the range of their types, with the lengths of a payload,
  -- succeeds, and the headers with that payload behind them parse to the addresses, ports, total
  -- length and ECN codepoint that were written and to where the payload stands.
  pub parse_ipv4_udp_datagram-write :
      (headers : List ℕ) × (write_ipv4_udp_headers zeroed f ≡ some headers)
      × (parse_ipv4_udp_datagram (headers ++ payload) ≡ udp (read_back f (length payload)))
  unfolding packet
  parse_ipv4_udp_datagram-write = (
    ip_part f (checksum_of f) ++ udp_part f,
    write_ipv4_udp_headers-parts f fits,
    parse_parts (checksum_of f),
  )
