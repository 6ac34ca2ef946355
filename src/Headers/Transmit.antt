-- ===== src/Headers/Transmit.antt =====
-- crates/fast-socket-xdp-rs/src/socket.rs: a UDP send that writes its headers in front of the payload, in the
-- frame, and takes them off again where the send did not happen.
use fast_socket_rs.Prelude.{ℕ, ◌+◌, ◌-◌, Option, none, some, ltb, if◌then◌else◌}
use fast_socket_rs.Prelude.Results.{◌>>=◌, Result, ok, err}
use fast_socket_rs.PacketBuf.{BufferError, PacketBuf, packet_len, prepend, trim_prefix}
use fast_socket_rs.Headers.{
  Ipv4Addr, Error, invalid_packet, oversize_for_mtu, EcnCodepoint, ipv4_min_header_len,
  udp_header_len,
}
use fast_socket_rs.Headers.Write.{write_ipv4_udp_headers, zeroed}
use fast_socket_rs.Headers.Endpoint.{
  IpAddr, SocketAddr, socket_v4, socket_v6, source_of, port_or, u16_max, fields_for,
}

pub record UdpTransmit : Type 0 where
  pub packet : PacketBuf
  pub destination : SocketAddr
  pub source_ip : Option IpAddr
  pub source_port : Option ℕ
  pub ecn : Option EcnCodepoint

-- `map_err(|_| Error::InvalidPacket)`.
abbrev pub with_packet : UdpTransmit → Result PacketBuf BufferError → Result UdpTransmit Error
with_packet tx (ok packet) = ok (record tx { packet = packet })
with_packet tx (err e) = err invalid_packet

module _ (local_ip : Ipv4Addr) (local_port ttl ip_mtu : ℕ) where
  -- From the check of the MTU on; the outer `none` is a checksum loop that has not ended.
  unfoldable pub prepare_from :
      UdpTransmit → Ipv4Addr → ℕ → Option Ipv4Addr → Option (Result UdpTransmit Error)
  unfolding write_ipv4_udp_headers prepend
  prepare_from tx destination port none = some (err invalid_packet)
  prepare_from tx destination port (some source_ip) =
      let payload_len = packet_len tx.packet in
      let headers = write_ipv4_udp_headers zeroed (
        fields_for source_ip destination (port_or local_port tx.source_port) port ttl tx.ecn
          payload_len) in
      if ltb ip_mtu (ipv4_min_header_len + udp_header_len)
      then some (err invalid_packet)
      else if ltb (ip_mtu - (ipv4_min_header_len + udp_header_len)) payload_len
      then some (err oversize_for_mtu)
      else if ltb u16_max (payload_len + udp_header_len + ipv4_min_header_len)
      then some (err oversize_for_mtu)
      else (do written ← headers; some (with_packet tx (prepend written tx.packet)))

  unfoldable pub prepare_to : UdpTransmit → SocketAddr → Option (Result UdpTransmit Error)
  unfolding prepare_from
  prepare_to tx (socket_v6 _ _) = some (err invalid_packet)
  prepare_to tx (socket_v4 destination port) =
      prepare_from tx destination port (source_of local_ip tx.source_ip)

  unfoldable pub prepare_in_place : UdpTransmit → Option (Result UdpTransmit Error)
  unfolding prepare_to
  prepare_in_place tx = prepare_to tx tx.destination

unfoldable pub restore_in_place : UdpTransmit → Result UdpTransmit Error
unfolding trim_prefix
restore_in_place tx = with_packet tx (trim_prefix (ipv4_min_header_len + udp_header_len) tx.packet)
