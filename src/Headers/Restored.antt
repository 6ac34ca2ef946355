-- ===== src/Headers/Restored.antt =====
-- crates/fast-socket-xdp-rs/src/socket.rs: a send prepared in place, and what restoring it leaves.
use fast_socket_rs.Prelude.{
  ℕ, ◌+◌, ◌-◌, ◌≤◌, ◌≡◌, refl, sym, subst, ap, ◌∙◌, false, Option, none, some, List, ◌++◌, length,
  length-append, drop, take, ltb, arith, Bool-cases, inl, inr,
}
use fast_socket_rs.Prelude.Results.{>>=-eq-some, eq_of_some, Result, ok, err}
use fast_socket_rs.Prelude.Slices.{drop_behind}
use fast_socket_rs.PacketBuf.{BufferError, PacketBuf, packet_len, as_slice, prepend, trim_prefix}
use fast_socket_rs.PacketBuf.Refines.{
  IsInFrame, Packet, Agree, both_ok, packet_of, promised, do_prepend, do_trim_prefix, run-promised,
  run, packet_eq,
}
use fast_socket_rs.Headers.{Ipv4Addr, Error}
use fast_socket_rs.Headers.Write.{
  Ipv4UdpHeaderFields, ipv4_header_checksum, unsummed, write_ipv4_udp_headers, zeroed,
}
use fast_socket_rs.Headers.Endpoint.{
  SocketAddr, socket_v4, socket_v6, source_of, port_or, u16_max, fields_for,
}
use fast_socket_rs.Headers.Transmit.{
  UdpTransmit, with_packet, prepare_from, prepare_to, prepare_in_place, restore_in_place,
}

length-write_ipv4_udp_headers :
    (f : Ipv4UdpHeaderFields) (headers : List ℕ)
    → write_ipv4_udp_headers zeroed f ≡ some headers
    → length headers ≡ 28
unfolding write_ipv4_udp_headers
length-write_ipv4_udp_headers f headers h =
    let (checksum, _, last) =
      >>=-eq-some (ipv4_header_checksum (take 20 (unsummed f zeroed))) _ h in
    ap length (sym (eq_of_some last))

Agree-ok :
    {b : PacketBuf} {r : Result Packet BufferError}
    → Agree (ok b) r
    → (p : Packet) × (r ≡ ok p) × IsInFrame b × (packet_of b ≡ p)
Agree-ok (both_ok {p = p} w e) = (p, refl, w, e)

err≢ok : {e : BufferError} {p : Packet} → ◌≡◌ {A = Result Packet BufferError} (err e) (ok p) → ⊥
err≢ok h = cc

ok_eq : {p q : Packet} → ◌≡◌ {A = Result Packet BufferError} (ok p) (ok q) → p ≡ q
ok_eq h = cc

prepended_packet :
    (bytes : List ℕ) (b b' : PacketBuf)
    → IsInFrame b
    → prepend bytes b ≡ ok b'
    → IsInFrame b'
      × (length bytes ≤ (packet_of b).before)
      × (packet_of b' ≡ record (packet_of b) {
        bytes = bytes ++ as_slice b;
        before = (packet_of b).before - length bytes;
      })
unfolding run promised
prepended_packet bytes b b' w h =
    let agree = run-promised (do_prepend bytes) b w in
    let (p, as_promised, w', is_p) =
      Agree-ok (subst (λ r. Agree r (promised (do_prepend bytes) (packet_of b))) h agree) in
    elim (Bool-cases (ltb (packet_of b).before (length bytes))) [
      | inl full ↦ absurd (err≢ok (rw full at as_promised))
      | inr room ↦ (w', ground arith, is_p ∙ sym (ok_eq (rw room at as_promised)))
    ]

ok-Agree :
    {r : Result PacketBuf BufferError} {p : Packet}
    → Agree r (ok p)
    → (b : PacketBuf) × (r ≡ ok b) × IsInFrame b × (packet_of b ≡ p)
ok-Agree (both_ok {b = b} w e) = (b, refl, w, e)

trimmed_packet :
    (len : ℕ) (b : PacketBuf) {p : Packet}
    → IsInFrame b
    → len ≤ length (as_slice b)
    → record (packet_of b) { bytes = drop len (as_slice b); before = (packet_of b).before + len }
      ≡ p
    → (b' : PacketBuf) × (trim_prefix len b ≡ ok b') × (packet_of b' ≡ p)
unfolding run promised
trimmed_packet len b w fits e =
    let short : ltb (length (as_slice b)) len ≡ false = ground arith in
    let agree = run-promised (do_trim_prefix len) b w in
    let (b', trimmed, _, is_p) = ok-Agree (rw short at agree) in (b', trimmed, is_p ∙ e)

-- What a send that was prepared went through.
record Prepared (tx tx' : UdpTransmit) : Type 0 where
  fields : Ipv4UdpHeaderFields
  headers : List ℕ
  written : write_ipv4_udp_headers zeroed fields ≡ some headers
  prepended : prepend headers tx.packet ≡ ok tx'.packet

refused≢ok :
    {e : Error} {tx : UdpTransmit}
    → ◌≡◌ {A = Option (Result UdpTransmit Error)} (some (err e)) (some (ok tx))
    → ⊥
refused≢ok h = cc

ok_packet :
    {a b : UdpTransmit} → ◌≡◌ {A = Result UdpTransmit Error} (ok a) (ok b) → a.packet ≡ b.packet
ok_packet h = cc

with_packet_ok :
    (tx tx' : UdpTransmit) (r : Result PacketBuf BufferError)
    → with_packet tx r ≡ ok tx'
    → r ≡ ok tx'.packet
with_packet_ok tx tx' (ok packet) h = ap ok (ok_packet h)
with_packet_ok tx tx' (err e) h = cc

module _ (local_ip : Ipv4Addr) (local_port ttl ip_mtu : ℕ) (tx tx' : UdpTransmit) where
  prepare_from-Prepared :
      (destination : Ipv4Addr) (port : ℕ) (source : Option Ipv4Addr)
      → prepare_from local_ip local_port ttl ip_mtu tx destination port source ≡ some (ok tx')
      → Prepared tx tx'
  unfolding prepare_from
  prepare_from-Prepared destination port none h = absurd (refused≢ok h)
  prepare_from-Prepared destination port (some source_ip) h =
      let len = packet_len tx.packet in
      let fields =
        fields_for source_ip destination (port_or local_port tx.source_port) port ttl tx.ecn len in
      elim (Bool-cases (ltb ip_mtu 28)) [
        | inl tiny ↦ absurd (refused≢ok (rw tiny at h))
        | inr room ↦ elim (Bool-cases (ltb (ip_mtu - 28) len)) [
          | inl long ↦ absurd (refused≢ok (rw (room, long) at h))
          | inr fits ↦ elim (Bool-cases (ltb u16_max (len + 8 + 20))) [
            | inl large ↦ absurd (refused≢ok (rw (room, fits, large) at h))
            | inr small ↦
                let (headers, written, last) =
                  >>=-eq-some (write_ipv4_udp_headers zeroed fields) _
                    (rw (room, fits, small) at h) in
                record {
                  fields = fields;
                  headers = headers;
                  written = written;
                  prepended = with_packet_ok tx tx' (prepend headers tx.packet) (eq_of_some last);
                }
          ]
        ]
      ]

  prepare_to-Prepared :
      (destination : SocketAddr)
      → prepare_to local_ip local_port ttl ip_mtu tx destination ≡ some (ok tx')
      → Prepared tx tx'
  unfolding prepare_to
  prepare_to-Prepared (socket_v6 a port) h = absurd (refused≢ok h)
  prepare_to-Prepared (socket_v4 destination port) h =
      prepare_from-Prepared destination port (source_of local_ip tx.source_ip) h

  -- Where a send was prepared in place, on a packet that lies in its frame, the headers that were
  -- written stand before the payload, and restoring the send succeeds and gives back the packet as
  -- it was: its bytes, and the room before and behind them.
  pub restore_in_place-prepare :
      IsInFrame tx.packet
      → prepare_in_place local_ip local_port ttl ip_mtu tx ≡ some (ok tx')
      → (fields : Ipv4UdpHeaderFields) × (headers : List ℕ) × (write_ipv4_udp_headers zeroed fields
          ≡ some headers)
        × (as_slice tx'.packet ≡ headers ++ as_slice tx.packet)
        × (tx'' : UdpTransmit) × (restore_in_place tx' ≡ ok tx'')
        × (packet_of tx''.packet ≡ packet_of tx.packet)
  unfolding prepare_in_place restore_in_place
  restore_in_place-prepare w h =
      let d = prepare_to-Prepared tx.destination h in
      let n = length-write_ipv4_udp_headers d.fields d.headers d.written in
      let (w', fits, is_p) = prepended_packet d.headers tx.packet tx'.packet w d.prepended in
      let bytes = ap (λ p. p.bytes) is_p in
      let size = ap length bytes in
      let both = length-append d.headers (as_slice tx.packet) in
      let before = ap (λ p. p.before) is_p in
      let payload : drop 28 (as_slice tx'.packet) ≡ as_slice tx.packet =
        ap (drop 28) bytes ∙ drop_behind d.headers (as_slice tx.packet) 0 28 (omega (arith, n)) in
      let back = packet_eq payload (omega (arith, before, n, fits)) (ap (λ p. p.behind) is_p) in
      let (b, trimmed, same) =
        trimmed_packet 28 tx'.packet w' (omega (arith, size, both, n)) back in
      (d.fields, d.headers, d.written, bytes, record tx' { packet = b }, rw trimmed refl, same)
