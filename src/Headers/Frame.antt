-- ===== src/Headers/Frame.antt =====
-- crates/fast-socket-xdp-rs/src/socket.rs: a frame or an IP datagram of either version, parsed for its
-- length and whether it is a fragment, and the datagrams that may be sent.
use fast_socket_rs.Prelude.{
  ℕ, zero, suc, ◌+◌, ◌-◌, ◌*◌, ◌/◌, ◌%◌, ◌^◌, Bool, true, false, not, ◌&&◌, ◌||◌, Option, none,
  some, List, [], ◌∷◌, length, drop, take, ltb, ◌==◌, if◌then◌else◌, min,
}
use fast_socket_rs.Prelude.Results.{◌>>=◌}
use fast_socket_rs.Egress.{ethertype_ipv4}
use fast_socket_rs.Headers.{
  ipv4_min_header_len, ipv6_header_len, ipv6_next_header_fragment, ethertype_ipv6, byte,
}
use fast_socket_rs.Headers.Parse.{word, header_len, ethernet_ethertype}

pub data IpVersion : Type 0 where
  ip_version4 ip_version6 : IpVersion

pub record ParsedIp : Type 0 where
  pub version : IpVersion
  pub len : ℕ
  pub is_fragment : Bool

pub record ParsedEthernet : Type 0 where
  pub l2_len : ℕ
  pub ip : ParsedIp

-- What a next-header value leads to: the end with an answer, or a further extension header, whose
-- length is counted from its second byte.
pub data NextHeader : Type 0 where
  at_fragment at_payload : NextHeader
  extension : (ℕ → ℕ) → NextHeader

unfoldable pub next_header : ℕ → NextHeader
next_header next =
    if next == ipv6_next_header_fragment
    then at_fragment
    else if (next == 0) || (next == 43) || (next == 60)
    then extension (λ units. (units + 1) * 8)
    else if next == 51
    then extension (λ units. (units + 2) * 4)
    else at_payload

-- `offset.saturating_add(extension_len)`.
abbrev pub saturating_add : ℕ → ℕ → ℕ
saturating_add a b = min (a + b) (2 ^ 64 - 1)

-- One round, with the rounds behind it.
unfoldable pub fragment_round : List ℕ → NextHeader → ℕ → (ℕ → ℕ → Option Bool) → Option Bool
fragment_round packet at_fragment offset rest = some true
fragment_round packet at_payload offset rest = some false
fragment_round packet (extension extension_len) offset rest =
    let after = saturating_add offset (extension_len (byte packet (offset + 1))) in
    if ltb (length packet) (offset + 2)
    then some false
    else if ltb (length packet) after
    then some false
    else rest (byte packet offset) after

-- The loop, on fuel; `none` is a loop that has not ended.
unfoldable pub fragment_loop : ℕ → List ℕ → ℕ → ℕ → Option Bool
unfolding next_header fragment_round
fragment_loop zero packet next offset = none
fragment_loop (suc fuel) packet next offset =
    fragment_round packet (next_header next) offset (fragment_loop fuel packet)

-- Each round goes at least a byte further into the packet.
unfoldable pub has_ipv6_fragment_header : List ℕ → Option Bool
unfolding fragment_loop
has_ipv6_fragment_header packet =
    fragment_loop (length packet + 1) packet (byte packet 6) ipv6_header_len

unfoldable pub parse_ipv4_datagram : List ℕ → Option ParsedIp
parse_ipv4_datagram packet =
    let ihl = header_len packet in
    let total_len = word packet 2 in
    if ltb (length packet) ipv4_min_header_len
    then none
    else if ltb ihl ipv4_min_header_len || ltb (length packet) ihl
    then none
    else if ltb total_len ihl || ltb (length packet) total_len
    then none
    else some (record {
      version = ip_version4;
      len = total_len;
      is_fragment = not (word packet 6 % 2 ^ 14 == 0);
    })

-- The outer `none` is the loop's. A 16-bit payload length cannot overflow a `usize`.
unfoldable pub parse_ipv6_datagram : List ℕ → Option (Option ParsedIp)
unfolding has_ipv6_fragment_header
parse_ipv6_datagram packet =
    let total_len = ipv6_header_len + word packet 4 in
    let searched = has_ipv6_fragment_header (take total_len packet) in
    if ltb (length packet) ipv6_header_len
    then some none
    else if ltb (length packet) total_len
    then some none
    else (do
      found ← searched
      some (some (record { version = ip_version6; len = total_len; is_fragment = found })))

unfoldable pub parse_ip_datagram : List ℕ → Option (Option ParsedIp)
unfolding parse_ipv4_datagram parse_ipv6_datagram
parse_ip_datagram [] = some none
parse_ip_datagram (first ∷ rest) =
    if first / 16 == 4
    then some (parse_ipv4_datagram (first ∷ rest))
    else if first / 16 == 6
    then parse_ipv6_datagram (first ∷ rest)
    else some none

unfoldable pub parse_ethernet_frame : List ℕ → Option (Option ParsedEthernet)
unfolding ethernet_ethertype parse_ip_datagram
parse_ethernet_frame frame = elim (ethernet_ethertype frame) [
  | none ↦ some none
  | some (ethertype, l2_len) ↦
      if (ethertype == ethertype_ipv4) || (ethertype == ethertype_ipv6)
      then (do
        parsed ← parse_ip_datagram (drop l2_len frame)
        elim parsed [
          | none ↦ some none
          | some ip ↦ some (some (record { l2_len = l2_len; ip = ip }))
        ])
      else some none
]

-- `match (ethertype, parsed.version)`.
abbrev pub matches_version : ℕ → IpVersion → Bool
matches_version ethertype ip_version4 = ethertype == ethertype_ipv4
matches_version ethertype ip_version6 = ethertype == ethertype_ipv6

unfoldable pub valid_tx_datagram : List ℕ → ℕ → Option Bool
unfolding parse_ip_datagram
valid_tx_datagram packet ethertype = do
  parsed ← parse_ip_datagram packet
  elim parsed [
    | none ↦ some false
    | some ip ↦
        some (
          (ip.len == length packet) && (matches_version ethertype ip.version && not ip.is_fragment))
  ]
