-- ===== src/Egress.antt =====
-- crates/fast-socket-xdp-rs/src/egress.rs: the link-layer header that the transmit path puts before
-- an IP packet.
pub mod Framing
use fast_socket_rs.Prelude.{
  ℕ, ◌+◌, ◌/◌, ◌%◌, Option, none, some, List, [], ◌∷◌, ◌++◌, length, take, drop, replicate,
}

-- `LinkAddr` stands outside this file: its six octets.
pub record LinkAddr : Type 0 where
  pub octet0 : ℕ
  pub octet1 : ℕ
  pub octet2 : ℕ
  pub octet3 : ℕ
  pub octet4 : ℕ
  pub octet5 : ℕ

abbrev pub octets : LinkAddr → List ℕ
octets m = m.octet0 ∷ m.octet1 ∷ m.octet2 ∷ m.octet3 ∷ m.octet4 ∷ m.octet5 ∷ []

-- `u16::to_be_bytes`.
abbrev pub to_be_bytes : ℕ → List ℕ
to_be_bytes x = x / 256 % 256 ∷ x % 256 ∷ []

abbrev pub ethertype_ipv4 : ℕ
ethertype_ipv4 = 0x0800

abbrev pub vlan_ethertype : ℕ
vlan_ethertype = 0x8100

abbrev pub ethernet_header_len_plain : ℕ
ethernet_header_len_plain = 14

abbrev pub vlan_header_len : ℕ
vlan_header_len = 18

pub record XdpEgress : Type 0 where
  pub ifindex : ℕ
  pub queue : ℕ
  pub dst_mac : LinkAddr
  pub src_mac : LinkAddr
  pub ethertype : ℕ
  pub vlan : Option ℕ
  pub mtu : ℕ

abbrev pub ipv4 : ℕ → ℕ → LinkAddr → LinkAddr → ℕ → XdpEgress
ipv4 ifindex queue dst_mac src_mac mtu = record {
  ifindex = ifindex;
  queue = queue;
  dst_mac = dst_mac;
  src_mac = src_mac;
  ethertype = ethertype_ipv4;
  vlan = none;
  mtu = mtu;
}

abbrev pub with_vlan : ℕ → XdpEgress → XdpEgress
with_vlan vlan e = record e { vlan = some vlan }

abbrev pub without_vlan : XdpEgress → XdpEgress
without_vlan e = record e { vlan = none }

unfoldable pub ethernet_header_len : XdpEgress → ℕ
ethernet_header_len e = elim e.vlan [ some _ ↦ vlan_header_len | none ↦ ethernet_header_len_plain ]

-- `header[start..start + bytes.len()].copy_from_slice(bytes)`, of a range inside the header.
abbrev pub copy_from_slice : ℕ → List ℕ → List ℕ → List ℕ
copy_from_slice start bytes header =
    take start header ++ (bytes ++ drop (start + length bytes) header)

unfoldable pub write_ethernet_header : List ℕ → XdpEgress → List ℕ
write_ethernet_header header e =
    let addressed =
      copy_from_slice 6 (octets e.src_mac) (copy_from_slice 0 (octets e.dst_mac) header) in
    elim e.vlan [
      | some vlan ↦ copy_from_slice 16 (to_be_bytes e.ethertype) (
          copy_from_slice 14 (to_be_bytes vlan)
            (copy_from_slice 12 (to_be_bytes vlan_ethertype) addressed))
      | none ↦ copy_from_slice 12 (to_be_bytes e.ethertype) addressed
    ]

-- The buffer of `VLAN_HEADER_LEN` bytes, of which the first `l2_len` are written.
unfoldable pub build_ethernet_header : XdpEgress → List ℕ × ℕ
unfolding ethernet_header_len write_ethernet_header
build_ethernet_header e =
    let l2_len = ethernet_header_len e in
    let header = replicate vlan_header_len 0 in
    (write_ethernet_header (take l2_len header) e ++ drop l2_len header, l2_len)

pub record XdpResolvedEgress : Type 0 where
  pub egress : XdpEgress
  pub l2_bytes : List ℕ
  pub l2_len : ℕ

unfoldable pub from_egress : XdpEgress → XdpResolvedEgress
unfolding build_ethernet_header
from_egress e =
    let (l2_bytes, l2_len) = build_ethernet_header e in
    record { egress = e; l2_bytes = l2_bytes; l2_len = l2_len }

abbrev pub l2_header : XdpResolvedEgress → List ℕ
l2_header r = take r.l2_len r.l2_bytes

abbrev pub with_queue : ℕ → XdpResolvedEgress → XdpResolvedEgress
with_queue queue r = record r { egress = record (r.egress) { queue = queue } }

-- Header bytes borrowed from a gateway's prebuilt egress, or built inline for one packet.
pub data ResolvedL2 : Type 0 where
  borrowed : List ℕ → ℕ → ResolvedL2
  inline : List ℕ → ℕ → ℕ → ResolvedL2

unfoldable pub resolved_l2_header : ResolvedL2 → List ℕ
resolved_l2_header (borrowed header ip_mtu) = header
resolved_l2_header (inline header l2_len ip_mtu) = take l2_len header

unfoldable pub ip_mtu : ResolvedL2 → ℕ
ip_mtu (borrowed header mtu) = mtu
ip_mtu (inline header l2_len mtu) = mtu
