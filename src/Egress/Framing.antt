-- ===== src/Egress/Framing.antt =====
-- The headers of egress.rs, read by the receive filter of main.rs.
use fast_socket_rs.Prelude.{
  ℕ, ◌+◌, ◌^◌, ◌<◌, ◌≡◌, ◌≢◌, refl, sym, ap, subst, false, none, some, List, [], ◌∷◌, ◌++◌, length,
  take, drop, arith, ltb, ◌==◌, Option-cases, inl, inr, length-append,
}
use fast_socket_rs.Egress.{
  LinkAddr, octets, to_be_bytes, XdpEgress, ethernet_header_len, from_egress, l2_header,
}
use fast_socket_rs.Filter.{
  packet_ethertype, read_u16_be, read_array, ethertype_vlan, ethertype_qinq,
}

drop-append : (front rest : List ℕ) → drop (length front) (front ++ rest) ≡ rest
drop-append [] rest = refl
drop-append (x ∷ front) rest = drop-append front rest

take-append : (front rest : List ℕ) → take (length front) (front ++ rest) ≡ front
take-append [] rest = refl
take-append (x ∷ front) rest = ap (λ r. x ∷ r) (take-append front rest)

-- A read of what stands behind `front`.
pub read_array-append :
    (front bytes rest : List ℕ)
    → read_array (length bytes) (front ++ (bytes ++ rest)) (length front) ≡ some bytes
unfolding read_array
read_array-append front bytes rest =
    let inside : ltb (length (front ++ (bytes ++ rest))) (length front + length bytes) ≡ false =
      ground (arith, length-append front (bytes ++ rest), length-append bytes rest) in
    rw (inside, drop-append front (bytes ++ rest), take-append bytes rest) refl

read_u16_be-append :
    (front : List ℕ) (x : ℕ) (rest : List ℕ)
    → x < 2 ^ 16
    → read_u16_be (front ++ (to_be_bytes x ++ rest)) (length front) ≡ some x
unfolding read_u16_be
read_u16_be-append front x rest small =
    rw (read_array-append front (to_be_bytes x) rest) (ap some (omega arith))

module _ (ifindex queue : ℕ) (dst_mac src_mac : LinkAddr) (ethertype mtu : ℕ) where
  abbrev plain : XdpEgress
  plain = record {
    ifindex = ifindex;
    queue = queue;
    dst_mac = dst_mac;
    src_mac = src_mac;
    ethertype = ethertype;
    vlan = none;
    mtu = mtu;
  }

  l2_header-plain :
      l2_header (from_egress plain) ≡ octets dst_mac ++ (octets src_mac ++ to_be_bytes ethertype)
  unfolding from_egress
  l2_header-plain = refl

  l2_header-tagged :
      (vlan : ℕ)
      → l2_header (from_egress (record plain { vlan = some vlan }))
        ≡ octets dst_mac
          ++ (octets src_mac ++ (0x81 ∷ 0x00 ∷ (to_be_bytes vlan ++ to_be_bytes ethertype)))
  unfolding from_egress
  l2_header-tagged vlan = refl

  -- No tag of its own stands where the payload's type is read.
  abbrev Untagged : Type 0
  Untagged = (ethertype < 2 ^ 16) × (ethertype ≢ ethertype_vlan) × (ethertype ≢ ethertype_qinq)

  ethertype_plain :
      (payload : List ℕ)
      → Untagged
      → packet_ethertype ((octets dst_mac ++ (octets src_mac ++ to_be_bytes ethertype)) ++ payload)
        ≡ some (ethertype, 14)
  unfolding packet_ethertype
  ethertype_plain payload (small, not_vlan, not_qinq) =
      let at_type = read_u16_be-append (octets dst_mac ++ octets src_mac) ethertype payload small in
      let no_vlan : (ethertype == ethertype_vlan) ≡ false = ground arith in
      let no_qinq : (ethertype == ethertype_qinq) ≡ false = ground arith in
      rw (at_type, no_vlan, no_qinq) refl

  ethertype_tagged :
      (vlan : ℕ) (payload : List ℕ)
      → ethertype < 2 ^ 16
      → packet_ethertype (
          (octets dst_mac
            ++ (octets src_mac ++ (0x81 ∷ 0x00 ∷ (to_be_bytes vlan ++ to_be_bytes ethertype))))
          ++ payload)
        ≡ some (ethertype, 18)
  unfolding packet_ethertype
  ethertype_tagged vlan payload small =
      let front = octets dst_mac ++ octets src_mac in
      let at_tag =
        read_u16_be-append front 0x8100 (to_be_bytes vlan ++ (to_be_bytes ethertype ++ payload))
          (omega arith) in
      let at_type =
        read_u16_be-append (front ++ (0x81 ∷ 0x00 ∷ to_be_bytes vlan)) ethertype payload small in
      rw (at_tag, at_type) refl

-- The receive filter reads back, before any payload, the payload type and the header length of the
-- header that the transmit path wrote, for a 16-bit payload type that is not itself that of a tag.
pub packet_ethertype-l2_header :
    (e : XdpEgress) (payload : List ℕ)
    → e.ethertype < 2 ^ 16
    → e.ethertype ≢ ethertype_vlan
    → e.ethertype ≢ ethertype_qinq
    → packet_ethertype (l2_header (from_egress e) ++ payload)
      ≡ some (e.ethertype, ethernet_header_len e)
unfolding ethernet_header_len
packet_ethertype-l2_header e payload small not_vlan not_qinq =
    let ReadsBack : XdpEgress → Type 0 = λ k.
      packet_ethertype (l2_header (from_egress k) ++ payload)
      ≡ some (k.ethertype, ethernet_header_len k) in
    elim (Option-cases e.vlan) [
      | inl h ↦ subst ReadsBack (sym (ap (λ v. record e { vlan = v }) h)) (
          rw (l2_header-plain e.ifindex e.queue e.dst_mac e.src_mac e.ethertype e.mtu) (
            ethertype_plain e.ifindex e.queue e.dst_mac e.src_mac e.ethertype e.mtu payload
              (small, not_vlan, not_qinq)))
      | inr (vlan, h) ↦ subst ReadsBack (sym (ap (λ v. record e { vlan = v }) h)) (
          rw (l2_header-tagged e.ifindex e.queue e.dst_mac e.src_mac e.ethertype e.mtu vlan) (
            ethertype_tagged e.ifindex e.queue e.dst_mac e.src_mac e.ethertype e.mtu vlan payload
              small))
    ]

pub length-l2_header : (e : XdpEgress) → length (l2_header (from_egress e)) ≡ ethernet_header_len e
unfolding ethernet_header_len
length-l2_header e =
    let Fits : XdpEgress → Type 0 =
      λ k. length (l2_header (from_egress k)) ≡ ethernet_header_len k in
    elim (Option-cases e.vlan) [
      | inl h ↦
          subst Fits (sym (ap (λ v. record e { vlan = v }) h))
            (ap length (l2_header-plain e.ifindex e.queue e.dst_mac e.src_mac e.ethertype e.mtu))
      | inr (vlan, h) ↦ subst Fits (sym (ap (λ v. record e { vlan = v }) h)) (
          ap length (l2_header-tagged e.ifindex e.queue e.dst_mac e.src_mac e.ethertype e.mtu vlan))
    ]
