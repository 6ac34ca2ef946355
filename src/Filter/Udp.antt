-- ===== src/Filter/Udp.antt =====
-- The packets in which the filter of crates/fast-socket-xdp-ebpf/src/main.rs is to find a port, by the
-- bytes of the packet.
use fast_socket_rs.Prelude.{
  ℕ, subst, ◌+◌, ◌*◌, ◌/◌, ◌%◌, ◌^◌, ◌≤◌, ◌<◌, ◌≡◌, ◌↔◌, refl, sym, ap, ◌∙◌, true, none, some, List,
  length, take, drop, get_or, arith, ltb, ◌==◌, ==_iff, Bool-cases, inl, inr,
}
use fast_socket_rs.Prelude.Slices.{get_or-take, get_or-drop}
use fast_socket_rs.Prelude.Results.{>>=-eq-some, eq_of_some}
use fast_socket_rs.Filter.{
  read_array, read_u16_be, packet_ethertype, is_whole_udp, ipv4_udp_destination_port,
  packet_udp_destination_port,
}

abbrev pub octet_at : List ℕ → ℕ → ℕ
octet_at packet i = get_or packet i 0

-- Two bytes in network order.
abbrev pub word_at : List ℕ → ℕ → ℕ
word_at packet i = octet_at packet i * 256 + octet_at packet (i + 1)

-- IEEE 802.3, 802.1Q and 802.1ad: a network packet of a type behind an Ethernet header without a
-- tag, with one tag, with one service tag, and with a service tag and another tag.
pub data Carries (packet : List ℕ) (ethertype : ℕ) : ℕ → Type 0 where
  untagged : 14 ≤ length packet → word_at packet 12 ≡ ethertype → Carries packet ethertype 14
  tagged :
      18 ≤ length packet
      → word_at packet 12 ≡ 0x8100
      → word_at packet 16 ≡ ethertype
      → Carries packet ethertype 18
  service_tagged :
      18 ≤ length packet
      → word_at packet 12 ≡ 0x88a8
      → word_at packet 16 ≡ ethertype
      → Carries packet ethertype 18
  double_tagged :
      22 ≤ length packet
      → word_at packet 12 ≡ 0x88a8
      → word_at packet 16 ≡ 0x8100
      → word_at packet 20 ≡ ethertype
      → Carries packet ethertype 22

-- RFC 791 and RFC 768: the packet holds an IPv4 header with its options, of a datagram that is
-- not a fragment (no offset and none to follow) and carries UDP, and a UDP header to the port.
pub record UdpTo (packet : List ℕ) (port : ℕ) : Type 0 where
  pub ip : ℕ
  pub carried : Carries packet 0x0800 ip
  pub ip_header : ip + 20 ≤ length packet
  pub version : octet_at packet ip / 16 ≡ 4
  pub header_len : 5 ≤ octet_at packet ip % 16
  pub not_fragment : word_at packet (ip + 6) % 2 ^ 14 ≡ 0
  pub protocol : octet_at packet (ip + 9) ≡ 17
  pub udp_header : ip + octet_at packet ip % 16 * 4 + 8 ≤ length packet
  pub to_port : word_at packet (ip + octet_at packet ip % 16 * 4 + 2) ≡ port

module _ (packet : List ℕ) where
  slice_octet :
      (n offset i : ℕ)
      → i < n
      → get_or (take n (drop offset packet)) i 0 ≡ octet_at packet (offset + i)
  slice_octet n offset i h = get_or-take n i (drop offset packet) h ∙ get_or-drop offset i packet

  read_array_in :
      (n offset : ℕ)
      → offset + n ≤ length packet
      → read_array n packet offset ≡ some (take n (drop offset packet))
  unfolding read_array
  read_array_in n offset h = ground arith

  read_array_out : (n offset : ℕ) → length packet < offset + n → read_array n packet offset ≡ none
  unfolding read_array
  read_array_out n offset h = ground arith

  read_array_iff :
      (n offset : ℕ) {bytes : List ℕ}
      → read_array n packet offset ≡ some bytes
      → (offset + n ≤ length packet) × (bytes ≡ take n (drop offset packet))
  unfolding read_array
  read_array_iff n offset h = elim (Bool-cases (ltb (length packet) (offset + n))) [
    | inl out ↦ let bad = rw out at h in cc
    | inr inside ↦ (ground arith, sym (eq_of_some (rw inside at h)))
  ]

  -- The word that is read.
  slice_word :
      (offset : ℕ)
      → get_or (take 2 (drop offset packet)) 0 0 * 256 + get_or (take 2 (drop offset packet)) 1 0
        ≡ word_at packet offset
  slice_word offset =
      rw (slice_octet 2 offset 0 (omega arith), slice_octet 2 offset 1 (omega arith))
        (ap (λ k. octet_at packet k * 256 + octet_at packet (offset + 1))
          (let e : offset + 0 ≡ offset = omega arith in e))

  read_u16_be_in :
      (offset : ℕ)
      → offset + 2 ≤ length packet
      → read_u16_be packet offset ≡ some (word_at packet offset)
  unfolding read_u16_be
  read_u16_be_in offset h = rw (read_array_in 2 offset h) (ap some (slice_word offset))

  read_u16_be_iff :
      (offset : ℕ) {w : ℕ}
      → read_u16_be packet offset ≡ some w
      → (offset + 2 ≤ length packet) × (word_at packet offset ≡ w)
  unfolding read_u16_be
  read_u16_be_iff offset h =
      let (bytes, r, v) = >>=-eq-some (read_array 2 packet offset) _ h in
      let (fits, is) = read_array_iff 2 offset r in
      (fits, sym (slice_word offset) ∙ eq_of_some (rw is at v))

  behind_word :
      (w ethertype l2_len : ℕ)
      → read_u16_be packet 12 ≡ some w
      → packet_ethertype packet ≡ some (ethertype, l2_len)
      → Carries packet ethertype l2_len
  unfolding packet_ethertype
  behind_word w ethertype l2_len r h =
      let (fits, is) = read_u16_be_iff 12 r in
      elim (Bool-cases (w == 0x8100)) [
        | inl one ↦
            let (inner, ri, e) = >>=-eq-some (read_u16_be packet 16) _ (rw (r, one) at h) in
            let (fits', is') = read_u16_be_iff 16 ri in
            let at_len : 18 ≡ l2_len = cc in
            let at_type : inner ≡ ethertype = cc in
            subst (Carries packet ethertype) at_len
              (tagged (omega arith) (is ∙ (==_iff w 0x8100).0 one) (is' ∙ at_type))
        | inr no_tag ↦ elim (Bool-cases (w == 0x88a8)) [
          | inl service ↦
              let (inner, ri, e) =
                >>=-eq-some (read_u16_be packet 16) _ (rw (r, no_tag, service) at h) in
              let (fits', is') = read_u16_be_iff 16 ri in
              elim (Bool-cases (inner == 0x8100)) [
                | inl two ↦
                    let (innermost, rj, e') = >>=-eq-some (read_u16_be packet 20) _ (rw two at e) in
                    let (fits2, is2) = read_u16_be_iff 20 rj in
                    let at_len : 22 ≡ l2_len = cc in
                    let at_type : innermost ≡ ethertype = cc in
                    subst (Carries packet ethertype) at_len (
                      double_tagged (omega arith) (is ∙ (==_iff w 0x88a8).0 service)
                        (is' ∙ (==_iff inner 0x8100).0 two) (is2 ∙ at_type))
                | inr only ↦
                    let e' = rw only at e in
                    let at_len : 18 ≡ l2_len = cc in
                    let at_type : inner ≡ ethertype = cc in
                    subst (Carries packet ethertype) at_len (
                      service_tagged (omega arith) (is ∙ (==_iff w 0x88a8).0 service)
                        (is' ∙ at_type))
              ]
          | inr plain ↦
              let e = rw (r, no_tag, plain) at h in
              let at_len : 14 ≡ l2_len = cc in
              let at_type : w ≡ ethertype = cc in
              subst (Carries packet ethertype) at_len (untagged (omega arith) (is ∙ at_type))
        ]
      ]

  packet_ethertype-Carries :
      (ethertype l2_len : ℕ)
      → packet_ethertype packet ≡ some (ethertype, l2_len)
      → Carries packet ethertype l2_len
  unfolding packet_ethertype
  packet_ethertype-Carries ethertype l2_len h =
      let (w, r, _) = >>=-eq-some (read_u16_be packet 12) _ h in behind_word w ethertype l2_len r h

  Carries-packet_ethertype :
      (l2_len : ℕ) → Carries packet 0x0800 l2_len → packet_ethertype packet ≡ some (0x0800, l2_len)
  unfolding packet_ethertype
  Carries-packet_ethertype l2_len (untagged h a) = rw (read_u16_be_in 12 (omega arith), a) refl
  Carries-packet_ethertype l2_len (tagged h a b) =
      rw (read_u16_be_in 12 (omega arith), a, read_u16_be_in 16 (omega arith), b) refl
  Carries-packet_ethertype l2_len (service_tagged h a b) =
      rw (read_u16_be_in 12 (omega arith), a, read_u16_be_in 16 (omega arith), b) refl
  Carries-packet_ethertype l2_len (double_tagged h a b c) =
      rw
        (
          read_u16_be_in 12 (omega arith),
          a,
          read_u16_be_in 16 (omega arith),
          b,
          read_u16_be_in 20 (omega arith),
          c,
        )
        refl

  -- The header that the filter reads.
  abbrev header_at : ℕ → List ℕ
  header_at ip = take 20 (drop ip packet)

  WholeAt : ℕ → Type 0
  WholeAt ip =
      (octet_at packet ip / 16 ≡ 4)
      × (5 ≤ octet_at packet ip % 16)
      × (word_at packet (ip + 6) % 2 ^ 14 ≡ 0)
      × (octet_at packet (ip + 9) ≡ 17)

  octet_0 : (n ip : ℕ) → 0 < n → get_or (take n (drop ip packet)) 0 0 ≡ octet_at packet ip
  octet_0 n ip h =
      slice_octet n ip 0 h ∙ ap (octet_at packet) (let e : ip + 0 ≡ ip = omega arith in e)

  octet_7 : (ip : ℕ) → get_or (header_at ip) 7 0 ≡ octet_at packet (ip + 6 + 1)
  octet_7 ip =
      slice_octet 20 ip 7 (omega arith)
      ∙ ap (octet_at packet) (let e : ip + 7 ≡ ip + 6 + 1 = omega arith in e)

  is_whole_udp-WholeAt : (ip : ℕ) → is_whole_udp (header_at ip) ≡ true → WholeAt ip
  unfolding is_whole_udp WholeAt
  is_whole_udp-WholeAt ip h =
      let a = octet_0 20 ip (omega arith) in
      let b = slice_octet 20 ip 6 (omega arith) in
      let c = octet_7 ip in let d = slice_octet 20 ip 9 (omega arith) in ground arith

  WholeAt-is_whole_udp : (ip : ℕ) → WholeAt ip → is_whole_udp (header_at ip) ≡ true
  unfolding is_whole_udp WholeAt
  WholeAt-is_whole_udp ip h =
      let a = octet_0 20 ip (omega arith) in
      let b = slice_octet 20 ip 6 (omega arith) in
      let c = octet_7 ip in
      let d = slice_octet 20 ip 9 (omega arith) in let (h1, h2, h3, h4) = h in ground arith

  -- The UDP header's word.
  slice_port :
      (udp_at : ℕ)
      → get_or (take 8 (drop udp_at packet)) 2 0 * 256 + get_or (take 8 (drop udp_at packet)) 3 0
        ≡ word_at packet (udp_at + 2)
  slice_port udp_at =
      rw (slice_octet 8 udp_at 2 (omega arith), slice_octet 8 udp_at 3 (omega arith))
        (ap (λ k. octet_at packet (udp_at + 2) * 256 + octet_at packet k)
          (let e : udp_at + 3 ≡ udp_at + 2 + 1 = omega arith in e))

  ipv4-UdpTo :
      (ip port : ℕ)
      → Carries packet 0x0800 ip
      → ipv4_udp_destination_port packet ip ≡ some (some port)
      → UdpTo packet port
  unfolding ipv4_udp_destination_port WholeAt
  ipv4-UdpTo ip port carried h =
      let (header, r, e) = >>=-eq-some (read_array 20 packet ip) _ h in
      let (fits, is) = read_array_iff 20 ip r in
      let e' = rw is at e in
      elim (Bool-cases (is_whole_udp (header_at ip))) [
        | inr bad ↦ let no = rw bad at e' in cc
        | inl whole ↦
            let (udp, ru, eu) =
              >>=-eq-some (read_array 8 packet _) _
                (rw (whole, octet_0 20 ip (omega arith)) at e') in
            let (fits', is_udp) = read_array_iff 8 (ip + octet_at packet ip % 16 * 4) ru in
            let (h1, h2, h3, h4) = is_whole_udp-WholeAt ip whole in
            record {
              ip = ip;
              carried = carried;
              ip_header = fits;
              version = h1;
              header_len = h2;
              not_fragment = h3;
              protocol = h4;
              udp_header = fits';
              to_port =
                  sym (slice_port (ip + octet_at packet ip % 16 * 4))
                  ∙ eq_of_some (eq_of_some (rw is_udp at eu));
            }
      ]

  UdpTo-ipv4 :
      (port : ℕ) (u : UdpTo packet port) → ipv4_udp_destination_port packet u.ip ≡ some (some port)
  unfolding ipv4_udp_destination_port WholeAt
  UdpTo-ipv4 port u =
      let udp_at = u.ip + octet_at packet u.ip % 16 * 4 in
      rw
        (
          read_array_in 20 u.ip u.ip_header,
          WholeAt-is_whole_udp u.ip (u.version, u.header_len, u.not_fragment, u.protocol),
          octet_0 20 u.ip (omega arith),
          read_array_in 8 udp_at u.udp_header,
        )
        (ap (λ k. some (some k)) (slice_port udp_at ∙ u.to_port))

  pub packet_udp_destination_port-UdpTo :
      (port : ℕ) → (packet_udp_destination_port packet ≡ some (some port)) ↔ UdpTo packet port
  unfolding packet_udp_destination_port
  packet_udp_destination_port-UdpTo port = (
    λ h.
        let ((ethertype, l2_len), r, e) = >>=-eq-some (packet_ethertype packet) _ h in
        elim (Bool-cases (ethertype == 0x0800)) [
          | inl is ↦
              let same = (==_iff ethertype 0x0800).0 is in
              let carried =
                subst (λ t. Carries packet t l2_len) same
                  (packet_ethertype-Carries ethertype l2_len r) in
              ipv4-UdpTo l2_len port carried (rw is at e)
          | inr other ↦ let bad = rw other at e in cc
        ],
    λ u. rw (Carries-packet_ethertype u.ip u.carried) (UdpTo-ipv4 port u),
  )
