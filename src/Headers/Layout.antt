-- ===== src/Headers/Layout.antt =====
-- crates/fast-socket-xdp-rs/src/socket.rs: the header that `write_ipv4_udp_headers` writes, byte for
-- byte, and its checksum.
use fast_socket_rs.Prelude.{
  ℕ, zero, suc, ◌+◌, ◌-◌, ◌*◌, ◌/◌, ◌%◌, ◌^◌, ◌<◌, ◌≡◌, refl, ap, ◌∙◌, Option, none, some, List, [],
  ◌∷◌, ◌++◌, take, arith,
}
use fast_socket_rs.Headers.{Ipv4Addr, EcnCodepoint, not_ect, ect0, ect1, ce, ecn_bits}
use fast_socket_rs.Headers.Write.{
  complement, ipv4_header_checksum, Ipv4UdpHeaderFields, unsummed, write_ipv4_udp_headers, zeroed,
}
use fast_socket_rs.Headers.Checksum.{
  IsBytes, folded, words_sum, folded_pos, ipv4_header_checksum-folded,
}

-- The IPv4 header with checksum `c`, and the UDP header behind it.
abbrev pub ip_part : Ipv4UdpHeaderFields → ℕ → List ℕ
ip_part f c =
    0x45
    ∷ ecn_bits f.ecn
    ∷ f.total_len / 256 % 256
    ∷ f.total_len % 256
    ∷ 0
    ∷ 0
    ∷ 0
    ∷ 0
    ∷ f.ttl
    ∷ 17
    ∷ c / 256 % 256
    ∷ c % 256
    ∷ f.source.octet0
    ∷ f.source.octet1
    ∷ f.source.octet2
    ∷ f.source.octet3
    ∷ f.destination.octet0
    ∷ f.destination.octet1
    ∷ f.destination.octet2
    ∷ f.destination.octet3
    ∷ []

abbrev pub udp_part : Ipv4UdpHeaderFields → List ℕ
udp_part f =
    f.source_port / 256 % 256
    ∷ f.source_port % 256
    ∷ f.destination_port / 256 % 256
    ∷ f.destination_port % 256
    ∷ f.udp_len / 256 % 256
    ∷ f.udp_len % 256
    ∷ 0
    ∷ 0
    ∷ []

unfoldable pub IsAddr : Ipv4Addr → Type 0
IsAddr a = (a.octet0 < 256) × (a.octet1 < 256) × (a.octet2 < 256) × (a.octet3 < 256)

-- Every field in the range of its type.
pub record Fits (f : Ipv4UdpHeaderFields) : Type 0 where
  pub source_port_fits : f.source_port < 2 ^ 16
  pub destination_port_fits : f.destination_port < 2 ^ 16
  pub source_fits : IsAddr f.source
  pub destination_fits : IsAddr f.destination
  pub total_len_fits : f.total_len < 2 ^ 16
  pub udp_len_fits : f.udp_len < 2 ^ 16
  pub ttl_fits : f.ttl < 256

ecn_bits-lt : (e : Option EcnCodepoint) → ecn_bits e < 4
unfolding ecn_bits
ecn_bits-lt (some ect0) = omega arith
ecn_bits-lt (some ect1) = omega arith
ecn_bits-lt (some ce) = omega arith
ecn_bits-lt (some not_ect) = omega arith
ecn_bits-lt none = omega arith

-- The sum of the words of the header other than its total length and its checksum.
unfoldable pub rest_sum : Ipv4UdpHeaderFields → ℕ
unfolding ecn_bits
rest_sum f =
    0x4500
    + ecn_bits f.ecn
    + (f.ttl * 256 + 17)
    + (f.source.octet0 * 256 + f.source.octet1)
    + (f.source.octet2 * 256 + f.source.octet3)
    + (f.destination.octet0 * 256 + f.destination.octet1)
    + (f.destination.octet2 * 256 + f.destination.octet3)

pub rest_sum_pos : (f : Ipv4UdpHeaderFields) → 0 < rest_sum f
unfolding rest_sum
rest_sum_pos f = omega arith

unfoldable pub checksum_of : Ipv4UdpHeaderFields → ℕ
unfolding rest_sum folded
checksum_of f = complement (folded (rest_sum f + f.total_len))

module _ (f : Ipv4UdpHeaderFields) (fits : Fits f) where
  ip_part-IsBytes : (c : ℕ) → IsBytes (ip_part f c)
  unfolding IsAddr
  ip_part-IsBytes c =
      let (s0, s1, s2, s3) = fits.source_fits in
      let (d0, d1, d2, d3) = fits.destination_fits in
      let ecn = ecn_bits-lt f.ecn in let ttl = fits.ttl_fits in ground arith

  ip_part_sum : (c : ℕ) → c < 2 ^ 16 → words_sum (ip_part f c) ≡ rest_sum f + f.total_len + c
  unfolding words_sum rest_sum
  ip_part_sum c h = omega (arith, fits.total_len_fits)

  -- The checksum that is computed while the field is 0.
  checksum_zeroed : ipv4_header_checksum (ip_part f 0) ≡ some (checksum_of f)
  unfolding checksum_of
  checksum_zeroed =
      ipv4_header_checksum-folded (ip_part f 0) (ip_part-IsBytes 0) (omega arith)
      ∙ ap (λ n. some (complement (folded n))) (omega (arith, ip_part_sum 0 (omega arith)))

  unsummed-ip_part : take 20 (unsummed f zeroed) ≡ ip_part f 0
  unfolding unsummed
  unsummed-ip_part = refl

  -- What is written is the header laid out with its checksum.
  pub write_ipv4_udp_headers-parts :
      write_ipv4_udp_headers zeroed f ≡ some (ip_part f (checksum_of f) ++ udp_part f)
  unfolding write_ipv4_udp_headers
  write_ipv4_udp_headers-parts = rw checksum_zeroed refl

  -- The words sum up to no carry, all ones.
  full_sum : folded (words_sum (ip_part f (checksum_of f))) ≡ 65535
  unfolding checksum_of
  full_sum =
      let n = rest_sum f + f.total_len in
      let pos = rest_sum_pos f in
      let at_n = folded_pos n (omega (arith, pos)) in
      let c = complement (folded n) in
      let sum = ip_part_sum c (omega arith) in
      ap folded sum ∙ folded_pos (n + c) (omega (arith, pos)) ∙ omega (arith, pos, at_n)

  -- A sum that folds to all ones is a multiple of `2 ^ 16 - 1`.
  ones_multiple : (n : ℕ) → folded n ≡ 65535 → n % 65535 ≡ 0
  unfolding folded
  ones_multiple zero h = refl
  ones_multiple (suc n) h = omega (arith, h)

  -- For fields in the range of their types, writing the headers succeeds and the IPv4 header
  -- passes the check of RFC 1071: the 16-bit words of its 20 bytes, the checksum among them, add
  -- up to a multiple of 2^16 - 1, which is 0 in ones' complement; and the code's own checksum over
  -- them is 0.
  pub ipv4_header_checksum-write :
      (headers : List ℕ) × (write_ipv4_udp_headers zeroed f ≡ some headers)
      × (words_sum (take 20 headers) % (2 ^ 16 - 1) ≡ 0)
      × (ipv4_header_checksum (take 20 headers) ≡ some 0)
  ipv4_header_checksum-write = (
    ip_part f (checksum_of f) ++ udp_part f,
    write_ipv4_udp_headers-parts,
    ones_multiple (words_sum (ip_part f (checksum_of f))) full_sum,
    ipv4_header_checksum-folded (ip_part f (checksum_of f)) (ip_part-IsBytes (checksum_of f))
          (omega arith)
        ∙ ap (λ n. some (complement n)) full_sum,
  )
