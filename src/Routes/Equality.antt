-- ===== src/Routes/Equality.antt =====
-- crates/fast-socket-xdp-rs/src/egress.rs: the derived equality of resolved egresses.
use fast_socket_rs.Prelude.{
  ℕ, ◌≡◌, refl, ap, true, Option, none, some, List, [], ◌∷◌, get_or, arith,
}
use fast_socket_rs.Egress.{LinkAddr, octets, XdpResolvedEgress}
use fast_socket_rs.Routes.{same_option}
use fast_socket_rs.Routes.Lookup.{same_bytes, same_resolved}

same_bytes_eq : (a b : List ℕ) → same_bytes a b ≡ true → a ≡ b
unfolding same_bytes
same_bytes_eq [] [] h = refl
same_bytes_eq [] (y ∷ ys) h = cc
same_bytes_eq (x ∷ xs) [] h = cc
same_bytes_eq (x ∷ xs) (y ∷ ys) h =
    let heads : x ≡ y = ground arith in
    let tails : same_bytes xs ys ≡ true = ground arith in cc (heads, same_bytes_eq xs ys tails)

same_option_eq : (a b : Option ℕ) → same_option a b ≡ true → a ≡ b
same_option_eq none none h = refl
same_option_eq (some x) (some y) h = let e : x ≡ y = ground arith in ap some e
same_option_eq none (some y) h = cc
same_option_eq (some x) none h = cc

octets_eq : (a b : LinkAddr) → octets a ≡ octets b → a ≡ b
octets_eq a b h =
    let e0 = ap (λ l. get_or l 0 0) h in
    let e1 = ap (λ l. get_or l 1 0) h in
    let e2 = ap (λ l. get_or l 2 0) h in
    let e3 = ap (λ l. get_or l 3 0) h in
    let e4 = ap (λ l. get_or l 4 0) h in
    let e5 = ap (λ l. get_or l 5 0) h in
    λ i. record {
      octet0 = e0 i;
      octet1 = e1 i;
      octet2 = e2 i;
      octet3 = e3 i;
      octet4 = e4 i;
      octet5 = e5 i;
    }

pub same_resolved_eq : (a b : XdpResolvedEgress) → same_resolved a b ≡ true → a ≡ b
unfolding same_resolved
same_resolved_eq a b h =
    let e1 : a.egress.ifindex ≡ b.egress.ifindex = ground arith in
    let e2 : a.egress.queue ≡ b.egress.queue = ground arith in
    let e3 = same_bytes_eq (octets a.egress.dst_mac) (octets b.egress.dst_mac) (ground arith) in
    let e4 = same_bytes_eq (octets a.egress.src_mac) (octets b.egress.src_mac) (ground arith) in
    let m3 = octets_eq a.egress.dst_mac b.egress.dst_mac e3 in
    let m4 = octets_eq a.egress.src_mac b.egress.src_mac e4 in
    let e5 : a.egress.ethertype ≡ b.egress.ethertype = ground arith in
    let e6 = same_option_eq a.egress.vlan b.egress.vlan (ground arith) in
    let e7 : a.egress.mtu ≡ b.egress.mtu = ground arith in
    let e8 = same_bytes_eq a.l2_bytes b.l2_bytes (ground arith) in
    let e9 : a.l2_len ≡ b.l2_len = ground arith in
    λ i. record {
      egress = record {
        ifindex = e1 i;
        queue = e2 i;
        dst_mac = m3 i;
        src_mac = m4 i;
        ethertype = e5 i;
        vlan = e6 i;
        mtu = e7 i;
      };
      l2_bytes = e8 i;
      l2_len = e9 i;
    }
