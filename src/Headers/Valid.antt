-- ===== src/Headers/Valid.antt =====
-- crates/fast-socket-xdp-rs/src/socket.rs: endpoint specifications in the range of their types, and the
-- check of a payload length.
use fast_socket_rs.Prelude.{
  ℕ, ◌+◌, ◌^◌, ◌≤◌, ◌<◌, ◌≡◌, ◌⊎◌, inl, inr, refl, subst, none≢some, Option, none, some, false,
  List, arith, ltb, Bool-cases,
}
use fast_socket_rs.Prelude.Results.{ok, err, eq_of_some}
use fast_socket_rs.Headers.{Ipv4Addr, oversize_for_mtu}
use fast_socket_rs.Headers.Endpoint.{
  IpAddr, ip_v4, ip_v6, SocketAddr, socket_v4, socket_v6, UdpEndpointSpec, UdpEndpointInfo,
  mismatch, validate_payload, source_of, or_zero, port_or,
}
use fast_socket_rs.Headers.Layout.{IsAddr}

-- Ports and octets in the range of their types.
abbrev pub IsSocketAddr : SocketAddr → Type 0
IsSocketAddr (socket_v4 a port) = IsAddr a × (port < 2 ^ 16)
IsSocketAddr (socket_v6 a port) = Unit

abbrev pub IsSource : Option IpAddr → Type 0
IsSource none = Unit
IsSource (some (ip_v4 a)) = IsAddr a
IsSource (some (ip_v6 a)) = Unit

abbrev pub IsPort : Option ℕ → Type 0
IsPort none = Unit
IsPort (some port) = port < 2 ^ 16

pub record IsSpec (spec : UdpEndpointSpec) : Type 0 where
  pub is_destination : IsSocketAddr spec.destination
  pub is_source : IsSource spec.source_ip
  pub is_port : IsPort spec.source_port

pub SocketAddr-cases :
    (s : SocketAddr)
    → ((a : Ipv4Addr) × (port : ℕ) × (s ≡ socket_v4 a port))
      ⊎ ((a : List ℕ) × (port : ℕ) × (s ≡ socket_v6 a port))
SocketAddr-cases (socket_v4 a port) = inl (a, port, refl)
SocketAddr-cases (socket_v6 a port) = inr (a, port, refl)

pub v4≢v6 : {a : Ipv4Addr} {b : List ℕ} {p q : ℕ} → socket_v4 a p ≡ socket_v6 b q → ⊥
v4≢v6 h = cc

pub v4_eq : {a b : Ipv4Addr} {p q : ℕ} → socket_v4 a p ≡ socket_v4 b q → (a ≡ b) × (p ≡ q)
v4_eq h = (cc, cc)

pub port_or-IsPort : {here : ℕ} (o : Option ℕ) → here < 2 ^ 16 → IsPort o → port_or here o < 2 ^ 16
port_or-IsPort none h k = h
port_or-IsPort (some port) h k = k

pub source_of-IsAddr :
    (here : Ipv4Addr) {a : Ipv4Addr} (o : Option IpAddr)
    → IsAddr here
    → IsSource o
    → source_of here o ≡ some a
    → IsAddr a
source_of-IsAddr here none h k e = subst IsAddr (eq_of_some e) h
source_of-IsAddr here (some (ip_v4 b)) h k e = subst IsAddr (eq_of_some e) k
source_of-IsAddr here (some (ip_v6 b)) h k e = absurd (none≢some e)

-- A payload of the length that the endpoint is prepared for has only its size to be checked.
pub data Validated (info : UdpEndpointInfo) (len : ℕ) : Type 0 where
  valid :
      validate_payload info len ≡ ok tt → len ≤ info.mtu → len + 28 < 2 ^ 16 → Validated info len
  oversize :
      validate_payload info len ≡ err oversize_for_mtu
      → (info.mtu < len) ⊎ (2 ^ 16 ≤ len + 28)
      → Validated info len

mismatch_own : (o : Option ℕ) → mismatch o (or_zero o) ≡ false
mismatch_own none = refl
mismatch_own (some n) = ground arith

pub validate_payload-Validated :
    (info : UdpEndpointInfo) → Validated info (or_zero info.payload_len)
unfolding validate_payload
validate_payload-Validated info =
    let len = or_zero info.payload_len in
    let own = mismatch_own info.payload_len in
    elim (Bool-cases (ltb info.mtu len)) [
      | inl long ↦ oversize (rw (own, long) refl) (inl (ground arith))
      | inr within ↦ elim (Bool-cases (ltb 65507 len)) [
        | inl long ↦ oversize (rw (own, within, long) refl) (inr (ground arith))
        | inr short ↦ valid (rw (own, within, short) refl) (ground arith) (ground arith)
      ]
    ]
