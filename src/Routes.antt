-- ===== src/Routes.antt =====
-- crates/fast-socket-xdp-rs/src/route.rs: the route and neighbour snapshots from which the transmit path
-- resolves an egress. An IPv4 address is the number that `u32::from` makes of it. `width` is 32 and
-- `direct_bits` is 14, which the type `Ipv4Poptrie` fixes; an outer `none` is a panic, or a read out
-- of range in the poptrie.
pub mod Table
pub mod Index
pub mod Lookup
pub mod Folding
pub mod Equality
pub mod Resolved
pub mod Direct
pub mod Snapshot
pub mod Local
pub mod Monitor
mod Tests
use fast_socket_rs.Prelude.{ℕ, ◌-◌, ◌^◌, Bool, ◌&&◌, Option, none, some, List, [], ◌==◌, false}
use fast_socket_rs.Prelude.Maps.{lookup}
use fast_socket_rs.Egress.{LinkAddr, XdpResolvedEgress}
use fast_socket_rs.Poptrie.{Poptrie}

pub record Ipv4Route : Type 0 where
  pub destination : ℕ
  pub prefix_len : ℕ
  pub ifindex : ℕ
  pub gateway : Option ℕ
  pub priority : ℕ
  pub mtu : ℕ

pub record InterfaceInfo : Type 0 where
  pub ifindex : ℕ
  pub master_ifindex : Option ℕ
  pub mac : LinkAddr
  pub mtu : ℕ
  pub queue : ℕ

pub record InterfaceEgress : Type 0 where
  pub slots : List ℕ
  pub egresses : List XdpResolvedEgress

pub record RouteSnapshot : Type 0 where
  pub routes_v4 : List Ipv4Route
  pub route_index_v4 : Option (Poptrie ℕ)
  pub egress_index_v4 : List (ℕ × InterfaceEgress)
  pub neighbors_v4 : List ((ℕ × ℕ) × LinkAddr)
  pub interfaces : List (ℕ × InterfaceInfo)

abbrev pub egress_none : ℕ
egress_none = 2 ^ 32 - 1

abbrev pub egress_on_link : ℕ
egress_on_link = 2 ^ 32 - 2

abbrev pub new : RouteSnapshot
new = record {
  routes_v4 = [];
  route_index_v4 = none;
  egress_index_v4 = [];
  neighbors_v4 = [];
  interfaces = [];
}

-- The keys of `neighbors_v4`.
abbrev pub same_pair : ℕ × ℕ → ℕ × ℕ → Bool
same_pair (i, a) (j, b) = (i == j) && (a == b)

abbrev pub neighbor : RouteSnapshot → ℕ → ℕ → Option LinkAddr
neighbor s ifindex ip = lookup same_pair (ifindex, ip) s.neighbors_v4

abbrev pub interface_of : RouteSnapshot → ℕ → Option InterfaceInfo
interface_of s ifindex = lookup ◌==◌ ifindex s.interfaces

-- `Option::eq` on numbers.
abbrev pub same_option : Option ℕ → Option ℕ → Bool
same_option none none = Bool.true
same_option (some a) (some b) = a == b
same_option none (some b) = false
same_option (some a) none = false
