-- ===== src/Filter.antt =====
-- crates/fast-socket-xdp-ebpf/src/main.rs: the program that the kernel runs on every packet that a
-- queue receives. A packet is the list of its bytes, from `data` to `data_end`, so the pointer
-- `start + offset` is the offset; the maps are what user space put there; `XskMap::redirect` is a
-- parameter that gives the action for a queue, or `none` for an error.
pub mod Udp
pub mod Outcome
pub mod Datagram
mod Tests
use fast_socket_rs.Prelude.{
  ℕ, ◌+◌, ◌*◌, ◌/◌, ◌%◌, ◌^◌, Bool, true, false, not, ◌&&◌, ◌||◌, Option, none, some, List, [], ◌∷◌,
  length, take, drop, get_elem?, get_or, set, ltb, leb, ◌==◌, if◌then◌else◌,
}
use fast_socket_rs.Prelude.Results.{◌>>=◌, ◌>>◌, checked}

-- `ptr_at` and the read behind it; `none` is `Err(())`.
unfoldable pub read_array : ℕ → List ℕ → ℕ → Option (List ℕ)
read_array size packet offset =
    if ltb (length packet) (offset + size) then none else some (take size (drop offset packet))

-- `u16::from_be_bytes`.
abbrev pub from_be_bytes : ℕ → ℕ → ℕ
from_be_bytes high low = high * 256 + low

unfoldable pub read_u16_be : List ℕ → ℕ → Option ℕ
unfolding read_array
read_u16_be packet offset = do
  bytes ← read_array 2 packet offset
  some (from_be_bytes (get_or bytes 0 0) (get_or bytes 1 0))

abbrev pub ether_type_offset : ℕ
ether_type_offset = 12

abbrev pub vlan_inner_ether_type_offset : ℕ
vlan_inner_ether_type_offset = 16

abbrev pub qinq_inner_ether_type_offset : ℕ
qinq_inner_ether_type_offset = 20

abbrev pub ethertype_vlan : ℕ
ethertype_vlan = 0x8100

abbrev pub ethertype_qinq : ℕ
ethertype_qinq = 0x88a8

abbrev pub ethertype_ipv4 : ℕ
ethertype_ipv4 = 0x0800

unfoldable pub packet_ethertype : List ℕ → Option (ℕ × ℕ)
unfolding read_u16_be
packet_ethertype packet = do
  ethertype ← read_u16_be packet ether_type_offset
  if ethertype == ethertype_vlan
      then (do inner ← read_u16_be packet vlan_inner_ether_type_offset; some (inner, 18))
      else if ethertype == ethertype_qinq
      then (do
        inner_tpid ← read_u16_be packet vlan_inner_ether_type_offset
        if inner_tpid == ethertype_vlan
            then (do
              innermost ← read_u16_be packet qinq_inner_ether_type_offset
              some (innermost, 22))
            else some (inner_tpid, 18))
      else some (ethertype, 14)

-- The checks on the 20 bytes of the minimal header, in the source's order: version 4, at least 20
-- bytes of header, neither a fragment nor more to come (`& 0x3fff`), and protocol 17.
unfoldable pub is_whole_udp : List ℕ → Bool
is_whole_udp header =
    (get_or header 0 0 / 16 == 4)
    && (leb 20 (get_or header 0 0 % 16 * 4)
        && ((from_be_bytes (get_or header 6 0) (get_or header 7 0) % 2 ^ 14 == 0)
            && (get_or header 9 0 == 17)))

unfoldable pub ipv4_udp_destination_port : List ℕ → ℕ → Option (Option ℕ)
unfolding read_array is_whole_udp
ipv4_udp_destination_port packet l2_len = do
  header ← read_array 20 packet l2_len
  if is_whole_udp header
      then (do
        udp ← read_array 8 packet (l2_len + get_or header 0 0 % 16 * 4)
        some (some (from_be_bytes (get_or udp 2 0) (get_or udp 3 0))))
      else some none

unfoldable pub packet_udp_destination_port : List ℕ → Option (Option ℕ)
unfolding packet_ethertype ipv4_udp_destination_port
packet_udp_destination_port packet = do
  (ethertype, l2_len) ← packet_ethertype packet
  if ethertype == ethertype_ipv4 then ipv4_udp_destination_port packet l2_len else some none

-- The arrays shared with user space.
pub record Maps : Type 0 where
  pub bound_port_count : List ℕ
  pub bound_ports : List ℕ
  pub bound_port_range : List ℕ
  pub drop_counters : List ℕ

pub data Action : Type 0 where
  xdp_pass : Action
  xdp_drop : Action
  xdp_redirect : Action

unfoldable pub has_bound_ports : Maps → Bool
has_bound_ports maps = elim (get_elem? maps.bound_port_count 0) [
  | some count ↦ not (count == 0)
  | none ↦ false
]

unfoldable pub is_bound_port : Maps → ℕ → Bool
is_bound_port maps port = elim (get_elem? maps.bound_ports port) [
  | some enabled ↦ not (enabled == 0)
  | none ↦ false
]

unfoldable pub bound_port_range : Maps → Option (ℕ × ℕ)
bound_port_range maps = do
  start ← get_elem? maps.bound_port_range 0
  end ← get_elem? maps.bound_port_range 1
  if (start == 0) && (end == 0) then none else if ltb end start then none else some (start, end)

-- `*counter += 1` on a `u64`.
unfoldable pub increment_drop_counter : ℕ → Maps → Maps
increment_drop_counter reason maps = elim (get_elem? maps.drop_counters reason) [
  | some count ↦ record maps {
    drop_counters = set maps.drop_counters reason ((count + 1) % 2 ^ 64);
  }
  | none ↦ maps
]

abbrev pub drop_reason_xskmap_miss : ℕ
drop_reason_xskmap_miss = 0

module _ (redirect : ℕ → Option Action) where
  unfoldable pub redirect_to_xskmap : ℕ → Maps → Action × Maps
  unfolding increment_drop_counter
  redirect_to_xskmap queue_id maps = elim (redirect queue_id) [
    | some action ↦ (action, maps)
    | none ↦ (xdp_drop, increment_drop_counter drop_reason_xskmap_miss maps)
  ]

  -- `fast_socket_xdp`: an `Err` of `try_redirect_bound_ports` passes the packet too.
  unfoldable pub fast_socket_xdp : List ℕ → ℕ → Maps → Action × Maps
  unfolding packet_udp_destination_port has_bound_ports is_bound_port redirect_to_xskmap
  fast_socket_xdp packet queue_id maps = elim (packet_udp_destination_port packet) [
    | none ↦ (xdp_pass, maps)
    | some none ↦ (xdp_pass, maps)
    | some (some port) ↦
        if has_bound_ports maps
        then if is_bound_port maps port then redirect_to_xskmap queue_id maps else (xdp_pass, maps)
        else (xdp_pass, maps)
  ]

  unfoldable pub fast_socket_xdp_port_range : List ℕ → ℕ → Maps → Action × Maps
  unfolding packet_udp_destination_port bound_port_range redirect_to_xskmap
  fast_socket_xdp_port_range packet queue_id maps = elim (packet_udp_destination_port packet) [
    | none ↦ (xdp_pass, maps)
    | some none ↦ (xdp_pass, maps)
    | some (some port) ↦ elim (bound_port_range maps) [
      | none ↦ (xdp_pass, maps)
      | some (start, end) ↦
          if ltb port start || ltb end port
          then (xdp_pass, maps)
          else redirect_to_xskmap queue_id maps
    ]
  ]
