-- ===== src/Filter/Outcome.antt =====
-- The outcomes of the two programs of crates/fast-socket-xdp-ebpf/src/main.rs, by the bytes of the packet
-- and the entries of the maps.
use fast_socket_rs.Prelude.{
  ℕ, ◌+◌, ◌%◌, ◌^◌, ◌≤◌, ◌≡◌, ◌≢◌, ◌⊎◌, Option, none, some, List, length, get_elem?,
}
use fast_socket_rs.Filter.{
  Maps, Action, xdp_pass, xdp_drop, packet_udp_destination_port, bound_port_range,
}
use fast_socket_rs.Filter.Udp.{UdpTo}

-- A port that the range program is to take: the range is set, and it lies in it.
abbrev pub InRange : Maps → ℕ → Type 0
InRange maps port =
    (start : ℕ) × (end : ℕ) × (get_elem? maps.bound_port_range 0 ≡ some start)
    × (get_elem? maps.bound_port_range 1 ≡ some end)
    × (start ≤ port)
    × (port ≤ end)
    × ((start ≢ 0) ⊎ (end ≢ 0))

-- A port that the membership program is to take: ports are bound, and it is one of them.
abbrev pub IsBound : Maps → ℕ → Type 0
IsBound maps port =
    (count : ℕ) × (enabled : ℕ) × (get_elem? maps.bound_port_count 0 ≡ some count)
    × (count ≢ 0)
    × (get_elem? maps.bound_ports port ≡ some enabled)
    × (enabled ≢ 0)

-- The miss counter, the first one, is one more, in 64 bits, and nothing else has changed.
pub record MissCounted (before after : Maps) : Type 0 where
  pub same_count : after.bound_port_count ≡ before.bound_port_count
  pub same_ports : after.bound_ports ≡ before.bound_ports
  pub same_range : after.bound_port_range ≡ before.bound_port_range
  pub same_counters : length after.drop_counters ≡ length before.drop_counters
  pub counted :
      (n : ℕ)
      → get_elem? before.drop_counters 0 ≡ some n
      → get_elem? after.drop_counters 0 ≡ some ((n + 1) % 2 ^ 64)
  pub others : (i : ℕ) → i ≢ 0 → get_elem? after.drop_counters i ≡ get_elem? before.drop_counters i

-- What a redirect did: the packet went where the redirect says, with the maps unchanged, or the
-- redirect failed and the packet was dropped and counted.
pub data Redirected (redirect : ℕ → Option Action) (queue_id : ℕ) (maps : Maps)
    : Action × Maps → Type 0 where
  taken :
      {action : Action}
      → redirect queue_id ≡ some action
      → Redirected redirect queue_id maps (action, maps)
  missed :
      {after : Maps}
      → redirect queue_id ≡ none
      → MissCounted maps after
      → Redirected redirect queue_id maps (xdp_drop, after)

-- A packet is redirected if it is a datagram to a port of `Wanted`, and otherwise passed with the
-- maps unchanged.
abbrev pub Decides : (ℕ → Option Action) → List ℕ → ℕ → Maps → (ℕ → Type 0) → Action × Maps → Type 0
Decides redirect packet queue_id maps Wanted out =
    ((port : ℕ) × UdpTo packet port × Wanted port × Redirected redirect queue_id maps out)
    ⊎ ((¬ ((port : ℕ) × UdpTo packet port × Wanted port)) × (out ≡ (xdp_pass, maps)))

module _ (redirect : ℕ → Option Action) (packet : List ℕ) (queue_id : ℕ) (maps : Maps) where
  abbrev Found : ℕ → Type 0
  Found port = packet_udp_destination_port packet ≡ some (some port)
