-- ===== src/Headers/Ports.antt =====
-- crates/fast-socket-xdp-rs/src/socket.rs: `XdpUdpAcceptedPorts`, the destination ports that a UDP socket
-- takes. `sort_unstable` and `dedup` are written out on lists; `binary_search` of a port in the
-- sorted list is ok exactly if the port is in it.
use fast_socket_rs.Prelude.{
  ℕ, ◌+◌, ◌≤◌, ◌≡◌, refl, ap, ◌∙◌, Bool, false, ◌&&◌, ◌||◌, Option, none, some, List, [], ◌∷◌,
  arith, leb, ◌==◌, if◌then◌else◌, Bool-cases, inl, inr,
}

pub data XdpUdpAcceptedPorts : Type 0 where
  single_port : ℕ → XdpUdpAcceptedPorts
  port_list : List ℕ → XdpUdpAcceptedPorts
  port_range : ℕ → ℕ → XdpUdpAcceptedPorts

unfoldable pub insert_sorted : ℕ → List ℕ → List ℕ
insert_sorted p [] = p ∷ []
insert_sorted p (q ∷ ports) =
    let rest = insert_sorted p ports in if leb p q then p ∷ (q ∷ ports) else q ∷ rest

unfoldable pub sort : List ℕ → List ℕ
unfolding insert_sorted
sort [] = []
sort (p ∷ ports) = insert_sorted p (sort ports)

-- A port goes if the next one kept is the same.
abbrev pub cons_new : ℕ → List ℕ → List ℕ
cons_new p [] = p ∷ []
cons_new p (q ∷ ports) = if p == q then q ∷ ports else p ∷ (q ∷ ports)

unfoldable pub dedup : List ℕ → List ℕ
dedup [] = []
dedup (p ∷ ports) = cons_new p (dedup ports)

-- `ports.binary_search(&port).is_ok()`, which is documented for ascending lists as membership.
unfoldable pub contains : List ℕ → ℕ → Bool
contains [] port = false
contains (p ∷ ports) port = (p == port) || contains ports port

abbrev pub single : ℕ → XdpUdpAcceptedPorts
single = single_port

-- `none` is the panic of an assertion.
unfoldable pub from_ports : List ℕ → Option XdpUdpAcceptedPorts
unfolding sort dedup
from_ports [] = none
from_ports (p ∷ ports) = some (port_list (dedup (sort (p ∷ ports))))

unfoldable pub range : ℕ → ℕ → Option XdpUdpAcceptedPorts
range start end = if leb start end then some (port_range start end) else none

unfoldable pub accepts : XdpUdpAcceptedPorts → ℕ → Bool
unfolding contains
accepts (single_port accepted) port = port == accepted
accepts (port_list ports) port = contains ports port
accepts (port_range start end) port = leb start port && leb port end

contains-insert_sorted :
    (p port : ℕ) (ports : List ℕ)
    → contains (insert_sorted p ports) port ≡ (p == port) || contains ports port
unfolding contains insert_sorted
contains-insert_sorted p port [] = refl
contains-insert_sorted p port (q ∷ ports) = ground (arith, contains-insert_sorted p port ports)

contains-sort : (ports : List ℕ) (port : ℕ) → contains (sort ports) port ≡ contains ports port
unfolding contains sort
contains-sort [] port = refl
contains-sort (p ∷ ports) port =
    contains-insert_sorted p port (sort ports)
    ∙ ap (λ b. (p == port) || b) (contains-sort ports port)

contains-cons_new :
    (p port : ℕ) (ports : List ℕ)
    → contains (cons_new p ports) port ≡ (p == port) || contains ports port
unfolding contains
contains-cons_new p port [] = refl
contains-cons_new p port (q ∷ ports) = ground arith

contains-dedup : (ports : List ℕ) (port : ℕ) → contains (dedup ports) port ≡ contains ports port
unfolding contains dedup
contains-dedup [] port = refl
contains-dedup (p ∷ ports) port =
    contains-cons_new p port (dedup ports) ∙ ap (λ b. (p == port) || b) (contains-dedup ports port)

-- Strictly ascending from a bound on.
abbrev pub Ascends : ℕ → List ℕ → Type 0
Ascends low [] = Unit
Ascends low (p ∷ ports) = (low ≤ p) × Ascends (p + 1) ports

abbrev Sorted : ℕ → List ℕ → Type 0
Sorted low [] = Unit
Sorted low (p ∷ ports) = (low ≤ p) × Sorted p ports

Sorted-le : (low high : ℕ) (ports : List ℕ) → low ≤ high → Sorted high ports → Sorted low ports
Sorted-le low high [] h s = s
Sorted-le low high (p ∷ ports) h (a, s) = (omega arith, s)

insert_sorted-Sorted :
    (p low : ℕ) (ports : List ℕ) → low ≤ p → Sorted low ports → Sorted low (insert_sorted p ports)
unfolding insert_sorted
insert_sorted-Sorted p low [] h s = (h, s)
insert_sorted-Sorted p low (q ∷ ports) h (a, s) = elim (Bool-cases (leb p q)) [
  | inl le ↦ rw le (h, (ground arith, s))
  | inr gt ↦ rw gt (a, insert_sorted-Sorted p q ports (ground arith) s)
]

sort-Sorted : (ports : List ℕ) → Sorted 0 (sort ports)
unfolding sort
sort-Sorted [] = tt
sort-Sorted (p ∷ ports) = insert_sorted-Sorted p 0 (sort ports) (omega arith) (sort-Sorted ports)

cons_new-Ascends : (p : ℕ) (ports : List ℕ) → Ascends p ports → Ascends p (cons_new p ports)
cons_new-Ascends p [] s = (omega arith, tt)
cons_new-Ascends p (q ∷ ports) (a, s) = elim (Bool-cases (p == q)) [
  | inl same ↦ rw same (a, s)
  | inr other ↦ rw other (omega arith, (ground arith, s))
]

Ascends-le : (low high : ℕ) (ports : List ℕ) → low ≤ high → Ascends high ports → Ascends low ports
Ascends-le low high [] h s = s
Ascends-le low high (p ∷ ports) h (a, s) = (omega arith, s)

dedup-Ascends : (low : ℕ) (ports : List ℕ) → Sorted low ports → Ascends low (dedup ports)
unfolding dedup
dedup-Ascends low [] s = tt
dedup-Ascends low (p ∷ ports) (a, s) =
    Ascends-le low p (cons_new p (dedup ports)) a
      (cons_new-Ascends p (dedup ports) (dedup-Ascends p ports s))

-- A list of ports, unless it is empty, becomes a strictly ascending one that accepts exactly the
-- ports of the list.
pub from_ports-accepts :
    (p : ℕ) (ports : List ℕ)
    → (kept : List ℕ) × (from_ports (p ∷ ports) ≡ some (port_list kept))
      × Ascends 0 kept
      × ((port : ℕ) → accepts (port_list kept) port ≡ contains (p ∷ ports) port)
unfolding from_ports accepts
from_ports-accepts p ports = (
  dedup (sort (p ∷ ports)),
  refl,
  dedup-Ascends 0 (sort (p ∷ ports)) (sort-Sorted (p ∷ ports)),
  λ port. contains-dedup (sort (p ∷ ports)) port ∙ contains-sort (p ∷ ports) port,
)
