-- ===== src/Headers/Chain.antt =====
-- crates/fast-socket-xdp-rs/src/socket.rs: the walk of `has_ipv6_fragment_header` through the extension
-- headers of an IPv6 datagram.
use fast_socket_rs.Prelude.{
  ℕ, zero, suc, ◌+◌, ◌*◌, ◌^◌, ◌≤◌, ◌<◌, ◌≡◌, ◌↔◌, sym, subst, ap, ◌∙◌, inl, inr, refl, Bool, true,
  false, some, List, length, arith, ltb, ◌==◌, ==_iff, Bool-cases,
}
use fast_socket_rs.Headers.{ipv6_header_len, byte}
use fast_socket_rs.Headers.Frame.{
  NextHeader, at_fragment, at_payload, extension, next_header, saturating_add, fragment_round,
  fragment_loop, has_ipv6_fragment_header,
}

-- RFC 8200 and RFC 4302: the length in bytes of an extension header of type `next`, by its length
-- byte. Hop-by-hop options, routing and destination options count units of 8 bytes behind the
-- first, an authentication header units of 4 behind the first two.
pub data Extends (next units : ℕ) : ℕ → Type 0 where
  hop_by_hop : next ≡ 0 → Extends next units (8 + 8 * units)
  routing : next ≡ 43 → Extends next units (8 + 8 * units)
  destination_options : next ≡ 60 → Extends next units (8 + 8 * units)
  authentication : next ≡ 51 → Extends next units (8 + 4 * units)

-- A fragment header stands at the end of a chain of extension headers that all lie in the packet.
pub data Leads (packet : List ℕ) : ℕ → ℕ → Type 0 where
  here : {next offset : ℕ} → next ≡ 44 → Leads packet next offset
  through :
      {next offset len : ℕ}
      → Extends next (byte packet (offset + 1)) len
      → offset + 2 ≤ length packet
      → offset + len ≤ length packet
      → Leads packet (byte packet offset) (offset + len)
      → Leads packet next offset

-- What the code has at the header types of the specification.
next_header_at :
    (next : ℕ) {units len : ℕ}
    → Extends next units len
    → (g : ℕ → ℕ) × (next_header next ≡ extension g) × (g units ≡ len)
unfolding next_header
next_header_at next (hop_by_hop e) = (λ u. (u + 1) * 8, rw e refl, omega arith)
next_header_at next (routing e) = (λ u. (u + 1) * 8, rw e refl, omega arith)
next_header_at next (destination_options e) = (λ u. (u + 1) * 8, rw e refl, omega arith)
next_header_at next (authentication e) = (λ u. (u + 2) * 4, rw e refl, omega arith)

fragment_at : (next : ℕ) → next ≡ 44 → next_header next ≡ at_fragment
unfolding next_header
fragment_at next e = rw e refl

-- An extension header has 8 bytes at least.
pub data KnownNext (next : ℕ) : Type 0 where
  fragment_next : next ≡ 44 → KnownNext next
  payload_next : next_header next ≡ at_payload → KnownNext next
  extension_next :
      (extension_len : ℕ → ℕ)
      → ((units : ℕ) → Extends next units (extension_len units))
      → next_header next ≡ extension extension_len
      → KnownNext next

Extends-eq : {next units len : ℕ} (m : ℕ) → m ≡ len → Extends next units m → Extends next units len
Extends-eq m e h = subst (Extends _ _) e h

next_header-KnownNext : (next : ℕ) → KnownNext next
unfolding next_header
next_header-KnownNext next = elim (Bool-cases (next == 44)) [
  | inl h ↦ fragment_next ((==_iff next 44).0 h)
  | inr h ↦ elim (Bool-cases (next == 0)) [
    | inl k ↦
        extension_next (λ units. (units + 1) * 8)
          (λ units. Extends-eq (8 + 8 * units) (omega arith) (hop_by_hop ((==_iff next 0).0 k)))
          (rw (h, k) refl)
    | inr k ↦ elim (Bool-cases (next == 43)) [
      | inl l ↦
          extension_next (λ units. (units + 1) * 8)
            (λ units. Extends-eq (8 + 8 * units) (omega arith) (routing ((==_iff next 43).0 l)))
            (rw (h, k, l) refl)
      | inr l ↦ elim (Bool-cases (next == 60)) [
        | inl m ↦
            extension_next (λ units. (units + 1) * 8)
              (λ units.
                Extends-eq (8 + 8 * units) (omega arith)
                  (destination_options ((==_iff next 60).0 m)))
              (rw (h, k, l, m) refl)
        | inr m ↦ elim (Bool-cases (next == 51)) [
          | inl n ↦
              extension_next (λ units. (units + 2) * 4)
                (λ units.
                  Extends-eq (8 + 4 * units) (omega arith) (authentication ((==_iff next 51).0 n)))
                (rw (h, k, l, m, n) refl)
          | inr n ↦ payload_next (rw (h, k, l, m, n) refl)
        ]
      ]
    ]
  ]
]

Extends-long : {next units len : ℕ} → Extends next units len → 8 ≤ len
Extends-long (hop_by_hop e) = omega arith
Extends-long (routing e) = omega arith
Extends-long (destination_options e) = omega arith
Extends-long (authentication e) = omega arith

no_chain :
    {packet : List ℕ} {next offset : ℕ}
    → next_header next ≡ at_payload
    → Leads packet next offset
    → ⊥
no_chain {next = next} e (here k) = let f = fragment_at next k in cc
no_chain {next = next} e (through x a b l) = let (g, f, _) = next_header_at next x in cc

extension_eq : {g h : ℕ → ℕ} → extension g ≡ extension h → g ≡ h
extension_eq e = cc

-- A slice has at most `isize::MAX` bytes.
module _ (packet : List ℕ) (short : length packet < 2 ^ 63) where
  abbrev Walked : ℕ → ℕ → ℕ → Type 0
  Walked fuel next offset =
      (found : Bool) × (fragment_loop fuel packet next offset ≡ some found)
      × ((found ≡ true) ↔ Leads packet next offset)

  -- What the round does at a known next header.
  round :
      (fuel next offset : ℕ) {h : NextHeader}
      → next_header next ≡ h
      → fragment_loop (suc fuel) packet next offset
        ≡ fragment_round packet h offset (fragment_loop fuel packet)
  unfolding fragment_loop
  round fuel next offset e = ap (λ h. fragment_round packet h offset (fragment_loop fuel packet)) e

  -- How far the round at an extension header goes.
  abbrev behind : ℕ → (ℕ → ℕ) → ℕ
  behind offset extension_len = offset + extension_len (byte packet (offset + 1))

  StaysInside : ℕ → (ℕ → ℕ) → Type 0
  StaysInside offset g =
      (offset + 2 ≤ length packet)
      × (behind offset g ≤ length packet)
      × Leads packet (byte packet offset) (behind offset g)

  Leads-StaysInside :
      {next offset : ℕ} (g : ℕ → ℕ)
      → next_header next ≡ extension g
      → Leads packet next offset
      → StaysInside offset g
  unfolding StaysInside
  Leads-StaysInside {next = next} g e (here k) = let f = fragment_at next k in cc
  Leads-StaysInside {next = next} {offset = offset} g e (through {len = len} x a b l) =
      let (h, f, at_len) = next_header_at next x in
      let same : g (byte packet (offset + 1)) ≡ len =
        ap (λ k. k (byte packet (offset + 1))) (extension_eq (sym e ∙ f)) ∙ at_len in
      rw same (a, b, l)

  -- One round at an extension header, given the walk from behind it.
  through_extension :
      (fuel next offset : ℕ) (g : ℕ → ℕ)
      → Extends next (byte packet (offset + 1)) (g (byte packet (offset + 1)))
      → next_header next ≡ extension g
      → (behind offset g ≤ length packet → Walked fuel (byte packet offset) (behind offset g))
      → Walked (suc fuel) next offset
  unfolding StaysInside fragment_round
  through_extension fuel next offset g x e rest =
      let after = saturating_add offset (g (byte packet (offset + 1))) in
      elim (Bool-cases (ltb (length packet) (offset + 2))) [
        | inl out ↦ (
          false,
          round fuel next offset e ∙ rw out refl,
          (λ h. cc, λ l. let (a, b, k) = Leads-StaysInside g e l in absurd (ground arith)),
        )
        | inr inside ↦ elim (Bool-cases (ltb (length packet) after)) [
          | inl out ↦ (
            false,
            round fuel next offset e ∙ rw (inside, out) refl,
            (λ h. cc, λ l. let (a, b, k) = Leads-StaysInside g e l in absurd (ground arith)),
          )
          | inr fits ↦
              let le : behind offset g ≤ length packet = ground arith in
              let (found, walked, iff) = rest le in
              let exact : after ≡ behind offset g = omega arith in
              (
                found,
                round fuel next offset e
                    ∙ rw (inside, fits) (ap (fragment_loop fuel packet (byte packet offset)) exact)
                    ∙ walked,
                (
                  λ h. through x (ground arith) le (iff.0 h),
                  λ l. let (a, b, k) = Leads-StaysInside g e l in iff.1 k,
                ),
              )
        ]
      ]

  fragment_loop-Walked :
      (fuel next offset : ℕ) → 0 < fuel → length packet < offset + fuel → Walked fuel next offset
  unfolding fragment_round
  fragment_loop-Walked zero next offset pos enough = absurd (omega arith)
  fragment_loop-Walked (suc fuel) next offset pos enough = elim (next_header-KnownNext next) [
    | fragment_next e ↦
        (true, round fuel next offset (fragment_at next e), (λ _. here e, λ _. refl))
    | payload_next e ↦ (false, round fuel next offset e, (λ h. cc, λ l. absurd (no_chain e l)))
    | extension_next extension_len is_len e ↦
        let x = is_len (byte packet (offset + 1)) in
        through_extension fuel next offset extension_len x e (λ inside.
          fragment_loop-Walked fuel (byte packet offset)
            (offset + extension_len (byte packet (offset + 1))) (omega (arith, Extends-long x))
            (omega (arith, Extends-long x)))
  ]

-- The walk through the extension headers of an IPv6 packet shorter than 2^63 bytes ends, and finds
-- a fragment header (type 44) exactly if one stands at the end of a chain of extension headers
-- that lie in the packet: hop-by-hop options, routing and destination options with 8 bytes for
-- each unit and 8 more, authentication headers with 4 bytes for each unit and 8 more.
pub has_ipv6_fragment_header-Leads :
    (packet : List ℕ)
    → length packet < 2 ^ 63
    → (found : Bool) × (has_ipv6_fragment_header packet ≡ some found)
      × ((found ≡ true) ↔ Leads packet (byte packet 6) ipv6_header_len)
unfolding has_ipv6_fragment_header
has_ipv6_fragment_header-Leads packet short =
    fragment_loop-Walked packet short (length packet + 1) (byte packet 6) ipv6_header_len
      (omega arith) (omega arith)
