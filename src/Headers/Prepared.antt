-- ===== src/Headers/Prepared.antt =====
-- crates/fast-socket-xdp-rs/src/socket.rs: what `build_xdp_udp_endpoint_cache` returns, on every branch.
use fast_socket_rs.Prelude.{
  ℕ, ◌+◌, ◌-◌, ◌^◌, ◌≤◌, ◌<◌, ◌≡◌, ◌⊎◌, inl, inr, refl, sym, ap, subst, ◌∙◌, none≢some, Option,
  none, some, false, List, ◌++◌, length, arith, ltb, Bool-cases, Option-cases,
}
use fast_socket_rs.Prelude.Results.{Result, ok, err, eq_of_some}
use fast_socket_rs.Egress.{ResolvedL2, resolved_l2_header, ip_mtu}
use fast_socket_rs.Headers.{Ipv4Addr, Error, invalid_packet, oversize_for_mtu, no_egress_route}
use fast_socket_rs.Headers.Write.{Ipv4UdpHeaderFields, write_ipv4_udp_headers, zeroed}
use fast_socket_rs.Headers.Endpoint.{
  socket_v4, UdpEndpointSpec, UdpEndpointInfo, XdpUdpEndpointCache, validate_payload, source_of,
  or_zero, port_or, fields_for, when_valid, when_resolved, when_unsegmented, when_source,
  when_destination, build_cache,
}
use fast_socket_rs.Headers.Layout.{
  IsAddr, Fits, ip_part, udp_part, checksum_of, write_ipv4_udp_headers-parts,
}
use fast_socket_rs.Headers.Valid.{
  IsSocketAddr, IsSpec, SocketAddr-cases, v4≢v6, v4_eq, port_or-IsPort, source_of-IsAddr, valid,
  oversize, validate_payload-Validated,
}

module _ (resolve_udp_l2 : Ipv4Addr → Option ResolvedL2) (local_ip : Ipv4Addr)
    (local_port ttl route_generation : ℕ) (spec : UdpEndpointSpec) where
  -- An endpoint that can be served: over IPv4, without segmentation, on a route whose MTU has room
  -- for the headers and for the payload, and in a datagram's 16-bit length.
  pub record IsServed : Type 0 where
    pub destination : Ipv4Addr
    pub destination_port : ℕ
    pub source : Ipv4Addr
    pub resolved : ResolvedL2
    pub to_ipv4 : spec.destination ≡ socket_v4 destination destination_port
    pub from_ipv4 : source_of local_ip spec.source_ip ≡ some source
    pub no_gso : spec.gso_segment_size ≡ none
    pub route : resolve_udp_l2 destination ≡ some resolved
    pub within_mtu : or_zero spec.payload_len + 28 ≤ ip_mtu resolved
    pub within_u16 : or_zero spec.payload_len + 28 < 2 ^ 16

  abbrev pub fields_of : IsServed → Ipv4UdpHeaderFields
  fields_of s =
      fields_for s.source s.destination (port_or local_port spec.source_port) s.destination_port ttl
        spec.ecn (or_zero spec.payload_len)

  -- The cached header is the link-layer header of the route and the header that is written.
  pub record IsPrepared (s : IsServed) (cache : XdpUdpEndpointCache) (info : UdpEndpointInfo)
      : Type 0 where
    pub ip_udp : List ℕ
    pub written : write_ipv4_udp_headers zeroed (fields_of s) ≡ some ip_udp
    pub header_eq : cache.header ≡ resolved_l2_header s.resolved ++ ip_udp
    pub l2_len_eq : cache.l2_len ≡ length (resolved_l2_header s.resolved)
    pub generation_eq : cache.route_generation ≡ route_generation
    pub mtu_eq : info.mtu ≡ ip_mtu s.resolved - 28
    pub payload_len_eq : info.payload_len ≡ spec.payload_len

  abbrev pub built : Option (Result (XdpUdpEndpointCache × UdpEndpointInfo) Error)
  built = build_cache resolve_udp_l2 local_ip local_port ttl route_generation spec

  -- Every branch: the endpoint is served and prepared, or it cannot be served and an error says so.
  pub data Built : Type 0 where
    prepared :
        (s : IsServed) (cache : XdpUdpEndpointCache) (info : UdpEndpointInfo)
        → built ≡ some (ok (cache, info))
        → IsPrepared s cache info
        → Built
    refused : (e : Error) → built ≡ some (err e) → (IsServed → ⊥) → Built

  resolving :
      UdpEndpointSpec
      → Ipv4Addr
      → ℕ
      → Ipv4Addr
      → Option ResolvedL2
      → Option (Result (XdpUdpEndpointCache × UdpEndpointInfo) Error)
  unfolding when_resolved
  resolving = when_resolved resolve_udp_l2 local_ip local_port ttl route_generation

  no_route_refutes :
      {destination : Ipv4Addr} {port : ℕ}
      → spec.destination ≡ socket_v4 destination port
      → resolve_udp_l2 destination ≡ none
      → IsServed
      → ⊥
  no_route_refutes to no_route s =
      let same = (v4_eq (sym to ∙ s.to_ipv4)).0 in
      none≢some (sym no_route ∙ ap resolve_udp_l2 same ∙ s.route)

  resolved_eq :
      {destination : Ipv4Addr} {port : ℕ} {resolved : ResolvedL2}
      → spec.destination ≡ socket_v4 destination port
      → resolve_udp_l2 destination ≡ some resolved
      → (s : IsServed) → s.resolved ≡ resolved
  resolved_eq to route s =
      let same = (v4_eq (sym to ∙ s.to_ipv4)).0 in
      eq_of_some (sym s.route ∙ sym (ap resolve_udp_l2 same) ∙ route)

  too_long :
      {mtu : ℕ} (s : IsServed)
      → ip_mtu s.resolved ≡ mtu
      → (mtu - 28 < or_zero spec.payload_len) ⊎ (2 ^ 16 ≤ or_zero spec.payload_len + 28)
      → ⊥
  too_long s e (inl h) = absurd (omega (arith, e, s.within_mtu))
  too_long s e (inr h) = absurd (omega (arith, s.within_u16))

  module _ (is_spec : IsSpec spec) (is_local : IsAddr local_ip) (is_port : local_port < 2 ^ 16)
      (is_ttl : ttl < 256) where
    fields_of-Fits : (s : IsServed) → Fits (fields_of s)
    fields_of-Fits s =
        let (destination_fits, port_fits) = subst IsSocketAddr s.to_ipv4 is_spec.is_destination in
        record {
          source_port_fits = port_or-IsPort spec.source_port is_port is_spec.is_port;
          destination_port_fits = port_fits;
          source_fits =
              source_of-IsAddr local_ip spec.source_ip is_local is_spec.is_source s.from_ipv4;
          destination_fits = destination_fits;
          total_len_fits = omega (arith, s.within_u16);
          udp_len_fits = omega (arith, s.within_u16);
          ttl_fits = is_ttl;
        }

    when_resolved-Built :
        (destination : Ipv4Addr) (port : ℕ) (source : Ipv4Addr) (resolved : ResolvedL2)
        → spec.destination ≡ socket_v4 destination port
        → source_of local_ip spec.source_ip ≡ some source
        → spec.gso_segment_size ≡ none
        → resolve_udp_l2 destination ≡ some resolved
        → built ≡ resolving spec destination port source (some resolved)
        → Built
    unfolding resolving when_resolved
    when_resolved-Built destination port source resolved to from no_gso route at_built =
        let pl = spec.payload_len in
        let len = or_zero pl in
        let mtu = ip_mtu resolved in
        let info : UdpEndpointInfo = record {
          mtu = mtu - 28;
          payload_len = pl;
          gso_segment_size = none;
        } in
        let fields =
          fields_for source destination (port_or local_port spec.source_port) port ttl spec.ecn
            len in
        let valid_then =
          when_valid resolve_udp_l2 local_ip local_port ttl route_generation info
            (resolved_l2_header resolved) fields in
        elim (Bool-cases (ltb mtu 28)) [
          | inl tiny ↦ refused invalid_packet (at_built ∙ rw tiny refl) (λ s.
              let e = ap ip_mtu (resolved_eq to route s) in absurd (ground (arith, s.within_mtu)))
          | inr room ↦
              let checked : built ≡ valid_then (validate_payload info len) =
                at_built ∙ rw room refl in
              elim (validate_payload-Validated info) [
                | oversize e long ↦
                    refused oversize_for_mtu (checked ∙ ap valid_then e) (λ s.
                      let at_mtu = ap ip_mtu (resolved_eq to route s) in too_long s at_mtu long)
                | valid e within short ↦
                    let s : IsServed = record {
                      destination = destination;
                      destination_port = port;
                      source = source;
                      resolved = resolved;
                      to_ipv4 = to;
                      from_ipv4 = from;
                      no_gso = no_gso;
                      route = route;
                      within_mtu = ground arith;
                      within_u16 = short;
                    } in
                    let written = write_ipv4_udp_headers-parts fields (fields_of-Fits s) in
                    let fits_word : ltb (2 ^ 16 - 1) (len + 8 + 20) ≡ false = ground arith in
                    let ip_udp = ip_part fields (checksum_of fields) ++ udp_part fields in
                    let l2_header = resolved_l2_header resolved in
                    let cache : XdpUdpEndpointCache = record {
                      route_generation = route_generation;
                      header = l2_header ++ ip_udp;
                      l2_len = length l2_header;
                    } in
                    prepared s cache info
                      (checked
                        ∙ ap valid_then e
                        ∙ (unfold when_valid in rw (fits_word, written) refl))
                      (record {
                        ip_udp = ip_udp;
                        written = written;
                        header_eq = refl;
                        l2_len_eq = refl;
                        generation_eq = refl;
                        mtu_eq = refl;
                        payload_len_eq = refl;
                      })
              ]
        ]

    -- Preparing an endpoint always returns, for ports, addresses and a TTL in the range of their
    -- types: the route's link-layer header and the header that is written behind it, with the
    -- route's MTU less the headers, if the endpoint can be served (over IPv4, without
    -- segmentation, on a route whose MTU has room, in a 16-bit length), and an error if and only
    -- if it cannot.
    pub build_cache-Built : Built
    unfolding build_cache resolving
    build_cache-Built =
        let at_destination =
          when_destination resolve_udp_l2 local_ip local_port ttl route_generation in
        let at_source = when_source resolve_udp_l2 local_ip local_port ttl route_generation spec in
        let at_gso =
          when_unsegmented resolve_udp_l2 local_ip local_port ttl route_generation spec in
        elim (SocketAddr-cases spec.destination) [
          | inr (a, port, to) ↦
              refused invalid_packet (ap (at_destination spec) to) (λ s. v4≢v6 (sym s.to_ipv4 ∙ to))
          | inl (destination, port, to) ↦ elim (Option-cases (source_of local_ip spec.source_ip)) [
            | inl no_source ↦
                refused invalid_packet
                  (ap (at_destination spec) to ∙ ap (at_source destination port) no_source)
                  (λ s. none≢some (sym no_source ∙ s.from_ipv4))
            | inr (source, from) ↦
                let so_far = ap (at_destination spec) to ∙ ap (at_source destination port) from in
                elim (Option-cases spec.gso_segment_size) [
                  | inr (size, gso) ↦
                      refused invalid_packet (so_far ∙ ap (at_gso destination port source) gso)
                        (λ s. none≢some (sym s.no_gso ∙ gso))
                  | inl no_gso ↦
                      let chosen = so_far ∙ ap (at_gso destination port source) no_gso in
                      elim (Option-cases (resolve_udp_l2 destination)) [
                        | inl no_route ↦
                            refused no_egress_route
                              (chosen ∙ ap (resolving spec destination port source) no_route)
                              (λ s. no_route_refutes to no_route s)
                        | inr (resolved, route) ↦
                            when_resolved-Built destination port source resolved to from no_gso
                              route (chosen ∙ ap (resolving spec destination port source) route)
                      ]
                ]
          ]
        ]
