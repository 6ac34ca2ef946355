-- ===== src/Headers/Patched.antt =====
-- crates/fast-socket-xdp-rs/src/socket.rs: `patch_xdp_udp_endpoint_header_lengths` on a header that was
-- written for another payload length.
use mathlib.Core.List.{append_assoc}
use fast_socket_rs.Prelude.{
  ℕ, zero, suc, ◌+◌, ◌-◌, ◌^◌, ◌<◌, ◌≡◌, ◌≢◌, ◌↔◌, refl, sym, ap, ◌∙◌, false, some, List, [], ◌∷◌,
  ◌++◌, length, take, drop, arith, ltb,
}
use fast_socket_rs.Prelude.Slices.{take_behind, drop_behind}
use fast_socket_rs.Prelude.Results.{Result, ok, eq_of_some}
use fast_socket_rs.Egress.{to_be_bytes}
use fast_socket_rs.Headers.{Error, byte}
use fast_socket_rs.Headers.Write.{Ipv4UdpHeaderFields, write_ipv4_udp_headers, zeroed}
use fast_socket_rs.Headers.Parse.{word}
use fast_socket_rs.Headers.Endpoint.{replace_word, patch_lengths, write_word}
use fast_socket_rs.Headers.Checksum.{folded, replace_word_correct}
use fast_socket_rs.Headers.Layout.{
  ip_part, udp_part, Fits, rest_sum, rest_sum_pos, checksum_of, write_ipv4_udp_headers-parts,
}

-- Behind a link-layer header, bytes are read and written as in the IP packet itself.
byte_behind :
    (front bytes : List ℕ) (k n : ℕ) → n ≡ length front + k → byte (front ++ bytes) n ≡ byte bytes k
byte_behind [] bytes k n e = let h : n ≡ k = omega arith in ap (byte bytes) h
byte_behind (x ∷ front) bytes k zero e = absurd (omega arith)
byte_behind (x ∷ front) bytes k (suc n) e = byte_behind front bytes k n (omega arith)

module _ (front bytes : List ℕ) (k : ℕ) where
  word_behind : word (front ++ bytes) (length front + k) ≡ word bytes k
  word_behind =
      rw
        (
          byte_behind front bytes k (length front + k) refl,
          byte_behind front bytes (k + 1) (length front + k + 1) (omega arith),
        )
        refl

  write_word_behind :
      (value : ℕ)
      → write_word (front ++ bytes) (length front + k) value ≡ front ++ write_word bytes k value
  write_word_behind value =
      rw
        (
          take_behind front bytes k (length front + k) refl,
          drop_behind front bytes (k + 2) (length front + k + 2) (omega arith),
        )
        (append_assoc front (take k bytes) (to_be_bytes value ++ drop (k + 2) bytes))

ok_eq : {a b : List ℕ} → ◌≡◌ {A = Result (List ℕ) Error} (ok a) (ok b) → a ≡ b
ok_eq h = cc

-- The fields for another payload length.
abbrev pub for_len : Ipv4UdpHeaderFields → ℕ → Ipv4UdpHeaderFields
for_len f len = record f { total_len = len + 8 + 20; udp_len = len + 8 }

module _ (f : Ipv4UdpHeaderFields) (fits : Fits f) (front : List ℕ) (len : ℕ)
    (small : len + 28 < 2 ^ 16) where
  patched : ℕ → List ℕ
  patched c = ip_part (for_len f len) c ++ udp_part (for_len f len)

  patch_lengths_parts :
      (c : ℕ)
      → c < 2 ^ 16
      → patch_lengths (front ++ (ip_part f c ++ udp_part f)) (length front) len
        ≡ ok (front ++ patched (replace_word c f.total_len (len + 8 + 20)))
  unfolding patch_lengths patched
  patch_lengths_parts c h =
      let bytes = ip_part f c ++ udp_part f in
      let total = len + 8 + 20 in
      let fits_word : ltb (2 ^ 16 - 1) total ≡ false = ground arith in
      let old : word (front ++ bytes) (length front + 2) ≡ f.total_len =
        word_behind front bytes 2 ∙ omega (arith, fits.total_len_fits) in
      let sum : word (front ++ bytes) (length front + 10) ≡ c =
        word_behind front bytes 10 ∙ omega arith in
      let checksum = replace_word c f.total_len total in
      let once = write_word bytes 2 total in
      let twice = write_word once 10 checksum in
      rw (fits_word, old, sum)
        (ap ok (
          ap
            (λ b.
              write_word (write_word b (length front + 10) checksum) (length front + 24) (len + 8))
            (write_word_behind front bytes 2 total)
          ∙ ap (λ b. write_word b (length front + 24) (len + 8))
              (write_word_behind front once 10 checksum)
          ∙ write_word_behind front twice 24 (len + 8)))

  patched-checksum :
      (c d : ℕ) → c < 2 ^ 16 → d < 2 ^ 16 → front ++ patched c ≡ front ++ patched d → c ≡ d
  unfolding patched
  patched-checksum c d hc hd e =
      let at_sum : word (patched c) 10 ≡ word (patched d) 10 =
        sym (word_behind front (patched c) 10)
        ∙ ap (λ b. word b (length front + 10)) e
        ∙ word_behind front (patched d) 10 in
      omega (arith, at_sum)

  for_len-Fits : Fits (for_len f len)
  for_len-Fits = record {
    source_port_fits = fits.source_port_fits;
    destination_port_fits = fits.destination_port_fits;
    source_fits = fits.source_fits;
    destination_fits = fits.destination_fits;
    total_len_fits = omega arith;
    udp_len_fits = omega arith;
    ttl_fits = fits.ttl_fits;
  }

  -- Patching the lengths of a cached header, behind any link-layer header and for a total length
  -- below 2^16, leaves the header that would be written for the new payload length, its checksum
  -- included, except exactly where the folded sum of the old header's words and the new total
  -- length add up to 2^16 and the old total length: there one round of carries is not enough.
  pub patch_lengths-write :
      (old new : List ℕ)
      → write_ipv4_udp_headers zeroed f ≡ some old
      → write_ipv4_udp_headers zeroed (for_len f len) ≡ some new
      → (patch_lengths (front ++ old) (length front) len ≡ ok (front ++ new))
        ↔ (folded (rest_sum f + f.total_len) + (len + 8 + 20) ≢ 2 ^ 16 + f.total_len)
  unfolding checksum_of patched rest_sum replace_word
  patch_lengths-write old new at_old at_new =
      let old_eq = eq_of_some (sym at_old ∙ write_ipv4_udp_headers-parts f fits) in
      let new_eq =
        eq_of_some (sym at_new ∙ write_ipv4_udp_headers-parts (for_len f len) for_len-Fits) in
      let total = len + 8 + 20 in
      let c = checksum_of f in
      let result =
        ap (λ b. patch_lengths (front ++ b) (length front) len) old_eq
        ∙ patch_lengths_parts c (omega arith) in
      let correct =
        replace_word_correct (rest_sum f) f.total_len total (rest_sum_pos f) fits.total_len_fits
          (omega arith) in
      let d = replace_word c f.total_len total in
      (
        λ e.
            let same = ok_eq (sym result ∙ e ∙ ap (λ b. ok (front ++ b)) new_eq) in
            correct.0
              (patched-checksum d (checksum_of (for_len f len)) (omega arith) (omega arith) same),
        λ safe.
            result
            ∙ ap (λ d. ok (front ++ patched d)) (correct.1 safe)
            ∙ ap (λ b. ok (front ++ b)) (sym new_eq),
      )
