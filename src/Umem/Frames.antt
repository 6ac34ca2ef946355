-- ===== src/Umem/Frames.antt =====
-- Frame addresses and descriptors of umem.rs.
use native.Mathlib.Nat.{
  mul-le-mul_right, mul-le-mul_left, div-eq_of_lt-le, div-add-mod', mul-div_cancel, mod-lt,
}
use fast_socket_rs.Prelude.{
  ℕ, ◌+◌, ◌-◌, ◌*◌, ◌/◌, ◌%◌, ◌^◌, ◌≤◌, ◌<◌, ◌≡◌, refl, sym, ◌∙◌, ap, inl, inr, true, false, ◌||◌,
  Option, none, some, length, take, drop, ltb, if◌then◌else◌, arith, Bool-cases, ltb→lt, none≢some,
  length-take, length-drop,
}
use fast_socket_rs.Prelude.Results.{>>=-eq-some, eq_of_some}
use fast_socket_rs.Umem.{
  Umem, checked_usize, frame_offset, frame_addr_for_desc, validated_range, descriptor_slice,
  get_range,
}

-- The frames have a size, their numbers fit `u32`, and the region holds them all.
pub record WellFormed (u : Umem) : Type 0 where
  pub some_size : 0 < u.frame_size
  pub size_fits : u.frame_size < 2 ^ 32
  pub count_fits : u.frame_count < 2 ^ 32
  pub holds_frames : u.frame_count * u.frame_size ≤ length u.backing

-- The bytes `addr` to `addr + len - 1` lie in frame `index`, and `addr` itself does.
abbrev pub Inside : Umem → ℕ → ℕ → ℕ → Type 0
Inside u index addr len =
    (index < u.frame_count)
    × (frame_offset u index ≤ addr)
    × (addr < frame_offset u index + u.frame_size)
    × (addr + len ≤ frame_offset u index + u.frame_size)

module _ (u : Umem) (wf : WellFormed u) where
  checked_fits : (x : ℕ) → x < 2 ^ 64 → checked_usize x ≡ some x
  checked_fits x h = ground (arith, h)

  checked_eq : (x y : ℕ) → checked_usize x ≡ some y → x ≡ y
  checked_eq x y h = ground arith

  frame_index_of : (index addr len : ℕ) → Inside u index addr len → addr / u.frame_size ≡ index
  frame_index_of index addr len h =
      let (small, low, high, last) = h in
      let next : (index + 1) * u.frame_size ≡ frame_offset u index + u.frame_size = omega arith in
      div-eq_of_lt-le u.frame_size low (omega (arith, high, next))

  -- Clearing the offset in the frame leaves the frame's own address.
  frame_addr_eq : (addr : ℕ) → addr - addr % u.frame_size ≡ addr / u.frame_size * u.frame_size
  frame_addr_eq addr = omega (arith, div-add-mod' addr u.frame_size)

  frame_addr-index : (addr : ℕ) → (addr - addr % u.frame_size) / u.frame_size ≡ addr / u.frame_size
  frame_addr-index addr =
      ap (λ k. k / u.frame_size) (frame_addr_eq addr)
      ∙ mul-div_cancel (addr / u.frame_size) wf.some_size

  frame_addr-Inside :
      (index addr len : ℕ)
      → Inside u index addr len
      → frame_addr_for_desc u addr ≡ some (frame_offset u index)
  unfolding frame_addr_for_desc
  frame_addr-Inside index addr len h =
      let at_index = frame_index_of index addr len h in
      let (small, low, high, last) = h in
      let ok : ltb index u.frame_count ≡ true = ground (arith, small) in
      rw (frame_addr-index addr, at_index, ok)
        (ap some (frame_addr_eq addr ∙ ap (λ k. k * u.frame_size) at_index))

  frames_fit : (index : ℕ) → index < u.frame_count → frame_offset u index + u.frame_size < 2 ^ 64
  frames_fit index h =
      let within =
        mul-le-mul_right {m = index + 1} {n = u.frame_count} u.frame_size (omega arith) in
      let widest =
        mul-le-mul_left {m = u.frame_size} {n = 2 ^ 32 - 1} u.frame_count
          (omega (arith, wf.size_fits)) in
      let next : (index + 1) * u.frame_size ≡ frame_offset u index + u.frame_size = omega arith in
      omega (arith, within, widest, next, wf.count_fits)

  -- In a well-formed region, `validated_range` accepts every descriptor that lies inside a frame
  -- of the region: no check of overflow refuses it.
  pub validated_range-accepts :
      (index addr len : ℕ)
      → Inside u index addr len
      → validated_range u addr len ≡ some (addr, addr + len)
  unfolding validated_range
  validated_range-accepts index addr len h =
      let fits = frames_fit index h.0 in
      let at_frame = frame_addr-Inside index addr len h in
      let (small, low, high, last) = h in
      let start = checked_fits addr (omega arith) in
      let end = checked_fits (addr + len) (omega arith) in
      let frame_start = checked_fits (frame_offset u index) (omega arith) in
      let frame_end = checked_fits (frame_offset u index + u.frame_size) fits in
      let test : (ltb addr (frame_offset u index)
            || ltb (frame_offset u index + u.frame_size) (addr + len))
          ≡ false =
        ground arith in
      rw (at_frame, start, end, frame_start, frame_end, test) refl

  frame_addr_found :
      (addr frame_addr : ℕ)
      → frame_addr_for_desc u addr ≡ some frame_addr
      → (frame_addr ≡ frame_offset u (addr / u.frame_size)) × (addr / u.frame_size < u.frame_count)
  unfolding frame_addr_for_desc
  frame_addr_found addr frame_addr h =
      elim (Bool-cases (ltb ((addr - addr % u.frame_size) / u.frame_size) u.frame_count)) [
        | inl ok ↦ (
          sym (eq_of_some (rw ok at h)) ∙ frame_addr_eq addr,
          omega (arith, ltb→lt _ _ ok, frame_addr-index addr),
        )
        | inr none_there ↦ absurd (none≢some (rw none_there at h))
      ]

  both_tests :
      (start end frame_start frame_end : ℕ) (out : ℕ × ℕ)
      → ◌≡◌ {A = Option (ℕ × ℕ)}
          (if ltb start frame_start || ltb frame_end end then none else some (start, end))
          (some out)
      → (frame_start ≤ start) × (end ≤ frame_end) × (out ≡ (start, end))
  both_tests start end frame_start frame_end out h =
      elim (Bool-cases (ltb start frame_start || ltb frame_end end)) [
        | inl outside ↦ absurd (none≢some (rw outside at h))
        | inr inside ↦ (
          (ltb_or start frame_start frame_end end inside).0,
          (ltb_or start frame_start frame_end end inside).1,
          sym (eq_of_some (rw inside at h)),
        )
      ]
    where
      ltb_or : (a b c d : ℕ) → (ltb a b || ltb c d) ≡ false → (b ≤ a) × (d ≤ c)
      ltb_or a b c d k = ground arith

  -- In a well-formed region, a descriptor that `validated_range` accepts lies inside the frame of
  -- its address, which is one of the region's frames, and the range is from the address to the
  -- address plus the length.
  pub validated_range-Inside :
      (addr len : ℕ) (out : ℕ × ℕ)
      → validated_range u addr len ≡ some out
      → Inside u (addr / u.frame_size) addr len × (out ≡ (addr, addr + len))
  unfolding validated_range
  validated_range-Inside addr len out h =
      let (frame_addr, h1, r1) = >>=-eq-some (frame_addr_for_desc u addr) _ h in
      let (start, h2, r2) = >>=-eq-some (checked_usize addr) _ r1 in
      let (end, h3, r3) = >>=-eq-some (checked_usize (start + len)) _ r2 in
      let (frame_start, h4, r4) = >>=-eq-some (checked_usize frame_addr) _ r3 in
      let (frame_end, h5, r5) = >>=-eq-some (checked_usize (frame_start + u.frame_size)) _ r4 in
      let (at_frame, real) = frame_addr_found addr frame_addr h1 in
      let is_start = checked_eq addr start h2 in
      let is_end = checked_eq (start + len) end h3 in
      let is_frame_start = checked_eq frame_addr frame_start h4 in
      let is_frame_end = checked_eq (frame_start + u.frame_size) frame_end h5 in
      let (above, below, is_out) = both_tests start end frame_start frame_end out r5 in
      let within = mod-lt addr wf.some_size in
      let parts = div-add-mod' addr u.frame_size in
      let end_is : end ≡ addr + len = omega arith in
      (
        (real, omega arith, omega (arith, within, parts), omega arith),
        is_out ∙ ap (λ k. (start, k)) end_is ∙ ap (λ k. (k, addr + len)) (sym is_start),
      )

  -- In a well-formed region, `descriptor_slice` of a descriptor inside a frame returns that
  -- frame's address and exactly `len` bytes, those from the descriptor's address on.
  pub descriptor_slice-Inside :
      (index addr len : ℕ)
      → Inside u index addr len
      → (descriptor_slice u addr len ≡ some (frame_offset u index, take len (drop addr u.backing)))
        × (length (take len (drop addr u.backing)) ≡ len)
  unfolding descriptor_slice get_range
  descriptor_slice-Inside index addr len h =
      let at_frame = frame_addr-Inside index addr len h in
      let range = validated_range-accepts index addr len h in
      let within =
        mul-le-mul_right {m = index + 1} {n = u.frame_count} u.frame_size (omega (arith, h.0)) in
      let next : (index + 1) * u.frame_size ≡ frame_offset u index + u.frame_size = omega arith in
      let room : addr + len ≤ length u.backing =
        omega (arith, h.3, within, next, wf.holds_frames) in
      let test : (ltb (addr + len) addr || ltb (length u.backing) (addr + len)) ≡ false =
        ground (arith, room) in
      let count : addr + len - addr ≡ len = omega arith in
      (
        rw (range, at_frame, test, count) refl,
        omega (arith, length-take len (drop addr u.backing), length-drop addr u.backing, room),
      )
