-- ===== src/Umem/Tests.antt =====
-- Two frames of eight bytes in a region of twenty.
use fast_socket_rs.Umem.Alloc.{new-WellFormed}
use fast_socket_rs.Prelude.{
  Bool, not, ℕ, ◌/◌, ◌≡◌, refl, some, replicate, take, drop, length, arith,
}
use fast_socket_rs.Umem.{Umem, new, default_size, validated_range, descriptor_slice}
use fast_socket_rs.Umem.Frames.{
  WellFormed, Inside, validated_range-accepts, validated_range-Inside, descriptor_slice-Inside,
}

abbrev region : Umem
region = record { backing = replicate 20 0; frame_size = 8; frame_count = 2 }

region-WellFormed : WellFormed region
region-WellFormed = record {
  some_size = omega arith;
  size_fits = omega arith;
  count_fits = omega arith;
  holds_frames = omega arith;
}

validated_range-accepts_example : validated_range region 10 6 ≡ some (10, 16)
validated_range-accepts_example =
    validated_range-accepts region region-WellFormed 1 10 6
      (omega arith, omega arith, omega arith, omega arith)

accepted : validated_range region 3 5 ≡ some (3, 8)
unfolding validated_range
accepted = refl

validated_range-Inside_example : Inside region (3 / 8) 3 5 × ◌≡◌ {A = ℕ × ℕ} (3, 8) (3, 8)
validated_range-Inside_example = validated_range-Inside region region-WellFormed 3 5 (3, 8) accepted

descriptor_slice-Inside_example :
    (descriptor_slice region 10 6 ≡ some (8, take 6 (drop 10 (replicate 20 0))))
    × (length {A = ℕ} (take 6 (drop 10 (replicate 20 0))) ≡ 6)
descriptor_slice-Inside_example =
    descriptor_slice-Inside region region-WellFormed 1 10 6
      (omega arith, omega arith, omega arith, omega arith)

-- A system with pages of sixteen bytes and no huge pages.
abbrev mmap : ℕ → Bool → Bool
mmap size huge = not huge

abbrev mapped : Umem
mapped = record { backing = replicate 16 0; frame_size = 4; frame_count = 2 }

opened : new mmap 16 4 2 default_size ≡ some mapped
unfolding new
opened = refl

new-WellFormed_example : WellFormed mapped
new-WellFormed_example =
    new-WellFormed mmap 16 4 2 default_size mapped (omega arith) (omega arith) opened
