-- ===== src/Umem.antt =====
-- crates/fast-socket-xdp-rs/src/umem.rs: the frames of a UMEM region and the descriptors that name
-- bytes of one frame. `usize` and `u64` have 64 bits; `none` is `None`, `Err` or a panic.
pub mod Frames
pub mod Alloc
mod Tests
use fast_socket_rs.Prelude.{
  ℕ, zero, suc, not, replicate, ◌==◌, ◌^◌, ◌+◌, ◌-◌, ◌*◌, ◌/◌, ◌%◌, Bool, true, false, ◌||◌, Option,
  none, some, List, length, take, drop, ltb, leb, if◌then◌else◌,
}
use fast_socket_rs.Prelude.Results.{or_else, ◌>>=◌}

-- `checked_add` and `checked_mul` of `usize`.
abbrev pub checked_usize : ℕ → Option ℕ
checked_usize x = if ltb x (2 ^ 64) then some x else none

-- The size that `mmap_anonymous` asks for; `& !(page_size - 1)` clears the bits below a power of two.
unfoldable pub aligned_size : ℕ → ℕ → ℕ → Option ℕ
aligned_size frame_size frame_count page_size = do
  memory_size ← checked_usize (frame_size * frame_count)
  padded ← checked_usize (memory_size + (page_size - 1))
  some (padded - padded % page_size)

-- The bytes of `backing` may go on behind the last frame, up to the page size.
pub record Umem : Type 0 where
  pub backing : List ℕ
  pub frame_size : ℕ
  pub frame_count : ℕ

abbrev pub frame_offset : Umem → ℕ → ℕ
frame_offset u index = index * u.frame_size

unfoldable pub frame_addr_for_desc : Umem → ℕ → Option ℕ
frame_addr_for_desc u addr =
    let frame_addr = addr - addr % u.frame_size in
    if ltb (frame_addr / u.frame_size) u.frame_count then some frame_addr else none

unfoldable pub validated_range : Umem → ℕ → ℕ → Option (ℕ × ℕ)
unfolding frame_addr_for_desc
validated_range u addr len = do
  frame_addr ← frame_addr_for_desc u addr
  start ← checked_usize addr
  end ← checked_usize (start + len)
  frame_start ← checked_usize frame_addr
  frame_end ← checked_usize (frame_start + u.frame_size)
  if ltb start frame_start || ltb frame_end end then none else some (start, end)

-- `backing.get(start..end)`.
unfoldable pub get_range : List ℕ → ℕ → ℕ → Option (List ℕ)
get_range bytes start end =
    if ltb end start || ltb (length bytes) end
    then none
    else some (take (end - start) (drop start bytes))

unfoldable pub descriptor_slice : Umem → ℕ → ℕ → Option (ℕ × List ℕ)
unfolding frame_addr_for_desc validated_range get_range
descriptor_slice u addr len = do
  frame_addr ← frame_addr_for_desc u addr
  (start, end) ← validated_range u addr len
  slice ← get_range u.backing start end
  some (frame_addr, slice)

unfoldable pub contains_frame_addr : Umem → ℕ → Bool
unfolding frame_addr_for_desc
contains_frame_addr u frame_addr = elim (frame_addr_for_desc u frame_addr) [
  | some a ↦ a == frame_addr
  | none ↦ false
]

unfoldable pub frame : Umem → ℕ → Option (List ℕ)
unfolding get_range
frame u index = get_range u.backing (index * u.frame_size) (index * u.frame_size + u.frame_size)

unfoldable pub slice_at : Umem → ℕ → ℕ → Option (List ℕ)
unfolding validated_range get_range
slice_at u addr len = do (start, end) ← validated_range u addr len; get_range u.backing start end

-- `is_power_of_two` of a word: one of the first `n` powers.
unfoldable pub is_power_below : ℕ → ℕ → Bool
is_power_below zero x = false
is_power_below (suc n) x = (x == 2 ^ n) || is_power_below n x

abbrev pub is_power_of_two : ℕ → Bool
is_power_of_two x = is_power_below 64 x

-- The preferred sizes of a page.
pub data HugePageSize : Type 0 where
  default_size : HugePageSize
  size_4k : HugePageSize
  size_2m : HugePageSize
  size_1g : HugePageSize

unfoldable pub huge_page : HugePageSize → Option ℕ
huge_page size_4k = none
huge_page size_1g = some (1024 * 1024 * 1024)
huge_page size_2m = some (2 * 1024 * 1024)
huge_page default_size = some (2 * 1024 * 1024)

-- `mmap` of a size, with huge pages or not, works or fails; the memory is zeroed afterwards.
module _ (mmap : ℕ → Bool → Bool) (page_size : ℕ) where
  unfoldable pub alloc_with_page_size : ℕ → ℕ → ℕ → Bool → Option (List ℕ)
  unfolding aligned_size is_power_below
  alloc_with_page_size frame_size frame_count page huge =
      if not (is_power_of_two frame_size)
        || (not (is_power_of_two frame_count) || not (is_power_of_two page))
      then none
      else (do
        size ← aligned_size frame_size frame_count page
        if mmap size huge then some (replicate size 0) else none)

  -- `page_size` is what `sysconf` reports, 0 where it fails.
  unfoldable pub alloc : ℕ → ℕ → Option (List ℕ)
  unfolding alloc_with_page_size
  alloc frame_size frame_count =
      if page_size == 0 then none else alloc_with_page_size frame_size frame_count page_size false

  unfoldable pub new : ℕ → ℕ → HugePageSize → Option Umem
  unfolding huge_page alloc_with_page_size alloc
  new frame_size frame_count huge_page_size =
      let huge = (do
        page ← huge_page huge_page_size
        alloc_with_page_size frame_size frame_count page true) in
      if not (is_power_of_two frame_size) || not (is_power_of_two frame_count) then none else (do
        backing ← or_else huge (alloc frame_size frame_count)
        some (record { backing = backing; frame_size = frame_size; frame_count = frame_count }))
