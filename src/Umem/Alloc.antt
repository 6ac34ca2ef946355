-- ===== src/Umem/Alloc.antt =====
-- Allocation of a region: `mmap_anonymous`, `alloc_with_page_size` and `Umem::new` of umem.rs.
use native.Mathlib.Nat.{mod-lt}
use fast_socket_rs.Prelude.{
  ℕ, zero, suc, ◌+◌, ◌-◌, ◌*◌, ◌%◌, ◌^◌, ◌≤◌, ◌<◌, ◌≡◌, refl, ◌∙◌, ap, subst, inl, inr, Bool, true,
  false, not, ◌||◌, Option, none, some, List, length, length-replicate, arith, ◌==◌, ==_iff,
  Bool-cases, Option-cases, none≢some,
}
use fast_socket_rs.Prelude.Bits.{pow_pos}
use fast_socket_rs.Prelude.Results.{or_else, ◌>>=◌, >>=-eq-some, eq_of_some}
use fast_socket_rs.Umem.{
  Umem, checked_usize, aligned_size, is_power_below, is_power_of_two, HugePageSize, huge_page,
  alloc_with_page_size, alloc, new,
}
use fast_socket_rs.Umem.Frames.{WellFormed}

is_power_below-positive : (n x : ℕ) → is_power_below n x ≡ true → 0 < x
unfolding is_power_below
is_power_below-positive zero x h = cc
is_power_below-positive (suc n) x h = elim (Bool-cases (x == 2 ^ n)) [
  | inl e ↦ omega (arith, (==_iff x (2 ^ n)).0 e, pow_pos n)
  | inr e ↦ is_power_below-positive n x (rw e at h)
]

checked_is : (x y : ℕ) → checked_usize x ≡ some y → x ≡ y
checked_is x y h = ground arith

first_of_two : (a b : Bool) → (not a || not b) ≡ false → a ≡ true
first_of_two true b h = refl
first_of_two false b h = cc

last_of_three : (a b c : Bool) → (not a || (not b || not c)) ≡ false → c ≡ true
last_of_three true true true h = refl
last_of_three true true false h = cc
last_of_three true false c h = cc
last_of_three false b c h = cc

-- The size that is mapped holds all frames.
aligned_size-enough :
    (frame_size frame_count page size : ℕ)
    → 0 < page
    → aligned_size frame_size frame_count page ≡ some size
    → frame_size * frame_count ≤ size
unfolding aligned_size
aligned_size-enough frame_size frame_count page size some_page h =
    let (memory, h1, r1) = >>=-eq-some (checked_usize (frame_size * frame_count)) _ h in
    let (padded, h2, r2) = >>=-eq-some (checked_usize (memory + (page - 1))) _ r1 in
    let is_memory = checked_is (frame_size * frame_count) memory h1 in
    let is_padded = checked_is (memory + (page - 1)) padded h2 in
    let is_size : padded - padded % page ≡ size = eq_of_some r2 in
    omega (arith, mod-lt padded some_page, is_memory, is_padded, is_size)

module _ (mmap : ℕ → Bool → Bool) (page_size : ℕ) where
  alloc_with_page_size-enough :
      (frame_size frame_count page : ℕ) (huge : Bool) (backing : List ℕ)
      → alloc_with_page_size mmap page_size frame_size frame_count page huge ≡ some backing
      → frame_size * frame_count ≤ length backing
  unfolding alloc_with_page_size
  alloc_with_page_size-enough frame_size frame_count page huge backing h =
      elim (Bool-cases (
        not (is_power_of_two frame_size)
        || (not (is_power_of_two frame_count) || not (is_power_of_two page)))) [
          | inl bad ↦ absurd (none≢some (rw bad at h))
          | inr good ↦
              let some_page = is_power_below-positive 64 page (last_of_three _ _ _ good) in
              let (size, h1, r1) =
                >>=-eq-some (aligned_size frame_size frame_count page) _ (rw good at h) in
              elim (Bool-cases (mmap size huge)) [
                | inl mapped ↦ omega (
                  arith,
                  ap length (eq_of_some (rw mapped at r1)),
                  length-replicate {A = ℕ} size 0,
                  aligned_size-enough frame_size frame_count page size some_page h1,
                )
                | inr refused ↦ absurd (none≢some (rw refused at r1))
              ]
        ]

  alloc-enough :
      (frame_size frame_count : ℕ) (backing : List ℕ)
      → alloc mmap page_size frame_size frame_count ≡ some backing
      → frame_size * frame_count ≤ length backing
  unfolding alloc
  alloc-enough frame_size frame_count backing h = elim (Bool-cases (page_size == 0)) [
    | inl failed ↦ absurd (none≢some (rw failed at h))
    | inr found ↦
        alloc_with_page_size-enough frame_size frame_count page_size false backing (rw found at h)
  ]

  huge_or_small :
      (frame_size frame_count : ℕ) (page : Option ℕ) (backing : List ℕ)
      → or_else
          (page >>= λ p. alloc_with_page_size mmap page_size frame_size frame_count p true)
          (alloc mmap page_size frame_size frame_count)
        ≡ some backing
      → frame_size * frame_count ≤ length backing
  huge_or_small frame_size frame_count none backing h =
      alloc-enough frame_size frame_count backing h
  huge_or_small frame_size frame_count (some page) backing h =
      elim (Option-cases (alloc_with_page_size mmap page_size frame_size frame_count page true)) [
        | inl failed ↦ alloc-enough frame_size frame_count backing (rw failed at h)
        | inr (b, worked) ↦
            alloc_with_page_size-enough frame_size frame_count page true backing
              (worked ∙ rw worked at h)
      ]

  -- Whatever `mmap` grants, with huge pages or after falling back to small ones, a region that
  -- `new` returns for 32-bit sizes is well formed: its frames have a size and the zeroed mapping
  -- holds them all, with no overflow in computing its length.
  pub new-WellFormed :
      (frame_size frame_count : ℕ) (huge_page_size : HugePageSize) (u : Umem)
      → frame_size < 2 ^ 32
      → frame_count < 2 ^ 32
      → new mmap page_size frame_size frame_count huge_page_size ≡ some u
      → WellFormed u
  unfolding new
  new-WellFormed frame_size frame_count huge_page_size u small few h =
      elim (Bool-cases (not (is_power_of_two frame_size) || not (is_power_of_two frame_count))) [
        | inl bad ↦ absurd (none≢some (rw bad at h))
        | inr good ↦
            let (backing, h1, r1) = >>=-eq-some _ _ (rw good at h) in
            let enough =
              huge_or_small frame_size frame_count (huge_page huge_page_size) backing h1 in
            subst WellFormed (eq_of_some r1) (record {
              some_size = is_power_below-positive 64 frame_size (first_of_two _ _ good);
              size_fits = small;
              count_fits = few;
              holds_frames = omega (arith, enough);
            })
      ]
