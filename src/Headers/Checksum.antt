-- ===== src/Headers/Checksum.antt =====
-- crates/fast-socket-xdp-rs/src/socket.rs: the header checksum as a sum in ones' complement, and its
-- incremental update.
use fast_socket_rs.Prelude.{
  ℕ, zero, suc, ◌+◌, ◌-◌, ◌*◌, ◌/◌, ◌%◌, ◌^◌, ◌≤◌, ◌<◌, ◌≡◌, ◌≢◌, ◌↔◌, refl, ap, ◌∙◌, some, List,
  [], ◌∷◌, length, arith, ltb, ◌==◌, true, false, sym, Bool-cases, inl, inr,
}
use fast_socket_rs.Prelude.Results.{◌>>=◌}
use fast_socket_rs.Prelude.Words.{as_u32}
use fast_socket_rs.Filter.{from_be_bytes}
use fast_socket_rs.Headers.Write.{sum_words, fold_carries, complement, ipv4_header_checksum}
use fast_socket_rs.Headers.Endpoint.{replace_word}

-- A sum with its carries added back in: 0, or the remainder by `2 ^ 16 - 1` from 1 on.
unfoldable pub folded : ℕ → ℕ
folded zero = 0
folded (suc n) = suc (n % 65535)

abbrev pub IsBytes : List ℕ → Type 0
IsBytes [] = Unit
IsBytes (b ∷ bytes) = (b < 256) × IsBytes bytes

-- The sum of the 16-bit words, without a bound.
unfoldable pub words_sum : List ℕ → ℕ
words_sum [] = 0
words_sum (high ∷ []) = 0
words_sum (high ∷ low ∷ rest) = from_be_bytes high low + words_sum rest

sum_words-words_sum :
    (sum : ℕ) (bytes : List ℕ)
    → IsBytes bytes
    → sum + 65536 * length bytes < 2 ^ 32
    → (sum_words sum bytes ≡ sum + words_sum bytes) × (sum + words_sum bytes < 2 ^ 32)
unfolding sum_words words_sum
sum_words-words_sum sum [] h small = (omega arith, omega arith)
sum_words-words_sum sum (high ∷ []) h small = (omega arith, omega arith)
sum_words-words_sum sum (high ∷ low ∷ rest) (hh, (hl, h)) small =
    let here : as_u32 (sum + from_be_bytes high low) ≡ sum + from_be_bytes high low = omega arith in
    let (e, bound) = sum_words-words_sum (sum + from_be_bytes high low) rest h (omega arith) in
    (ap (λ s. sum_words s rest) here ∙ e ∙ omega arith, omega arith)

pub folded_small : (n : ℕ) → n < 2 ^ 16 → folded n ≡ n
unfolding folded
folded_small zero h = refl
folded_small (suc n) h = omega arith

pub folded-lt : (n : ℕ) → folded n < 2 ^ 16
unfolding folded
folded-lt zero = omega arith
folded-lt (suc n) = omega arith

pub folded_pos : (n : ℕ) → 0 < n → folded n ≡ suc ((n - 1) % 65535)
unfolding folded
folded_pos zero h = absurd (omega arith)
folded_pos (suc n) h = ap (λ k. suc (k % 65535)) (omega arith)

-- One round of carries keeps the folded sum.
folded_round : (n : ℕ) → 0 < n → folded (n % 2 ^ 16 + n / 2 ^ 16) ≡ folded n
folded_round n h =
    let step : (n % 65536 + n / 65536 - 1) % 65535 ≡ (n - 1) % 65535 = omega arith in
    omega (arith, step, folded_pos (n % 65536 + n / 65536) (omega arith), folded_pos n h)

fold_carries_done : (fuel n : ℕ) → n < 2 ^ 16 → fold_carries (suc fuel) n ≡ some n
unfolding fold_carries
fold_carries_done fuel n h = let e : (n / 2 ^ 16 == 0) ≡ true = ground arith in rw e refl

fold_carries_more :
    (fuel n : ℕ)
    → 2 ^ 16 ≤ n
    → fold_carries (suc fuel) n ≡ fold_carries fuel (n % 2 ^ 16 + n / 2 ^ 16)
unfolding fold_carries
fold_carries_more fuel n h = let e : (n / 2 ^ 16 == 0) ≡ false = ground arith in rw e refl

-- The loop, where it ends after the first round.
fold_carries-folded_next :
    (fuel n : ℕ)
    → fold_carries (suc fuel) (n % 2 ^ 16 + n / 2 ^ 16) ≡ some (folded (n % 2 ^ 16 + n / 2 ^ 16))
    → fold_carries (suc (suc fuel)) n ≡ some (folded n)
fold_carries-folded_next fuel n next = elim (Bool-cases (ltb n (2 ^ 16))) [
  | inl small ↦
      let lt : n < 2 ^ 16 = ground arith in
      fold_carries_done (suc fuel) n lt ∙ ap some (sym (folded_small n lt))
  | inr large ↦
      let le : 2 ^ 16 ≤ n = ground arith in
      fold_carries_more (suc fuel) n le ∙ next ∙ ap some (folded_round n (omega arith))
]

fold_carries_small : (fuel n : ℕ) → n < 2 ^ 16 → fold_carries (suc fuel) n ≡ some (folded n)
fold_carries_small fuel n h = fold_carries_done fuel n h ∙ ap some (sym (folded_small n h))

fold_carries-folded : (n : ℕ) → n < 2 ^ 32 → fold_carries 3 n ≡ some (folded n)
fold_carries-folded n h =
    let once = n % 2 ^ 16 + n / 2 ^ 16 in
    fold_carries-folded_next 1 n (elim (Bool-cases (ltb once (2 ^ 16))) [
      | inl small ↦ fold_carries_small 1 once (ground arith)
      | inr large ↦ fold_carries-folded_next 0 once (
          let le : 2 ^ 16 ≤ once = ground arith in
          fold_carries_small 0 (once % 2 ^ 16 + once / 2 ^ 16) (omega arith))
    ])

-- The checksum of a header of at most 60 bytes is the complement of the folded sum of its words.
pub ipv4_header_checksum-folded :
    (header : List ℕ)
    → IsBytes header
    → length header ≤ 60
    → ipv4_header_checksum header ≡ some (complement (folded (words_sum header)))
unfolding ipv4_header_checksum
ipv4_header_checksum-folded header bytes short =
    let (e, bound) = sum_words-words_sum 0 header bytes (omega arith) in
    let n = words_sum header in
    let at_sum : sum_words 0 header ≡ n = omega (arith, e) in
    ap (λ o. o >>= λ sum. some (complement (sum % 2 ^ 16)))
      (ap (fold_carries 3) at_sum ∙ fold_carries-folded n (omega (arith, bound)))
    ∙ ap some (omega (arith, folded-lt n))

-- The update of the checksum of a header, when a word of it changes, is the checksum of the changed
-- header exactly if the complement of the old checksum and the new word do not add up to
-- `2 ^ 16` and the old word.
pub replace_word_correct :
    (rest old new : ℕ)
    → 0 < rest
    → old < 2 ^ 16
    → new < 2 ^ 16
    → (replace_word (complement (folded (rest + old))) old new ≡ complement (folded (rest + new)))
      ↔ (folded (rest + old) + new ≢ 2 ^ 16 + old)
unfolding replace_word
replace_word_correct rest old new h ho hn =
    let f = (rest + old - 1) % 65535 in
    let g = (rest + new - 1) % 65535 in
    let F = folded (rest + old) in
    let eF : F ≡ suc f = folded_pos (rest + old) (omega arith) in
    let eG : folded (rest + new) ≡ suc g = folded_pos (rest + new) (omega arith) in
    (λ e bad. omega (arith, e, bad, eF, eG), λ good. omega (arith, good, eF, eG))
