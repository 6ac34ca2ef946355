-- ===== src/PacketBuf/Refines.antt =====
-- crates/fast-socket-xdp-rs/src/buffer.rs: the packet buffer as what it promises, a sequence of bytes with
-- room before and behind it.
use mathlib.Core.List.{append-nil}
use fast_socket_rs.Prelude.{
  ℕ, ◌+◌, ◌-◌, ◌≤◌, ◌≡◌, refl, sym, ap, ◌∙◌, List, ◌++◌, length, length-append, length-take,
  length-drop, take, drop, ltb, if◌then◌else◌, arith, Bool-cases, inl, inr,
}
use fast_socket_rs.Prelude.Results.{Result, ok, err}
use fast_socket_rs.Prelude.Slices.{
  take_behind, drop_behind, drop-append, drop-drop, drop-take, take-take,
}
use fast_socket_rs.Egress.{copy_from_slice}
use fast_socket_rs.PacketBuf.{
  BufferError, insufficient_headroom, insufficient_tailroom, out_of_bounds, PacketBuf, packet_len,
  headroom, tailroom, as_slice, prepend, extend_from_slice, trim_prefix, trim_suffix,
}

pub record IsInFrame (b : PacketBuf) : Type 0 where
  pub reserve : b.l2_headroom ≤ b.start
  pub in_order : b.start ≤ b.end
  pub inside : b.end ≤ length b.frame

-- The bytes of the packet, and how many more fit before and behind them.
pub record Packet : Type 0 where
  pub bytes : List ℕ
  pub before : ℕ
  pub behind : ℕ

abbrev pub packet_of : PacketBuf → Packet
packet_of b = record { bytes = as_slice b; before = headroom b; behind = tailroom b }

pub data Op : Type 0 where
  do_prepend do_extend : List ℕ → Op
  do_trim_prefix do_trim_suffix : ℕ → Op

unfoldable pub run : Op → PacketBuf → Result PacketBuf BufferError
unfolding prepend extend_from_slice trim_prefix trim_suffix
run (do_prepend bytes) b = prepend bytes b
run (do_extend bytes) b = extend_from_slice bytes b
run (do_trim_prefix len) b = trim_prefix len b
run (do_trim_suffix len) b = trim_suffix len b

-- What each operation promises.
unfoldable pub promised : Op → Packet → Result Packet BufferError
promised (do_prepend bytes) p =
    if ltb p.before (length bytes)
    then err (insufficient_headroom p.before (length bytes))
    else ok (record p { bytes = bytes ++ p.bytes; before = p.before - length bytes })
promised (do_extend bytes) p =
    if ltb p.behind (length bytes)
    then err (insufficient_tailroom p.behind (length bytes))
    else ok (record p { bytes = p.bytes ++ bytes; behind = p.behind - length bytes })
promised (do_trim_prefix len) p =
    if ltb (length p.bytes) len
    then err (out_of_bounds 0 len (length p.bytes))
    else ok (record p { bytes = drop len p.bytes; before = p.before + len })
promised (do_trim_suffix len) p =
    if ltb (length p.bytes) len
    then err (out_of_bounds (length p.bytes - len) len (length p.bytes))
    else ok (record p { bytes = take (length p.bytes - len) p.bytes; behind = p.behind + len })

pub length-as_slice : (b : PacketBuf) → IsInFrame b → length (as_slice b) ≡ packet_len b
length-as_slice b w = omega (
  arith,
  length-take (b.end - b.start) (drop b.start b.frame),
  length-drop b.start b.frame,
  w.in_order,
  w.inside,
)

length-copy :
    (start : ℕ) (bytes frame : List ℕ)
    → start + length bytes ≤ length frame
    → length (copy_from_slice start bytes frame) ≡ length frame
length-copy start bytes frame h = omega (
  arith,
  length-append (take start frame) (bytes ++ drop (start + length bytes) frame),
  length-append bytes (drop (start + length bytes) frame),
  length-take start frame,
  length-drop (start + length bytes) frame,
)

-- Both succeed, with the packet that was promised in the frame, or both give the same error.
pub data Agree : Result PacketBuf BufferError → Result Packet BufferError → Type 0 where
  both_ok : {b : PacketBuf} {p : Packet} → IsInFrame b → packet_of b ≡ p → Agree (ok b) (ok p)
  both_err : {e : BufferError} → Agree (err e) (err e)

-- Packets with the same bytes and the same room.
pub packet_eq :
    {bytes bytes' : List ℕ} {before before' behind behind' : ℕ}
    → bytes ≡ bytes'
    → before ≡ before'
    → behind ≡ behind'
    → ◌≡◌ {A = Packet}
        (record { bytes = bytes; before = before; behind = behind })
        (record { bytes = bytes'; before = before'; behind = behind' })
packet_eq e1 e2 e3 = λ i. record { bytes = e1 i; before = e2 i; behind = e3 i }

module _ (b : PacketBuf) (w : IsInFrame b) where
  prepended :
      (bytes : List ℕ)
      → length bytes ≤ headroom b
      → take
          (b.end - (b.start - length bytes))
          (drop (b.start - length bytes) (copy_from_slice (b.start - length bytes) bytes b.frame))
        ≡ bytes ++ as_slice b
  prepended bytes room =
      let n = b.start - length bytes in
      let tail = bytes ++ drop (n + length bytes) b.frame in
      let front = length-take n b.frame in
      let behind : n + length bytes ≡ b.start = omega (arith, w.reserve, room) in
      let written : drop n (take n b.frame ++ tail) ≡ bytes ++ drop b.start b.frame =
        drop_behind (take n b.frame) tail 0 n (omega (arith, front, w.in_order, w.inside))
        ∙ ap (λ k. bytes ++ drop k b.frame) behind in
      ap (take (b.end - n)) written
      ∙ take_behind bytes (drop b.start b.frame) (b.end - b.start) (b.end - n)
          (omega (arith, w.in_order, w.reserve, room))

  extended :
      (bytes : List ℕ)
      → length bytes ≤ tailroom b
      → take (b.end + length bytes - b.start) (drop b.start (copy_from_slice b.end bytes b.frame))
        ≡ as_slice b ++ bytes
  extended bytes room =
      let rest = drop (b.end + length bytes) b.frame in
      let n = length bytes in
      let front = length-take b.end b.frame in
      let written : drop b.start (take b.end b.frame ++ (bytes ++ rest))
          ≡ as_slice b ++ (bytes ++ rest) =
        drop-append b.start (take b.end b.frame) (bytes ++ rest)
          (omega (arith, front, w.in_order, w.inside))
        ∙ ap (λ k. k ++ (bytes ++ rest)) (drop-take b.start b.end b.frame) in
      ap (take (b.end + n - b.start)) written
      ∙ take_behind (as_slice b) (bytes ++ rest) n (b.end + n - b.start)
          (omega (arith, length-as_slice b w, w.in_order))
      ∙ ap (λ k. as_slice b ++ k) (take_behind bytes rest 0 n (omega arith) ∙ append-nil bytes)

  trimmed_prefix :
      (len : ℕ)
      → len ≤ packet_len b
      → take (b.end - (b.start + len)) (drop (b.start + len) b.frame) ≡ drop len (as_slice b)
  trimmed_prefix len room =
      let e : b.end - (b.start + len) ≡ b.end - b.start - len = omega arith in
      ap (λ k. take (b.end - (b.start + len)) k) (sym (drop-drop b.start len b.frame))
      ∙ ap (λ k. take k (drop len (drop b.start b.frame))) e
      ∙ sym (drop-take len (b.end - b.start) (drop b.start b.frame))

  trimmed_suffix :
      (len : ℕ)
      → len ≤ packet_len b
      → take (b.end - len - b.start) (drop b.start b.frame) ≡ take (packet_len b - len) (as_slice b)
  trimmed_suffix len room =
      let e : b.end - len - b.start ≡ b.end - b.start - len = omega arith in
      ap (λ k. take k (drop b.start b.frame)) e
      ∙ sym
          (take-take (b.end - b.start - len) (b.end - b.start) (drop b.start b.frame) (omega arith))

  prepend-Agree :
      (bytes : List ℕ) → Agree (prepend bytes b) (promised (do_prepend bytes) (packet_of b))
  unfolding prepend promised
  prepend-Agree bytes = elim (Bool-cases (ltb (headroom b) (length bytes))) [
    | inl full ↦ rw full both_err
    | inr room ↦
        let fits : length bytes ≤ headroom b = ground arith in
        let n = b.start - length bytes in
        let size =
          length-copy n bytes b.frame (omega (arith, w.reserve, w.in_order, w.inside, fits)) in
        rw room (
          both_ok
            (record {
              reserve = omega (arith, w.reserve, fits);
              in_order = omega (arith, w.in_order);
              inside = omega (arith, size, w.inside);
            })
            (packet_eq (prepended bytes fits) (omega arith) (omega (arith, size))))
  ]

  extend_from_slice-Agree :
      (bytes : List ℕ)
      → Agree (extend_from_slice bytes b) (promised (do_extend bytes) (packet_of b))
  unfolding extend_from_slice promised
  extend_from_slice-Agree bytes = elim (Bool-cases (ltb (tailroom b) (length bytes))) [
    | inl full ↦ rw full both_err
    | inr room ↦
        let fits : length bytes ≤ tailroom b = ground arith in
        let size = length-copy b.end bytes b.frame (omega (arith, w.inside, fits)) in
        rw room (
          both_ok
            (record {
              reserve = w.reserve;
              in_order = omega (arith, w.in_order);
              inside = omega (arith, size, w.inside, fits);
            })
            (packet_eq (extended bytes fits) refl (omega (arith, size))))
  ]

  trim_prefix-Agree :
      (len : ℕ) → Agree (trim_prefix len b) (promised (do_trim_prefix len) (packet_of b))
  unfolding trim_prefix promised
  trim_prefix-Agree len =
      let size = length-as_slice b w in
      elim (Bool-cases (ltb (packet_len b) len)) [
        | inl long ↦ rw (size, long) both_err
        | inr within ↦
            let fits : len ≤ packet_len b = ground arith in
            rw (size, within)
              (both_ok
                (record {
                  reserve = omega (arith, w.reserve);
                  in_order = omega (arith, w.in_order, fits);
                  inside = w.inside;
                })
                (packet_eq (trimmed_prefix len fits) (omega (arith, w.reserve)) refl))
      ]

  trim_suffix-Agree :
      (len : ℕ) → Agree (trim_suffix len b) (promised (do_trim_suffix len) (packet_of b))
  unfolding trim_suffix promised
  trim_suffix-Agree len =
      let size = length-as_slice b w in
      elim (Bool-cases (ltb (packet_len b) len)) [
        | inl long ↦ rw (size, long) both_err
        | inr within ↦
            let fits : len ≤ packet_len b = ground arith in
            rw (size, within)
              (both_ok
                (record {
                  reserve = w.reserve;
                  in_order = omega (arith, w.in_order, fits);
                  inside = omega (arith, w.inside);
                })
                (packet_eq (trimmed_suffix len fits) refl
                  (omega (arith, w.inside, w.in_order, fits))))
      ]

-- On a buffer whose packet lies in its frame, behind the reserve for the link layer, each of
-- `prepend`, `extend_from_slice`, `trim_prefix` and `trim_suffix` does what a sequence of bytes
-- with room before and behind it promises: it leaves those bytes and that room, in the frame
-- again, or returns the same error with the amounts that it reports.
pub run-promised :
    (op : Op) (b : PacketBuf) → IsInFrame b → Agree (run op b) (promised op (packet_of b))
unfolding run
run-promised (do_prepend bytes) b w = prepend-Agree b w bytes
run-promised (do_extend bytes) b w = extend_from_slice-Agree b w bytes
run-promised (do_trim_prefix len) b w = trim_prefix-Agree b w len
run-promised (do_trim_suffix len) b w = trim_suffix-Agree b w len
