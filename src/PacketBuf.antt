-- ===== src/PacketBuf.antt =====
-- crates/fast-socket-xdp-rs/src/buffer.rs: the packet in a frame, `XdpPacketBufInner` with the cursors of its
-- packet buffers. The frame's memory is the list of its bytes; what owns it is left out.
pub mod Refines
mod Tests
use fast_socket_rs.Prelude.{
  ℕ, ◌+◌, ◌-◌, ◌^◌, Bool, List, length, take, drop, ltb, ◌==◌, if◌then◌else◌,
}
use fast_socket_rs.Prelude.Results.{Result, ok, err}
use fast_socket_rs.Egress.{copy_from_slice}

-- `ReserveError` and `BufferAccessError`, with what was available and what was asked for.
pub data BufferError : Type 0 where
  insufficient_headroom insufficient_tailroom : ℕ → ℕ → BufferError
  out_of_bounds : ℕ → ℕ → ℕ → BufferError

pub record PacketBuf : Type 0 where
  pub frame : List ℕ
  pub l2_headroom : ℕ
  pub start : ℕ
  pub end : ℕ

abbrev pub packet_len : PacketBuf → ℕ
packet_len b = b.end - b.start

-- The source's check that `start` is not below the reserve for the link layer is the invariant's.
abbrev pub headroom : PacketBuf → ℕ
headroom b = b.start - b.l2_headroom

abbrev pub tailroom : PacketBuf → ℕ
tailroom b = length b.frame - b.end

abbrev pub as_slice : PacketBuf → List ℕ
as_slice b = take (b.end - b.start) (drop b.start b.frame)

unfoldable pub prepend : List ℕ → PacketBuf → Result PacketBuf BufferError
prepend bytes b =
    if ltb (headroom b) (length bytes)
    then err (insufficient_headroom (headroom b) (length bytes))
    else (let new_start = b.start - length bytes in
        ok (record b { frame = copy_from_slice new_start bytes b.frame; start = new_start }))

unfoldable pub extend_from_slice : List ℕ → PacketBuf → Result PacketBuf BufferError
extend_from_slice bytes b =
    if ltb (tailroom b) (length bytes)
    then err (insufficient_tailroom (tailroom b) (length bytes))
    else ok (record b { frame = copy_from_slice b.end bytes b.frame; end = b.end + length bytes })

unfoldable pub trim_prefix : ℕ → PacketBuf → Result PacketBuf BufferError
trim_prefix len b =
    if ltb (packet_len b) len
    then err (out_of_bounds 0 len (packet_len b))
    else ok (record b { start = b.start + len })

unfoldable pub trim_suffix : ℕ → PacketBuf → Result PacketBuf BufferError
trim_suffix len b =
    if ltb (packet_len b) len
    then err (out_of_bounds (packet_len b - len) len (packet_len b))
    else ok (record b { end = b.end - len })

-- The bytes that are read; an offset so large that the sum overflows is out of bounds too.
unfoldable pub read_at_exact : ℕ → ℕ → PacketBuf → Result (List ℕ) BufferError
read_at_exact offset len b =
    if ltb (length (as_slice b)) (offset + len)
    then err (out_of_bounds offset len (length (as_slice b)))
    else ok (take len (drop offset (as_slice b)))
