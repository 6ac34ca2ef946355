-- ===== src/PacketBuf/Tests.antt =====
-- A packet of three bytes in a frame of sixteen, behind a reserve of four.
use fast_socket_rs.Prelude.{[], ◌∷◌, replicate, ◌++◌, arith}
use fast_socket_rs.PacketBuf.{PacketBuf}
use fast_socket_rs.PacketBuf.Refines.{
  IsInFrame, Agree, do_prepend, run, promised, packet_of, run-promised,
}

abbrev buffer : PacketBuf
buffer = record {
  frame = replicate 10 0 ++ (1 ∷ 2 ∷ 3 ∷ replicate 3 0);
  l2_headroom = 4;
  start = 10;
  end = 13;
}

buffer-IsInFrame : IsInFrame buffer
buffer-IsInFrame = record { reserve = omega arith; in_order = omega arith; inside = omega arith }

run-promised_example :
    Agree
      (run (do_prepend (8 ∷ 9 ∷ [])) buffer)
      (promised (do_prepend (8 ∷ 9 ∷ [])) (packet_of buffer))
run-promised_example = run-promised (do_prepend (8 ∷ 9 ∷ [])) buffer buffer-IsInFrame
