-- ===== src/Stream/CryptoStream/Tests.antt =====
-- A run of the handshake's stream: two frames out of order at one level, and bytes sent at another.
use quic_x.Stream.CryptoStream.Network.{Levels, all_counted, Parts, Calls, run_crypto-slice}
use quic_x.Common.{ℕ, ◌<◌, ◌≡◌, refl, true, List, [], ◌∷◌, arith}
use quic_x.Stream.Reorder.{find_at, erase_at, take_next, drain, gather}
use quic_x.Stream.Reorder.Content.{slice}
use quic_x.Stream.CryptoStream.{
  k_initial, k_handshake, new_crypto_stream, write_size_of, frame_taken, try_send_data, send_at,
  place, on_crypto_frame, on_crypto_input, run_crypto, CryptoFrame, CryptoVisitor, CryptoInput,
  write, send_data, crypto_frame,
}
use quic_x.Stream.CryptoStream.Levels.{IsPart}

abbrev counting : ℕ → ℕ → ℕ
counting level n = n

abbrev at_offset : ℕ → CryptoFrame
at_offset offset = record {
  encryption_level = k_handshake;
  offset = offset;
  bytes = slice (counting 2) offset 2;
}

abbrev visitor : CryptoVisitor
visitor = record {
  handle_frame = true;
  left_stream_data_size = 0;
  packet_left_size = 22;
  first_chunk = 1500;
}

abbrev calls : List CryptoInput
calls =
    crypto_frame (at_offset 2)
    ∷ write k_initial (0 ∷ 1 ∷ 2 ∷ [])
    ∷ crypto_frame (at_offset 0)
    ∷ send_data visitor k_initial
    ∷ []

read_in_order :
    ((run_crypto new_crypto_stream calls).0.levels k_handshake).read_buffer ≡ 0 ∷ 1 ∷ 2 ∷ 3 ∷ []
unfolding run_crypto on_crypto_input on_crypto_frame place gather drain take_next find_at erase_at
    send_at try_send_data write_size_of frame_taken
read_in_order = refl

sent_first :
    (run_crypto new_crypto_stream calls).1
    ≡ record { encryption_level = 0; offset = 0; bytes = 0 ∷ 1 ∷ [] } ∷ []
unfolding run_crypto on_crypto_input on_crypto_frame place gather drain take_next find_at erase_at
    send_at try_send_data write_size_of frame_taken
sent_first = refl

in_handshake : (offset : ℕ) → offset < 100 → IsPart (counting 2) (at_offset offset)
in_handshake offset h = record { bytes_eq = refl; below = omega arith }

calls_agree : Calls counting counting new_crypto_stream (λ level. 0) calls
unfolding on_crypto_input on_crypto_frame place find_at
calls_agree =
    (in_handshake 2 (omega arith), ((refl, omega arith), (in_handshake 0 (omega arith), (tt, tt))))

run_crypto-slice_example :
    Levels counting counting
      (all_counted new_crypto_stream (λ level. 0) calls)
      (run_crypto new_crypto_stream calls).0
    × Parts counting (run_crypto new_crypto_stream calls).1
run_crypto-slice_example = run_crypto-slice counting counting calls calls_agree
