-- ===== src/Stream/RecvStream/Tests.antt =====
-- Runs and instances on the stream 0, 1, 2, …, sent in frames of ten bytes.
use quic_x.Stream.RecvStream.{
  new_stream, update_window, gathered, read_machine, deliver, keep, place, check_frame,
  on_stream_frame, on_input, run_stream, drain_frames, read_callback, RecvStream, Input,
  stream_frame,
}
use quic_x.Codec.Control.{ControlFrame}
use quic_x.Common.{
  ℕ, zero, suc, ◌+◌, ◌≤◌, ◌<◌, ◌≡◌, refl, ap, inl, inr, Bool, false, List, [], ◌∷◌, ◌++◌, arith,
  Bool-cases, All,
}
use quic_x.Stream.{same_state, size_known, StreamFrame}
use quic_x.Stream.Recv.{mark_reset, on_frame, check_can_send_frame, can_app_read_all_data}
use quic_x.Stream.Reorder.{find_at, erase_at, drain, gather}
use quic_x.Stream.Reorder.Content.{slice, IsPrefix}
use quic_x.Stream.Reorder.Chain.{start}
use quic_x.Stream.RecvStream.Steps.{InputAgrees}
use quic_x.Stream.RecvStream.Delivery.{run_stream-slice}
use quic_x.Stream.RecvStream.Kept.{InputCuts}
use quic_x.Stream.RecvStream.Whole.{Counted, run_stream-all_written}
use quic_x.Stream.RecvStream.FinalSize.{
  run_stream-final_offset, on_stream_frame-empty, place-closes_gap,
}

abbrev counting : ℕ → ℕ
counting n = n

abbrev two : ℕ → ℕ
two n = 2

abbrev piece : ℕ → StreamFrame
piece offset = record { type = 0x0e; offset = offset; bytes = slice counting offset 2 }

abbrev pieces : List Input
pieces = stream_frame (piece 2) ∷ stream_frame (piece 0) ∷ []

out_of_order : (run_stream (new_stream 4 100) pieces).buffer ≡ 0 ∷ 1 ∷ 2 ∷ 3 ∷ []
unfolding run_stream on_input on_stream_frame on_frame mark_reset check_frame place keep deliver
    gather drain find_at erase_at update_window check_can_send_frame read_machine
    can_app_read_all_data same_state
out_of_order = refl

pieces_agree : All (InputAgrees counting) pieces
pieces_agree = (
  record { offset_64 = omega arith; length_32 = omega arith; bytes_eq = refl },
  (record { offset_64 = omega arith; length_32 = omega arith; bytes_eq = refl }, tt),
)

run_stream-slice_example :
    IsPrefix counting
      (run_stream (new_stream 4 100) pieces).local_data_limit
      (gathered (run_stream (new_stream 4 100) pieces))
run_stream-slice_example = run_stream-slice counting 4 100 pieces pieces_agree (omega arith)

pieces_cut : All (InputCuts counting two) pieces
pieces_cut = (
  record { agrees = pieces_agree.0; cut = record { index = 1; at_start = refl; whole = refl } },
  (
    record { agrees = pieces_agree.1.0; cut = record { index = 0; at_start = refl; whole = refl } },
    tt,
  ),
)

pieces-Counted : (m : ℕ) → m < 2 → Counted (new_stream 4 100) pieces (start two m)
unfolding run_stream on_input on_stream_frame on_frame mark_reset check_frame place keep deliver
    gather drain find_at erase_at update_window check_can_send_frame read_machine
    can_app_read_all_data same_state
pieces-Counted zero h =
    (stream_frame (piece 2) ∷ [], piece 0, [], refl, refl, λ e. absurd (omega arith))
pieces-Counted (suc zero) h =
    ([], piece 2, stream_frame (piece 0) ∷ [], refl, refl, λ e. absurd (omega arith))
pieces-Counted (suc (suc m)) h = absurd (omega arith)

run_stream-all_written_example :
    (start two 2 ≤ (run_stream (new_stream 4 100) pieces).except_offset)
    × ((run_stream (new_stream 4 100) pieces).buffer
        ≡ slice counting 0 (run_stream (new_stream 4 100) pieces).except_offset)
run_stream-all_written_example =
    run_stream-all_written counting two (λ o. omega arith) 4 100 2 pieces pieces_cut (omega arith)
      pieces-Counted

abbrev ended : RecvStream
ended = record (new_stream 4 100) { final_offset = 30 }

run_stream-final_offset_example : (run_stream ended pieces).final_offset ≡ 30
run_stream-final_offset_example = run_stream-final_offset ended pieces (λ e. omega arith)

on_stream_frame-empty_example :
    ((on_stream_frame
        (new_stream 4 100)
        (record { type = 0x09; offset = 0; bytes = [] })).0.machine.state
      ≡ size_known)
    × ((on_stream_frame
          (new_stream 4 100)
          (record { type = 0x09; offset = 0; bytes = [] })).0.events
        ≡ read_callback false 0 ∷ [])
on_stream_frame-empty_example = on_stream_frame-empty 4 100 0x09 (omega arith) refl refl

abbrev gap_waits : RecvStream
gap_waits = record (new_stream 4 100) { out_order_frame = (2, 7 ∷ 8 ∷ 9 ∷ []) ∷ [] }

place-closes_gap_example :
    ((place gap_waits (piece 0)).1 ≡ 3)
    × ((place gap_waits (piece 0)).0.buffer ≡ 0 ∷ 1 ∷ 7 ∷ 8 ∷ 9 ∷ [])
place-closes_gap_example =
    place-closes_gap gap_waits (piece 0) (7 ∷ 8 ∷ 9 ∷ []) refl (omega arith) refl

-- What the visitor took and what is left are the frames that waited, in order.
drain_frames-append :
    (takes : ℕ → Bool) (n : ℕ) (fs : List ControlFrame)
    → (drain_frames takes n fs).1 ++ (drain_frames takes n fs).0 ≡ fs
unfolding drain_frames
drain_frames-append takes n [] = refl
drain_frames-append takes n (f ∷ fs) = elim (Bool-cases (takes n)) [
  | inl y ↦ rw y (ap (λ k. f ∷ k) (drain_frames-append takes (n + 1) fs))
  | inr z ↦ rw z refl
]
