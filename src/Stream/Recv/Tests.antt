-- ===== src/Stream/Recv/Tests.antt =====
-- Runs.
use quic_x.Common.{◌≡◌, refl, [], ◌∷◌}
use quic_x.Stream.{same_state, notify, recv, size_known, data_read, data_recvd}
use quic_x.Stream.Recv.{
  new, move, on_frame, recv_all_data, app_read_all_data, step, run, frames, received_all, reads_all,
}

one_frame :
    (run new (frames 0x0b ∷ received_all ∷ reads_all ∷ [])).changes
    ≡ (data_recvd, data_read) ∷ (size_known, data_recvd) ∷ (recv, size_known) ∷ []
unfolding run step on_frame recv_all_data app_read_all_data move notify same_state
one_frame = refl

sized : (run new (frames 0x0b ∷ [])).state ≡ size_known
unfolding run step on_frame move
sized = refl
