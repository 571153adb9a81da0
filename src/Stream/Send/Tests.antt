-- ===== src/Stream/Send/Tests.antt =====
-- Runs.
use quic_x.Common.{◌≡◌, refl, [], ◌∷◌}
use quic_x.Stream.{data_recvd}
use quic_x.Stream.Send.Transitions.{IsDrawn, step-IsDrawn}
use quic_x.Stream.Send.{new, move, on_frame, all_ack_done, step, run, frames, acks}

one_frame : (run new (frames 0x0b ∷ acks ∷ [])).state ≡ data_recvd
unfolding run step on_frame all_ack_done move
one_frame = refl

step-IsDrawn_example : IsDrawn new (frames 0x0b)
step-IsDrawn_example = step-IsDrawn new (frames 0x0b)
