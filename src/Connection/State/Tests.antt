-- ===== src/Connection/State/Tests.antt =====
-- Runs.
use quic_x.Common.{◌≡◌, refl, inl, [], ◌∷◌}
use quic_x.Connection.State.Order.{run-Inv, closing_ends, Inv}
use quic_x.Connection.State.{
  same_state, new, set_state, on_handshake_done, on_close, on_connection_close_frame_received,
  on_close_timeout, step, run, connected, draining, closed, handshake_done, closes,
  close_frame_received, close_timeout,
}

closed_by_peer :
    (run new (handshake_done ∷ close_frame_received ∷ closes ∷ close_timeout ∷ [])).calls
    ≡ closed ∷ draining ∷ connected ∷ []
unfolding run step on_handshake_done on_close on_connection_close_frame_received on_close_timeout
    set_state same_state
closed_by_peer = refl

run-Inv_example : Inv (run new (handshake_done ∷ closes ∷ close_timeout ∷ []))
run-Inv_example = run-Inv (handshake_done ∷ closes ∷ close_timeout ∷ [])

closing_ends_example : (run new (closes ∷ close_timeout ∷ handshake_done ∷ [])).state ≡ closed
closing_ends_example = closing_ends new closes (handshake_done ∷ []) (inl refl)
