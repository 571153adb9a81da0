-- ===== src/Connection/State/Queries.antt =====
-- How the questions that the rest of the connection asks of its state fit together.
use quic_x.Common.{ℕ, ◌≡◌, refl, false, not, ◌&&◌, ◌||◌, List}
use quic_x.Connection.State.{
  same_state, allow_send, allow_receive, can_send_data, can_receive_data, is_closing, is_draining,
  is_closed, is_terminating, should_ignore_packets, ConnectionStateType, connecting, connected,
  closing, draining, closed, ConnectionStateMachine,
}

queries_at :
    (s : ConnectionStateType) (cs : List ConnectionStateType) (a b : ℕ)
    → let m : ConnectionStateMachine = record {
      state = s;
      calls = cs;
      handshake_success = a;
      handshake_fail = b;
    } in
      (allow_send m ≡ not (is_terminating m))
      × (is_terminating m ≡ (is_closing m || (is_draining m || is_closed m)))
      × (should_ignore_packets m ≡ (is_draining m || is_closed m))
      × (allow_receive m ≡ not (is_closed m))
      × (can_receive_data m ≡ (can_send_data m || is_closing m))
      × ((can_send_data m && not (allow_send m)) ≡ false)
unfolding allow_send is_terminating is_closing is_draining is_closed should_ignore_packets
    allow_receive can_receive_data can_send_data same_state
queries_at connecting cs a b = (refl, refl, refl, refl, refl, refl)
queries_at connected cs a b = (refl, refl, refl, refl, refl, refl)
queries_at closing cs a b = (refl, refl, refl, refl, refl, refl)
queries_at draining cs a b = (refl, refl, refl, refl, refl, refl)
queries_at closed cs a b = (refl, refl, refl, refl, refl, refl)

-- In every state: sending is allowed until the connection ends, which is when it is closing,
-- draining or closed; packets are ignored when it is draining or closed; receiving is allowed until
-- it is closed; data is received where it is sent and while closing; and data is sent only where
-- sending is allowed.
pub queries_lem :
    (m : ConnectionStateMachine)
    → (allow_send m ≡ not (is_terminating m))
      × (is_terminating m ≡ (is_closing m || (is_draining m || is_closed m)))
      × (should_ignore_packets m ≡ (is_draining m || is_closed m))
      × (allow_receive m ≡ not (is_closed m))
      × (can_receive_data m ≡ (can_send_data m || is_closing m))
      × ((can_send_data m && not (allow_send m)) ≡ false)
queries_lem m = queries_at m.state m.calls m.handshake_success m.handshake_fail
