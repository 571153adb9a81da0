-- ===== src/Connection/State/Order.antt =====
-- A connection only moves towards its end.
use quic_x.Common.{ℕ, ◌+◌, ◌≤◌, ◌<◌, ◌≡◌, refl, ap, ◌⊎◌, List, [], ◌∷◌, arith, All}
use quic_x.Connection.State.{
  same_state, new, set_state, on_handshake_done, on_close, on_connection_close_frame_received,
  on_close_timeout, step, run, ConnectionStateType, connecting, connected, closing, draining,
  closed, ConnectionStateMachine, Event, handshake_done, closes, close_frame_received,
  close_timeout,
}

-- The order of a connection's life.
abbrev pub rank : ConnectionStateType → ℕ
rank connecting = 0
rank connected = 1
rank closing = 2
rank draining = 3
rank closed = 4

-- The calls of the listener, newest first, announce states in falling rank down to the first, and
-- the newest is the present state.
abbrev pub Announced : ConnectionStateType → List ConnectionStateType → Type 0
Announced s [] = s ≡ connecting
Announced s (t ∷ ts) = (s ≡ t) × (All (λ u. rank u < rank t) ts) × (0 < rank t)

-- At most one of the two handshake counters is 1, and none while the connection is being set up.
pub record Inv (m : ConnectionStateMachine) : Type 0 where
  pub announced : Announced m.state m.calls
  pub finished : m.handshake_success + m.handshake_fail ≤ 1
  pub pending : m.handshake_success + m.handshake_fail ≤ rank m.state

All-below :
    (k l : ℕ) (ts : List ConnectionStateType)
    → k ≤ l
    → All (λ u. rank u < k) ts
    → All (λ u. rank u < l) ts
All-below k l [] h a = tt
All-below k l (t ∷ ts) h a = (omega arith, All-below k l ts h a.1)

-- A new state of higher rank keeps the announcements in order.
Announced-cons :
    (s next : ConnectionStateType) (ts : List ConnectionStateType)
    → rank s < rank next
    → Announced s ts
    → Announced next (next ∷ ts)
Announced-cons s next [] h a = (refl, tt, omega arith)
Announced-cons s next (t ∷ ts) h (e, below, pos) = (
  refl,
  (rw (← e) h, All-below (rank t) (rank next) ts (rw (← e) (omega arith)) below),
  omega arith,
)

abbrev at : ConnectionStateType → List ConnectionStateType → ℕ → ℕ → ConnectionStateMachine
at s cs a b = record { state = s; calls = cs; handshake_success = a; handshake_fail = b }

step-Inv-at :
    (s : ConnectionStateType) (cs : List ConnectionStateType) (a b : ℕ) (e : Event)
    → Inv (at s cs a b)
    → Inv (step (at s cs a b) e)
unfolding step on_handshake_done on_close on_connection_close_frame_received on_close_timeout
    set_state same_state
step-Inv-at connecting cs a b handshake_done v = record {
  announced = Announced-cons connecting connected cs (omega arith) v.announced;
  finished = omega arith;
  pending = omega arith;
}
step-Inv-at connecting cs a b closes v = record {
  announced = Announced-cons connecting closing cs (omega arith) v.announced;
  finished = omega arith;
  pending = omega arith;
}
step-Inv-at connecting cs a b close_frame_received v = record {
  announced = Announced-cons connecting draining cs (omega arith) v.announced;
  finished = omega arith;
  pending = omega arith;
}
step-Inv-at connected cs a b closes v = record {
  announced = Announced-cons connected closing cs (omega arith) v.announced;
  finished = omega arith;
  pending = omega arith;
}
step-Inv-at connected cs a b close_frame_received v = record {
  announced = Announced-cons connected draining cs (omega arith) v.announced;
  finished = omega arith;
  pending = omega arith;
}
step-Inv-at closing cs a b close_frame_received v = record {
  announced = Announced-cons closing draining cs (omega arith) v.announced;
  finished = omega arith;
  pending = omega arith;
}
step-Inv-at closing cs a b close_timeout v = record {
  announced = Announced-cons closing closed cs (omega arith) v.announced;
  finished = omega arith;
  pending = omega arith;
}
step-Inv-at draining cs a b close_timeout v = record {
  announced = Announced-cons draining closed cs (omega arith) v.announced;
  finished = omega arith;
  pending = omega arith;
}
step-Inv-at closed cs a b handshake_done v = v
step-Inv-at _ cs a b e v = v

run-Inv_from : (m : ConnectionStateMachine) (es : List Event) → Inv m → Inv (run m es)
unfolding run
run-Inv_from m [] v = v
run-Inv_from m (e ∷ es) v =
    run-Inv_from (step m e) es
      (step-Inv-at m.state m.calls m.handshake_success m.handshake_fail e v)

-- After any events on a new machine the listener has been told of states in strictly rising order,
-- none twice, the last of them the present one, and at most one of handshake success and handshake
-- failure has been counted, at most once.
pub run-Inv : (es : List Event) → Inv (run new es)
run-Inv es =
    run-Inv_from new es (record { announced = refl; finished = omega arith; pending = omega arith })

step-rank-at :
    (s : ConnectionStateType) (cs : List ConnectionStateType) (a b : ℕ) (e : Event)
    → rank s ≤ rank (step (at s cs a b) e).state
unfolding step on_handshake_done on_close on_connection_close_frame_received on_close_timeout
    set_state same_state
step-rank-at connecting cs a b handshake_done = omega arith
step-rank-at connecting cs a b closes = omega arith
step-rank-at connecting cs a b close_frame_received = omega arith
step-rank-at connected cs a b closes = omega arith
step-rank-at connected cs a b close_frame_received = omega arith
step-rank-at closing cs a b close_frame_received = omega arith
step-rank-at closing cs a b close_timeout = omega arith
step-rank-at draining cs a b close_timeout = omega arith
step-rank-at closed cs a b handshake_done = omega arith
step-rank-at _ cs a b e = omega arith

-- No events lead a connection back to an earlier state of its life.
pub rank-run : (m : ConnectionStateMachine) (es : List Event) → rank m.state ≤ rank (run m es).state
unfolding run
rank-run m [] = omega arith
rank-run m (e ∷ es) = omega (
  arith,
  step-rank-at m.state m.calls m.handshake_success m.handshake_fail e,
  rank-run (step m e) es,
)

closing_ends_at :
    (s : ConnectionStateType) (cs : List ConnectionStateType) (a b : ℕ) (first : Event)
    → (first ≡ closes) ⊎ (first ≡ close_frame_received)
    → (step (step (at s cs a b) first) close_timeout).state ≡ closed
unfolding step on_handshake_done on_close on_connection_close_frame_received on_close_timeout
    set_state same_state
closing_ends_at connecting cs a b first h = ground arith
closing_ends_at _ cs a b first h = ground arith

closed_of_rank : (s : ConnectionStateType) → 4 ≤ rank s → s ≡ closed
closed_of_rank closed h = refl
closed_of_rank connecting h = absurd (omega arith)
closed_of_rank _ h = absurd (omega arith)

-- From every state, a close by either side and then the timeout end in `closed`, and whatever
-- happens afterwards the connection stays closed.
pub closing_ends :
    (m : ConnectionStateMachine) (first : Event) (es : List Event)
    → (first ≡ closes) ⊎ (first ≡ close_frame_received)
    → (run m (first ∷ close_timeout ∷ es)).state ≡ closed
unfolding run
closing_ends m first es h =
    let n = step (step m first) close_timeout in
    let c = closing_ends_at m.state m.calls m.handshake_success m.handshake_fail first h in
    closed_of_rank (run n es).state (omega (arith, rank-run n es, ap rank c))
