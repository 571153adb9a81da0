-- ===== src/Stream/Recv/Transitions.antt =====
-- The receiving part of a stream moves as RFC 9000, section 3.2 draws it.
use quic_x.Common.{ℕ, ◌≡◌, refl, ◌⊎◌, Bool, true, false, not, ◌||◌, List, [], ◌∷◌, arith}
use quic_x.Stream.{
  same_state, notify, StreamState, unknown, ready, send, data_sent, reset_sent, recv, size_known,
  data_read, reset_read, data_recvd, reset_recvd,
}
use quic_x.Stream.Recv.{
  new, move, on_frame, can_app_read_all_data, recv_all_data, app_read_all_data, step, run,
  RecvMachine, Call, frames, received_all, reads_all,
}

abbrev pub arrow : StreamState → StreamState → Bool
arrow recv size_known = true
arrow recv reset_recvd = true
arrow size_known reset_recvd = true
arrow size_known data_recvd = true
arrow data_recvd data_read = true
arrow reset_recvd reset_read = true
arrow _ _ = false

-- The states in which the data is still awaited.
abbrev pub is_open : StreamState → Bool
is_open recv = true
is_open size_known = true
is_open _ = false

-- A call follows one arrow and reports it, or keeps the state and reports nothing. The flag for a
-- reset is never cleared.
pub record Advances (m n : RecvMachine) : Type 0 where
  pub moves :
      ((n.state ≡ m.state) × (n.changes ≡ m.changes))
      ⊎ ((arrow m.state n.state ≡ true) × (n.changes ≡ (m.state, n.state) ∷ m.changes))
  pub flag : (not m.is_reset_received || n.is_reset_received) ≡ true

-- No reset has come in while the data is awaited, and one has where the state says so.
pub record Inv (m : RecvMachine) : Type 0 where
  pub no_reset : is_open m.state ≡ true → m.is_reset_received ≡ false
  pub reset : same_state m.state reset_recvd ≡ true → m.is_reset_received ≡ true

abbrev pub at : StreamState → Bool → List (StreamState × StreamState) → RecvMachine
at s r cs = record { state = s; is_reset_received = r; changes = cs }

on_frame-Advances :
    (s : StreamState) (r : Bool) (cs : List (StreamState × StreamState)) (ft : ℕ)
    → Advances (at s r cs) (on_frame (at s r cs) ft).0
unfolding on_frame move notify same_state
on_frame-Advances recv r cs ft = ground arith
on_frame-Advances size_known r cs ft = ground arith
on_frame-Advances reset_recvd r cs ft = ground arith
on_frame-Advances _ r cs ft = ground arith

on_frame-Inv :
    (s : StreamState) (r : Bool) (cs : List (StreamState × StreamState)) (ft : ℕ)
    → Inv (at s r cs)
    → Inv (on_frame (at s r cs) ft).0
unfolding on_frame move notify same_state
on_frame-Inv recv r cs ft v = ground arith
on_frame-Inv size_known r cs ft v = ground arith
on_frame-Inv reset_recvd r cs ft v = ground arith
on_frame-Inv _ r cs ft v = ground arith

recv_all_data-Advances :
    (s : StreamState) (r : Bool) (cs : List (StreamState × StreamState))
    → Advances (at s r cs) (recv_all_data (at s r cs)).0
unfolding recv_all_data move notify same_state
recv_all_data-Advances size_known r cs = ground arith
recv_all_data-Advances _ r cs = ground arith

app_read_all_data-Advances :
    (s : StreamState) (r : Bool) (cs : List (StreamState × StreamState))
    → Advances (at s r cs) (app_read_all_data (at s r cs)).0
unfolding app_read_all_data move notify same_state
app_read_all_data-Advances data_recvd r cs = ground arith
app_read_all_data-Advances _ r cs = ground arith

-- Every call follows one arrow of the figure and reports exactly that change, or keeps the state
-- and reports nothing; a reset that was received is never forgotten.
pub step-Advances : (m : RecvMachine) (c : Call) → Advances m (step m c)
unfolding step
step-Advances m (frames ft) = on_frame-Advances m.state m.is_reset_received m.changes ft
step-Advances m received_all = recv_all_data-Advances m.state m.is_reset_received m.changes
step-Advances m reads_all = app_read_all_data-Advances m.state m.is_reset_received m.changes

recv_all_data-Inv :
    (s : StreamState) (r : Bool) (cs : List (StreamState × StreamState))
    → Inv (at s r cs)
    → Inv (recv_all_data (at s r cs)).0
unfolding recv_all_data move same_state
recv_all_data-Inv size_known r cs v = ground arith
recv_all_data-Inv _ r cs v = v

app_read_all_data-Inv :
    (s : StreamState) (r : Bool) (cs : List (StreamState × StreamState))
    → Inv (at s r cs)
    → Inv (app_read_all_data (at s r cs)).0
unfolding app_read_all_data move same_state
app_read_all_data-Inv data_recvd r cs v = ground arith
app_read_all_data-Inv reset_recvd r cs v = ground arith
app_read_all_data-Inv _ r cs v = v

step-Inv : (m : RecvMachine) (c : Call) → Inv m → Inv (step m c)
unfolding step
step-Inv m (frames ft) v = on_frame-Inv m.state m.is_reset_received m.changes ft v
step-Inv m received_all v = recv_all_data-Inv m.state m.is_reset_received m.changes v
step-Inv m reads_all v = app_read_all_data-Inv m.state m.is_reset_received m.changes v

run-Inv : (m : RecvMachine) (cs : List Call) → Inv m → Inv (run m cs)
unfolding run
run-Inv m [] v = v
run-Inv m (c ∷ cs) v = run-Inv (step m c) cs (step-Inv m c v)

recv_all_data-size_known :
    (s : StreamState) (r : Bool) (cs : List (StreamState × StreamState))
    → s ≡ size_known
    → r ≡ false
    → (recv_all_data (at s r cs)).0.state ≡ data_recvd
unfolding recv_all_data move
recv_all_data-size_known size_known r cs e h = ground arith
recv_all_data-size_known _ r cs e h = cc

-- After any calls on a new machine that leave it in `size_known`, `RecvAllData` leads to
-- `data_recvd`: the branch of the code for a reset received before is never taken.
pub recv_all_data-run :
    (cs : List Call)
    → (run new cs).state ≡ size_known
    → (recv_all_data (run new cs)).0.state ≡ data_recvd
recv_all_data-run cs e =
    let v = run-Inv new cs new-Inv in
    recv_all_data-size_known (run new cs).state (run new cs).is_reset_received (run new cs).changes
      e (v.no_reset (rw e))
  where
    new-Inv : Inv new
    new-Inv = record { no_reset = λ e. refl; reset = λ e. unfold same_state in cc }

app_read_at :
    (s : StreamState) (r : Bool) (cs : List (StreamState × StreamState))
    → (app_read_all_data (at s r cs)).1
      ≡ (can_app_read_all_data (at s r cs) || same_state s reset_recvd)
unfolding app_read_all_data can_app_read_all_data same_state
app_read_at unknown r cs = refl
app_read_at ready r cs = refl
app_read_at send r cs = refl
app_read_at data_sent r cs = refl
app_read_at reset_sent r cs = refl
app_read_at recv r cs = refl
app_read_at size_known r cs = refl
app_read_at data_read r cs = refl
app_read_at reset_read r cs = refl
app_read_at data_recvd r cs = refl
app_read_at reset_recvd r cs = refl

-- `AppReadAllData` succeeds exactly where `CanAppReadAllData` says so or a reset waits to be read.
pub app_read_all_data-can_app_read_all_data :
    (m : RecvMachine)
    → (app_read_all_data m).1 ≡ (can_app_read_all_data m || same_state m.state reset_recvd)
app_read_all_data-can_app_read_all_data m = app_read_at m.state m.is_reset_received m.changes
