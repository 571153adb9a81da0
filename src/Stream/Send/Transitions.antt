-- ===== src/Stream/Send/Transitions.antt =====
-- The sending part of a stream moves as RFC 9000, section 3.1 draws it.
use quic_x.Stream.Send.{
  new, move, on_frame, check_can_send_frame, all_ack_done, step, run, SendMachine, Call, frames,
  acks,
}
use quic_x.Stream.{
  same_state, k_reset_stream, k_stream_data_blocked, is_stream_frame, has_fin, notify, IsTrail,
  StreamState, ready, send, data_sent, reset_sent, data_recvd, reset_recvd,
}
use quic_x.Common.{
  ℕ, ◌≡◌, refl, sym, subst, ◌≢◌, ◌⊎◌, inl, inr, Bool, true, false, not, ◌&&◌, ◌||◌, List, [], ◌∷◌,
  arith, ◌==◌, if◌then◌else◌,
}

-- The arrows of the figure. A first frame with FIN goes through `send` in one step.
abbrev pub arrow : StreamState → StreamState → Bool
arrow ready send = true
arrow ready data_sent = true
arrow ready reset_sent = true
arrow send data_sent = true
arrow send reset_sent = true
arrow data_sent reset_sent = true
arrow data_sent data_recvd = true
arrow reset_sent reset_recvd = true
arrow _ _ = false

-- A call follows one arrow and reports it, or leaves the machine as it was.
abbrev pub Follows : SendMachine → SendMachine → Type 0
Follows m n =
    (n ≡ m) ⊎ ((arrow m.state n.state ≡ true) × (n.changes ≡ (m.state, n.state) ∷ m.changes))

-- The machine with its state in view, to split on.
abbrev pub at : StreamState → List (StreamState × StreamState) → SendMachine
at s cs = record { state = s; changes = cs }

on_frame-Follows :
    (s : StreamState) (cs : List (StreamState × StreamState)) (ft : ℕ)
    → Follows (at s cs) (on_frame (at s cs) ft).0
unfolding on_frame move notify same_state
on_frame-Follows ready cs ft = ground arith
on_frame-Follows send cs ft = ground arith
on_frame-Follows data_sent cs ft = ground arith
on_frame-Follows _ cs ft = inl refl

all_ack_done-Follows :
    (s : StreamState) (cs : List (StreamState × StreamState))
    → Follows (at s cs) (all_ack_done (at s cs)).0
unfolding all_ack_done move notify same_state
all_ack_done-Follows data_sent cs = inr (refl, refl)
all_ack_done-Follows reset_sent cs = inr (refl, refl)
all_ack_done-Follows _ cs = inl refl

-- Every call follows one arrow of the figure and reports that change, or leaves the machine as it was.
step-Follows : (m : SendMachine) (c : Call) → Follows m (step m c)
unfolding step
step-Follows m (frames ft) = on_frame-Follows m.state m.changes ft
step-Follows m acks = all_ack_done-Follows m.state m.changes

-- What the arrows of the figure are labelled with.
pub data Label : Type 0 where
  stream_data stream_fin data_blocked reset everything_acked other : Label

abbrev pub label : Call → Label
label (frames ft) =
    if is_stream_frame ft
    then (if has_fin ft then stream_fin else stream_data)
    else if ft == k_stream_data_blocked
    then data_blocked
    else if ft == k_reset_stream
    then reset
    else other
label acks = everything_acked

-- Where the figure leads: each of its arrows with its label, and no way out of a state otherwise.
abbrev pub figure : StreamState → Label → StreamState
figure ready stream_data = send
figure ready data_blocked = send
figure ready stream_fin = data_sent
figure ready reset = reset_sent
figure send stream_fin = data_sent
figure send reset = reset_sent
figure data_sent reset = reset_sent
figure data_sent everything_acked = data_recvd
figure reset_sent everything_acked = reset_recvd
figure s _ = s

-- What the call answers.
abbrev pub accepted : SendMachine → Call → Bool
accepted m (frames ft) = (on_frame m ft).1
accepted m acks = (all_ack_done m).1

abbrev is_stream_data : Label → Bool
is_stream_data stream_data = true
is_stream_data _ = false

-- The machine moves as the figure says for the label of the call, and reports the change if there is
-- one. It accepts the call if it moves, or if it is data in the state `send`.
abbrev pub IsDrawn : SendMachine → Call → Type 0
IsDrawn m c =
    let next = figure m.state (label c) in
    ((step m c).state ≡ next)
    × ((step m c).changes
        ≡ (if same_state m.state next then m.changes else (m.state, next) ∷ m.changes))
    × (accepted m c
        ≡ (not (same_state m.state next) || (same_state m.state send && is_stream_data (label c))))

frames-IsDrawn :
    (s : StreamState) (cs : List (StreamState × StreamState)) (ft : ℕ)
    → IsDrawn (at s cs) (frames ft)
unfolding step on_frame move notify same_state
frames-IsDrawn ready cs ft = ground arith
frames-IsDrawn send cs ft = ground arith
frames-IsDrawn data_sent cs ft = ground arith
frames-IsDrawn _ cs ft = ground arith

acks-IsDrawn : (s : StreamState) (cs : List (StreamState × StreamState)) → IsDrawn (at s cs) acks
unfolding step all_ack_done move notify same_state
acks-IsDrawn data_sent cs = (refl, refl, refl)
acks-IsDrawn reset_sent cs = (refl, refl, refl)
acks-IsDrawn _ cs = (refl, refl, refl)

-- From every state, each call leads where the arrow with its label leads, where STREAM data, STREAM
-- data with FIN, STREAM_DATA_BLOCKED, RESET_STREAM and the acknowledgement of everything are told
-- apart, and stays where there is no such arrow. Exactly a change of state is reported, and the call
-- is accepted exactly if it changes the state or is STREAM data in `send`.
pub step-IsDrawn : (m : SendMachine) (c : Call) → IsDrawn m c
step-IsDrawn m (frames ft) = frames-IsDrawn m.state m.changes ft
step-IsDrawn m acks = acks-IsDrawn m.state m.changes

-- The frame types that the sending part of a stream deals in.
abbrev pub is_sender_frame : ℕ → Bool
is_sender_frame ft = is_stream_frame ft || (ft == k_stream_data_blocked || ft == k_reset_stream)

-- The states before the end of the data or the reset is on its way.
abbrev pub is_active : StreamState → Bool
is_active ready = true
is_active send = true
is_active data_sent = true
is_active _ = false

on_frame-check :
    (s : StreamState) (cs : List (StreamState × StreamState)) (ft : ℕ)
    → is_active s ≡ true
    → is_sender_frame ft ≡ true
    → check_can_send_frame (at s cs) ft
      ≡ ((on_frame (at s cs) ft).1 || (same_state s send && ft == k_stream_data_blocked))
unfolding on_frame check_can_send_frame same_state
on_frame-check ready cs ft e h = ground arith
on_frame-check send cs ft e h = ground arith
on_frame-check data_sent cs ft e h = ground arith
on_frame-check _ cs ft e h = cc

-- In the states `ready`, `send` and `data_sent`, on the frame types of a sending part,
-- `CheckCanSendFrame` allows exactly what `OnFrame` accepts, but for STREAM_DATA_BLOCKED in `send`,
-- which is allowed and not accepted.
pub check_can_send_frame-on_frame :
    (m : SendMachine) (ft : ℕ)
    → is_active m.state ≡ true
    → is_sender_frame ft ≡ true
    → check_can_send_frame m ft
      ≡ ((on_frame m ft).1 || (same_state m.state send && ft == k_stream_data_blocked))
check_can_send_frame-on_frame m ft e h = on_frame-check m.state m.changes ft e h

arrow_irrefl : (s t : StreamState) → arrow s t ≡ true → s ≢ t
arrow_irrefl s t e p = cc (subst (λ u. arrow s u ≡ true) (sym p) e, none_to_itself s)
  where
    none_to_itself : (u : StreamState) → arrow u u ≡ false
    none_to_itself ready = refl
    none_to_itself send = refl
    none_to_itself data_sent = refl
    none_to_itself reset_sent = refl
    none_to_itself _ = refl

run-IsTrail_from :
    (first : StreamState) (m : SendMachine) (cs : List Call)
    → IsTrail first m.state m.changes
    → IsTrail first (run m cs).state (run m cs).changes
unfolding run
run-IsTrail_from first m [] h = h
run-IsTrail_from first m (c ∷ cs) h =
    run-IsTrail_from first (step m c) cs (elim (step-Follows m c) [
      | inl e ↦ rw e h
      | inr (a, e) ↦ rw e (refl, arrow_irrefl m.state (step m c).state a, h)
    ])

-- After any calls on a new machine, the reported changes lead from `ready` to the present state,
-- each from the state before it to another one.
pub run-IsTrail : (cs : List Call) → IsTrail ready (run new cs).state (run new cs).changes
run-IsTrail cs = run-IsTrail_from ready new cs refl

abbrev pub is_reset : StreamState → Bool
is_reset reset_sent = true
is_reset reset_recvd = true
is_reset _ = false

arrow-is_reset : (s t : StreamState) → arrow s t ≡ true → is_reset s ≡ true → is_reset t ≡ true
arrow-is_reset reset_sent reset_recvd e h = refl
arrow-is_reset reset_sent _ e h = cc
arrow-is_reset _ t e h = cc

-- A reset is final: once it is sent, no calls lead back to the states of the data.
pub run-is_reset :
    (m : SendMachine) (cs : List Call) → is_reset m.state ≡ true → is_reset (run m cs).state ≡ true
unfolding run
run-is_reset m [] h = h
run-is_reset m (c ∷ cs) h = run-is_reset (step m c) cs (elim (step-Follows m c) [
  | inl e ↦ rw e h
  | inr (a, e) ↦ arrow-is_reset m.state (step m c).state a h
])
