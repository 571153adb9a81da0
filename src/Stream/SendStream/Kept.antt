-- ===== src/Stream/SendStream/Kept.antt =====
-- The calls of a sending stream that acknowledge nothing leave what is acknowledged as it is, and do
-- not make its data count as received.
use quic_x.Stream.SendStream.{
  reset_stream, send_bytes, flush, on_max_stream_data_frame, on_stop_sending_frame, blocked_frame,
  is_near_limit, send_frames, send_size_of, stream_type, frame_sent, stalled, send_stream_frame,
  send_rest, try_send_data, SendStream, Visitor, TrySendResult, success, failed, break_off,
  flow_control_blocked, OutFrame, control, Sent,
}
use quic_x.Common.{
  ℕ, ◌+◌, ◌≡◌, refl, inl, inr, Bool, true, not, ◌&&◌, List, [], ◌∷◌, ◌++◌, arith, leb, ◌==◌,
  if◌then◌else◌, Bool-cases, if_both, length, is_empty, take,
}
use quic_x.Stream.{same_state, k_reset_stream, k_stream, data_recvd}
use quic_x.Stream.Send.{move, on_frame, check_can_send_frame, SendMachine}

on_frame-data_recvd :
    (m : SendMachine) (frame_type : ℕ)
    → (on_frame m frame_type).0.state ≡ data_recvd
    → m.state ≡ data_recvd
unfolding on_frame move
on_frame-data_recvd m frame_type e = ground arith

can_send-open :
    (m : SendMachine) → check_can_send_frame m k_stream ≡ true → m.state ≡ data_recvd → ⊥
unfolding check_can_send_frame same_state
can_send-open m e d = ground arith

-- What the calls other than an acknowledgement leave.
pub record Keeps (s t : SendStream) : Type 0 where
  pub ranges : t.acked_ranges ≡ s.acked_ranges
  pub offset : t.acked_offset ≡ s.acked_offset
  pub was_recvd :
      t.machine.state ≡ data_recvd
      → (s.machine.state ≡ data_recvd)
        × (t.fin_sent ≡ s.fin_sent)
        × (t.send_data_offset ≡ s.send_data_offset)

same : (s : SendStream) → Keeps s s
same s = record { ranges = refl; offset = refl; was_recvd = λ e. (e, refl, refl) }

pub reset_stream-Keeps : (s : SendStream) (error : ℕ) → Keeps s (reset_stream s error)
unfolding reset_stream
reset_stream-Keeps s error = record {
  ranges = ground arith;
  offset = ground arith;
  was_recvd = λ e. ground (arith, on_frame-data_recvd s.machine k_reset_stream);
}

pub stop_sending-Keeps : (s : SendStream) (error : ℕ) → Keeps s (on_stop_sending_frame s error)
unfolding on_stop_sending_frame
stop_sending-Keeps s error =
    let k = reset_stream-Keeps s error in
    record {
      ranges = ground (arith, k.ranges);
      offset = ground (arith, k.offset);
      was_recvd = λ e. ground (arith, k.was_recvd);
    }

pub send_bytes-Keeps : (s : SendStream) (bytes : List ℕ) → Keeps s (send_bytes s bytes).0
unfolding send_bytes
send_bytes-Keeps s bytes = record {
  ranges = ground arith;
  offset = ground arith;
  was_recvd = λ e. ground arith;
}

pub flush-Keeps : (s : SendStream) → Keeps s (flush s).0
unfolding flush
flush-Keeps s = record {
  ranges = ground arith;
  offset = ground arith;
  was_recvd = λ e. ground arith;
}

pub limit-Keeps : (s : SendStream) (limit : ℕ) → Keeps s (on_max_stream_data_frame s limit)
unfolding on_max_stream_data_frame
limit-Keeps s limit = record {
  ranges = ground arith;
  offset = ground arith;
  was_recvd = λ e. ground arith;
}

stalled-Keeps : (s : SendStream) (v : Visitor) (n : ℕ) → Keeps s (stalled s v n).0
unfolding stalled
stalled-Keeps s v n = record {
  ranges = ground arith;
  offset = ground arith;
  was_recvd = λ e. ground arith;
}

frame_sent-Keeps :
    (s : SendStream) (bytes : List ℕ) (fin : Bool)
    → check_can_send_frame s.machine k_stream ≡ true
    → Keeps s (frame_sent s bytes fin)
unfolding frame_sent
frame_sent-Keeps s bytes fin h = record {
  ranges = refl;
  offset = refl;
  was_recvd = λ e.
      absurd (can_send-open s.machine h (on_frame-data_recvd s.machine (stream_type bytes fin) e));
}

stream_frame-Keeps :
    (s : SendStream) (v : Visitor) (n : ℕ)
    → check_can_send_frame s.machine k_stream ≡ true
    → Keeps s (send_stream_frame s v n).0
unfolding send_stream_frame
stream_frame-Keeps s v n h =
    let bytes = take (send_size_of s v) s.send_buffer in
    let fin = s.to_fin && length s.send_buffer == length bytes in
    if_both Moves (is_empty bytes && not fin)
      (if is_empty s.send_buffer then (s, [], success) else stalled s v n) _
      (if_both Moves (is_empty s.send_buffer) (s, [], success) (stalled s v n) (same s)
        (stalled-Keeps s v n))
      (if_both Moves (v.handle_frame n) _
        (s, [], if v.insufficient_space then break_off else failed) (frame_sent-Keeps s bytes fin h)
        (same s))
  where
    Moves : SendStream × List OutFrame × TrySendResult → Type 0
    Moves r = Keeps s r.0

rest-Keeps :
    (s : SendStream) (v : Visitor) (n : ℕ) (out : List OutFrame)
    → Keeps s (send_rest s v n out).stream
unfolding send_rest
rest-Keeps s v n out =
    let left = (send_frames v n s.frames_list).0 in
    let taken = (send_frames v n s.frames_list).1 in
    let t = record s { frames_list = left } in
    let u = send_stream_frame t v (n + length taken) in
    let waited : Keeps s t = record {
      ranges = refl;
      offset = refl;
      was_recvd = λ e. (e, refl, refl);
    } in
    let sent : Sent =
      if check_can_send_frame s.machine k_stream
      then record { stream = u.0; out = out ++ (taken ++ u.1); result = u.2 }
      else record { stream = t; out = out ++ taken; result = success } in
    let last : Keeps s sent.stream = elim (Bool-cases (check_can_send_frame s.machine k_stream)) [
      | inl y ↦
          let k = stream_frame-Keeps t v (n + length taken) y in
          rw y (record { ranges = k.ranges; offset = k.offset; was_recvd = k.was_recvd })
      | inr z ↦ rw z waited
    ] in
    if_both Sends (leb s.peer_data_limit s.send_data_offset)
      (record { stream = s; out = out; result = flow_control_blocked }) _ (same s)
      (if_both Sends (not (is_empty left))
        (record { stream = t; out = out ++ taken; result = failed }) _ waited last)
  where
    Sends : Sent → Type 0
    Sends r = Keeps s r.stream

pub try_send-Keeps : (s : SendStream) (v : Visitor) → Keeps s (try_send_data s v).stream
unfolding try_send_data
try_send-Keeps s v =
    let told = record s { blocked_at_limit = s.peer_data_limit } in
    let a = rest-Keeps told v 1 (control (blocked_frame s) ∷ []) in
    if_both Sends (is_near_limit s)
      (if v.handle_frame 0
        then send_rest told v 1 (control (blocked_frame s) ∷ [])
        else record { stream = s; out = []; result = failed })
      (send_rest s v 0 [])
      (if_both Sends (v.handle_frame 0) (send_rest told v 1 (control (blocked_frame s) ∷ []))
        (record { stream = s; out = []; result = failed })
        (record { ranges = a.ranges; offset = a.offset; was_recvd = a.was_recvd }) (same s))
      (rest-Keeps s v 0 [])
  where
    Sends : Sent → Type 0
    Sends r = Keeps s r.stream
