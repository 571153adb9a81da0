-- ===== src/Stream/SendStream/Complete.antt =====
-- When a sending stream counts as complete: the bytes acknowledged in a run of its calls, and the state
-- `kDataRecvd`.
use quic_x.Stream.SendStream.Acks.{
  add_range, advance_offset, check_all_data_acked, note_acked, on_data_acked,
}
use quic_x.Common.{
  ℕ, ◌+◌, ◌≤◌, ◌<◌, ◌≡◌, refl, sym, ap, subst, ◌∙◌, Bool, true, false, List, [], ◌∷◌, arith, ltb,
  if◌then◌else◌, All, IsU64, add64,
}
use quic_x.Stream.{ready, data_recvd}
use quic_x.Stream.SendStream.{new_send_stream, close_stream, SendStream}
use quic_x.Stream.SendStream.Acked.{
  covers, first_end, covers-below, covers-first_end, also, on_data_acked-IsTracked, IsTracked,
}
use quic_x.Stream.SendStream.Calls.{
  on_send_input, run_send, SendInput, write, flush_written, close, reset_call, max_stream_data,
  stop_sending, send_data, acked,
}
use quic_x.Stream.SendStream.Kept.{
  reset_stream-Keeps, stop_sending-Keeps, send_bytes-Keeps, flush-Keeps, limit-Keeps,
  try_send-Keeps, Keeps,
}

abbrev pub AckFits : SendInput → Type 0
AckFits (acked offset_start range_length fin) = IsU64 (offset_start + range_length)
AckFits _ = Unit {0}

-- The bytes acknowledged once the calls are made.
pub acked_by : (ℕ → Bool) → List SendInput → ℕ → Bool
acked_by before [] = before
acked_by before (acked o n fin ∷ is) = acked_by (also before o n) is
acked_by before (i ∷ is) = acked_by before is

-- What is acknowledged is tracked, and a stream whose data count as received has sent its last frame
-- and has every byte acknowledged.
record IsComplete (acknowledged : ℕ → Bool) (s : SendStream) : Type 0 where
  pub tracked : IsTracked acknowledged s
  pub recvd :
      s.machine.state ≡ data_recvd → (s.fin_sent ≡ true) × (s.send_data_offset ≤ s.acked_offset)

Keeps-IsComplete :
    (acknowledged : ℕ → Bool) (s t : SendStream)
    → Keeps s t
    → IsComplete acknowledged s
    → IsComplete acknowledged t
Keeps-IsComplete acknowledged s t k v = record {
  tracked = record {
    apart = rw k.ranges v.tracked.apart;
    exact = λ x. rw k.ranges (v.tracked.exact x);
    offset = rw (k.ranges, k.offset) v.tracked.offset;
  };
  recvd = λ e.
      let (d, f, o) = k.was_recvd e in
      let (g, h) = v.recvd d in let a = k.offset in (f ∙ g, omega arith);
}

advance_offset-le : (rs : List (ℕ × ℕ)) (n : ℕ) → n ≤ advance_offset rs n
unfolding advance_offset
advance_offset-le [] n = omega arith
advance_offset-le ((s, e) ∷ rs) n = ground arith

all_ack_done-data_recvd :
    (s : SendStream)
    → (check_all_data_acked s).machine.state ≡ data_recvd
    → (s.machine.state ≡ data_recvd → (s.fin_sent ≡ true) × (s.send_data_offset ≤ s.acked_offset))
    → ((check_all_data_acked s).fin_sent ≡ true)
      × ((check_all_data_acked s).send_data_offset ≤ (check_all_data_acked s).acked_offset)
unfolding check_all_data_acked
all_ack_done-data_recvd s e h = ground arith

note_acked-recvd :
    (s : SendStream) (o n : ℕ) (fin : Bool)
    → (s.machine.state ≡ data_recvd → (s.fin_sent ≡ true) × (s.send_data_offset ≤ s.acked_offset))
    → (note_acked s o n fin).machine.state ≡ data_recvd
    → ((note_acked s o n fin).fin_sent ≡ true)
      × ((note_acked s o n fin).send_data_offset ≤ (note_acked s o n fin).acked_offset)
unfolding note_acked
note_acked-recvd s o n fin h e =
    let (f, l) = h e in
    let ranges = if ltb 0 n then add_range s.acked_ranges o (add64 o n) else s.acked_ranges in
    let m = advance_offset-le ranges s.acked_offset in (ground arith, omega arith)

acked-IsComplete :
    (acknowledged : ℕ → Bool) (s : SendStream) (o n : ℕ) (fin : Bool)
    → IsU64 (o + n)
    → IsComplete acknowledged s
    → IsComplete (also acknowledged o n) (on_data_acked s o n fin)
acked-IsComplete acknowledged s o n fin h v = record {
  tracked = on_data_acked-IsTracked acknowledged s o n fin h v.tracked;
  recvd =
      unfold on_data_acked in
      λ e. all_ack_done-data_recvd (note_acked s o n fin) e (note_acked-recvd s o n fin v.recvd);
}

on_send_input-IsComplete :
    (acknowledged : ℕ → Bool) (s : SendStream) (i : SendInput)
    → AckFits i
    → IsComplete acknowledged s
    → IsComplete (acked_by acknowledged (i ∷ [])) (on_send_input s i).0
unfolding on_send_input acked_by
on_send_input-IsComplete acknowledged s (write bytes) h v =
    Keeps-IsComplete acknowledged s _ (send_bytes-Keeps s bytes) v
on_send_input-IsComplete acknowledged s flush_written h v =
    Keeps-IsComplete acknowledged s _ (flush-Keeps s) v
on_send_input-IsComplete acknowledged s close h v =
    Keeps-IsComplete acknowledged s (close_stream s)
      (record { ranges = refl; offset = refl; was_recvd = λ e. (e, refl, refl) }) v
on_send_input-IsComplete acknowledged s (reset_call error) h v =
    Keeps-IsComplete acknowledged s _ (reset_stream-Keeps s error) v
on_send_input-IsComplete acknowledged s (max_stream_data limit) h v =
    Keeps-IsComplete acknowledged s _ (limit-Keeps s limit) v
on_send_input-IsComplete acknowledged s (stop_sending error) h v =
    Keeps-IsComplete acknowledged s _ (stop_sending-Keeps s error) v
on_send_input-IsComplete acknowledged s (send_data w) h v =
    Keeps-IsComplete acknowledged s _ (try_send-Keeps s w) v
on_send_input-IsComplete acknowledged s (acked o n fin) h v =
    acked-IsComplete acknowledged s o n fin h v

acked_by-cons :
    (acknowledged : ℕ → Bool) (i : SendInput) (is : List SendInput)
    → acked_by acknowledged (i ∷ is) ≡ acked_by (acked_by acknowledged (i ∷ [])) is
unfolding acked_by
acked_by-cons acknowledged (write bytes) is = refl
acked_by-cons acknowledged flush_written is = refl
acked_by-cons acknowledged close is = refl
acked_by-cons acknowledged (reset_call error) is = refl
acked_by-cons acknowledged (max_stream_data limit) is = refl
acked_by-cons acknowledged (stop_sending error) is = refl
acked_by-cons acknowledged (send_data w) is = refl
acked_by-cons acknowledged (acked o n fin) is = refl

run_send-IsComplete :
    (acknowledged : ℕ → Bool) (s : SendStream) (is : List SendInput)
    → All AckFits is
    → IsComplete acknowledged s
    → IsComplete (acked_by acknowledged is) (run_send s is).0
unfolding run_send
run_send-IsComplete acknowledged s [] h v = unfold acked_by in v
run_send-IsComplete acknowledged s (i ∷ is) (a, h) v =
    subst (λ k. IsComplete k (run_send (on_send_input s i).0 is).0)
      (sym (acked_by-cons acknowledged i is))
      (run_send-IsComplete (acked_by acknowledged (i ∷ [])) (on_send_input s i).0 is h
        (on_send_input-IsComplete acknowledged s i a v))

abbrev pub nothing : ℕ → Bool
nothing x = false

new-IsComplete : (stream_id limit : ℕ) → IsComplete nothing (new_send_stream stream_id limit)
new-IsComplete stream_id limit = record {
  tracked = record { apart = tt; exact = λ x. unfold covers in refl; offset = refl };
  recvd = λ e. absurd (ready_open e);
}
  where
    ready_open : ready ≡ data_recvd → ⊥
    ready_open e = cc

-- Whatever is called on a new sending stream, the acknowledged bytes being below 2^64: every byte
-- below `acked_offset` has been acknowledged, and the byte at it has not.
pub run_send-acked_offset :
    (stream_id limit : ℕ) (is : List SendInput)
    → All AckFits is
    → ((x : ℕ)
        → x < (run_send (new_send_stream stream_id limit) is).0.acked_offset
        → acked_by nothing is x ≡ true)
      × (acked_by nothing is (run_send (new_send_stream stream_id limit) is).0.acked_offset ≡ false)
run_send-acked_offset stream_id limit is h =
    let s = (run_send (new_send_stream stream_id limit) is).0 in
    let v =
      (run_send-IsComplete nothing (new_send_stream stream_id limit) is h
        (new-IsComplete stream_id limit)).tracked in
    let e : s.acked_offset ≡ first_end s.acked_ranges = v.offset in
    (
      λ x l. sym (v.exact x) ∙ covers-below s.acked_ranges x (omega arith),
      sym (v.exact s.acked_offset)
          ∙ ap (λ k. covers s.acked_ranges k) e
          ∙ covers-first_end s.acked_ranges v.apart,
    )

-- Whatever is called on a new sending stream, the acknowledged bytes being below 2^64: when its state
-- is `data_recvd` and the byte `x` was sent, its last frame has been sent or acknowledged, and the byte
-- has been acknowledged.
pub run_send-data_recvd :
    (stream_id limit : ℕ) (is : List SendInput) (x : ℕ)
    → All AckFits is
    → (run_send (new_send_stream stream_id limit) is).0.machine.state ≡ data_recvd
    → x < (run_send (new_send_stream stream_id limit) is).0.send_data_offset
    → ((run_send (new_send_stream stream_id limit) is).0.fin_sent ≡ true)
      × (acked_by nothing is x ≡ true)
run_send-data_recvd stream_id limit is x h e b =
    let v =
      run_send-IsComplete nothing (new_send_stream stream_id limit) is h
        (new-IsComplete stream_id limit) in
    let (f, l) = v.recvd e in (f, (run_send-acked_offset stream_id limit is h).0 x (omega arith))
