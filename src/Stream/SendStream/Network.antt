-- ===== src/Stream/SendStream/Network.antt =====
-- Runs of a sending stream, and a receiving stream that is fed with the frames of one.
use quic_x.Stream.SendStream.Cut.{
  OutAgrees, OutAgrees-mono, accepted, still, try_send-Goes, same-Goes, write-Goes, limit-Goes,
  IsSending, Goes,
}
use quic_x.Stream.SendStream.{
  new_send_stream, close_stream, send_bytes, flush, SendStream, OutFrame, control, stream_data,
}
use quic_x.Common.{
  ℕ, ◌+◌, ◌*◌, ◌^◌, ◌<◌, ◌≡◌, refl, sym, subst, ◌⊎◌, inl, inr, none, List, [], ◌∷◌, arith, length,
  All, All-append, IsU64,
}
use quic_x.Stream.SendStream.Calls.{
  on_send_input, run_send, reset_stream-IsSame, stop_sending-IsSame, flush-IsSame,
  on_data_acked-IsSame, SendInput, write, flush_written, close, reset_call, max_stream_data,
  stop_sending, send_data, acked,
}
use quic_x.Stream.Reorder.Content.{slice}
use quic_x.Stream.RecvStream.{
  new_stream, k_blocked_window_increment, run_stream, Input, stream_frame,
  stream_data_blocked_frame, reset_stream_frame, local_reset,
}
use quic_x.Stream.RecvStream.Steps.{InputAgrees, Agrees}
use quic_x.Stream.RecvStream.Delivery.{run_stream-slice}
use quic_x.Stream.{StreamFrame}

-- How many bytes a call writes, by what `Send` returns.
abbrev pub bytes_taken : SendStream → SendInput → ℕ
bytes_taken s (write bytes) = accepted (send_bytes s bytes).1
bytes_taken s _ = 0

-- How many bytes the calls write.
abbrev pub bytes_written : SendStream → List SendInput → ℕ
bytes_written s [] = 0
bytes_written s (i ∷ is) = bytes_taken s i + bytes_written (on_send_input s i).0 is

plus_zero : (n : ℕ) → n + 0 ≡ n
plus_zero n = omega arith

zero_plus : (n : ℕ) → 0 + n ≡ n
zero_plus n = omega arith

plus_assoc : (a b c : ℕ) → a + (b + c) ≡ a + b + c
plus_assoc a b c = omega arith

module _ (content : ℕ → ℕ) where
  -- A write that is accepted carries what the stream has from the end of the bytes that were written
  -- before it, and a limit is of 64 bits.
  abbrev pub WriteAgrees : SendStream → ℕ → SendInput → Type 0
  WriteAgrees s written (write bytes) =
      ((send_bytes s bytes).1 ≡ none) ⊎ (bytes ≡ slice content written (length bytes))
  WriteAgrees s written (max_stream_data limit) = IsU64 limit
  WriteAgrees s written _ = Unit {0}

  on_send_input-Goes :
      (s : SendStream) (written : ℕ) (i : SendInput)
      → WriteAgrees s written i
      → IsSending content written s
      → Goes content (written + bytes_taken s i) s (on_send_input s i).0 (on_send_input s i).1
  unfolding on_send_input
  on_send_input-Goes s written (write bytes) a w = write-Goes content written s bytes a w
  on_send_input-Goes s written flush_written a w =
      rw (plus_zero written) (same-Goes content written s (flush s).0 (flush-IsSame s) w)
  on_send_input-Goes s written close a w =
      rw (plus_zero written) (same-Goes content written s (close_stream s) (refl, refl, refl) w)
  on_send_input-Goes s written (reset_call error) a w =
      rw (plus_zero written) (same-Goes content written s _ (reset_stream-IsSame s error) w)
  on_send_input-Goes s written (max_stream_data limit) a w =
      rw (plus_zero written) (limit-Goes content written s limit a w)
  on_send_input-Goes s written (stop_sending error) a w =
      rw (plus_zero written) (same-Goes content written s _ (stop_sending-IsSame s error) w)
  on_send_input-Goes s written (send_data v) a w =
      rw (plus_zero written) (try_send-Goes content written s v w)
  on_send_input-Goes s written (acked o n fin) a w =
      rw (plus_zero written) (same-Goes content written s _ (on_data_acked-IsSame s o n fin) w)

  -- Every call of a run agrees with the stream, when so many bytes were written before.
  abbrev pub Writes : SendStream → ℕ → List SendInput → Type 0
  Writes s written [] = Unit {0}
  Writes s written (i ∷ is) =
      WriteAgrees s written i × Writes (on_send_input s i).0 (written + bytes_taken s i) is

  run_send-Goes :
      (s : SendStream) (written : ℕ) (is : List SendInput)
      → Writes s written is
      → IsSending content written s
      → Goes content (written + bytes_written s is) s (run_send s is).0 (run_send s is).1
  unfolding run_send
  run_send-Goes s written [] a w = rw (plus_zero written) (still content written s w)
  run_send-Goes s written (i ∷ is) (a, rest) w =
      let g = on_send_input-Goes s written i a w in
      let t = (on_send_input s i).0 in
      let h = run_send-Goes t (written + bytes_taken s i) is rest g.sending in
      let limit = (run_send t is).0.peer_data_limit in
      let up = h.limit_rises in
      let rises = g.limit_rises in
      let sum = plus_assoc written (bytes_taken s i) (bytes_written t is) in
      record {
        sending = rw sum h.sending;
        limit_rises = omega arith;
        pieces =
            All-append (OutAgrees content limit) (on_send_input s i).1 (run_send t is).1
              (OutAgrees-mono content t.peer_data_limit limit (on_send_input s i).1 up g.pieces)
              h.pieces;
      }

-- Whatever is called on a new sending stream, when each write that is accepted carries what the
-- stream has from the sum of the sizes accepted before: the STREAM frames that go out carry the
-- stream's bytes at their offsets, and end within the largest limit of the peer; the bytes that wait
-- are those from the next offset on; and this offset with the number of bytes that wait is the
-- sum of all the sizes accepted, so that none is lost. The limits are below 2^64.
pub run_send-slice :
    (content : ℕ → ℕ) (stream_id limit : ℕ) (is : List SendInput)
    → IsU64 limit
    → Writes content (new_send_stream stream_id limit) 0 is
    → IsSending content
        (bytes_written (new_send_stream stream_id limit) is)
        (run_send (new_send_stream stream_id limit) is).0
      × All
          (OutAgrees content (run_send (new_send_stream stream_id limit) is).0.peer_data_limit)
          (run_send (new_send_stream stream_id limit) is).1
run_send-slice content stream_id limit is h a =
    let g =
      run_send-Goes content (new_send_stream stream_id limit) 0 is a
        (record { buffered = refl; total = refl; offset_below = omega arith; limit_64 = h }) in
    (rw (zero_plus (bytes_written (new_send_stream stream_id limit) is)) at g.sending, g.pieces)

-- A STREAM frame among those that went out.
abbrev pub IsSent : StreamFrame → List OutFrame → Type 0
IsSent f [] = ⊥
IsSent f (control c ∷ out) = IsSent f out
IsSent f (stream_data g ∷ out) = (f ≡ g) ⊎ IsSent f out

sent-Agrees :
    (content : ℕ → ℕ) (limit : ℕ) (f : StreamFrame) (out : List OutFrame)
    → All (OutAgrees content limit) out
    → IsSent f out
    → Agrees content f
sent-Agrees content limit f [] a h = absurd h
sent-Agrees content limit f (control c ∷ out) (p, a) h = sent-Agrees content limit f out a h
sent-Agrees content limit f (stream_data g ∷ out) (p, a) (inl e) =
    subst (λ k. Agrees content k) (sym e) p.agrees
sent-Agrees content limit f (stream_data g ∷ out) (p, a) (inr h) =
    sent-Agrees content limit f out a h

-- Each STREAM frame that comes in is one of those that went out.
abbrev pub IsFrom : List OutFrame → Input → Type 0
IsFrom out (stream_frame f) = IsSent f out
IsFrom out _ = Unit {0}

from-InputAgrees :
    (content : ℕ → ℕ) (limit : ℕ) (out : List OutFrame) (is : List Input)
    → All (OutAgrees content limit) out
    → All (IsFrom out) is
    → All (InputAgrees content) is
from-InputAgrees content limit out [] a h = tt
from-InputAgrees content limit out (stream_frame f ∷ is) a (p, h) =
    (sent-Agrees content limit f out a p, from-InputAgrees content limit out is a h)
from-InputAgrees content limit out (stream_data_blocked_frame ∷ is) a (p, h) =
    (tt, from-InputAgrees content limit out is a h)
from-InputAgrees content limit out (reset_stream_frame e f ∷ is) a (p, h) =
    (tt, from-InputAgrees content limit out is a h)
from-InputAgrees content limit out (local_reset e ∷ is) a (p, h) =
    (tt, from-InputAgrees content limit out is a h)

-- A new sending stream and a new receiving one, with a network that loses, repeats and reorders
-- frames: each write that the sender accepts carries what the stream has from the sum of the sizes
-- accepted before. If every STREAM frame that comes in is one that the sender has put out, then what
-- the receiver has written to its buffer are the first bytes of the stream, up to the offset that it
-- expects next. The sender's limits are
-- below 2^64, and so is the receiver's with all the windows that the frames can open.
pub run_stream-run_send :
    (content : ℕ → ℕ) (stream_id send_limit recv_limit : ℕ) (calls : List SendInput)
    (is : List Input)
    → IsU64 send_limit
    → Writes content (new_send_stream stream_id send_limit) 0 calls
    → All (IsFrom (run_send (new_send_stream stream_id send_limit) calls).1) is
    → recv_limit + k_blocked_window_increment * length is < 2 ^ 64
    → (run_stream (new_stream stream_id recv_limit) is).buffer
      ≡ slice content 0 (run_stream (new_stream stream_id recv_limit) is).except_offset
run_stream-run_send content stream_id send_limit recv_limit calls is h a from room =
    let sent = run_send (new_send_stream stream_id send_limit) calls in
    let pieces = (run_send-slice content stream_id send_limit calls h a).1 in
    (run_stream-slice content stream_id recv_limit is
      (from-InputAgrees content sent.0.peer_data_limit sent.1 is pieces from) room).prefix
