-- ===== src/Stream/RecvStream/Steps.antt =====
-- What the single steps of a receiving stream leave as it is, and when a frame passes its checks.
use quic_x.Stream.{StreamFrame}
use quic_x.Common.{ℕ, ◌+◌, ◌≤◌, ◌≡◌, true, none, some, ◌∷◌, arith, length, IsU32, IsU64}
use quic_x.Stream.Reorder.Content.{slice}
use quic_x.Stream.RecvStream.{
  k_stream_window_increment, reset, window_needed, gathered, keep, check_frame,
  on_reset_stream_frame, RecvStream, Input, stream_frame,
}

-- A frame carries the bytes that the peer's stream has at its offset, in the ranges of its fields.
pub record Agrees (content : ℕ → ℕ) (f : StreamFrame) : Type 0 where
  pub offset_64 : IsU64 f.offset
  pub length_32 : IsU32 (length f.bytes)
  pub bytes_eq : f.bytes ≡ slice content f.offset (length f.bytes)

abbrev pub InputAgrees : (ℕ → ℕ) → Input → Type 0
InputAgrees content (stream_frame f) = Agrees content f
InputAgrees content _ = Unit {0}

pub check_frame-below :
    (s : RecvStream) (f : StreamFrame)
    → IsU64 f.offset
    → IsU32 (length f.bytes)
    → (check_frame s f).1 ≡ true
    → f.offset + length f.bytes ≤ s.local_data_limit
unfolding check_frame
check_frame-below s f h g e = ground arith

pub check_frame-same :
    (s : RecvStream) (f : StreamFrame)
    → (gathered (check_frame s f).0 ≡ gathered s)
      × ((check_frame s f).0.local_data_limit ≡ s.local_data_limit)
unfolding check_frame
check_frame-same s f = ground arith

pub keep-same :
    (s : RecvStream) (f : StreamFrame)
    → ((keep s f).0.except_offset ≡ s.except_offset)
      × ((keep s f).0.buffer ≡ s.buffer)
      × ((keep s f).0.local_data_limit ≡ s.local_data_limit)
unfolding keep
keep-same s f = ground arith

-- A frame that `keep` does not count changes nothing of what waits, and one that it counts waits.
pub keep-none :
    (s : RecvStream) (f : StreamFrame)
    → (keep s f).1 ≡ none
    → (keep s f).0.out_order_frame ≡ s.out_order_frame
unfolding keep
keep-none s f e = ground arith

pub keep-some :
    (s : RecvStream) (f : StreamFrame) (k : ℕ)
    → (keep s f).1 ≡ some k
    → ((keep s f).0.out_order_frame ≡ (f.offset, f.bytes) ∷ s.out_order_frame)
      × (k ≡ length f.bytes)
unfolding keep
keep-some s f k e = ground arith

pub window_needed-increment : (r : ℕ) → window_needed r ≡ k_stream_window_increment
unfolding window_needed
window_needed-increment r = ground arith

pub reset_stream-same :
    (s : RecvStream) (error final : ℕ)
    → (gathered (on_reset_stream_frame s error final) ≡ gathered s)
      × ((on_reset_stream_frame s error final).local_data_limit ≡ s.local_data_limit)
unfolding on_reset_stream_frame
reset_stream-same s error final = ground arith

pub reset-same :
    (s : RecvStream) (error : ℕ)
    → (gathered (reset s error) ≡ gathered s)
      × ((reset s error).local_data_limit ≡ s.local_data_limit)
unfolding reset
reset-same s error = ground arith
