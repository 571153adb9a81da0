-- ===== src/Stream.antt =====
-- The stream state machines of src/quic/stream/: what they share (type.h, if_state_machine.h) and
-- the tests on frame types that they use (src/quic/frame/type.h, stream_frame.cpp).
pub mod Send
pub mod Recv
pub mod RecvStream
pub mod SendStream
pub mod CryptoStream
pub mod Reorder
use quic_x.Common.{
  ℕ, ◌*◌, ◌/◌, ◌%◌, ◌^◌, ◌≡◌, ◌≢◌, Bool, true, false, List, [], ◌∷◌, ◌==◌, ◌!=◌, if◌then◌else◌,
}

pub data StreamState : Type 0 where
  unknown ready send data_sent reset_sent recv size_known data_read reset_read data_recvd
        reset_recvd :
      StreamState

unfoldable pub same_state : StreamState → StreamState → Bool
same_state unknown unknown = true
same_state ready ready = true
same_state send send = true
same_state data_sent data_sent = true
same_state reset_sent reset_sent = true
same_state recv recv = true
same_state size_known size_known = true
same_state data_read data_read = true
same_state reset_read reset_read = true
same_state data_recvd data_recvd = true
same_state reset_recvd reset_recvd = true
same_state _ _ = false

abbrev pub k_reset_stream : ℕ
k_reset_stream = 0x04

abbrev pub k_stop_sending : ℕ
k_stop_sending = 0x05

abbrev pub k_stream : ℕ
k_stream = 0x08

abbrev pub k_max_stream_data : ℕ
k_max_stream_data = 0x11

abbrev pub k_stream_data_blocked : ℕ
k_stream_data_blocked = 0x15

-- A STREAM frame: its type with the flag bits, its offset and its bytes.
pub record StreamFrame : Type 0 where
  pub type : ℕ
  pub offset : ℕ
  pub bytes : List ℕ

-- `(frame_type & ~kMaskFlag) == kStream`, with three low bits in the mask.
abbrev pub is_stream_frame : ℕ → Bool
is_stream_frame frame_type = frame_type / 2 ^ 3 * 2 ^ 3 == k_stream

-- `frame_type & kFinFlag`, the lowest bit.
abbrev pub has_fin : ℕ → Bool
has_fin frame_type = frame_type % 2 != 0

-- The calls of the state-change callback, the newest first: what `NotifyStateChange` reports.
unfoldable pub notify :
    StreamState → StreamState → List (StreamState × StreamState) → List (StreamState × StreamState)
notify old next changes = if same_state old next then changes else ((old, next) ∷ changes)

-- The reported changes lead from the first state to the present one without a gap.
abbrev pub IsTrail : StreamState → StreamState → List (StreamState × StreamState) → Type 0
IsTrail first now [] = now ≡ first
IsTrail first now ((old, next) ∷ changes) = (now ≡ next) × (old ≢ next) × IsTrail first old changes
