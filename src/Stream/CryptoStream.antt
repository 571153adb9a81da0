-- ===== src/Stream/CryptoStream.antt =====
-- `CryptoStream` of src/quic/stream/crypto_stream.cpp: for each encryption level, the bytes of the
-- handshake in both directions, in order. A buffer that is not made yet is an empty one. Calls from
-- another thread, which are posted to the loop's own, are made there. `Send` does not check its level,
-- which its callers take from TLS.
pub mod Levels
pub mod Network
mod Tests
use quic_x.Common.{
  ℕ, ◌-◌, min, Bool, true, false, not, ◌&&◌, ◌||◌, Option, none, some, List, [], ◌∷◌, ◌++◌, ltb,
  leb, ◌==◌, ◌!=◌, if◌then◌else◌, length, is_empty, take, drop, add64,
}
use quic_x.Stream.Reorder.{Waiting, find_at, gather, Gathered}

-- A CRYPTO frame: its level, its offset and its bytes.
pub record CryptoFrame : Type 0 where
  pub encryption_level : ℕ
  pub offset : ℕ
  pub bytes : List ℕ

pub data Event : Type 0 where
  active_send : Event
  recv : ℕ → Event

-- What the stream keeps for one level. `read_buffer` has all bytes ever written to it.
pub record Level : Type 0 where
  pub next_read_offset : ℕ
  pub read_buffer : List ℕ
  pub out_order_frame : Waiting
  pub send_offset : ℕ
  pub send_buffer : List ℕ

pub record CryptoStream : Type 0 where
  pub levels : ℕ → Level
  pub events : List Event

abbrev pub k_num_encryption_levels : ℕ
k_num_encryption_levels = 4

abbrev pub k_initial : ℕ
k_initial = 0

abbrev pub k_handshake : ℕ
k_handshake = 2

abbrev pub k_application : ℕ
k_application = 3

abbrev pub k_crypto_header_reserve : ℕ
k_crypto_header_reserve = 20

abbrev pub new_level : Level
new_level = record {
  next_read_offset = 0;
  read_buffer = [];
  out_order_frame = [];
  send_offset = 0;
  send_buffer = [];
}

abbrev pub new_crypto_stream : CryptoStream
new_crypto_stream = record { levels = λ level. new_level; events = [] }

abbrev pub set_level : CryptoStream → ℕ → Level → CryptoStream
set_level s level l = record s { levels = λ i. if i == level then l else s.levels i }

abbrev pub to_send : CryptoStream → CryptoStream
to_send s = record s { events = active_send ∷ s.events }

-- What the visitor of a packet says, and how many bytes the buffer's first chunk has.
pub record CryptoVisitor : Type 0 where
  pub handle_frame : Bool
  pub left_stream_data_size : ℕ
  pub packet_left_size : ℕ
  pub first_chunk : ℕ

unfoldable pub write_size_of : Level → CryptoVisitor → ℕ
write_size_of l v =
    let cap = v.packet_left_size - k_crypto_header_reserve in
    let write_size = if ltb cap v.left_stream_data_size then cap else v.left_stream_data_size in
    if write_size == 0 then min (length l.send_buffer) cap else write_size

abbrev pub has_data : Level → Bool
has_data l = not (is_empty l.send_buffer)

-- Is there data for one of the four levels, the given one aside?
abbrev pub others_have_data : CryptoStream → ℕ → Bool
others_have_data s level =
    (level != 0 && has_data (s.levels 0))
    || (level != 1 && has_data (s.levels 1))
    || (level != 2 && has_data (s.levels 2))
    || (level != 3 && has_data (s.levels 3))

-- What follows when the visitor has taken the frame.
unfoldable pub frame_taken : CryptoStream → ℕ → List ℕ → CryptoStream
frame_taken s level bytes =
    let l = s.levels level in
    let rest = drop (length bytes) l.send_buffer in
    let sent =
      set_level s level
        (record l { send_buffer = rest; send_offset = add64 l.send_offset (length bytes) }) in
    if not (is_empty rest) || others_have_data s level then to_send sent else sent

-- The stream, the frame that went out, and whether the result is not `kFailed`.
unfoldable pub try_send_data :
    CryptoStream → CryptoVisitor → ℕ → CryptoStream × Option CryptoFrame × Bool
try_send_data s v level =
    let l = s.levels level in
    let bytes = take (min (write_size_of l v) v.first_chunk) l.send_buffer in
    let frame : CryptoFrame = record {
      encryption_level = level;
      offset = l.send_offset;
      bytes = bytes;
    } in
    if leb k_num_encryption_levels level
    then (s, none, false)
    else if is_empty l.send_buffer || is_empty bytes
    then (s, none, true)
    else if v.handle_frame
    then (frame_taken s level bytes, some frame, true)
    else (s, none, false)

unfoldable pub reset_for_retry : CryptoStream → CryptoStream
reset_for_retry s = set_level s k_initial new_level

unfoldable pub get_wait_send_encryption_level : CryptoStream → ℕ
get_wait_send_encryption_level s =
    if has_data (s.levels k_initial)
    then k_initial
    else if has_data (s.levels k_handshake)
    then k_handshake
    else k_application

-- `Send` with a level.
unfoldable pub send_at : CryptoStream → List ℕ → ℕ → CryptoStream
send_at s bytes level =
    let l = s.levels level in
    to_send (set_level s level (record l { send_buffer = l.send_buffer ++ bytes }))

-- `Send` without one.
unfoldable pub send_waiting : CryptoStream → List ℕ → CryptoStream
send_waiting s bytes = send_at s bytes (get_wait_send_encryption_level s)

abbrev pub gathered : Level → Gathered
gathered l = record {
  next = l.next_read_offset;
  written = l.read_buffer;
  waiting = l.out_order_frame;
  last_length = 0;
}

abbrev pub is_none : Option (List ℕ) → Bool
is_none none = true
is_none (some bytes) = false

-- A level after one of its frames.
unfoldable pub place : Level → CryptoFrame → Level
place l f =
    let g = gather (gathered l) f.bytes in
    if f.offset == l.next_read_offset
    then record l {
      next_read_offset = g.next;
      read_buffer = g.written;
      out_order_frame = g.waiting;
    }
    else if ltb l.next_read_offset f.offset && is_none (find_at f.offset l.out_order_frame)
    then record l { out_order_frame = (f.offset, f.bytes) ∷ l.out_order_frame }
    else l

unfoldable pub on_crypto_frame : CryptoStream → CryptoFrame → CryptoStream
on_crypto_frame s f =
    let l = s.levels f.encryption_level in
    let placed = set_level s f.encryption_level (place l f) in
    if leb k_num_encryption_levels f.encryption_level
    then s
    else if f.offset == l.next_read_offset
    then record placed { events = recv f.encryption_level ∷ s.events }
    else placed

-- The calls, in any order.
pub data CryptoInput : Type 0 where
  write : ℕ → List ℕ → CryptoInput
  write_waiting : List ℕ → CryptoInput
  send_data : CryptoVisitor → ℕ → CryptoInput
  crypto_frame : CryptoFrame → CryptoInput
  retry : CryptoInput

abbrev pub frame_list : Option CryptoFrame → List CryptoFrame
frame_list none = []
frame_list (some f) = f ∷ []

-- The stream after the call, and the frames that went out.
unfoldable pub on_crypto_input : CryptoStream → CryptoInput → CryptoStream × List CryptoFrame
on_crypto_input s (write level bytes) = (send_at s bytes level, [])
on_crypto_input s (write_waiting bytes) = (send_waiting s bytes, [])
on_crypto_input s (send_data v level) =
    let (t, frame, result) = try_send_data s v level in (t, frame_list frame)
on_crypto_input s (crypto_frame f) = (on_crypto_frame s f, [])
on_crypto_input s retry = (reset_for_retry s, [])

unfoldable pub run_crypto : CryptoStream → List CryptoInput → CryptoStream × List CryptoFrame
run_crypto s [] = (s, [])
run_crypto s (i ∷ is) =
    let (t, out) = on_crypto_input s i in let (u, more) = run_crypto t is in (u, out ++ more)
