-- ===== src/Stream/SendStream/Cut.antt =====
-- What goes out on a stream are the bytes written to it, at their offsets and within the peer's limit.
use quic_x.Stream.Reorder.Slices.{
  take-slice, drop-slice, length-take-le, length-take-drop, append-slice,
}
use quic_x.Common.{
  ℕ, ◌+◌, ◌-◌, ◌^◌, ◌≤◌, ◌<◌, ◌≡◌, ◌⊎◌, inl, inr, Bool, true, not, ◌&&◌, Option, none, some, List,
  [], ◌∷◌, ◌++◌, arith, ltb, leb, ◌==◌, if◌then◌else◌, Bool-cases, if_both, length, is_empty,
  length-append, take, All, All-append, IsU64, add64,
}
use quic_x.Codec.Control.{ControlFrame}
use quic_x.Stream.SendStream.Calls.{IsSame}
use quic_x.Stream.Reorder.Content.{slice}
use quic_x.Stream.{k_stream, StreamFrame}
use quic_x.Stream.Send.{check_can_send_frame}
use quic_x.Stream.SendStream.{
  k_stream_data_blocked_threshold, notify_active, send_bytes, on_max_stream_data_frame,
  is_blocked_unsaid, blocked_frame, is_near_limit, send_frames, send_size_of, stream_type,
  frame_sent, stalled, send_stream_frame, send_rest, try_send_data, SendStream, Visitor,
  TrySendResult, success, failed, break_off, flow_control_blocked, OutFrame, control, stream_data,
  Sent,
}
use quic_x.Stream.RecvStream.Steps.{Agrees}

-- Of the bytes written so far, the last ones wait, from the next offset on, which is within the limit.
pub record IsSending (content : ℕ → ℕ) (written : ℕ) (s : SendStream) : Type 0 where
  pub buffered : s.send_buffer ≡ slice content s.send_data_offset (length s.send_buffer)
  pub total : s.send_data_offset + length s.send_buffer ≡ written
  pub offset_below : s.send_data_offset ≤ s.peer_data_limit
  pub limit_64 : IsU64 s.peer_data_limit

-- A STREAM frame carries bytes of the stream at its offset, and ends within the limit.
pub record IsPiece (content : ℕ → ℕ) (limit : ℕ) (f : StreamFrame) : Type 0 where
  pub agrees : Agrees content f
  pub below : f.offset + length f.bytes ≤ limit

abbrev pub OutAgrees : (ℕ → ℕ) → ℕ → OutFrame → Type 0
OutAgrees content limit (control f) = Unit {0}
OutAgrees content limit (stream_data f) = IsPiece content limit f

pub OutAgrees-mono :
    (content : ℕ → ℕ) (l m : ℕ) (out : List OutFrame)
    → l ≤ m
    → All (OutAgrees content l) out
    → All (OutAgrees content m) out
OutAgrees-mono content l m [] h a = tt
OutAgrees-mono content l m (control f ∷ out) h (p, a) = (tt, OutAgrees-mono content l m out h a)
OutAgrees-mono content l m (stream_data f ∷ out) h (p, a) = (
  record { agrees = p.agrees; below = (let b = p.below in omega arith) },
  OutAgrees-mono content l m out h a,
)

-- How many bytes a write has taken, by what it returns.
abbrev pub accepted : Option ℕ → ℕ
accepted none = 0
accepted (some n) = n

-- What a step leaves, and what went out in it.
pub record Goes (content : ℕ → ℕ) (written : ℕ) (s t : SendStream) (out : List OutFrame)
    : Type 0 where
  pub sending : IsSending content written t
  pub limit_rises : s.peer_data_limit ≤ t.peer_data_limit
  pub pieces : All (OutAgrees content t.peer_data_limit) out

module _ (content : ℕ → ℕ) (written : ℕ) where
  pub still : (s : SendStream) → IsSending content written s → Goes content written s s []
  still s v = record { sending = v; limit_rises = omega arith; pieces = tt }

  send_frames-pieces :
      (limit : ℕ) (v : Visitor) (n : ℕ) (fs : List ControlFrame)
      → All (OutAgrees content limit) (send_frames v n fs).1
  unfolding send_frames
  send_frames-pieces limit v n [] = tt
  send_frames-pieces limit v n (f ∷ fs) = elim (Bool-cases (v.handle_frame n)) [
    | inl y ↦ rw y (tt, send_frames-pieces limit v (n + 1) fs)
    | inr z ↦ rw z tt
  ]

  stalled-Goes :
      (s : SendStream) (v : Visitor) (n : ℕ)
      → IsSending content written s
      → Goes content written s (stalled s v n).0 (stalled s v n).1
  unfolding stalled
  stalled-Goes s v n w =
      let told = record s { blocked_at_limit = s.peer_data_limit } in
      let out = if v.handle_frame n then control (blocked_frame s) ∷ [] else [] in
      let pieces : All (OutAgrees content s.peer_data_limit) out =
        if_both (All (OutAgrees content s.peer_data_limit)) (v.handle_frame n)
          (control (blocked_frame s) ∷ []) [] (tt, tt) tt in
      let said : Goes content written s told out = record {
        sending = record {
          buffered = w.buffered;
          total = w.total;
          offset_below = w.offset_below;
          limit_64 = w.limit_64;
        };
        limit_rises = omega arith;
        pieces = pieces;
      } in
      if_both Moves (ltb (s.peer_data_limit - s.send_data_offset) k_stream_data_blocked_threshold)
        (if is_blocked_unsaid s
          then (told, out, flow_control_blocked)
          else (s, [], flow_control_blocked))
        (s, [], break_off)
        (if_both Moves (is_blocked_unsaid s) (told, out, flow_control_blocked)
          (s, [], flow_control_blocked) said (still s w))
        (still s w)
    where
      Moves : SendStream × List OutFrame × TrySendResult → Type 0
      Moves r = Goes content written s r.0 r.1

  send_size_of-le :
      (s : SendStream) (v : Visitor)
      → (send_size_of s v ≤ s.peer_data_limit - s.send_data_offset) × (send_size_of s v < 2 ^ 32)
  unfolding send_size_of
  send_size_of-le s v = ground arith

  frame_sent-Goes :
      (s : SendStream) (v : Visitor) (fin : Bool)
      → IsSending content written s
      → Goes content written s (frame_sent s (take (send_size_of s v) s.send_buffer) fin) (
          stream_data (record {
            type = stream_type (take (send_size_of s v) s.send_buffer) fin;
            offset = s.send_data_offset;
            bytes = take (send_size_of s v) s.send_buffer;
          })
          ∷ [])
  unfolding frame_sent
  frame_sent-Goes s v fin w =
      let k = send_size_of s v in
      let n = length (take k s.send_buffer) in
      let (below, short) = send_size_of-le s v in
      let le : n ≤ k = length-take-le k s.send_buffer in
      let room = w.offset_below in
      let wide = w.limit_64 in
      let end : add64 s.send_data_offset n ≡ s.send_data_offset + n = omega arith in
      let rest = drop-slice content k s.send_data_offset s.send_buffer w.buffered in
      record {
        sending = record {
          buffered = rw end rest;
          total = rw end (omega (arith, w.total, length-take-drop k s.send_buffer));
          offset_below = rw end (omega arith);
          limit_64 = w.limit_64;
        };
        limit_rises = omega arith;
        pieces = (
          record {
            agrees = record {
              offset_64 = omega arith;
              length_32 = omega arith;
              bytes_eq = take-slice content k s.send_data_offset s.send_buffer w.buffered;
            };
            below = omega arith;
          },
          tt,
        );
      }

  stream_frame-Goes :
      (s : SendStream) (v : Visitor) (n : ℕ)
      → IsSending content written s
      → Goes content written s (send_stream_frame s v n).0 (send_stream_frame s v n).1
  unfolding send_stream_frame
  stream_frame-Goes s v n w =
      let bytes = take (send_size_of s v) s.send_buffer in
      let fin = s.to_fin && length s.send_buffer == length bytes in
      let t = frame_sent s bytes fin in
      let frame : StreamFrame = record {
        type = stream_type bytes fin;
        offset = s.send_data_offset;
        bytes = bytes;
      } in
      if_both Moves (is_empty bytes && not fin)
        (if is_empty s.send_buffer then (s, [], success) else stalled s v n)
        (if v.handle_frame n
          then (t, stream_data frame ∷ [], if is_empty t.send_buffer then success else break_off)
          else (s, [], if v.insufficient_space then break_off else failed))
        (if_both Moves (is_empty s.send_buffer) (s, [], success) (stalled s v n) (still s w)
          (stalled-Goes s v n w))
        (if_both Moves (v.handle_frame n)
          (t, stream_data frame ∷ [], if is_empty t.send_buffer then success else break_off)
          (s, [], if v.insufficient_space then break_off else failed) (frame_sent-Goes s v fin w)
          (still s w))
    where
      Moves : SendStream × List OutFrame × TrySendResult → Type 0
      Moves r = Goes content written s r.0 r.1

  rest-Goes :
      (s : SendStream) (v : Visitor) (n : ℕ) (out : List OutFrame)
      → IsSending content written s
      → All (OutAgrees content s.peer_data_limit) out
      → Goes content written s (send_rest s v n out).stream (send_rest s v n out).out
  unfolding send_rest
  rest-Goes s v n out w a =
      let left = (send_frames v n s.frames_list).0 in
      let taken = (send_frames v n s.frames_list).1 in
      let t = record s { frames_list = left } in
      let u : IsSending content written t = record {
        buffered = w.buffered;
        total = w.total;
        offset_below = w.offset_below;
        limit_64 = w.limit_64;
      } in
      let m = n + length taken in
      let g = stream_frame-Goes t v m u in
      let a2 =
        All-append (OutAgrees content s.peer_data_limit) out taken a
          (send_frames-pieces s.peer_data_limit v n s.frames_list) in
      let waited : Goes content written s t (out ++ taken) = record {
        sending = u;
        limit_rises = omega arith;
        pieces = a2;
      } in
      let rises = g.limit_rises in
      let whole : Goes content written s (send_stream_frame t v m).0
          (out ++ (taken ++ (send_stream_frame t v m).1)) =
        record {
          sending = g.sending;
          limit_rises = omega arith;
          pieces =
              All-append (OutAgrees content (send_stream_frame t v m).0.peer_data_limit) out
                (taken ++ (send_stream_frame t v m).1)
                (OutAgrees-mono content s.peer_data_limit
                  (send_stream_frame t v m).0.peer_data_limit out rises a)
                (All-append (OutAgrees content (send_stream_frame t v m).0.peer_data_limit) taken
                  (send_stream_frame t v m).1
                  (send_frames-pieces (send_stream_frame t v m).0.peer_data_limit v n s.frames_list)
                  g.pieces);
        } in
      if_both Sends (leb s.peer_data_limit s.send_data_offset)
        (record { stream = s; out = out; result = flow_control_blocked }) _
        (record { sending = w; limit_rises = omega arith; pieces = a })
        (if_both Sends (not (is_empty left))
          (record { stream = t; out = out ++ taken; result = failed }) _ waited
          (if_both Sends (check_can_send_frame s.machine k_stream)
            (record {
              stream = (send_stream_frame t v m).0;
              out = out ++ (taken ++ (send_stream_frame t v m).1);
              result = (send_stream_frame t v m).2;
            })
            (record { stream = t; out = out ++ taken; result = success }) whole waited))
    where
      Sends : Sent → Type 0
      Sends r = Goes content written s r.stream r.out

  pub try_send-Goes :
      (s : SendStream) (v : Visitor)
      → IsSending content written s
      → Goes content written s (try_send_data s v).stream (try_send_data s v).out
  unfolding try_send_data
  try_send-Goes s v w =
      let told = record s { blocked_at_limit = s.peer_data_limit } in
      let u : IsSending content written told = record {
        buffered = w.buffered;
        total = w.total;
        offset_below = w.offset_below;
        limit_64 = w.limit_64;
      } in
      let g = rest-Goes told v 1 (control (blocked_frame s) ∷ []) u (tt, tt) in
      if_both Sends (is_near_limit s)
        (if v.handle_frame 0
          then send_rest told v 1 (control (blocked_frame s) ∷ [])
          else record { stream = s; out = []; result = failed })
        (send_rest s v 0 [])
        (if_both Sends (v.handle_frame 0) (send_rest told v 1 (control (blocked_frame s) ∷ []))
          (record { stream = s; out = []; result = failed })
          (record { sending = g.sending; limit_rises = g.limit_rises; pieces = g.pieces })
          (still s w))
        (rest-Goes s v 0 [] w tt)
    where
      Sends : Sent → Type 0
      Sends r = Goes content written s r.stream r.out

  pub same-Goes :
      (s t : SendStream) → IsSame s t → IsSending content written s → Goes content written s t []
  same-Goes s t (b, o, l) w = record {
    sending = record {
      buffered = rw (b, o) w.buffered;
      total = rw (b, o) w.total;
      offset_below = rw (o, l) w.offset_below;
      limit_64 = rw l w.limit_64;
    };
    limit_rises = omega (arith, l);
    pieces = tt;
  }

  -- A write goes to the end of the bytes written so far, and is refused or counted whole.
  pub write-Goes :
      (s : SendStream) (bytes : List ℕ)
      → ((send_bytes s bytes).1 ≡ none) ⊎ (bytes ≡ slice content written (length bytes))
      → IsSending content written s
      → Goes content (written + accepted (send_bytes s bytes).1) s (send_bytes s bytes).0 []
  unfolding send_bytes
  write-Goes s bytes a w = elim (Bool-cases (check_can_send_frame s.machine k_stream)) [
    | inl y ↦ rw y (record {
      sending = record {
        buffered =
            append-slice content s.send_data_offset s.send_buffer bytes w.buffered
              (rw w.total (taken y a));
        total = rw (length-append s.send_buffer bytes) (omega (arith, w.total));
        offset_below = w.offset_below;
        limit_64 = w.limit_64;
      };
      limit_rises = omega arith;
      pieces = tt;
    })
    | inr z ↦ rw (z, plus_zero) (still s w)
  ]
    where
      plus_zero : written + 0 ≡ written
      plus_zero = omega arith

      taken :
          check_can_send_frame s.machine k_stream ≡ true
          → ((send_bytes s bytes).1 ≡ none) ⊎ (bytes ≡ slice content written (length bytes))
          → bytes ≡ slice content written (length bytes)
      taken y (inl e) = absurd (clash (rw y at e))
        where
          clash : some (length bytes) ≡ none → ⊥
          clash k = cc
      taken y (inr e) = e

  pub limit-Goes :
      (s : SendStream) (limit : ℕ)
      → IsU64 limit
      → IsSending content written s
      → Goes content written s (on_max_stream_data_frame s limit) []
  unfolding on_max_stream_data_frame
  limit-Goes s limit h w =
      let raised = record s { peer_data_limit = limit } in
      elim (Bool-cases (leb limit s.peer_data_limit)) [
        | inl y ↦ rw y (still s w)
        | inr n ↦
            let b = w.offset_below in
            let l : s.peer_data_limit ≤ limit = ground arith in
            let g : Goes content written s raised [] = record {
              sending = record {
                buffered = w.buffered;
                total = w.total;
                offset_below = omega arith;
                limit_64 = h;
              };
              limit_rises = l;
              pieces = tt;
            } in
            rw n (
              if_both (λ (t : SendStream). Goes content written s t []) (is_empty s.send_buffer)
                raised (notify_active raised) g
                (record {
                  sending = record {
                    buffered = w.buffered;
                    total = w.total;
                    offset_below = omega arith;
                    limit_64 = h;
                  };
                  limit_rises = l;
                  pieces = tt;
                }))
      ]
