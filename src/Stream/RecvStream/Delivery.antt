-- ===== src/Stream/RecvStream/Delivery.antt =====
-- What a receiving stream has written to its buffer is the start of the peer's stream, in whatever
-- order and however often the frames come.
use quic_x.Stream.{k_stream_data_blocked, StreamFrame}
use quic_x.Common.{
  ℕ, ◌+◌, ◌*◌, ◌^◌, ◌≤◌, ◌<◌, min, ◌≡◌, refl, subst, inl, inr, ◌&&◌, List, [], ◌∷◌, arith, ltb,
  ◌==◌, if◌then◌else◌, ==_iff, Bool-cases, Option-cases, if_both, length, All, add64, sub64,
}
use quic_x.Stream.Recv.{on_frame}
use quic_x.Stream.Reorder.{Waiting}
use quic_x.Stream.Reorder.Content.{AllFit, gather-IsPrefix, Fits, IsPrefix}
use quic_x.Stream.RecvStream.Steps.{
  InputAgrees, check_frame-below, check_frame-same, keep-same, keep-none, keep-some,
  window_needed-increment, reset_stream-same, reset-same, Agrees,
}
use quic_x.Stream.RecvStream.{
  new_stream, k_blocked_window_increment, k_max_stream_window_size, reset, window_needed,
  raise_limit, update_window, gathered, deliver, keep, place, check_frame, on_stream_frame,
  on_stream_data_blocked_frame, on_reset_stream_frame, on_input, run_stream, RecvStream, Input,
  stream_frame, stream_data_blocked_frame, reset_stream_frame, local_reset,
}

pub record IsSound (content : ℕ → ℕ) (bound : ℕ) (s : RecvStream) : Type 0 where
  pub sound : IsPrefix content s.local_data_limit (gathered s)
  pub bounded : s.local_data_limit ≤ bound

AllFit-mono :
    (content : ℕ → ℕ) (l m : ℕ) (ws : Waiting) → l ≤ m → AllFit content l ws → AllFit content m ws
AllFit-mono content l m [] h a = tt
AllFit-mono content l m (w ∷ ws) h (f, a) = (
  record { bytes_eq = f.bytes_eq; below = (let b = f.below in omega arith) },
  AllFit-mono content l m ws h a,
)

module _ (content : ℕ → ℕ) where
  raise :
      (l m next last : ℕ) (written : List ℕ) (waiting : Waiting)
      → l ≤ m
      → IsPrefix content l
          (record { next = next; written = written; waiting = waiting; last_length = last })
      → IsPrefix content m
          (record { next = next; written = written; waiting = waiting; last_length = 0 })
  raise l m next last written waiting h v = record {
    prefix = v.prefix;
    next_below = (let b = v.next_below in omega arith);
    waiting_fit = AllFit-mono content l m waiting h v.waiting_fit;
  }

  module _ (bound : ℕ) (room : bound + k_blocked_window_increment < 2 ^ 64) where
    abbrev Next : RecvStream → Type 0
    Next s = IsSound content (bound + k_blocked_window_increment) s

    still : (s : RecvStream) → IsSound content bound s → Next s
    still s v = record { sound = v.sound; bounded = (let b = v.bounded in omega arith) }

    raise_limit-IsSound : (s : RecvStream) → IsSound content bound s → Next (raise_limit s)
    unfolding raise_limit
    raise_limit-IsSound s v =
        let b = v.bounded in
        let n = window_needed-increment (sub64 s.local_data_limit s.except_offset) in
        record {
          sound =
              raise s.local_data_limit
                (add64 s.local_data_limit
                  (window_needed (sub64 s.local_data_limit s.except_offset)))
                s.except_offset 0 s.buffer s.out_order_frame (omega arith) v.sound;
          bounded = omega arith;
        }

    update_window-IsSound : (s : RecvStream) → IsSound content bound s → Next (update_window s)
    unfolding update_window
    update_window-IsSound s v =
        if_both Next _ (raise_limit s) s (raise_limit-IsSound s v) (still s v)

    deliver-IsSound :
        (s : RecvStream) (bytes : List ℕ)
        → IsSound content bound s
        → Fits content s.local_data_limit (s.except_offset, bytes)
        → IsSound content bound (deliver s bytes).0
    unfolding deliver
    deliver-IsSound s bytes v f =
        let b = v.bounded in
        let g =
          gather-IsPrefix content s.local_data_limit (omega arith) (gathered s) bytes v.sound f in
        record {
          sound = record {
            prefix = g.prefix;
            next_below = g.next_below;
            waiting_fit = g.waiting_fit;
          };
          bounded = v.bounded;
        }

    keep-IsSound :
        (s : RecvStream) (f : StreamFrame)
        → IsSound content bound s
        → Fits content s.local_data_limit (f.offset, f.bytes)
        → IsSound content bound (keep s f).0
    keep-IsSound s f v w =
        let (e, b, l) = keep-same s f in
        let waiting : AllFit content s.local_data_limit (keep s f).0.out_order_frame =
          elim (Option-cases (keep s f).1) [
            | inl n ↦ rw (keep-none s f n) v.sound.waiting_fit
            | inr (k, y) ↦ rw (keep-some s f k y).0 (w, v.sound.waiting_fit)
          ] in
        record {
          sound = record {
            prefix = rw (b, e) v.sound.prefix;
            next_below = rw (e, l) v.sound.next_below;
            waiting_fit = rw l waiting;
          };
          bounded = rw l v.bounded;
        }

    place-IsSound :
        (s : RecvStream) (f : StreamFrame)
        → IsSound content bound s
        → Fits content s.local_data_limit (f.offset, f.bytes)
        → Next (place s f).0
    unfolding place
    place-IsSound s f v w = elim (Bool-cases (f.offset == s.except_offset)) [
      | inl y ↦
          let e : f.offset ≡ s.except_offset = (==_iff _ _).0 y in
          rw y (
            update_window-IsSound (deliver s f.bytes).0 (
              deliver-IsSound s f.bytes v
                (subst (λ n. Fits content s.local_data_limit (n, f.bytes)) e w)))
      | inr n ↦ rw n (elim (Option-cases (keep s f).1) [
        | inl e ↦ rw e (still (keep s f).0 (keep-IsSound s f v w))
        | inr (k, e) ↦ rw e (update_window-IsSound (keep s f).0 (keep-IsSound s f v w))
      ])
    ]

    pub check_frame-IsSound :
        (s : RecvStream) (f : StreamFrame)
        → IsSound content bound s
        → IsSound content bound (check_frame s f).0
    check_frame-IsSound s f v =
        let (g, l) = check_frame-same s f in
        record { sound = rw (g, l) v.sound; bounded = rw l v.bounded }

    checked :
        (s : RecvStream) (f : StreamFrame)
        → Agrees content f
        → IsSound content bound s
        → Next
            (if (check_frame s f).1
              then place (check_frame s f).0 f
              else ((check_frame s f).0, 0)).0
    checked s f a v = elim (Bool-cases (check_frame s f).1) [
      | inl y ↦
          let b = check_frame-below s f a.offset_64 a.length_32 y in
          let l = (check_frame-same s f).1 in
          rw y (
            place-IsSound (check_frame s f).0 f (check_frame-IsSound s f v)
              (record { bytes_eq = a.bytes_eq; below = rw l b }))
      | inr n ↦ rw n (still (check_frame s f).0 (check_frame-IsSound s f v))
    ]

    on_stream_frame-IsSound :
        (s : RecvStream) (f : StreamFrame)
        → Agrees content f
        → IsSound content bound s
        → Next (on_stream_frame s f).0
    unfolding on_stream_frame
    on_stream_frame-IsSound s f a v =
        let m = (on_frame s.machine f.type).0 in
        let t = record s { machine = m } in
        let u : IsSound content bound t = record { sound = v.sound; bounded = v.bounded } in
        if_both (λ (p : RecvStream × ℕ). Next p.0) (on_frame s.machine f.type).1
          (if (check_frame t f).1 then place (check_frame t f).0 f else ((check_frame t f).0, 0))
          (t, 0) (checked t f a u) (still t u)

    raised-IsSound :
        (s t : RecvStream) (limit : ℕ)
        → gathered t ≡ gathered s
        → t.local_data_limit ≡ limit
        → s.local_data_limit ≤ limit
        → limit ≤ bound + k_blocked_window_increment
        → IsSound content bound s
        → Next t
    raised-IsSound s t limit g l h k v = record {
      sound =
          rw (g, l)
            (raise s.local_data_limit limit s.except_offset 0 s.buffer s.out_order_frame h v.sound);
      bounded = rw l k;
    }

    blocked-IsSound :
        (s : RecvStream) → IsSound content bound s → Next (on_stream_data_blocked_frame s)
    unfolding on_stream_data_blocked_frame
    blocked-IsSound s v =
        let b = v.bounded in
        let m = (on_frame s.machine k_stream_data_blocked).0 in
        let t = record s { machine = m } in
        let u : IsSound content bound t = record { sound = v.sound; bounded = v.bounded } in
        let accepted = (on_frame s.machine k_stream_data_blocked).1 in
        elim (Bool-cases (accepted && ltb s.local_data_limit k_max_stream_window_size)) [
          | inl y ↦
              let h : s.local_data_limit < k_max_stream_window_size = ground arith in
              rw y (
                raised-IsSound s _
                  (min (add64 s.local_data_limit k_blocked_window_increment)
                    k_max_stream_window_size)
                  refl refl (omega arith) (omega arith) v)
          | inr n ↦ rw n (still t u)
        ]

    pub on_input-IsSound :
        (s : RecvStream) (i : Input)
        → InputAgrees content i
        → IsSound content bound s
        → Next (on_input s i).0
    unfolding on_input
    on_input-IsSound s (stream_frame f) a v = on_stream_frame-IsSound s f a v
    on_input-IsSound s stream_data_blocked_frame a v = blocked-IsSound s v
    on_input-IsSound s (reset_stream_frame error final) a v =
        let (g, l) = reset_stream-same s error final in
        let b = v.bounded in
        raised-IsSound s (on_reset_stream_frame s error final) s.local_data_limit g l (omega arith)
          (omega arith) v
    on_input-IsSound s (local_reset error) a v =
        let (g, l) = reset-same s error in
        let b = v.bounded in
        raised-IsSound s (reset s error) s.local_data_limit g l (omega arith) (omega arith) v

  pub run_stream-IsSound :
      (bound : ℕ) (s : RecvStream) (is : List Input)
      → All (InputAgrees content) is
      → bound + k_blocked_window_increment * length is < 2 ^ 64
      → IsSound content bound s
      → IsSound content (bound + k_blocked_window_increment * length is) (run_stream s is)
  unfolding run_stream
  run_stream-IsSound bound s [] a h v = record {
    sound = v.sound;
    bounded = (let b = v.bounded in omega arith);
  }
  run_stream-IsSound bound s (i ∷ is) (a, rest) h v =
      let e : bound + k_blocked_window_increment + k_blocked_window_increment * length is
          ≡ bound + k_blocked_window_increment * length (i ∷ is) =
        omega arith in
      subst (λ n. IsSound content n (run_stream (on_input s i).0 is)) e
        (run_stream-IsSound (bound + k_blocked_window_increment) (on_input s i).0 is rest
          (omega arith) (on_input-IsSound bound (omega arith) s i a v))

  pub new-IsSound : (stream_id limit : ℕ) → IsSound content limit (new_stream stream_id limit)
  new-IsSound stream_id limit = record {
    sound = record { prefix = refl; next_below = omega arith; waiting_fit = tt };
    bounded = omega arith;
  }

-- Whatever comes in on a new stream, in whatever order and however often, if every STREAM frame
-- carries the bytes that `content` has at its offset: the bytes written to the buffer are those of
-- `content` from 0 up to the next expected offset, which stays within the limit that the peer was
-- given; every frame that waits carries bytes of `content` within that limit. The limit raised by
-- every input must stay below 2^64.
pub run_stream-slice :
    (content : ℕ → ℕ) (stream_id limit : ℕ) (is : List Input)
    → All (InputAgrees content) is
    → limit + k_blocked_window_increment * length is < 2 ^ 64
    → IsPrefix content
        (run_stream (new_stream stream_id limit) is).local_data_limit
        (gathered (run_stream (new_stream stream_id limit) is))
run_stream-slice content stream_id limit is a h =
    (run_stream-IsSound content limit (new_stream stream_id limit) is a h
      (new-IsSound content stream_id limit)).sound
