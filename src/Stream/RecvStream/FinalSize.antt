-- ===== src/Stream/RecvStream/FinalSize.antt =====
-- The final size of a stream and the end of its data, and what `OnFrame` counts.
use quic_x.Stream.Reorder.Content.{drain-some}
use quic_x.Common.{
  ℕ, ◌+◌, ◌/◌, ◌^◌, ◌<◌, ◌≡◌, refl, sym, ap, ◌∙◌, ◌≢◌, true, false, some, List, [], ◌∷◌, ◌++◌,
  arith, ltb, ◌==◌, ==_iff, if_both, length, IsU64, add64, sub64,
}
use quic_x.Stream.{same_state, is_stream_frame, has_fin, size_known, StreamFrame}
use quic_x.Stream.Recv.{new, move, mark_reset, on_frame, can_app_read_all_data}
use quic_x.Stream.Reorder.{Waiting, find_at, take_next, drain, gather, Gathered}
use quic_x.Stream.RecvStream.{
  new_stream, reset, raise_limit, update_window, gathered, read_machine, deliver, keep, place,
  check_frame, on_stream_frame, on_stream_data_blocked_frame, on_reset_stream_frame, on_input,
  run_stream, read_callback, RecvStream, Input, stream_frame, stream_data_blocked_frame,
  reset_stream_frame, local_reset,
}

check_frame-final :
    (s : RecvStream) (f : StreamFrame)
    → s.final_offset ≢ 0
    → (check_frame s f).0.final_offset ≡ s.final_offset
unfolding check_frame
check_frame-final s f h = ground arith

place-final : (s : RecvStream) (f : StreamFrame) → (place s f).0.final_offset ≡ s.final_offset
unfolding place deliver keep update_window raise_limit
place-final s f = ground arith

on_stream_frame-final :
    (s : RecvStream) (f : StreamFrame)
    → s.final_offset ≢ 0
    → (on_stream_frame s f).0.final_offset ≡ s.final_offset
unfolding on_stream_frame
on_stream_frame-final s f h =
    let t = record s { machine = (on_frame s.machine f.type).0 } in
    ground (arith, check_frame-final t f, place-final (check_frame t f).0 f)

on_input-final :
    (s : RecvStream) (i : Input)
    → s.final_offset ≢ 0
    → (on_input s i).0.final_offset ≡ s.final_offset
unfolding on_input on_stream_data_blocked_frame on_reset_stream_frame reset
on_input-final s (stream_frame f) h = on_stream_frame-final s f h
on_input-final s stream_data_blocked_frame h = ground arith
on_input-final s (reset_stream_frame error final) h = ground arith
on_input-final s (local_reset error) h = ground arith

-- A final size other than 0 that is known never changes, whatever comes in.
pub run_stream-final_offset :
    (s : RecvStream) (is : List Input)
    → s.final_offset ≢ 0
    → (run_stream s is).final_offset ≡ s.final_offset
unfolding run_stream
run_stream-final_offset s [] h = refl
run_stream-final_offset s (i ∷ is) h =
    let e = on_input-final s i h in
    run_stream-final_offset (on_input s i).0 is (λ q. h (sym e ∙ q)) ∙ e

mark_reset-new : (type : ℕ) → is_stream_frame type ≡ true → mark_reset new type ≡ new
unfolding mark_reset
mark_reset-new type s = ground arith

on_frame-fin :
    (type : ℕ)
    → is_stream_frame type ≡ true
    → has_fin type ≡ true
    → on_frame new type ≡ (move new size_known, true)
unfolding on_frame
on_frame-fin type s f = rw (s, f, mark_reset-new type s) refl

abbrev sized : ℕ → ℕ → RecvStream
sized stream_id limit = record (new_stream stream_id limit) { machine = move new size_known }

check_frame-sized :
    (stream_id limit type : ℕ)
    → has_fin type ≡ true
    → check_frame (sized stream_id limit) (record { type = type; offset = 0; bytes = [] })
      ≡ (sized stream_id limit, true)
unfolding check_frame
check_frame-sized stream_id limit type f = rw f (ground arith)

place-sized :
    (stream_id limit type : ℕ)
    → IsU64 limit
    → ((place
          (sized stream_id limit)
          (record { type = type; offset = 0; bytes = [] })).0.machine.state
        ≡ size_known)
      × ((place (sized stream_id limit) (record { type = type; offset = 0; bytes = [] })).0.events
          ≡ read_callback false 0 ∷ [])
unfolding place deliver gather drain read_machine update_window can_app_read_all_data move
    same_state
place-sized stream_id limit type l =
    let n : ltb (sub64 limit 0) (limit / 4) ≡ false = ground arith in rw n (refl, refl)

-- An empty stream: the frame with the end of a stream that has no bytes leaves the stream waiting for
-- data in `size_known`, and the application is told that this was not the last of it.
pub on_stream_frame-empty :
    (stream_id limit type : ℕ)
    → IsU64 limit
    → is_stream_frame type ≡ true
    → has_fin type ≡ true
    → ((on_stream_frame
          (new_stream stream_id limit)
          (record { type = type; offset = 0; bytes = [] })).0.machine.state
        ≡ size_known)
      × ((on_stream_frame
            (new_stream stream_id limit)
            (record { type = type; offset = 0; bytes = [] })).0.events
          ≡ read_callback false 0 ∷ [])
unfolding on_stream_frame
on_stream_frame-empty stream_id limit type l s f =
    rw (on_frame-fin type s f)
      (rw (check_frame-sized stream_id limit type f) (place-sized stream_id limit type l))

find_at_self : (p : ℕ) (b : List ℕ) (ws : Waiting) → find_at p ((p, b) ∷ ws) ≡ some b
unfolding find_at
find_at_self p b ws = ground arith

gather-one :
    (next last : ℕ) (written bytes later : List ℕ)
    → next + length bytes < 2 ^ 64
    → let g =
        gather
          (record {
            next = next;
            written = written;
            waiting = (next + length bytes, later) ∷ [];
            last_length = last;
          })
          bytes in
      (g.last_length ≡ length later) × (g.written ≡ (written ++ bytes) ++ later)
unfolding gather
gather-one next last written bytes later small =
    let sum : add64 next (length bytes) ≡ next + length bytes = omega arith in
    let found : find_at (add64 next (length bytes)) ((next + length bytes, later) ∷ [])
        ≡ some later =
      rw sum (find_at_self (next + length bytes) later []) in
    let g : Gathered = record {
      next = add64 next (length bytes);
      written = written ++ bytes;
      waiting = (next + length bytes, later) ∷ [];
      last_length = length bytes;
    } in
    rw (drain-some 0 g later found) (unfold drain in unfold take_next in (refl, refl))

update_window-buffer : (s : RecvStream) → (update_window s).buffer ≡ s.buffer
unfolding update_window raise_limit
update_window-buffer s = if_both (λ t. t.buffer ≡ s.buffer) _ _ s refl refl

-- What a frame counts for when it closes the gap in front of one other frame that waits: the length
-- of that other frame, which was counted when it came in, and not its own.
pub place-closes_gap :
    (s : RecvStream) (f : StreamFrame) (later : List ℕ)
    → f.offset ≡ s.except_offset
    → f.offset + length f.bytes < 2 ^ 64
    → s.out_order_frame ≡ (f.offset + length f.bytes, later) ∷ []
    → ((place s f).1 ≡ length later) × ((place s f).0.buffer ≡ (s.buffer ++ f.bytes) ++ later)
unfolding place deliver
place-closes_gap s f later e small w =
    let y : (f.offset == s.except_offset) ≡ true = (==_iff _ _).1 e in
    let w' : s.out_order_frame ≡ (s.except_offset + length f.bytes, later) ∷ [] =
      w ∙ ap (λ n. (n + length f.bytes, later) ∷ []) e in
    let g = gather (gathered s) f.bytes in
    let (n, b) : (g.last_length ≡ length later) × (g.written ≡ (s.buffer ++ f.bytes) ++ later) =
      rw w' (gather-one s.except_offset 0 s.buffer f.bytes later (omega arith)) in
    rw y (n, update_window-buffer (deliver s f.bytes).0 ∙ b)
