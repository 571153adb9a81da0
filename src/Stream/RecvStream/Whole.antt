-- ===== src/Stream/RecvStream/Whole.antt =====
-- A receiving stream loses no frame that it has counted: once the frames up to some offset have been
-- counted, in whatever order, everything up to there has been written.
use quic_x.Common.{
  ℕ, suc, ◌+◌, ◌*◌, ◌^◌, ◌≤◌, ◌<◌, ◌≡◌, refl, sym, ap, subst, ◌∙◌, ◌≢◌, List, [], ◌∷◌, ◌++◌, arith,
  length, length-append, All, All-split,
}
use quic_x.Stream.{StreamFrame}
use quic_x.Stream.Reorder.{find_at}
use quic_x.Stream.Reorder.Content.{slice}
use quic_x.Stream.Reorder.Chain.{start, Arrived, all_written}
use quic_x.Stream.RecvStream.{
  new_stream, k_blocked_window_increment, gathered, on_input, run_stream, RecvStream, Input,
  stream_frame, stream_data_blocked_frame, reset_stream_frame, local_reset,
}
use quic_x.Stream.RecvStream.Steps.{InputAgrees}
use quic_x.Stream.RecvStream.Delivery.{
  on_input-IsSound, run_stream-IsSound, new-IsSound, run_stream-slice, IsSound,
}
use quic_x.Stream.RecvStream.Kept.{InputCuts, on_input-Keeps, counted-Arrived, IsWhole, Keeps}

-- A frame at the offset came in, after some of the inputs, and was counted.
abbrev pub Counted : RecvStream → List Input → ℕ → Type 0
Counted s is offset =
    (pre : List Input) × (f : StreamFrame) × (post : List Input) × (is
      ≡ pre ++ (stream_frame f ∷ post))
    × (f.offset ≡ offset)
    × ((on_input (run_stream s pre) (stream_frame f)).1 ≢ 0)

run_stream-append :
    (s : RecvStream) (pre post : List Input)
    → run_stream s (pre ++ post) ≡ run_stream (run_stream s pre) post
unfolding run_stream
run_stream-append s [] post = refl
run_stream-append s (i ∷ pre) post = run_stream-append (on_input s i).0 pre post

run_stream-cons :
    (s : RecvStream) (i : Input) (is : List Input)
    → run_stream s (i ∷ is) ≡ run_stream (on_input s i).0 is
unfolding run_stream
run_stream-cons s i is = refl

cuts-agrees :
    (content size : ℕ → ℕ) (is : List Input)
    → All (InputCuts content size) is
    → All (InputAgrees content) is
cuts-agrees content size [] h = tt
cuts-agrees content size (stream_frame f ∷ is) (c, h) = (c.agrees, cuts-agrees content size is h)
cuts-agrees content size (stream_data_blocked_frame ∷ is) (c, h) =
    (tt, cuts-agrees content size is h)
cuts-agrees content size (reset_stream_frame e f ∷ is) (c, h) = (tt, cuts-agrees content size is h)
cuts-agrees content size (local_reset e ∷ is) (c, h) = (tt, cuts-agrees content size is h)

module _ (content size : ℕ → ℕ) (positive : (o : ℕ) → 0 < size o) where
  run_stream-Keeps :
      (bound : ℕ) (s : RecvStream) (is : List Input)
      → All (InputCuts content size) is
      → bound + k_blocked_window_increment * length is < 2 ^ 64
      → IsSound content bound s
      → IsWhole content size positive (gathered s)
      → Keeps content size positive s (run_stream s is)
  run_stream-Keeps bound s [] a h v w =
      unfold run_stream in (record { whole = w; arrived = λ o k. k })
  run_stream-Keeps bound s (i ∷ is) (c, rest) h v w =
      let r : bound + k_blocked_window_increment < 2 ^ 64 = omega arith in
      let k = on_input-Keeps content size positive bound r s i v w c in
      let (a, none_left) = cuts-agrees content size (i ∷ []) (c, tt) in
      let tail =
        run_stream-Keeps (bound + k_blocked_window_increment) (on_input s i).0 is rest (omega arith)
          (on_input-IsSound content bound r s i a v) k.whole in
      subst (λ t. Keeps content size positive s t) (sym (run_stream-cons s i is))
        (record { whole = tail.whole; arrived = λ o g. tail.arrived o (k.arrived o g) })

  Counted-all :
      (bound : ℕ) (s : RecvStream) (is : List Input) (offset : ℕ)
      → All (InputCuts content size) is
      → bound + k_blocked_window_increment * length is < 2 ^ 64
      → IsSound content bound s
      → IsWhole content size positive (gathered s)
      → Counted s is offset
      → Arrived (gathered (run_stream s is)) offset
  Counted-all bound s is offset a h v w (pre, f, post, e, o, c) =
      let l = length-append pre (stream_frame f ∷ post) in
      let n : length is ≡ length pre + suc (length post) = ap (λ k. length k) e ∙ l in
      let (a1, a2) =
        All-split (InputCuts content size) pre (stream_frame f ∷ post)
          (subst (λ k. All (InputCuts content size) k) e a) in
      let t = run_stream s pre in
      let vt =
        run_stream-IsSound content bound s pre (cuts-agrees content size pre a1) (omega arith) v in
      let wt = (run_stream-Keeps bound s pre a1 (omega arith) v w).whole in
      let b = bound + k_blocked_window_increment * length pre in
      let r : b + k_blocked_window_increment < 2 ^ 64 = omega arith in
      let got = counted-Arrived content size positive b r t f vt wt a2.0 c in
      let k =
        run_stream-Keeps (b + k_blocked_window_increment) (on_input t (stream_frame f)).0 post a2.1
          (omega arith) (on_input-IsSound content b r t (stream_frame f) a2.0.agrees vt)
          (on_input-Keeps content size positive b r t (stream_frame f) vt wt a2.0).whole in
      subst (λ q. Arrived (gathered q) offset)
        (sym (
          ap (λ k. run_stream s k) e
          ∙ run_stream-append s pre (stream_frame f ∷ post)
          ∙ run_stream-cons t (stream_frame f) post))
        (k.arrived offset (subst (λ q. Arrived (gathered (on_input t (stream_frame f)).0) q) o got))

-- Let the peer send `content`, always cut into the same frames, of `size` bytes at each offset and
-- never empty, and let a new stream count each of the first `n` frames once at some time, whatever
-- else comes in and in whatever order. Then all bytes of these frames have been written, and what has
-- been written are the bytes of `content` in order. The limit raised by every input must stay below
-- 2^64.
pub run_stream-all_written :
    (content size : ℕ → ℕ) (positive : (o : ℕ) → 0 < size o) (stream_id limit n : ℕ)
    (is : List Input)
    → All (InputCuts content size) is
    → limit + k_blocked_window_increment * length is < 2 ^ 64
    → ((m : ℕ) → m < n → Counted (new_stream stream_id limit) is (start size m))
    → (start size n ≤ (run_stream (new_stream stream_id limit) is).except_offset)
      × ((run_stream (new_stream stream_id limit) is).buffer
          ≡ slice content 0 (run_stream (new_stream stream_id limit) is).except_offset)
run_stream-all_written content size positive stream_id limit n is a h c =
    let v = new-IsSound content stream_id limit in
    let k =
      run_stream-Keeps content size positive limit (new_stream stream_id limit) is a h v
        new-IsWhole in
    (
      all_written size positive (gathered (run_stream (new_stream stream_id limit) is)) n
          k.whole.cut k.whole.drained
          (λ m l.
            Counted-all content size positive limit (new_stream stream_id limit) is (start size m) a
              h v new-IsWhole (c m l)),
      (run_stream-slice content stream_id limit is (cuts-agrees content size is a) h).prefix,
    )
  where
    new-IsWhole : IsWhole content size positive (gathered (new_stream stream_id limit))
    new-IsWhole = record {
      cut = record { count = 0; next_start = refl; waiting_cut = tt };
      drained = unfold find_at in refl;
    }
