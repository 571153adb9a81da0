-- ===== src/Stream/RecvStream/Kept.antt =====
-- No step of a receiving stream loses a frame that it has counted, if the peer always cuts the stream
-- at the same offsets.

use quic_x.Stream.{StreamFrame}
use quic_x.Common.{
  ℕ, ◌+◌, ◌^◌, ◌≤◌, ◌<◌, ◌≡◌, refl, sym, ap, subst, ◌∙◌, ◌≢◌, ◌⊎◌, inl, inr, none, some, List, ◌∷◌,
  arith, ◌==◌, if◌then◌else◌, ==_iff, Bool-cases, Option-cases, if_both, length,
}
use quic_x.Stream.Recv.{on_frame}
use quic_x.Stream.Reorder.{Waiting, find_at, Gathered}
use quic_x.Stream.Reorder.Content.{IsDrained, gather-IsDrained, Fits}
use quic_x.Stream.Reorder.Chain.{Arrived, gather-IsCut, gather-Arrived, IsCutAt, IsCut}
use quic_x.Stream.RecvStream.{
  k_blocked_window_increment, reset, raise_limit, update_window, gathered, deliver, keep, place,
  check_frame, on_stream_frame, on_stream_data_blocked_frame, on_reset_stream_frame, on_input,
  RecvStream, Input, stream_frame, stream_data_blocked_frame, reset_stream_frame, local_reset,
}
use quic_x.Stream.RecvStream.Steps.{
  check_frame-below, check_frame-same, keep-same, keep-none, keep-some, reset_stream-same,
  reset-same, Agrees,
}
use quic_x.Stream.RecvStream.Delivery.{check_frame-IsSound, IsSound}

update_window-same : (s : RecvStream) → gathered (update_window s) ≡ gathered s
unfolding update_window raise_limit
update_window-same s = if_both (λ t. gathered t ≡ gathered s) _ _ s refl refl

blocked-same : (s : RecvStream) → gathered (on_stream_data_blocked_frame s) ≡ gathered s
unfolding on_stream_data_blocked_frame
blocked-same s = if_both (λ t. gathered t ≡ gathered s) _ _ _ refl refl

find_at-cons_other :
    (o p : ℕ) (b : List ℕ) (ws : Waiting) → o ≢ p → find_at p ((o, b) ∷ ws) ≡ find_at p ws
unfolding find_at
find_at-cons_other o p b ws h = ground arith

-- What waits is found behind a new frame too, or the new frame is.
find_at-cons :
    (o p : ℕ) (b : List ℕ) (ws : Waiting)
    → (o ≡ p) ⊎ ((bytes : List ℕ) × (find_at p ws ≡ some bytes))
    → (bytes : List ℕ) × (find_at p ((o, b) ∷ ws) ≡ some bytes)
unfolding find_at
find_at-cons o p b ws h = elim (Bool-cases (o == p)) [
  | inl y ↦ (b, rw y refl)
  | inr n ↦ elim h [ inl e ↦ absurd (ground arith) | inr (bytes, e) ↦ (bytes, rw n e) ]
]

-- A STREAM frame that the peer may send, if it always cuts the stream in the same way.
pub record Cuts (content : ℕ → ℕ) (size : ℕ → ℕ) (f : StreamFrame) : Type 0 where
  pub agrees : Agrees content f
  pub cut : IsCutAt size (f.offset, f.bytes)

abbrev pub InputCuts : (ℕ → ℕ) → (ℕ → ℕ) → Input → Type 0
InputCuts content size (stream_frame f) = Cuts content size f
InputCuts content size _ = Unit {0}

module _ (content : ℕ → ℕ) (size : ℕ → ℕ) (positive : (o : ℕ) → 0 < size o) where
  pub record IsWhole (g : Gathered) : Type 0 where
    pub cut : IsCut size g
    pub drained : IsDrained g

  -- What a step keeps, and that no frame is lost by it.
  pub record Keeps (s t : RecvStream) : Type 0 where
    pub whole : IsWhole (gathered t)
    pub arrived : (o : ℕ) → Arrived (gathered s) o → Arrived (gathered t) o

  same-Keeps : (s t : RecvStream) → gathered t ≡ gathered s → IsWhole (gathered s) → Keeps s t
  same-Keeps s t e w = record {
    whole = rw e w;
    arrived = λ o a. subst (λ g. Arrived g o) (sym e) a;
  }

  module _ (bound : ℕ) (room : bound + k_blocked_window_increment < 2 ^ 64) where
    deliver-Keeps :
        (s : RecvStream) (bytes : List ℕ)
        → IsSound content bound s
        → IsWhole (gathered s)
        → Fits content s.local_data_limit (s.except_offset, bytes)
        → length bytes ≡ size s.except_offset
        → Keeps s (deliver s bytes).0 × Arrived (gathered (deliver s bytes).0) s.except_offset
    unfolding deliver
    deliver-Keeps s bytes v w f l =
        let b = v.bounded in
        let small : s.local_data_limit < 2 ^ 64 = omega arith in
        let c =
          gather-IsCut size positive content s.local_data_limit small (gathered s) bytes v.sound
            w.cut f l in
        (
          record {
            whole = record {
              cut = record {
                count = c.count;
                next_start = c.next_start;
                waiting_cut = c.waiting_cut;
              };
              drained = gather-IsDrained (gathered s) bytes;
            };
            arrived = λ o a.
                gather-Arrived size positive content s.local_data_limit small o (gathered s) bytes
                  v.sound w.cut f l (inr a);
          },
          gather-Arrived size positive content s.local_data_limit small s.except_offset (gathered s)
              bytes v.sound w.cut f l (inl refl),
        )

    keep_waits :
        (s : RecvStream) (f : StreamFrame) (k : ℕ)
        → IsWhole (gathered s)
        → IsCutAt size (f.offset, f.bytes)
        → f.offset ≢ s.except_offset
        → (keep s f).1 ≡ some k
        → Keeps s (keep s f).0 × Arrived (gathered (keep s f).0) f.offset
    keep_waits s f k w c n e =
        let (ex, bu, li) = keep-same s f in
        let out = (keep-some s f k e).0 in
        (
          record {
            whole = record {
              cut = record {
                count = w.cut.count;
                next_start = ex ∙ w.cut.next_start;
                waiting_cut = rw out (c, w.cut.waiting_cut);
              };
              drained =
                  rw (ex, out)
                    (find_at-cons_other f.offset s.except_offset f.bytes s.out_order_frame n
                      ∙ w.drained);
            };
            arrived = λ o a. elim a [
              | inl h ↦ inl (rw ex h)
              | inr h ↦ inr (rw out (find_at-cons f.offset o f.bytes s.out_order_frame (inr h)))
            ];
          },
          inr (rw out (find_at-cons f.offset f.offset f.bytes s.out_order_frame (inl refl))),
        )

    keep_drops :
        (s : RecvStream) (f : StreamFrame)
        → IsWhole (gathered s)
        → (keep s f).1 ≡ none
        → Keeps s (keep s f).0
    keep_drops s f w e =
        let (ex, bu, li) = keep-same s f in
        let out = keep-none s f e in
        record {
          whole = record {
            cut = record {
              count = w.cut.count;
              next_start = ex ∙ w.cut.next_start;
              waiting_cut = rw out w.cut.waiting_cut;
            };
            drained = rw (ex, out) w.drained;
          };
          arrived = λ o a. elim a [ inl h ↦ inl (rw ex h) | inr h ↦ inr (rw out h) ];
        }

    -- A step keeps what has arrived, and a frame that it counts has arrived.
    record Takes (s : RecvStream) (offset : ℕ) (p : RecvStream × ℕ) : Type 0 where
      pub keeps : Keeps s p.0
      pub counts : p.1 ≢ 0 → Arrived (gathered p.0) offset

    updated :
        (s t : RecvStream) (offset n : ℕ)
        → Keeps s t
        → (n ≢ 0 → Arrived (gathered t) offset)
        → Takes s offset (update_window t, n)
    updated s t offset n k a =
        let e = update_window-same t in
        record {
          keeps = record {
            whole = rw e k.whole;
            arrived = λ o h. subst (λ g. Arrived g o) (sym e) (k.arrived o h);
          };
          counts = λ h. subst (λ g. Arrived g offset) (sym e) (a h);
        }

    place-Takes :
        (s : RecvStream) (f : StreamFrame)
        → IsSound content bound s
        → IsWhole (gathered s)
        → Cuts content size f
        → f.offset + length f.bytes ≤ s.local_data_limit
        → Takes s f.offset (place s f)
    unfolding place
    place-Takes s f v w c l = elim (Bool-cases (f.offset == s.except_offset)) [
      | inl y ↦
          let e : f.offset ≡ s.except_offset = (==_iff _ _).0 y in
          let fits : Fits content s.local_data_limit (f.offset, f.bytes) = record {
            bytes_eq = c.agrees.bytes_eq;
            below = l;
          } in
          let (k, a) =
            deliver-Keeps s f.bytes v w
              (subst (λ n. Fits content s.local_data_limit (n, f.bytes)) e fits)
              (c.cut.whole ∙ ap size e) in
          rw y (updated s (deliver s f.bytes).0 f.offset (deliver s f.bytes).1 k (λ h. rw e a))
      | inr n ↦ rw n (elim (Option-cases (keep s f).1) [
        | inl e ↦ rw e (record { keeps = keep_drops s f w e; counts = λ h. absurd (h refl) })
        | inr (k, e) ↦
            let (ks, a) = keep_waits s f k w c.cut (λ q. ground arith) e in
            rw e (updated s (keep s f).0 f.offset k ks (λ h. a))
      ])
    ]

    moved :
        (s t : RecvStream) (offset : ℕ) (p : RecvStream × ℕ)
        → gathered s ≡ gathered t
        → Takes t offset p
        → Takes s offset p
    moved s t offset p e k = record {
      keeps = record {
        whole = k.keeps.whole;
        arrived = λ o h. k.keeps.arrived o (subst (λ g. Arrived g o) e h);
      };
      counts = k.counts;
    }

    refused :
        (s t : RecvStream) (o : ℕ)
        → gathered t ≡ gathered s
        → IsWhole (gathered s)
        → Takes s o (t, 0)
    refused s t o e w = record { keeps = same-Keeps s t e w; counts = λ h. absurd (h refl) }

    checked-Takes :
        (s : RecvStream) (f : StreamFrame)
        → IsSound content bound s
        → IsWhole (gathered s)
        → Cuts content size f
        → Takes s f.offset
            (if (check_frame s f).1 then place (check_frame s f).0 f else ((check_frame s f).0, 0))
    checked-Takes s f v w c = elim (Bool-cases (check_frame s f).1) [
      | inl y ↦
          let a = c.agrees in
          let b = check_frame-below s f a.offset_64 a.length_32 y in
          let (g, l) = check_frame-same s f in
          rw y (
            moved s (check_frame s f).0 f.offset (place (check_frame s f).0 f) (sym g) (
              place-Takes (check_frame s f).0 f (check_frame-IsSound content bound room s f v)
                (subst (λ h. IsWhole h) (sym g) w) c
                (subst (λ n. f.offset + length f.bytes ≤ n) (sym l) b)))
      | inr n ↦ rw n (refused s (check_frame s f).0 f.offset (check_frame-same s f).0 w)
    ]

    on_stream_frame-Takes :
        (s : RecvStream) (f : StreamFrame)
        → IsSound content bound s
        → IsWhole (gathered s)
        → Cuts content size f
        → Takes s f.offset (on_stream_frame s f)
    unfolding on_stream_frame
    on_stream_frame-Takes s f v w c =
        let t = record s { machine = (on_frame s.machine f.type).0 } in
        let u : IsSound content bound t = record { sound = v.sound; bounded = v.bounded } in
        if_both (λ p. Takes s f.offset p) (on_frame s.machine f.type).1
          (if (check_frame t f).1 then place (check_frame t f).0 f else ((check_frame t f).0, 0))
          (t, 0) (moved s t f.offset _ refl (checked-Takes t f u w c)) (refused s t f.offset refl w)

    pub on_input-Keeps :
        (s : RecvStream) (i : Input)
        → IsSound content bound s
        → IsWhole (gathered s)
        → InputCuts content size i
        → Keeps s (on_input s i).0
    unfolding on_input
    on_input-Keeps s (stream_frame f) v w c = (on_stream_frame-Takes s f v w c).keeps
    on_input-Keeps s stream_data_blocked_frame v w c =
        same-Keeps s (on_stream_data_blocked_frame s) (blocked-same s) w
    on_input-Keeps s (reset_stream_frame error final) v w c =
        same-Keeps s (on_reset_stream_frame s error final) (reset_stream-same s error final).0 w
    on_input-Keeps s (local_reset error) v w c =
        same-Keeps s (reset s error) (reset-same s error).0 w

    pub counted-Arrived :
        (s : RecvStream) (f : StreamFrame)
        → IsSound content bound s
        → IsWhole (gathered s)
        → Cuts content size f
        → (on_input s (stream_frame f)).1 ≢ 0
        → Arrived (gathered (on_input s (stream_frame f)).0) f.offset
    unfolding on_input
    counted-Arrived s f v w c h = (on_stream_frame-Takes s f v w c).counts h
