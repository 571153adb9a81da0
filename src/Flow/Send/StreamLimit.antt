-- ===== src/Flow/Send/StreamLimit.antt =====
-- The numbers of the streams that the connection opens.
use quic_x.Common.{
  ℕ, zero, suc, ◌+◌, ◌-◌, ◌*◌, ◌^◌, ◌≤◌, ◌≡◌, none, some, List, [], ◌∷◌, arith, ltb, leb,
  if◌then◌else◌,
}
use quic_x.Flow.{k_streams_blocked_threshold, streams_blocked}
use quic_x.Flow.StreamId.{
  starter_bit, next_stream_id, peek_next_stream_id, make_stream_id_lem, StreamStarter, client,
  server, bidirectional, unidirectional,
}
use quic_x.Flow.Send.{
  on_max_streams_bidi_received, can_create_bidi_stream, can_create_uni_stream, SendFlowController,
}

pub record IsBounded (c : SendFlowController) : Type 0 where
  pub bidi : c.id_generator.cur_bidirectional_id ≤ c.max_streams_bidi
  pub uni : c.id_generator.cur_unidirectional_id ≤ c.max_streams_uni
  pub bidi_limit : c.max_streams_bidi ≤ 2 ^ 60
  pub uni_limit : c.max_streams_uni ≤ 2 ^ 60

starter_bit-le : (s : StreamStarter) → starter_bit s ≤ 1
starter_bit-le client = omega arith
starter_bit-le server = omega arith

-- `CanCreateBidiStream` on every branch: the stream is granted exactly while the count is below
-- the limit, its number is made of the count, and the count goes up by one; a refusal changes
-- nothing and hands out a STREAMS_BLOCKED frame with the limit.
pub can_create_bidi_stream_lem :
    (c : SendFlowController)
    → IsBounded c
    → let n = c.id_generator.cur_bidirectional_id in
      let (c', allowed, id, frame) = can_create_bidi_stream c in
      (allowed ≡ ltb n c.max_streams_bidi)
      × (id ≡ n * 4 + starter_bit c.id_generator.starter)
      × (c'.id_generator.cur_bidirectional_id ≡ (if allowed then n + 1 else n))
      × (c'.max_streams_bidi ≡ c.max_streams_bidi)
      × (c'.id_generator.starter ≡ c.id_generator.starter)
      × (frame ≡ (
          if leb c.max_streams_bidi (n + k_streams_blocked_threshold)
          then some (streams_blocked bidirectional c.max_streams_bidi)
          else none))
unfolding can_create_bidi_stream next_stream_id peek_next_stream_id
can_create_bidi_stream_lem c v = ground (
  arith,
  make_stream_id_lem c.id_generator.cur_bidirectional_id bidirectional c.id_generator.starter,
  starter_bit-le c.id_generator.starter,
)

-- `CanCreateUniStream` likewise, with the bit of the direction in the number.
pub can_create_uni_stream_lem :
    (c : SendFlowController)
    → IsBounded c
    → let n = c.id_generator.cur_unidirectional_id in
      let (c', allowed, id, frame) = can_create_uni_stream c in
      (allowed ≡ ltb n c.max_streams_uni)
      × (id ≡ n * 4 + 2 + starter_bit c.id_generator.starter)
      × (c'.id_generator.cur_unidirectional_id ≡ (if allowed then n + 1 else n))
      × (c'.max_streams_uni ≡ c.max_streams_uni)
      × (c'.id_generator.starter ≡ c.id_generator.starter)
      × (frame ≡ (
          if leb c.max_streams_uni (n + k_streams_blocked_threshold)
          then some (streams_blocked unidirectional c.max_streams_uni)
          else none))
unfolding can_create_uni_stream next_stream_id peek_next_stream_id
can_create_uni_stream_lem c v = ground (
  arith,
  make_stream_id_lem c.id_generator.cur_unidirectional_id unidirectional c.id_generator.starter,
  starter_bit-le c.id_generator.starter,
)

-- The calls that bear on bidirectional streams.
pub data Call : Type 0 where
  creates : Call
  receives : ℕ → Call

-- The numbers that were granted, in order, and the controller in the end.
pub run : SendFlowController → List Call → List ℕ × SendFlowController
run c [] = ([], c)
run c (creates ∷ ks) =
    let (c', allowed, id, frame) = can_create_bidi_stream c in
    let (ids, d) = run c' ks in (if allowed then id ∷ ids else ids, d)
run c (receives limit ∷ ks) = run (on_max_streams_bidi_received c limit) ks

-- The stream numbers of one starter from the `n`-th on, below the count `m`.
pub ids_from : ℕ → StreamStarter → ℕ → List ℕ
ids_from n s zero = []
ids_from n s (suc k) = (n * 4 + starter_bit s) ∷ ids_from (n + 1) s k

-- No limit above 2^60, as RFC 9000, section 19.11 demands of a MAX_STREAMS frame.
abbrev pub AreLegal : List Call → Type 0
AreLegal [] = Unit {0}
AreLegal (creates ∷ ks) = AreLegal ks
AreLegal (receives limit ∷ ks) = (limit ≤ 2 ^ 60) × AreLegal ks

-- What a run has granted: the numbers from the count of the first controller to that of the last.
pub record Grants (c d : SendFlowController) (ids : List ℕ) : Type 0 where
  pub from : c.id_generator.cur_bidirectional_id ≤ d.id_generator.cur_bidirectional_id
  pub ids_are :
      ids
      ≡ ids_from c.id_generator.cur_bidirectional_id c.id_generator.starter
          (d.id_generator.cur_bidirectional_id - c.id_generator.cur_bidirectional_id)
  pub within : d.id_generator.cur_bidirectional_id ≤ d.max_streams_bidi
