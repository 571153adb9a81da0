-- ===== src/Flow/Recv/PeerLimits.antt =====
-- The limits that the connection gives the peer.
use quic_x.Common.{
  ℕ, ◌+◌, ◌-◌, ◌/◌, ◌^◌, ◌≤◌, ◌<◌, ◌≡◌, Bool, true, false, ◌&&◌, none, some, List, [], ◌∷◌, arith,
  ltb, leb, ◌==◌, if◌then◌else◌, IsU64,
}
use quic_x.Flow.{k_streams_increase_threshold, max_data, max_streams}
use quic_x.Flow.StreamId.{get_stream_direction, bidirectional, unidirectional}
use quic_x.Flow.Recv.{
  on_data_received, doubled, should_send_max_data, is_local, on_stream_created, RecvFlowController,
}

-- `ShouldSendMaxData` on every branch: it fails exactly when the peer has exceeded the limit, the
-- limit never falls and stays a `uint64_t`, the bytes counted stay, and a MAX_DATA frame with the
-- new limit goes out exactly when no more than a tenth of the limit is left.
pub should_send_max_data_lem :
    (c : RecvFlowController)
    → IsU64 c.max_data
    → let (c', within, frame) = should_send_max_data c in
      (within ≡ leb c.received_bytes c.max_data)
      × (c.max_data ≤ c'.max_data)
      × IsU64 c'.max_data
      × (c'.received_bytes ≡ c.received_bytes)
      × (frame ≡ (
          if within && leb (c.max_data - c.received_bytes) (c.max_data / 10)
          then some (max_data c'.max_data)
          else none))
unfolding should_send_max_data doubled
should_send_max_data_lem c h = ground arith

-- The sizes of some packets, added up.
unfoldable pub total : List ℕ → ℕ
total [] = 0
total (n ∷ ns) = n + total ns

pub receive_all : RecvFlowController → List ℕ → RecvFlowController × Bool
receive_all c [] = (c, true)
receive_all c (n ∷ ns) =
    let (c', within) = on_data_received c n in
    let (d, rest) = receive_all c' ns in (d, within && rest)

-- The verdict over all packets compares the sum of their sizes with the limit, from any state within
-- the limit and as long as the counter does not wrap.
pub receive_all_lem :
    (c : RecvFlowController) (ns : List ℕ)
    → c.received_bytes ≤ c.max_data
    → c.received_bytes + total ns < 2 ^ 64
    → (receive_all c ns).1 ≡ leb (c.received_bytes + total ns) c.max_data
unfolding receive_all total on_data_received
receive_all_lem c [] h w = ground arith
receive_all_lem c (n ∷ ns) h w = ground (arith, receive_all_lem (on_data_received c n).0 ns)

-- A stream that the peer opens, while its streams so far are within the limit: it is accepted
-- exactly when its count is below the limit, the limit never falls, and on acceptance the peer has
-- more than four streams left under the new limit, which a MAX_STREAMS frame carries if it changed.
pub on_stream_created_bidi :
    (c : RecvFlowController) (id : ℕ)
    → is_local c id ≡ false
    → get_stream_direction id ≡ bidirectional
    → c.max_bidi_stream_id / 4 < c.max_streams_bidi
    → c.max_streams_bidi ≤ 2 ^ 60
    → let (c', accepted, frame) = on_stream_created c id in
      (accepted ≡ ltb (id / 4) c.max_streams_bidi)
      × (c.max_streams_bidi ≤ c'.max_streams_bidi)
      × (ltb (c'.max_bidi_stream_id / 4 + k_streams_increase_threshold) c'.max_streams_bidi
          ≡ accepted)
      × (frame ≡ (
          if c'.max_streams_bidi == c.max_streams_bidi
          then none
          else some (max_streams bidirectional c'.max_streams_bidi)))
unfolding on_stream_created get_stream_direction
on_stream_created_bidi c id hl hd hm h = ground arith

-- The same for a unidirectional stream.
pub on_stream_created_uni :
    (c : RecvFlowController) (id : ℕ)
    → is_local c id ≡ false
    → get_stream_direction id ≡ unidirectional
    → c.max_uni_stream_id / 4 < c.max_streams_uni
    → c.max_streams_uni ≤ 2 ^ 60
    → let (c', accepted, frame) = on_stream_created c id in
      (accepted ≡ ltb (id / 4) c.max_streams_uni)
      × (c.max_streams_uni ≤ c'.max_streams_uni)
      × (ltb (c'.max_uni_stream_id / 4 + k_streams_increase_threshold) c'.max_streams_uni
          ≡ accepted)
      × (frame ≡ (
          if c'.max_streams_uni == c.max_streams_uni
          then none
          else some (max_streams unidirectional c'.max_streams_uni)))
unfolding on_stream_created get_stream_direction
on_stream_created_uni c id hl hd hm h = ground arith
