-- ===== src/Recovery/Reno/Window.antt =====
-- The congestion window over a connection's events.
use native.Mathlib.Nat.{div-le_self}
use quic_x.Common.{
  ℕ, ◌*◌, ◌/◌, ◌%◌, ◌^◌, ◌≤◌, ◌<◌, min, max, ◌≡◌, refl, inl, inr, false, List, [], ◌∷◌, arith, ltb,
  Bool-cases, if_both, All, add64, mul64,
}
use quic_x.Recovery.Pacer.{NormalPacer}
use quic_x.Recovery.Reno.{
  configure, update_pacing_rate, less_in_flight, increase_on_ack, on_round_trip_sample, on_sent,
  enter_recovery, on_acked, on_lost, CcConfig, Reno, AckEvent,
}

pub data CcEvent : Type 0 where
  sent : ℕ → ℕ → CcEvent
  acked : AckEvent → CcEvent
  lost : ℕ → ℕ → CcEvent
  sample : ℕ → CcEvent

-- Windows of a sensible order and size, and a segment whose square has at most 62 bits.
pub record IsConfig (c : CcConfig) : Type 0 where
  pub low : c.min_cwnd_bytes ≤ c.initial_cwnd_bytes
  pub high : c.initial_cwnd_bytes ≤ c.max_cwnd_bytes
  pub small : c.max_cwnd_bytes < 2 ^ 62
  pub segment : c.mss_bytes * c.mss_bytes < 2 ^ 62

-- An acknowledgement is for fewer than 2^62 bytes.
abbrev pub IsSmallAck : CcEvent → Type 0
IsSmallAck (acked ev) = ev.bytes_acked < 2 ^ 62
IsSmallAck _ = Unit {0}

-- The window is between the configured bounds, and the configuration is the one given.
pub record IsBounded (c : CcConfig) (r : Reno) : Type 0 where
  pub config : r.cfg ≡ c
  pub low : c.min_cwnd_bytes ≤ r.cwnd_bytes
  pub high : r.cwnd_bytes ≤ c.max_cwnd_bytes

-- An event after which a recovery period that began at `start` goes on: no acknowledgement of a
-- packet that was sent later.
abbrev pub IsOld : ℕ → CcEvent → Type 0
IsOld start (acked ev) = ev.acked_packet_send_time ≤ start
IsOld start _ = Unit {0}

segment-le : (a b : ℕ) → a < 2 ^ 62 → a % 2 ^ 64 / max b 1 < 2 ^ 62
segment-le a b h = let d = div-le_self (a % 2 ^ 64) (max b 1) in omega arith

grown :
    (low high cwnd add : ℕ)
    → low ≤ cwnd
    → cwnd ≤ high
    → high < 2 ^ 62
    → add < 2 ^ 62
    → (low ≤ min (add64 cwnd add) high) × (min (add64 cwnd add) high ≤ high)
grown low high cwnd add l u s a = omega arith

increase_on_ack-IsBounded :
    (c : CcConfig) (r : Reno) (bytes_acked : ℕ)
    → IsConfig c
    → bytes_acked < 2 ^ 62
    → IsBounded c r
    → IsBounded c (increase_on_ack r bytes_acked)
unfolding increase_on_ack
increase_on_ack-IsBounded c r bytes_acked h hb i =
    let e = i.config in
    let g = segment-le (c.mss_bytes * c.mss_bytes) r.cwnd_bytes h.segment in
    let (low, high) =
      grown c.min_cwnd_bytes c.max_cwnd_bytes r.cwnd_bytes bytes_acked i.low i.high h.small hb in
    let (low', high') =
      grown c.min_cwnd_bytes c.max_cwnd_bytes r.cwnd_bytes
        (max (mul64 c.mss_bytes c.mss_bytes / max r.cwnd_bytes 1) 1) i.low i.high h.small
        (omega arith) in
    elim (Bool-cases r.in_slow_start) [
      | inl y ↦ rw y (record { config = e; low = rw e low; high = rw e high })
      | inr y ↦ rw y (record { config = e; low = rw e low'; high = rw e high' })
    ]

less-IsBounded :
    (c : CcConfig) (r : Reno) (bytes : ℕ) → IsBounded c r → IsBounded c (less_in_flight r bytes)
less-IsBounded c r bytes i = record { config = i.config; low = i.low; high = i.high }

update-IsBounded : (c : CcConfig) (r : Reno) → IsBounded c r → IsBounded c (update_pacing_rate r)
unfolding update_pacing_rate
update-IsBounded c r i = record { config = i.config; low = i.low; high = i.high }

module _ (scale : ℕ → ℕ) where
  unfoldable pub cc_step : Reno → CcEvent → Reno
  cc_step r (sent bytes time) = on_sent r bytes time
  cc_step r (acked ev) = on_acked scale r ev
  cc_step r (lost bytes time) = on_lost scale r bytes time
  cc_step r (sample rtt) = on_round_trip_sample r rtt

  unfoldable pub cc_run : Reno → List CcEvent → Reno
  cc_run r [] = r
  cc_run r (x ∷ xs) = cc_run (cc_step r x) xs

  enter-IsBounded :
      (c : CcConfig) (r : Reno) (now : ℕ)
      → ((x : ℕ) → scale x ≤ x)
      → IsConfig c
      → IsBounded c r
      → IsBounded c (enter_recovery scale r now)
  unfolding enter_recovery
  enter-IsBounded c r now shrinks h i =
      let e = i.config in
      let b = i.high in
      let l = h.low in
      let g = h.high in
      let s = shrinks r.cwnd_bytes in
      record { config = e; low = rw e (omega arith); high = rw e (omega arith) }

  lost-IsBounded :
      (c : CcConfig) (r : Reno) (bytes time : ℕ)
      → ((x : ℕ) → scale x ≤ x)
      → IsConfig c
      → IsBounded c r
      → IsBounded c (on_lost scale r bytes time)
  unfolding on_lost
  lost-IsBounded c r bytes time shrinks h i =
      let j = less-IsBounded c r bytes i in
      update-IsBounded c _
        (if_both (IsBounded c) r.in_recovery _ _ j (enter-IsBounded c _ time shrinks h j))

  acked-IsBounded :
      (c : CcConfig) (r : Reno) (ev : AckEvent)
      → ((x : ℕ) → scale x ≤ x)
      → IsConfig c
      → ev.bytes_acked < 2 ^ 62
      → IsBounded c r
      → IsBounded c (on_acked scale r ev)
  unfolding on_acked
  acked-IsBounded c r ev shrinks h b i =
      let j = less-IsBounded c r ev.bytes_acked i in
      let out : IsBounded c (record (less_in_flight r ev.bytes_acked) { in_recovery = false }) =
        record { config = j.config; low = j.low; high = j.high } in
      if_both (IsBounded c) ev.ecn_ce _ _
        (update-IsBounded c _
          (if_both (IsBounded c) r.in_recovery _ _ j (enter-IsBounded c _ ev.ack_time shrinks h j)))
        (if_both (IsBounded c) r.in_recovery _ _
          (if_both (IsBounded c) (ltb r.recovery_start_time ev.acked_packet_send_time) _ _
            (update-IsBounded c _ (increase_on_ack-IsBounded c _ ev.bytes_acked h b out)) j)
          (update-IsBounded c _ (increase_on_ack-IsBounded c _ ev.bytes_acked h b j)))

  cc_step-IsBounded :
      (c : CcConfig) (r : Reno) (x : CcEvent)
      → ((x : ℕ) → scale x ≤ x)
      → IsConfig c
      → IsSmallAck x
      → IsBounded c r
      → IsBounded c (cc_step r x)
  unfolding cc_step on_sent on_round_trip_sample
  cc_step-IsBounded c r (sent bytes time) shrinks h b i = record {
    config = i.config;
    low = i.low;
    high = i.high;
  }
  cc_step-IsBounded c r (acked ev) shrinks h b i = acked-IsBounded c r ev shrinks h b i
  cc_step-IsBounded c r (lost bytes time) shrinks h b i = lost-IsBounded c r bytes time shrinks h i
  cc_step-IsBounded c r (sample rtt) shrinks h b i = record {
    config = i.config;
    low = i.low;
    high = i.high;
  }

  from-IsBounded :
      (c : CcConfig) (r : Reno) (xs : List CcEvent)
      → ((x : ℕ) → scale x ≤ x)
      → IsConfig c
      → All IsSmallAck xs
      → IsBounded c r
      → IsBounded c (cc_run r xs)
  unfolding cc_run
  from-IsBounded c r [] shrinks h b i = i
  from-IsBounded c r (x ∷ xs) shrinks h (b, bs) i =
      from-IsBounded c (cc_step r x) xs shrinks h bs (cc_step-IsBounded c r x shrinks h b i)

  -- After any events, from a configured controller on, the congestion window is between the
  -- configured minimum and maximum. The configuration is an `IsConfig`, the multiplication by
  -- `beta` does not enlarge, and an acknowledgement is for fewer than 2^62 bytes.
  pub cc_run-IsBounded :
      (c : CcConfig) (srtt : ℕ) (p : NormalPacer) (xs : List CcEvent)
      → ((x : ℕ) → scale x ≤ x)
      → IsConfig c
      → All IsSmallAck xs
      → IsBounded c (cc_run (configure c srtt p) xs)
  cc_run-IsBounded c srtt p xs shrinks h b =
      from-IsBounded c (configure c srtt p) xs shrinks h b
        (record { config = refl; low = h.low; high = h.high })
