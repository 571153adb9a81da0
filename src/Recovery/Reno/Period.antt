-- ===== src/Recovery/Reno/Period.antt =====
-- A recovery period of the Reno controller.
use quic_x.Common.{
  ℕ, max, ◌≡◌, refl, true, false, List, [], ◌∷◌, arith, ltb, if_both, if_then, if_else, All,
}
use quic_x.Recovery.Reno.{
  update_pacing_rate, less_in_flight, on_round_trip_sample, on_sent, enter_recovery, on_acked,
  on_lost, Reno,
}
use quic_x.Recovery.Reno.Window.{IsOld, cc_step, cc_run, CcEvent, sent, acked, lost, sample}

-- The controller is in the period that began at `start`, with this window and threshold.
record InPeriod (start cwnd ssthresh : ℕ) (r : Reno) : Type 0 where
  in_it : r.in_recovery ≡ true
  since : r.recovery_start_time ≡ start
  window : r.cwnd_bytes ≡ cwnd
  threshold : r.ssthresh_bytes ≡ ssthresh

module _ (scale : ℕ → ℕ) where
  update-InPeriod :
      (s c t : ℕ) (r : Reno) → InPeriod s c t r → InPeriod s c t (update_pacing_rate r)
  unfolding update_pacing_rate
  update-InPeriod s c t r i = record {
    in_it = i.in_it;
    since = i.since;
    window = i.window;
    threshold = i.threshold;
  }

  less-InPeriod :
      (s c t : ℕ) (r : Reno) (bytes : ℕ)
      → InPeriod s c t r
      → InPeriod s c t (less_in_flight r bytes)
  less-InPeriod s c t r bytes i = record {
    in_it = i.in_it;
    since = i.since;
    window = i.window;
    threshold = i.threshold;
  }

  step-InPeriod :
      (s c t : ℕ) (r : Reno) (x : CcEvent)
      → IsOld s x
      → InPeriod s c t r
      → InPeriod s c t (cc_step scale r x)
  unfolding cc_step on_sent on_round_trip_sample on_acked on_lost
  step-InPeriod s c t r (sent bytes time) o i = record {
    in_it = i.in_it;
    since = i.since;
    window = i.window;
    threshold = i.threshold;
  }
  step-InPeriod s c t r (sample rtt) o i = record {
    in_it = i.in_it;
    since = i.since;
    window = i.window;
    threshold = i.threshold;
  }
  step-InPeriod s c t r (lost bytes time) o i =
      update-InPeriod s c t _
        (if_then (InPeriod s c t) r.in_recovery _ _ i.in_it (less-InPeriod s c t r bytes i))
  step-InPeriod s c t r (acked ev) o i =
      let j = less-InPeriod s c t r ev.bytes_acked i in
      let since = i.since in
      if_both (InPeriod s c t) ev.ecn_ce _ _
        (update-InPeriod s c t _ (if_then (InPeriod s c t) r.in_recovery _ _ i.in_it j))
        (if_then (InPeriod s c t) r.in_recovery _ _ i.in_it (
          if_else (InPeriod s c t) (ltb r.recovery_start_time ev.acked_packet_send_time) _ _
            (ground arith) j))

  run-InPeriod :
      (s c t : ℕ) (r : Reno) (xs : List CcEvent)
      → All (IsOld s) xs
      → InPeriod s c t r
      → InPeriod s c t (cc_run scale r xs)
  unfolding cc_run
  run-InPeriod s c t r [] o i = i
  run-InPeriod s c t r (x ∷ xs) (o, os) i =
      run-InPeriod s c t (cc_step scale r x) xs os (step-InPeriod s c t r x o i)

  lost-InPeriod :
      (r : Reno) (bytes time : ℕ)
      → r.in_recovery ≡ false
      → InPeriod time
          (max r.cfg.min_cwnd_bytes (scale r.cwnd_bytes))
          (scale r.cwnd_bytes)
          (on_lost scale r bytes time)
  unfolding on_lost enter_recovery
  lost-InPeriod r bytes time e =
      let p = InPeriod time (max r.cfg.min_cwnd_bytes (scale r.cwnd_bytes)) (scale r.cwnd_bytes) in
      update-InPeriod _ _ _ _ (
        if_else p r.in_recovery _ _ e
          (record { in_it = refl; since = refl; window = refl; threshold = refl }))

  -- A loss outside a recovery period reduces the window once: whatever is sent, lost or measured
  -- behind it, and whatever is acknowledged of the packets that were sent no later than the loss,
  -- with an ECN mark or without one, the window stays what the loss made it, the larger one of the
  -- configured minimum and the scaled window, and the period goes on.
  pub cc_run-on_lost :
      (r : Reno) (bytes time : ℕ) (xs : List CcEvent)
      → r.in_recovery ≡ false
      → All (IsOld time) xs
      → ((cc_run scale (on_lost scale r bytes time) xs).cwnd_bytes
          ≡ max r.cfg.min_cwnd_bytes (scale r.cwnd_bytes))
        × ((cc_run scale (on_lost scale r bytes time) xs).in_recovery ≡ true)
  cc_run-on_lost r bytes time xs e os =
      let i =
        run-InPeriod _ _ _ (on_lost scale r bytes time) xs os (lost-InPeriod r bytes time e) in
      (i.window, i.in_it)
