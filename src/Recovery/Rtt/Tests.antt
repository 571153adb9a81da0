-- ===== src/Recovery/Rtt/Tests.antt =====
-- Runs.
use quic_x.Common.{◌-◌, ◌^◌, ◌≡◌, refl, [], ◌∷◌, arith}
use quic_x.Recovery.Rtt.Estimate.{update_all, IsSound}
use quic_x.Recovery.Rtt.Reference.{first_estimate, estimates, held, update_all-estimates}
use quic_x.Recovery.Rtt.{
  set_default_initial_rtt, reset, sample, update_next, update_first, update_rtt, on_pto_expired,
  RttCalculator,
}

abbrev start : RttCalculator
start = record {
  latest_rtt = 0;
  rtt_var = 125;
  min_rtt = 2 ^ 32 - 1;
  smoothed_rtt = 250;
  last_update_time = 0;
  pto_count = 0;
  consecutive_pto_count = 0;
}

first_sample : (update_rtt start 1000 1080 5).smoothed_rtt ≡ 80
unfolding update_rtt update_first update_next sample
first_sample = refl

update_all-estimates_example :
    (held (update_all start ((1000, 1080, 5) ∷ (1100, 1160, 0) ∷ []))
      ≡ estimates (first_estimate 80) ((1100, 1160, 0) ∷ []))
    × IsSound 500 (update_all start ((1000, 1080, 5) ∷ (1100, 1160, 0) ∷ []))
update_all-estimates_example =
    update_all-estimates 500 start 1000 1080 5 ((1100, 1160, 0) ∷ []) (omega arith) refl (
      record {
        order = omega arith;
        recent = omega arith;
        clock = omega arith;
        positive = omega arith;
        delay = omega arith;
      },
      (
        record {
          order = omega arith;
          recent = omega arith;
          clock = omega arith;
          positive = omega arith;
          delay = omega arith;
        },
        tt,
      ),
    )

too_large : set_default_initial_rtt 900 ≡ 250
unfolding set_default_initial_rtt
too_large = refl

keeps_counts : (reset 250 (on_pto_expired start)).pto_count ≡ 1
unfolding reset on_pto_expired
keeps_counts = refl
