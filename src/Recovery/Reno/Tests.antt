-- ===== src/Recovery/Reno/Tests.antt =====
-- The controller at work, with a window that is halved.
use quic_x.Common.{ℕ, ◌*◌, ◌/◌, ◌≤◌, max, ◌≡◌, refl, true, false, List, [], ◌∷◌, arith}
use quic_x.Recovery.Pacer.{new_pacer}
use quic_x.Recovery.Reno.{
  default_config, configure, get_pacing_rate_bytes_per_sec, can_send_bytes, on_lost, Reno,
}
use quic_x.Recovery.Reno.Window.{
  cc_run, cc_run-IsBounded, CcEvent, sent, acked, lost, IsConfig, IsBounded,
}
use quic_x.Recovery.Reno.Period.{cc_run-on_lost}

abbrev halved : ℕ → ℕ
halved x = x / 2

halved-le : (x : ℕ) → halved x ≤ x
halved-le x = omega arith

default-IsConfig : IsConfig default_config
default-IsConfig = record {
  low = omega arith;
  high = omega arith;
  small = omega arith;
  segment = omega arith;
}

abbrev some_events : List CcEvent
some_events =
    sent 1200 10
    ∷ acked
        (record { bytes_acked = 1200; ack_time = 90; ecn_ce = false; acked_packet_send_time = 10 })
    ∷ lost 1200 95
    ∷ []

cc_run-IsBounded_example :
    IsBounded default_config (cc_run halved (configure default_config 0 new_pacer) some_events)
cc_run-IsBounded_example =
    cc_run-IsBounded halved default_config 0 new_pacer some_events halved-le default-IsConfig
      (tt, (omega arith, (tt, tt)))

abbrev fresh : Reno
fresh = configure default_config 0 new_pacer

cc_run-on_lost_example :
    ((cc_run halved (on_lost halved fresh 1200 95) some_events).cwnd_bytes
      ≡ max (2 * 1460) (halved 14600))
    × ((cc_run halved (on_lost halved fresh 1200 95) some_events).in_recovery ≡ true)
cc_run-on_lost_example =
    cc_run-on_lost halved fresh 1200 95 some_events refl (tt, (omega arith, (tt, tt)))

coarse_rate : get_pacing_rate_bytes_per_sec fresh ≡ 2920
unfolding get_pacing_rate_bytes_per_sec
coarse_rate = refl

whole_window : can_send_bytes fresh ≡ (14600, false)
unfolding can_send_bytes
whole_window = refl
