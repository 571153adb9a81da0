-- ===== src/Recovery/Reno.antt =====
-- `RenoCongestionControl` of src/quic/congestion_control/reno_congestion_control.cpp. `cfg_.beta`
-- is a `double`, so the multiplication by it is a parameter: what `cwnd_bytes_ * cfg_.beta` is as a
-- `uint64_t`. The metrics and the trace are left out.
pub mod Window
pub mod Period
mod Tests
use quic_x.Common.{
  ℕ, ◌*◌, ◌/◌, min, max, Bool, true, false, not, ltb, leb, ◌==◌, if◌then◌else◌, u64_max, add64,
  sub64, mul64,
}
use quic_x.Recovery.Pacer.{on_pacing_rate_updated, on_packet_sent, NormalPacer}

pub record CcConfig : Type 0 where
  pub initial_cwnd_bytes : ℕ
  pub min_cwnd_bytes : ℕ
  pub max_cwnd_bytes : ℕ
  pub mss_bytes : ℕ

abbrev pub default_config : CcConfig
default_config = record {
  initial_cwnd_bytes = 10 * 1460;
  min_cwnd_bytes = 2 * 1460;
  max_cwnd_bytes = 1000 * 1460;
  mss_bytes = 1460;
}

pub record Reno : Type 0 where
  pub cfg : CcConfig
  pub cwnd_bytes : ℕ
  pub bytes_in_flight : ℕ
  pub ssthresh_bytes : ℕ
  pub in_slow_start : Bool
  pub in_recovery : Bool
  pub recovery_start_time : ℕ
  pub srtt_us : ℕ
  pub pacer : NormalPacer

pub record AckEvent : Type 0 where
  pub bytes_acked : ℕ
  pub ack_time : ℕ
  pub ecn_ce : Bool
  pub acked_packet_send_time : ℕ

-- The constructor and `Configure`, which keep the round-trip time and the pacer.
abbrev pub configure : CcConfig → ℕ → NormalPacer → Reno
configure cfg srtt pacer = record {
  cfg = cfg;
  cwnd_bytes = cfg.initial_cwnd_bytes;
  bytes_in_flight = 0;
  ssthresh_bytes = u64_max;
  in_slow_start = true;
  in_recovery = false;
  recovery_start_time = 0;
  srtt_us = srtt;
  pacer = pacer;
}

pub get_pacing_rate_bytes_per_sec : Reno → ℕ
get_pacing_rate_bytes_per_sec r =
    if r.srtt_us == 0 then r.cfg.min_cwnd_bytes else mul64 r.cwnd_bytes 1000000 / r.srtt_us

unfoldable pub update_pacing_rate : Reno → Reno
update_pacing_rate r = record r {
  pacer = on_pacing_rate_updated r.pacer (get_pacing_rate_bytes_per_sec r);
}

-- `bytes_in_flight_` less some bytes, and 0 at least.
abbrev pub less_in_flight : Reno → ℕ → Reno
less_in_flight r bytes = record r {
  bytes_in_flight = if ltb bytes r.bytes_in_flight then sub64 r.bytes_in_flight bytes else 0;
}

unfoldable pub increase_on_ack : Reno → ℕ → Reno
increase_on_ack r bytes_acked =
    if r.in_slow_start
    then (let cwnd = add64 r.cwnd_bytes bytes_acked in
        record r {
          cwnd_bytes = min cwnd r.cfg.max_cwnd_bytes;
          in_slow_start = not (leb r.ssthresh_bytes cwnd);
        })
    else record r {
      cwnd_bytes =
          min
            (add64 r.cwnd_bytes
              (max (mul64 r.cfg.mss_bytes r.cfg.mss_bytes / max r.cwnd_bytes 1) 1))
            r.cfg.max_cwnd_bytes;
    }

unfoldable pub on_round_trip_sample : Reno → ℕ → Reno
on_round_trip_sample r latest_rtt =
    let srtt = if r.srtt_us == 0 then latest_rtt else r.srtt_us in
    record r { srtt_us = add64 (mul64 7 srtt) latest_rtt / 8 }

unfoldable pub on_sent : Reno → ℕ → ℕ → Reno
on_sent r bytes sent_time = record r {
  bytes_in_flight = add64 r.bytes_in_flight bytes;
  pacer = on_packet_sent r.pacer (sent_time / 1000) bytes;
}

-- `CanSend`: how many bytes may be sent, and whether the window blocks.
unfoldable pub can_send_bytes : Reno → ℕ × Bool
can_send_bytes r =
    let left =
      if ltb r.bytes_in_flight r.cwnd_bytes then sub64 r.cwnd_bytes r.bytes_in_flight else 0 in
    (left, left == 0)

module _ (scale : ℕ → ℕ) where
  unfoldable pub enter_recovery : Reno → ℕ → Reno
  enter_recovery r now = record r {
    ssthresh_bytes = scale r.cwnd_bytes;
    cwnd_bytes = max r.cfg.min_cwnd_bytes (scale r.cwnd_bytes);
    in_recovery = true;
    recovery_start_time = now;
    in_slow_start = false;
  }

  unfoldable pub on_acked : Reno → AckEvent → Reno
  on_acked r0 ev =
      let r : Reno = less_in_flight r0 ev.bytes_acked in
      if ev.ecn_ce
      then update_pacing_rate (if r.in_recovery then r else enter_recovery r ev.ack_time)
      else if r.in_recovery
      then (if ltb r.recovery_start_time ev.acked_packet_send_time
          then update_pacing_rate
              (increase_on_ack (record r { in_recovery = false }) ev.bytes_acked)
          else r)
      else update_pacing_rate (increase_on_ack r ev.bytes_acked)

  unfoldable pub on_lost : Reno → ℕ → ℕ → Reno
  on_lost r0 bytes_lost lost_time =
      let r : Reno = less_in_flight r0 bytes_lost in
      update_pacing_rate (if r.in_recovery then r else enter_recovery r lost_time)
