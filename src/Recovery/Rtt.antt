-- ===== src/Recovery/Rtt.antt =====
-- `RttCalculator` of src/quic/connection/controler/rtt_calculator.cpp. The times are `uint64_t`, the
-- estimates `uint32_t`. The process-wide initial round-trip time is an argument of `reset`.
pub mod Estimate
pub mod Reference
pub mod Backoff
mod Tests
use quic_x.Common.{
  ℕ, ◌+◌, ◌-◌, ◌*◌, ◌/◌, ◌%◌, ◌^◌, min, max, ◌||◌, ltb, leb, ◌==◌, if◌then◌else◌, add64, sub64,
  add32, sub32,
}

abbrev pub k_init_rtt_default_ms : ℕ
k_init_rtt_default_ms = 250

abbrev pub k_max_pto_backoff : ℕ
k_max_pto_backoff = 6

-- `SetDefaultInitialRtt`: the value that is stored.
pub set_default_initial_rtt : ℕ → ℕ
set_default_initial_rtt ms =
    if ms == 0 || ltb k_init_rtt_default_ms ms then k_init_rtt_default_ms else ms

pub record RttCalculator : Type 0 where
  pub latest_rtt : ℕ
  pub rtt_var : ℕ
  pub min_rtt : ℕ
  pub smoothed_rtt : ℕ
  pub last_update_time : ℕ
  pub pto_count : ℕ
  pub consecutive_pto_count : ℕ

-- `Reset` leaves the two counts of the backoff alone; the constructor has them at 0.
pub reset : ℕ → RttCalculator → RttCalculator
reset initial_rtt r = record r {
  latest_rtt = 0;
  smoothed_rtt = initial_rtt;
  rtt_var = initial_rtt / 2;
  min_rtt = 2 ^ 32 - 1;
  last_update_time = 0;
}

-- `latest_rtt_ = now - send_time`, cut to 32 bits.
pub sample : ℕ → ℕ → ℕ
sample send_time now = sub64 now send_time % 2 ^ 32

-- The sample without the peer's delay, if that leaves no less than the minimum.
pub adjusted_rtt : ℕ → ℕ → ℕ → ℕ
adjusted_rtt latest min_rtt ack_delay =
    if leb (add64 min_rtt ack_delay) latest
    then (latest + 2 ^ 64 - ack_delay) % 2 ^ 64 % 2 ^ 32
    else latest

pub smooth : ℕ → ℕ → ℕ
smooth smoothed adjusted = add32 (sub32 smoothed (smoothed / 2 ^ 3)) (adjusted / 2 ^ 3)

pub vary : ℕ → ℕ → ℕ → ℕ
vary rtt_var smoothed adjusted =
    let var_sample =
      if ltb adjusted smoothed then sub32 smoothed adjusted else sub32 adjusted smoothed in
    add32 (sub32 rtt_var (rtt_var / 2 ^ 2)) (var_sample / 2 ^ 2)

-- The branch of `UpdateRtt` for every sample but the first.
pub update_next : RttCalculator → ℕ → ℕ → RttCalculator
update_next r latest ack_delay =
    let least = min r.min_rtt latest in
    let adjusted = adjusted_rtt latest least ack_delay in
    let smoothed = smooth r.smoothed_rtt adjusted in
    record r {
      latest_rtt = latest;
      min_rtt = least;
      smoothed_rtt = smoothed;
      rtt_var = vary r.rtt_var smoothed adjusted;
    }

pub update_first : RttCalculator → ℕ → RttCalculator
update_first r latest = record r {
  latest_rtt = latest;
  min_rtt = latest;
  smoothed_rtt = latest;
  rtt_var = latest / 2;
}

pub update_rtt : RttCalculator → ℕ → ℕ → ℕ → RttCalculator
update_rtt r send_time now ack_delay =
    let latest = sample send_time now in
    let updated =
      if r.last_update_time == 0 then update_first r latest else update_next r latest ack_delay in
    record updated { last_update_time = now }

pub get_pto_interval : RttCalculator → ℕ → ℕ
get_pto_interval r max_ack_delay =
    add32 (add32 r.smoothed_rtt (max (r.rtt_var * 2 ^ 2 % 2 ^ 32) 1)) max_ack_delay

pub get_pto_with_backoff : RttCalculator → ℕ → ℕ
get_pto_with_backoff r max_ack_delay =
    get_pto_interval r max_ack_delay * 2 ^ min r.pto_count k_max_pto_backoff % 2 ^ 32

pub on_pto_expired : RttCalculator → RttCalculator
on_pto_expired r = record r {
  pto_count = min (add32 r.pto_count 1) k_max_pto_backoff;
  consecutive_pto_count = add32 r.consecutive_pto_count 1;
}

pub on_packet_acked : RttCalculator → RttCalculator
on_packet_acked r = record r { pto_count = 0; consecutive_pto_count = 0 }
