-- ===== src/Recovery/Pacer.antt =====
-- `NormalPacer` of src/quic/congestion_control/normal_pacer.cpp, times in milliseconds. The current
-- time, where the code reads the clock itself, is an argument.
pub mod Rate
pub mod Double
mod Tests
use quic_x.Common.{ℕ, ◌*◌, ◌/◌, min, Bool, true, ltb, leb, ◌==◌, if◌then◌else◌, add64, sub64, mul64}

pub record NormalPacer : Type 0 where
  pub pacing_rate_bytes_per_sec : ℕ
  pub next_send_time_ms : ℕ
  pub last_update_ms : ℕ
  pub max_burst_bytes : ℕ
  pub burst_budget_bytes : ℕ

abbrev pub new_pacer : NormalPacer
new_pacer = record {
  pacing_rate_bytes_per_sec = 0;
  next_send_time_ms = 0;
  last_update_ms = 0;
  max_burst_bytes = 256 * 1024;
  burst_budget_bytes = 256 * 1024;
}

unfoldable pub on_pacing_rate_updated : NormalPacer → ℕ → NormalPacer
on_pacing_rate_updated p pacing_rate = record p { pacing_rate_bytes_per_sec = pacing_rate }

pub can_send_now : NormalPacer → ℕ → Bool
can_send_now p now_ms =
    if p.pacing_rate_bytes_per_sec == 0
    then true
    else if ltb 0 p.burst_budget_bytes
    then true
    else leb p.next_send_time_ms now_ms

pub time_until_send : NormalPacer → ℕ → ℕ
time_until_send p now_ms =
    if p.pacing_rate_bytes_per_sec == 0
    then 0
    else if leb p.next_send_time_ms now_ms
    then 0
    else sub64 p.next_send_time_ms now_ms

unfoldable pub refill_burst_budget : NormalPacer → ℕ → NormalPacer
refill_burst_budget p now_ms =
    if p.last_update_ms == 0
    then record p { last_update_ms = now_ms }
    else if p.pacing_rate_bytes_per_sec == 0
    then record p { burst_budget_bytes = p.max_burst_bytes; last_update_ms = now_ms }
    else (let elapsed_ms = sub64 now_ms p.last_update_ms in
        if elapsed_ms == 0 then p else record p {
          burst_budget_bytes =
              min p.max_burst_bytes
                (add64 p.burst_budget_bytes (mul64 p.pacing_rate_bytes_per_sec elapsed_ms / 1000));
          last_update_ms = now_ms;
        })

-- The part of `OnPacketSent` behind the refill.
unfoldable pub spend : NormalPacer → ℕ → ℕ → NormalPacer
spend p sent_time_ms bytes =
    if leb bytes p.burst_budget_bytes
    then record p {
      burst_budget_bytes = sub64 p.burst_budget_bytes bytes;
      next_send_time_ms = sent_time_ms;
    }
    else if ltb 0 p.pacing_rate_bytes_per_sec
    then record p {
      burst_budget_bytes = 0;
      next_send_time_ms = add64 sent_time_ms (
          sub64 (add64 (mul64 bytes 1000) p.pacing_rate_bytes_per_sec) 1
          / p.pacing_rate_bytes_per_sec);
    }
    else record p { burst_budget_bytes = 0; next_send_time_ms = sent_time_ms }

unfoldable pub on_packet_sent : NormalPacer → ℕ → ℕ → NormalPacer
on_packet_sent p sent_time_ms bytes = spend (refill_burst_budget p sent_time_ms) sent_time_ms bytes

pub reset : NormalPacer → NormalPacer
reset p = record p {
  pacing_rate_bytes_per_sec = 0;
  next_send_time_ms = 0;
  last_update_ms = 0;
  burst_budget_bytes = p.max_burst_bytes;
}
