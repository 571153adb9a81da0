-- ===== src/Connection/KeyUpdate.antt =====
-- `KeyUpdateTrigger` of src/quic/connection/key_update_trigger.cpp: when the 1-RTT keys are due.
pub mod Threshold
mod Tests
use quic_x.Common.{
  ℕ, ◌*◌, Bool, true, false, not, ◌&&◌, ◌||◌, ltb, leb, if◌then◌else◌, add64, sub64, add32,
}

pub record KeyUpdateTrigger : Type 0 where
  pub enabled : Bool
  pub triggered : Bool
  pub key_update_count : ℕ
  pub bytes_threshold : ℕ
  pub total_bytes_sent : ℕ
  pub pn_threshold : ℕ
  pub last_pn_at_update : ℕ
  pub current_pn : ℕ

abbrev pub k_default_bytes_threshold : ℕ
k_default_bytes_threshold = 512 * 1024

abbrev pub k_default_packet_number_threshold : ℕ
k_default_packet_number_threshold = 1000

abbrev pub new : KeyUpdateTrigger
new = record {
  enabled = false;
  triggered = false;
  key_update_count = 0;
  bytes_threshold = k_default_bytes_threshold;
  total_bytes_sent = 0;
  pn_threshold = k_default_packet_number_threshold;
  last_pn_at_update = 0;
  current_pn = 0;
}

pub on_bytes_sent : KeyUpdateTrigger → ℕ → KeyUpdateTrigger × Bool
on_bytes_sent t bytes_sent =
    if not t.enabled
    then (t, false)
    else (let u : KeyUpdateTrigger = record t {
      total_bytes_sent = add64 t.total_bytes_sent bytes_sent;
    } in
        (u, not u.triggered && leb u.bytes_threshold u.total_bytes_sent))

pub packets_since_update : KeyUpdateTrigger → ℕ
packets_since_update t = sub64 t.current_pn t.last_pn_at_update

pub on_packet_sent : KeyUpdateTrigger → ℕ → KeyUpdateTrigger × Bool
on_packet_sent t packet_number =
    if not t.enabled
    then (t, false)
    else (let u : KeyUpdateTrigger = record t { current_pn = packet_number } in
        (
          u,
          (not u.triggered && ltb 0 u.pn_threshold) && leb u.pn_threshold (packets_since_update u),
        ))

pub should_trigger_key_update : KeyUpdateTrigger → Bool
should_trigger_key_update t =
    if not t.enabled || t.triggered
    then false
    else if ltb 0 t.bytes_threshold && leb t.bytes_threshold t.total_bytes_sent
    then true
    else ltb 0 t.pn_threshold && leb t.pn_threshold (packets_since_update t)

pub mark_triggered : KeyUpdateTrigger → KeyUpdateTrigger
mark_triggered t = record t {
  triggered = true;
  key_update_count = add32 t.key_update_count 1;
  last_pn_at_update = t.current_pn;
}

pub reset : KeyUpdateTrigger → KeyUpdateTrigger
reset t = record t { triggered = false; total_bytes_sent = 0 }
