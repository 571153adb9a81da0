-- ===== src/Ack/Probe.antt =====
-- `PmtuProber` of src/quic/connection/controler/pmtu_prober.cpp. A frame is `none` where it is not
-- an ACK frame.
pub mod Covered
pub mod Limit
mod Tests
use quic_x.Common.{
  ℕ, ◌+◌, ◌%◌, ◌^◌, min, Bool, true, false, not, ◌&&◌, ◌||◌, Option, none, some, List, [], ◌∷◌, ltb,
  leb, ◌==◌, if◌then◌else◌, sub64,
}
use quic_x.Ack.Frame.{AckRange, AckFrame}

pub record PmtuProber : Type 0 where
  pub probe_inflight : Bool
  pub mtu_limit_bytes : ℕ
  pub probe_target_bytes : ℕ
  pub probe_packet_number : ℕ

abbrev pub new_prober : PmtuProber
new_prober = record {
  probe_inflight = false;
  mtu_limit_bytes = 1450;
  probe_target_bytes = 1450;
  probe_packet_number = 0;
}

abbrev pub k_min_initial_packet_size : ℕ
k_min_initial_packet_size = 1200

unfoldable pub start_probe : PmtuProber → PmtuProber
start_probe p = record p {
  probe_target_bytes =
      if ltb p.mtu_limit_bytes 1450 then 1450 else min (p.mtu_limit_bytes + 50) 1500 % 2 ^ 16;
  probe_inflight = true;
}

unfoldable pub on_probe_result : PmtuProber → Bool → PmtuProber
on_probe_result p success = if not p.probe_inflight then p else record p {
  mtu_limit_bytes = if success then p.probe_target_bytes else p.mtu_limit_bytes;
  probe_inflight = false;
}

unfoldable pub reset_for_new_path : PmtuProber → PmtuProber
reset_for_new_path p = record p {
  probe_inflight = false;
  probe_packet_number = 0;
  mtu_limit_bytes = k_min_initial_packet_size;
}

unfoldable pub set_probe_packet_number : PmtuProber → ℕ → PmtuProber
set_probe_packet_number p pn = record p { probe_packet_number = pn }

-- The walk over the further ranges.
unfoldable pub in_ranges : ℕ → ℕ → List AckRange → Bool
in_ranges probe cursor [] = false
in_ranges probe cursor (r ∷ rs) =
    let range_high = sub64 (sub64 cursor r.gap) 2 in
    let range_low = if leb r.range_length range_high then sub64 range_high r.range_length else 0 in
    if leb range_low probe && leb probe range_high then true else in_ranges probe range_low rs

-- Whether a frame acknowledges a number: in the first range, or in a further one.
unfoldable pub in_frame : ℕ → AckFrame → Bool
in_frame probe f =
    let low = sub64 f.largest_acknowledged (f.first_ack_range % 2 ^ 32) in
    if ltb f.largest_acknowledged probe
    then false
    else if leb low probe && leb probe f.largest_acknowledged
    then true
    else in_ranges probe low f.ack_ranges

unfoldable pub check_ack_covers_probe : PmtuProber → Option AckFrame → PmtuProber × Bool
check_ack_covers_probe p frame =
    if not p.probe_inflight || (p.probe_packet_number == 0) then (p, false) else elim frame [
      | none ↦ (p, false)
      | some f ↦
          if in_frame p.probe_packet_number f then (on_probe_result p true, true) else (p, false)
    ]
