-- ===== src/Connection/AntiAmplification.antt =====
-- `AntiAmplificationController` of
-- src/quic/connection/controler/anti_amplification_controller.cpp. `near_threshold` is the cut of
-- `max_allowed * kNearLimitThreshold` to an integer, which the code computes on a `double`.
pub mod Limit
mod Tests
use quic_x.Common.{
  ℕ, ◌-◌, Bool, true, false, not, ◌||◌, leb, ◌==◌, if◌then◌else◌, u64_max, add64, mul64,
}

abbrev pub k_amplification_factor : ℕ
k_amplification_factor = 3

pub record AntiAmplificationController : Type 0 where
  pub is_unvalidated : Bool
  pub sent_bytes : ℕ
  pub received_bytes : ℕ

abbrev pub new : AntiAmplificationController
new = record { is_unvalidated = false; sent_bytes = 0; received_bytes = 0 }

pub enter_unvalidated_state : AntiAmplificationController → ℕ → AntiAmplificationController
enter_unvalidated_state c initial_credit = record {
  is_unvalidated = true;
  sent_bytes = 0;
  received_bytes = initial_credit;
}

pub exit_unvalidated_state : AntiAmplificationController → AntiAmplificationController
exit_unvalidated_state c =
    if not c.is_unvalidated
    then c
    else record { is_unvalidated = false; sent_bytes = 0; received_bytes = 0 }

pub on_bytes_received : AntiAmplificationController → ℕ → AntiAmplificationController
on_bytes_received c bytes =
    if not c.is_unvalidated then c else record c { received_bytes = add64 c.received_bytes bytes }

pub on_bytes_sent : AntiAmplificationController → ℕ → AntiAmplificationController
on_bytes_sent c bytes =
    if not c.is_unvalidated then c else record c { sent_bytes = add64 c.sent_bytes bytes }

pub can_send : AntiAmplificationController → ℕ → Bool
can_send c bytes =
    if not c.is_unvalidated
    then true
    else leb (add64 c.sent_bytes bytes) (mul64 c.received_bytes k_amplification_factor)

pub get_remaining_budget : AntiAmplificationController → ℕ
get_remaining_budget c =
    if not c.is_unvalidated
    then u64_max
    else (let max_allowed = mul64 c.received_bytes k_amplification_factor in
        if leb max_allowed c.sent_bytes then 0 else max_allowed - c.sent_bytes)

pub is_near_limit : (ℕ → ℕ) → AntiAmplificationController → Bool
is_near_limit near_threshold c =
    if not c.is_unvalidated || c.received_bytes == 0
    then false
    else leb (near_threshold (mul64 c.received_bytes k_amplification_factor)) c.sent_bytes

pub reset : AntiAmplificationController → AntiAmplificationController
reset c = record c { sent_bytes = 0; received_bytes = 0 }
