-- ===== src/Connection/AntiAmplification/Tests.antt =====
-- Runs.
use quic_x.Connection.AntiAmplification.Limit.{Traffic}
use quic_x.Common.{◌≡◌, refl, true, u64_max}
use quic_x.Connection.AntiAmplification.{new, get_remaining_budget, AntiAmplificationController}

-- The budget of a validated address is the largest number.
budget_validated : get_remaining_budget new ≡ u64_max
unfolding get_remaining_budget
budget_validated = refl

abbrev unvalidated : AntiAmplificationController
unvalidated = record { is_unvalidated = true; sent_bytes = 100; received_bytes = 1200 }

abbrev before : Traffic
before = record { sent = 100; received = 1200 }

used_up : get_remaining_budget (record unvalidated { sent_bytes = 3600 }) ≡ 0
unfolding get_remaining_budget
used_up = refl
