-- ===== src/Recovery/Pacer/Tests.antt =====
-- The pacer at work.
use quic_x.Common.{◌+◌, ◌*◌, ◌<◌, ◌≡◌, refl, some, arith, length}
use quic_x.Recovery.Pacer.{refill_burst_budget}
use quic_x.Recovery.Pacer.Double.{send_all_paced, spent, two_each, send_all_paced-two_each}

refilled : (refill_burst_budget (spent 1200000 262144 5) 5).burst_budget_bytes < 1200
unfolding refill_burst_budget
refilled = ground arith

send_all_paced-two_each_example :
    (send_all_paced (spent 1200000 262144 5) (two_each 100 5 1 1200)
      ≡ some (spent 1200000 262144 (5 + 100 * 1)))
    × (length (two_each 100 5 1 1200) ≡ 2 * 100)
send_all_paced-two_each_example =
    send_all_paced-two_each 100 1200000 262144 5 1 1200 (omega arith) (omega arith) (omega arith)
      (omega arith) refl (omega arith) (omega arith) (omega arith)
