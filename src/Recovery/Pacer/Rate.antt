-- ===== src/Recovery/Pacer/Rate.antt =====
-- How fast the pacer lets packets go.
use quic_x.Common.{
  ℕ, ◌+◌, ◌-◌, ◌*◌, ◌/◌, ◌^◌, ◌≤◌, ◌<◌, ◌≡◌, refl, true, false, ◌||◌, List, [], ◌∷◌, arith, ltb,
  leb, ◌==◌, add64, sub64, mul64,
}
use quic_x.Recovery.Pacer.{
  new_pacer, on_pacing_rate_updated, can_send_now, time_until_send, refill_burst_budget, spend,
  on_packet_sent, reset, NormalPacer,
}

-- The calls that change the pacer.
pub data PacerCall : Type 0 where
  updates_rate : ℕ → PacerCall
  sends : ℕ → ℕ → PacerCall
  resets : PacerCall

pub pace : NormalPacer → PacerCall → NormalPacer
pace p (updates_rate rate) = on_pacing_rate_updated p rate
pace p (sends time bytes) = on_packet_sent p time bytes
pace p resets = reset p

pub pace_all : NormalPacer → List PacerCall → NormalPacer
pace_all p [] = p
pace_all p (x ∷ xs) = pace_all (pace p x) xs

refill_burst_budget-le :
    (p : NormalPacer) (now : ℕ)
    → p.burst_budget_bytes ≤ p.max_burst_bytes
    → p.max_burst_bytes < 2 ^ 64
    → ((refill_burst_budget p now).burst_budget_bytes ≤ p.max_burst_bytes)
      × ((refill_burst_budget p now).max_burst_bytes ≡ p.max_burst_bytes)
unfolding refill_burst_budget
refill_burst_budget-le p now h m = ground arith

pace-le :
    (p : NormalPacer) (x : PacerCall)
    → p.burst_budget_bytes ≤ p.max_burst_bytes
    → p.max_burst_bytes < 2 ^ 64
    → ((pace p x).burst_budget_bytes ≤ p.max_burst_bytes)
      × ((pace p x).max_burst_bytes ≡ p.max_burst_bytes)
unfolding pace on_pacing_rate_updated on_packet_sent reset spend
pace-le p (updates_rate rate) h m = ground arith
pace-le p (sends time bytes) h m = ground (arith, refill_burst_budget-le p time)
pace-le p resets h m = ground arith

pace_all_le :
    (p : NormalPacer) (xs : List PacerCall)
    → p.burst_budget_bytes ≤ p.max_burst_bytes
    → p.max_burst_bytes < 2 ^ 64
    → (pace_all p xs).burst_budget_bytes ≤ p.max_burst_bytes
unfolding pace_all
pace_all_le p [] h m = h
pace_all_le p (x ∷ xs) h m =
    let (l, e) = pace-le p x h m in
    let ih = pace_all_le (pace p x) xs (omega arith) (omega arith) in omega arith

-- After any calls on a new pacer, the budget for bursts is 256 KiB at most.
pub pace_all-budget :
    (xs : List PacerCall) → (pace_all new_pacer xs).burst_budget_bytes ≤ 256 * 1024
pace_all-budget xs = pace_all_le new_pacer xs (omega arith) (omega arith)

rate-refill :
    (p : NormalPacer) (now : ℕ)
    → (refill_burst_budget p now).pacing_rate_bytes_per_sec ≡ p.pacing_rate_bytes_per_sec
unfolding refill_burst_budget
rate-refill p now = ground arith

spend_waits :
    (q : NormalPacer) (rate time bytes now : ℕ)
    → q.pacing_rate_bytes_per_sec ≡ rate
    → 0 < rate
    → q.burst_budget_bytes < bytes
    → bytes * 1000 + rate < 2 ^ 64
    → time + (bytes * 1000 + rate - 1) / rate < 2 ^ 64
    → can_send_now (spend q time bytes) now ≡ leb (time + (bytes * 1000 + rate - 1) / rate) now
unfolding can_send_now spend
spend_waits q rate time bytes now e r b o t =
    let product : mul64 bytes 1000 ≡ bytes * 1000 = omega arith in
    let sum : sub64 (add64 (bytes * 1000) rate) 1 ≡ bytes * 1000 + rate - 1 = omega arith in
    let over : leb bytes q.burst_budget_bytes ≡ false = ground arith in
    let some_rate : ltb 0 rate ≡ true = ground arith in
    let no_zero : (rate == 0) ≡ false = ground arith in
    let end : add64 time ((bytes * 1000 + rate - 1) / rate)
        ≡ time + (bytes * 1000 + rate - 1) / rate =
      omega arith in
    rw over (rw e (rw some_rate (rw no_zero (rw product (rw sum (rw end refl))))))

-- A packet that is larger than the budget that its time has refilled is followed by a pause: the
-- pacer lets the next one go when the packet's bytes, at the pacing rate and rounded up to whole
-- milliseconds, have passed, and not before. The products and sums stay below 2^64.
pub can_send_now-on_packet_sent :
    (p : NormalPacer) (time bytes now : ℕ)
    → 0 < p.pacing_rate_bytes_per_sec
    → (refill_burst_budget p time).burst_budget_bytes < bytes
    → bytes * 1000 + p.pacing_rate_bytes_per_sec < 2 ^ 64
    → time + (bytes * 1000 + p.pacing_rate_bytes_per_sec - 1) / p.pacing_rate_bytes_per_sec < 2 ^ 64
    → can_send_now (on_packet_sent p time bytes) now
      ≡ leb
          (time + (bytes * 1000 + p.pacing_rate_bytes_per_sec - 1) / p.pacing_rate_bytes_per_sec)
          now
unfolding on_packet_sent
can_send_now-on_packet_sent p time bytes now r b o t =
    spend_waits (refill_burst_budget p time) p.pacing_rate_bytes_per_sec time bytes now
      (rate-refill p time) r b o t

-- The pacer's two answers agree: a packet may go now exactly when there is a budget for bursts or
-- no time is left until the next one, for times below 2^64.
pub can_send_now-time_until_send :
    (p : NormalPacer) (now : ℕ)
    → now < 2 ^ 64
    → p.next_send_time_ms < 2 ^ 64
    → can_send_now p now ≡ (ltb 0 p.burst_budget_bytes || time_until_send p now == 0)
unfolding can_send_now time_until_send
can_send_now-time_until_send p now h g = ground arith
