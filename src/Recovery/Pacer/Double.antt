-- ===== src/Recovery/Pacer/Double.antt =====
-- The pause behind a packet also fills the budget for bursts.
use native.Mathlib.Nat.{mul-add-div, div-eq_of_lt}
use quic_x.Common.{
  ℕ, zero, suc, ◌+◌, ◌-◌, ◌*◌, ◌/◌, ◌^◌, ◌≤◌, ◌<◌, min, ◌≡◌, refl, true, false, Option, none, some,
  List, [], ◌∷◌, arith, ltb, leb, ◌==◌, if◌then◌else◌, length, add64, sub64, mul64,
}
use quic_x.Recovery.Pacer.{can_send_now, refill_burst_budget, spend, on_packet_sent, NormalPacer}

-- A sender that asks the pacer before each packet, given as its time and its bytes. `none`: the
-- pacer does not let one go.
pub send_all_paced : NormalPacer → List (ℕ × ℕ) → Option NormalPacer
send_all_paced p [] = some p
send_all_paced p ((time, bytes) ∷ xs) =
    let more = send_all_paced (on_packet_sent p time bytes) xs in
    if can_send_now p time then more else none

-- A pacer with no budget that may send from `time` on.
abbrev pub spent : ℕ → ℕ → ℕ → NormalPacer
spent rate max_burst time = record {
  pacing_rate_bytes_per_sec = rate;
  next_send_time_ms = time;
  last_update_ms = time;
  max_burst_bytes = max_burst;
  burst_budget_bytes = 0;
}

-- Two packets in every interval of `d` milliseconds.
pub two_each : ℕ → ℕ → ℕ → ℕ → List (ℕ × ℕ)
two_each zero time d bytes = []
two_each (suc k) time d bytes = (time, bytes) ∷ (time + d, bytes) ∷ two_each k (time + d) d bytes

-- What the first packet leaves: a pause of `d`.
first_of_round :
    (rate max_burst time d bytes : ℕ)
    → 0 < time
    → 0 < bytes
    → 0 < rate
    → (bytes * 1000 + rate - 1) / rate ≡ d
    → bytes * 1000 + rate < 2 ^ 64
    → time + d < 2 ^ 64
    → on_packet_sent (spent rate max_burst time) time bytes
      ≡ record (spent rate max_burst time) { next_send_time_ms = time + d }
unfolding on_packet_sent refill_burst_budget spend
first_of_round rate max_burst time d bytes t b r c o l =
    let product : mul64 bytes 1000 ≡ bytes * 1000 = omega arith in
    let sum : sub64 (add64 (bytes * 1000) rate) 1 ≡ bytes * 1000 + rate - 1 = omega arith in
    let over : leb bytes 0 ≡ false = ground arith in
    let some_rate : ltb 0 rate ≡ true = ground arith in
    let no_rate : (rate == 0) ≡ false = ground arith in
    let no_time : (time == 0) ≡ false = ground arith in
    let elapsed : sub64 time time ≡ 0 = omega arith in
    let end : add64 time d ≡ time + d = omega arith in
    rw no_time
      (rw no_rate (rw elapsed (rw over (rw some_rate (rw product (rw sum (rw c (rw end refl))))))))

-- What the second one leaves: the pause has filled the budget with as many bytes as it takes.
second_of_round :
    (rate max_burst time d bytes : ℕ)
    → 0 < time
    → 0 < d
    → 0 < rate
    → bytes ≤ max_burst
    → rate * d ≡ bytes * 1000
    → bytes * 1000 + rate < 2 ^ 64
    → time + d < 2 ^ 64
    → on_packet_sent
        (record (spent rate max_burst time) { next_send_time_ms = time + d })
        (time + d)
        bytes
      ≡ spent rate max_burst (time + d)
unfolding on_packet_sent refill_burst_budget spend
second_of_round rate max_burst time d bytes t dp r m e o l =
    let no_rate : (rate == 0) ≡ false = ground arith in
    let no_time : (time == 0) ≡ false = ground arith in
    let elapsed : sub64 (time + d) time ≡ d = omega arith in
    let no_d : (d == 0) ≡ false = ground arith in
    let product : mul64 rate d ≡ bytes * 1000 = omega arith in
    let refill : add64 0 (bytes * 1000 / 1000) ≡ bytes = omega arith in
    let least : min max_burst bytes ≡ bytes = omega arith in
    let enough : leb bytes bytes ≡ true = ground arith in
    let nothing : sub64 bytes bytes ≡ 0 = omega arith in
    rw no_time (
      rw no_rate
        (rw elapsed (rw no_d (rw product (rw refill (rw least (rw enough (rw nothing refl))))))))

one_round :
    (rate max_burst time d bytes : ℕ) (xs : List (ℕ × ℕ))
    → 0 < time
    → 0 < d
    → 0 < bytes
    → bytes ≤ max_burst
    → rate * d ≡ bytes * 1000
    → 0 < rate
    → (bytes * 1000 + rate - 1) / rate ≡ d
    → bytes * 1000 + rate < 2 ^ 64
    → time + d < 2 ^ 64
    → send_all_paced (spent rate max_burst time) ((time, bytes) ∷ (time + d, bytes) ∷ xs)
      ≡ send_all_paced (spent rate max_burst (time + d)) xs
unfolding send_all_paced can_send_now
one_round rate max_burst time d bytes xs t dp b m e r c o l =
    let one = first_of_round rate max_burst time d bytes t b r c o l in
    let two = second_of_round rate max_burst time d bytes t dp r m e o l in
    let no_rate : (rate == 0) ≡ false = ground arith in
    let now : leb time time ≡ true = ground arith in
    let later : leb (time + d) (time + d) ≡ true = ground arith in
    rw one (rw two (rw no_rate (rw now (rw later refl))))

-- A packet that takes `d` milliseconds exactly is given that pause.
exact_pause : (rate d n : ℕ) → rate * d ≡ n → 0 < rate → (n + rate - 1) / rate ≡ d
exact_pause rate d n e r =
    let shape : n + rate - 1 ≡ rate * d + (rate - 1) = omega arith in
    let whole = mul-add-div r d (rate - 1) in
    let part : (rate - 1) / rate ≡ 0 = div-eq_of_lt (omega arith) in
    rw shape (rw whole (rw part (omega arith)))

rounds :
    (k rate max_burst time d bytes : ℕ)
    → 0 < time
    → 0 < d
    → 0 < bytes
    → bytes ≤ max_burst
    → rate * d ≡ bytes * 1000
    → 0 < rate
    → (bytes * 1000 + rate - 1) / rate ≡ d
    → bytes * 1000 + rate < 2 ^ 64
    → time + k * d < 2 ^ 64
    → send_all_paced (spent rate max_burst time) (two_each k time d bytes)
      ≡ some (spent rate max_burst (time + k * d))
unfolding two_each send_all_paced
rounds zero rate max_burst time d bytes t dp b m e r c o l =
    let end : time + 0 * d ≡ time = omega arith in rw end refl
rounds (suc k) rate max_burst time d bytes t dp b m e r c o l =
    let split : time + suc k * d ≡ time + d + k * d = ground arith in
    let ih =
      rounds k rate max_burst (time + d) d bytes (omega arith) dp b m e r c o (omega arith) in
    rw
      (one_round rate max_burst time d bytes (two_each k (time + d) d bytes) t dp b m e r c o
        (omega arith))
      (rw split ih)

length-two_each : (k time d bytes : ℕ) → length (two_each k time d bytes) ≡ 2 * k
unfolding two_each
length-two_each zero time d bytes = refl
length-two_each (suc k) time d bytes = ground (arith, length-two_each k (time + d) d bytes)

-- A pacer whose rate lets `bytes` pass in `d` milliseconds exactly, with its budget for bursts used
-- up, lets two packets of that size go in every `d` milliseconds, for as long as wanted, `k` times:
-- twice the rate. The burst is as large as a packet at least, and the numbers stay below 2^64.
pub send_all_paced-two_each :
    (k rate max_burst time d bytes : ℕ)
    → 0 < time
    → 0 < d
    → 0 < bytes
    → bytes ≤ max_burst
    → rate * d ≡ bytes * 1000
    → 0 < rate
    → bytes * 1000 + rate < 2 ^ 64
    → time + k * d < 2 ^ 64
    → (send_all_paced (spent rate max_burst time) (two_each k time d bytes)
        ≡ some (spent rate max_burst (time + k * d)))
      × (length (two_each k time d bytes) ≡ 2 * k)
send_all_paced-two_each k rate max_burst time d bytes t dp b m e r o l = (
  rounds k rate max_burst time d bytes t dp b m e r (exact_pause rate d (bytes * 1000) e r) o l,
  length-two_each k time d bytes,
)
