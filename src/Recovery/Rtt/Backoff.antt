-- ===== src/Recovery/Rtt/Backoff.antt =====
-- The probe timeout and its exponential backoff.
use native.Mathlib.Nat.{mod-eq_of_lt}
use quic_x.Common.{ℕ, zero, suc, ◌+◌, ◌*◌, ◌^◌, ◌≤◌, ◌<◌, min, max, ◌≡◌, refl, ap, ◌∙◌, arith}
use quic_x.Recovery.Rtt.{
  k_max_pto_backoff, get_pto_interval, get_pto_with_backoff, on_pto_expired, on_packet_acked,
  RttCalculator,
}

pub expire : ℕ → RttCalculator → RttCalculator
expire zero r = r
expire (suc n) r = expire n (on_pto_expired r)

expire_counts :
    (n : ℕ) (r : RttCalculator)
    → r.pto_count ≤ k_max_pto_backoff
    → r.consecutive_pto_count + n < 2 ^ 32
    → ((expire n r).pto_count ≡ min (r.pto_count + n) k_max_pto_backoff)
      × ((expire n r).consecutive_pto_count ≡ r.consecutive_pto_count + n)
      × ((expire n r).smoothed_rtt ≡ r.smoothed_rtt)
      × ((expire n r).rtt_var ≡ r.rtt_var)
unfolding expire on_pto_expired
expire_counts zero r h c = omega arith
expire_counts (suc n) r h c = ground (arith, expire_counts n (on_pto_expired r))

-- The timeout before the backoff, without wrapping.
abbrev pub base : RttCalculator → ℕ → ℕ
base r max_ack_delay = r.smoothed_rtt + max (r.rtt_var * 4) 1 + max_ack_delay

get_pto_interval_lem :
    (r : RttCalculator) (d : ℕ) → base r d < 2 ^ 32 → get_pto_interval r d ≡ base r d
unfolding get_pto_interval
get_pto_interval_lem r d h = omega arith

pow-le-64 : (k : ℕ) → k ≤ 6 → 2 ^ k ≤ 64
pow-le-64 zero h = omega arith
pow-le-64 (suc zero) h = omega arith
pow-le-64 (suc (suc zero)) h = omega arith
pow-le-64 (suc (suc (suc zero))) h = omega arith
pow-le-64 (suc (suc (suc (suc zero)))) h = omega arith
pow-le-64 (suc (suc (suc (suc (suc zero))))) h = omega arith
pow-le-64 (suc (suc (suc (suc (suc (suc zero)))))) h = omega arith
pow-le-64 (suc (suc (suc (suc (suc (suc (suc k))))))) h = absurd (omega arith)

shifted-lt : (b k : ℕ) → k ≤ 6 → b * 64 < 2 ^ 32 → b * 2 ^ k < 2 ^ 32
shifted-lt b k hk h = grind (arith, pow-le-64 k hk)

get_pto_with_backoff_lem :
    (r : RttCalculator) (d k : ℕ)
    → r.pto_count ≡ k
    → k ≤ 6
    → base r d * 64 < 2 ^ 32
    → get_pto_with_backoff r d ≡ base r d * 2 ^ k
unfolding get_pto_with_backoff
get_pto_with_backoff_lem r d k e hk h =
    let m : min r.pto_count 6 ≡ k = omega arith in
    rw (m, get_pto_interval_lem r d (omega arith)) (mod-eq_of_lt (shifted-lt (base r d) k hk h))

-- After an acknowledgement and `n` expiries in a row the probe timeout is the base timeout, doubled
-- `n` times but at most six times, and the expiries are counted, as long as 64 times the base fits
-- a `uint32_t`; another acknowledgement brings the base back.
pub backoff_lem :
    (n d : ℕ) (r : RttCalculator)
    → n < 2 ^ 32
    → base r d * 64 < 2 ^ 32
    → let s = expire n (on_packet_acked r) in
      (get_pto_with_backoff s d ≡ base r d * 2 ^ min n k_max_pto_backoff)
      × (s.consecutive_pto_count ≡ n)
      × (get_pto_with_backoff (on_packet_acked s) d ≡ base r d)
unfolding on_packet_acked
backoff_lem n d r hn hb =
    let s = expire n (on_packet_acked r) in
    let (hp, hc, hs, hv) = expire_counts n (on_packet_acked r) (omega arith) (omega arith) in
    let same : base s d ≡ base r d = omega arith in
    (
      get_pto_with_backoff_lem s d (min n 6) (omega arith) (omega arith) (omega arith)
          ∙ ap (λ (x : ℕ). x * 2 ^ min n 6) same,
      omega arith,
      get_pto_with_backoff_lem (on_packet_acked s) d 0 refl (omega arith) (omega arith)
          ∙ omega arith,
    )
