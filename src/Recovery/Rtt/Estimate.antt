-- ===== src/Recovery/Rtt/Estimate.antt =====
-- The estimates stay among the samples.
use quic_x.Common.{
  ℕ, ◌+◌, ◌-◌, ◌≤◌, ◌<◌, min, ◌≡◌, ◌⊎◌, inl, inr, false, List, [], ◌∷◌, arith, ◌==◌, IsU32, IsU64,
}
use quic_x.Recovery.Rtt.{
  sample, adjusted_rtt, smooth, vary, update_next, update_first, update_rtt, RttCalculator,
}

-- The adjusted sample is no less than the minimum and no more than the sample.
pub adjusted_rtt_bounds :
    (latest least ack_delay : ℕ)
    → least ≤ latest
    → IsU32 latest
    → IsU64 (least + ack_delay)
    → (least ≤ adjusted_rtt latest least ack_delay) × (adjusted_rtt latest least ack_delay ≤ latest)
unfolding adjusted_rtt
adjusted_rtt_bounds latest least ack_delay h hl hd = ground arith

-- The moving average of two values lies between them.
pub smooth_bounds :
    (low high s a : ℕ)
    → low ≤ s
    → low ≤ a
    → s ≤ high
    → a ≤ high
    → IsU32 high
    → (low ≤ smooth s a) × (smooth s a ≤ high)
unfolding smooth
smooth_bounds low high s a ls la sh ah h = omega arith

-- The estimates of a calculator that has had a sample.
pub record IsSound (high : ℕ) (r : RttCalculator) : Type 0 where
  pub started : 0 < r.last_update_time
  pub least : r.min_rtt ≤ r.smoothed_rtt
  pub latest : r.min_rtt ≤ r.latest_rtt
  pub most : r.smoothed_rtt ≤ high
  pub latest_most : r.latest_rtt ≤ high
  pub var_most : r.rtt_var ≤ high

-- A sample as the connection takes it: the packet was sent before it is acknowledged, no longer
-- ago than `high`, and the delay that the peer reports is a `uint32_t`.
pub record IsSample (high send_time now ack_delay : ℕ) : Type 0 where
  pub order : send_time ≤ now
  pub recent : now ≤ send_time + high
  pub clock : IsU64 now
  pub positive : 0 < now
  pub delay : IsU32 ack_delay

update_first-IsSound :
    (r : RttCalculator) (latest now high : ℕ)
    → latest ≤ high
    → 0 < now
    → IsSound high (record (update_first r latest) { last_update_time = now })
unfolding update_first
update_first-IsSound r latest now high h hn = omega arith

vary-le : (high v s a : ℕ) → v ≤ high → s ≤ high → a ≤ high → IsU32 high → vary v s a ≤ high
unfolding vary
vary-le high v s a hv hs ha h = ground arith

update_next-IsSound :
    (r : RttCalculator) (latest ack_delay now high : ℕ)
    → IsU32 high
    → latest ≤ high
    → IsU32 ack_delay
    → 0 < now
    → IsSound high r
    → IsSound high (record (update_next r latest ack_delay) { last_update_time = now })
unfolding update_next
update_next-IsSound r latest ack_delay now high h hl hd hn v =
    let least = min r.min_rtt latest in
    let (alo, ahi) =
      adjusted_rtt_bounds latest least ack_delay (omega arith) (omega arith) (omega arith) in
    let adjusted = adjusted_rtt latest least ack_delay in
    let (slo, shi) =
      smooth_bounds least high r.smoothed_rtt adjusted (omega arith) alo v.most (omega arith) h in
    record {
      started = hn;
      least = slo;
      latest = omega arith;
      most = shi;
      latest_most = hl;
      var_most =
          vary-le high r.rtt_var (smooth r.smoothed_rtt adjusted) adjusted v.var_most shi
            (omega arith) h;
    }

pub sample_lem :
    (high send_time now ack_delay : ℕ)
    → IsU32 high
    → IsSample high send_time now ack_delay
    → sample send_time now ≡ now - send_time
unfolding sample
sample_lem high send_time now ack_delay h v = omega arith

-- The first sample, and every one after it.
abbrev pub IsFresh : RttCalculator → Type 0
IsFresh r = r.last_update_time ≡ 0

pub update_rtt-IsSound :
    (high : ℕ) (r : RttCalculator) (send_time now ack_delay : ℕ)
    → IsU32 high
    → IsSample high send_time now ack_delay
    → IsFresh r ⊎ IsSound high r
    → IsSound high (update_rtt r send_time now ack_delay)
unfolding update_rtt update_first
update_rtt-IsSound high r send_time now ack_delay h v (inl fresh) = rw fresh (
    update_first-IsSound r (sample send_time now) now high
      (omega (arith, sample_lem high send_time now ack_delay h v)) v.positive)
update_rtt-IsSound high r send_time now ack_delay h v (inr sound) =
    rw (not_first r.last_update_time sound.started) (
      update_next-IsSound r (sample send_time now) ack_delay now high h
        (omega (arith, sample_lem high send_time now ack_delay h v)) v.delay v.positive sound)
  where
    not_first : (t : ℕ) → 0 < t → (t == 0) ≡ false
    not_first t p = ground arith

-- The samples of a connection: the time of sending, the time of the acknowledgement, the delay.
unfoldable pub update_all : RttCalculator → List (ℕ × ℕ × ℕ) → RttCalculator
update_all r [] = r
update_all r ((send_time, now, ack_delay) ∷ ss) =
    update_all (update_rtt r send_time now ack_delay) ss

abbrev pub AreSamples : ℕ → List (ℕ × ℕ × ℕ) → Type 0
AreSamples high [] = Unit {0}
AreSamples high ((send_time, now, ack_delay) ∷ ss) =
    IsSample high send_time now ack_delay × AreSamples high ss

update_all-IsSound_from :
    (high : ℕ) (r : RttCalculator) (ss : List (ℕ × ℕ × ℕ))
    → IsU32 high
    → AreSamples high ss
    → IsSound high r
    → IsSound high (update_all r ss)
unfolding update_all
update_all-IsSound_from high r [] h vs s = s
update_all-IsSound_from high r ((send_time, now, ack_delay) ∷ ss) h (v, vs) s =
    update_all-IsSound_from high (update_rtt r send_time now ack_delay) ss h vs
      (update_rtt-IsSound high r send_time now ack_delay h v (inr s))

-- After one sample or more, none of them above `high`, the smoothed round-trip time and the latest
-- one lie between the minimum and `high`, and the variation is at most `high`.
pub update_all-IsSound :
    (high : ℕ) (r : RttCalculator) (s : ℕ × ℕ × ℕ) (ss : List (ℕ × ℕ × ℕ))
    → IsU32 high
    → IsFresh r
    → AreSamples high (s ∷ ss)
    → IsSound high (update_all r (s ∷ ss))
unfolding update_all
update_all-IsSound high r (send_time, now, ack_delay) ss h fresh (v, vs) =
    update_all-IsSound_from high (update_rtt r send_time now ack_delay) ss h vs
      (update_rtt-IsSound high r send_time now ack_delay h v (inl fresh))
