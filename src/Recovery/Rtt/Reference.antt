-- ===== src/Recovery/Rtt/Reference.antt =====
-- The estimates of `RttCalculator` against those of RFC 9002, section 5.3, on numbers that have no
-- largest one, with weights of 1/8 and 1/4.
use quic_x.Recovery.Rtt.Estimate.{
  adjusted_rtt_bounds, smooth_bounds, sample_lem, IsFresh, update_rtt-IsSound, update_all,
  AreSamples, update_all-IsSound, IsSound, IsSample,
}
use quic_x.Recovery.Rtt.{
  adjusted_rtt, smooth, vary, update_next, update_first, update_rtt, RttCalculator,
}
use quic_x.Common.{
  ℕ, ◌+◌, ◌-◌, ◌/◌, ◌≤◌, min, ◌≡◌, refl, ap, ◌∙◌, inl, inr, false, List, [], ◌∷◌, arith, leb, ◌==◌,
  if◌then◌else◌, IsU32, IsU64,
}

pub record Estimates : Type 0 where
  pub least : ℕ
  pub smoothed : ℕ
  pub variation : ℕ

abbrev pub distance : ℕ → ℕ → ℕ
distance x y = (x - y) + (y - x)

abbrev pub without_delay : ℕ → ℕ → ℕ → ℕ
without_delay least time delay = if leb (least + delay) time then time - delay else time

abbrev pub first_estimate : ℕ → Estimates
first_estimate time = record { least = time; smoothed = time; variation = time / 2 }

abbrev pub next_estimate : Estimates → ℕ → ℕ → Estimates
next_estimate e time delay =
    let least = min e.least time in
    let adjusted = without_delay least time delay in
    let smoothed = e.smoothed - e.smoothed / 8 + adjusted / 8 in
    record {
      least = least;
      smoothed = smoothed;
      variation = e.variation - e.variation / 4 + distance smoothed adjusted / 4;
    }

pub estimates : Estimates → List (ℕ × ℕ × ℕ) → Estimates
estimates e [] = e
estimates e ((send_time, now, ack_delay) ∷ ss) =
    estimates (next_estimate e (now - send_time) ack_delay) ss

-- What the calculator holds of them.
abbrev pub held : RttCalculator → Estimates
held r = record { least = r.min_rtt; smoothed = r.smoothed_rtt; variation = r.rtt_var }

adjusted_rtt-eq :
    (latest least ack_delay : ℕ)
    → IsU32 latest
    → IsU64 (least + ack_delay)
    → adjusted_rtt latest least ack_delay ≡ without_delay least latest ack_delay
unfolding adjusted_rtt
adjusted_rtt-eq latest least ack_delay hl hd = ground arith

smooth-eq : (s a : ℕ) → IsU32 s → IsU32 a → smooth s a ≡ s - s / 8 + a / 8
unfolding smooth
smooth-eq s a hs ha = omega arith

vary-eq : (v s a : ℕ) → IsU32 v → IsU32 s → IsU32 a → vary v s a ≡ v - v / 4 + distance s a / 4
unfolding vary
vary-eq v s a hv hs ha = ground arith

update_next-held :
    (high : ℕ) (r : RttCalculator) (latest ack_delay now : ℕ)
    → IsU32 high
    → latest ≤ high
    → IsU32 ack_delay
    → IsSound high r
    → held (record (update_next r latest ack_delay) { last_update_time = now })
      ≡ next_estimate (held r) latest ack_delay
unfolding update_next
update_next-held high r latest ack_delay now h hl hd v =
    let least = min r.min_rtt latest in
    let adjusted = adjusted_rtt latest least ack_delay in
    let m = v.most in
    let vm = v.var_most in
    let low = v.least in
    let (alo, ahi) =
      adjusted_rtt_bounds latest least ack_delay (omega arith) (omega arith) (omega arith) in
    let (slo, shi) =
      smooth_bounds least high r.smoothed_rtt adjusted (omega arith) alo m (omega arith) h in
    let e1 = adjusted_rtt-eq latest least ack_delay (omega arith) (omega arith) in
    let e2 = smooth-eq r.smoothed_rtt adjusted (omega arith) (omega arith) in
    let e3 =
      vary-eq r.rtt_var (smooth r.smoothed_rtt adjusted) adjusted (omega arith) (omega arith)
        (omega arith) in
    rw (e3, e2, e1) refl

update_rtt-held :
    (high : ℕ) (r : RttCalculator) (send_time now ack_delay : ℕ)
    → IsU32 high
    → IsSample high send_time now ack_delay
    → IsSound high r
    → held (update_rtt r send_time now ack_delay)
      ≡ next_estimate (held r) (now - send_time) ack_delay
unfolding update_rtt
update_rtt-held high r send_time now ack_delay h v w =
    let started : (r.last_update_time == 0) ≡ false = (let p = w.started in ground arith) in
    let e = sample_lem high send_time now ack_delay h v in
    let recent = v.recent in
    rw (started, e)
      (update_next-held high r (now - send_time) ack_delay now h (omega arith) v.delay w)

estimates_from :
    (high : ℕ) (r : RttCalculator) (ss : List (ℕ × ℕ × ℕ))
    → IsU32 high
    → AreSamples high ss
    → IsSound high r
    → held (update_all r ss) ≡ estimates (held r) ss
unfolding update_all estimates
estimates_from high r [] h vs w = refl
estimates_from high r ((send_time, now, ack_delay) ∷ ss) h (v, vs) w =
    estimates_from high (update_rtt r send_time now ack_delay) ss h vs
      (update_rtt-IsSound high r send_time now ack_delay h v (inr w))
    ∙ ap (λ e. estimates e ss) (update_rtt-held high r send_time now ack_delay h v w)

update_first-held :
    (r : RttCalculator) (latest now : ℕ)
    → held (record (update_first r latest) { last_update_time = now }) ≡ first_estimate latest
unfolding update_first
update_first-held r latest now = refl

-- After a first sample since the last reset and any others, for packets sent no later than they are
-- acknowledged and at most `high` before, at times of 64 bits other than 0, with delays of 32 bits and
-- `high` of 32 bits too, the calculator holds exactly the estimates computed without any bound on the numbers: the least time,
-- the average with weight 1/8 of the times less the delay, and the variation with weight 1/4. The
-- smoothed and the latest time lie between the least one and `high`, and the variation is at most
-- `high`.
pub update_all-estimates :
    (high : ℕ) (r : RttCalculator) (send_time now ack_delay : ℕ) (ss : List (ℕ × ℕ × ℕ))
    → IsU32 high
    → IsFresh r
    → AreSamples high ((send_time, now, ack_delay) ∷ ss)
    → (held (update_all r ((send_time, now, ack_delay) ∷ ss))
        ≡ estimates (first_estimate (now - send_time)) ss)
      × IsSound high (update_all r ((send_time, now, ack_delay) ∷ ss))
unfolding update_all update_rtt update_first
update_all-estimates high r send_time now ack_delay ss h fresh (v, vs) =
    let w = update_rtt-IsSound high r send_time now ack_delay h v (inl fresh) in
    let e = sample_lem high send_time now ack_delay h v in
    let first : held (update_rtt r send_time now ack_delay) ≡ first_estimate (now - send_time) =
      rw (fresh, e) (update_first-held r (now - send_time) now) in
    (
      estimates_from high (update_rtt r send_time now ack_delay) ss h vs w
          ∙ ap (λ k. estimates k ss) first,
      update_all-IsSound high r (send_time, now, ack_delay) ss h fresh (v, vs),
    )
