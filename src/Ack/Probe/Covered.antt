-- ===== src/Ack/Probe/Covered.antt =====
-- Which numbers the prober finds in the frames that a receiver builds.
use quic_x.Common.{
  ℕ, zero, suc, ◌+◌, ◌-◌, ◌%◌, ◌^◌, ◌≤◌, ◌<◌, ◌≡◌, refl, ◌∙◌, Bool, true, false, ◌&&◌, Option, some,
  List, [], ◌∷◌, ◌++◌, arith, leb, ◌==◌, if◌then◌else◌, ◌>>=◌, sub64,
}
use quic_x.Ack.Recv.{space_of, erase_all, ranges_of, frame_of, may_generate_ack_frame, RecvControl}
use quic_x.Ack.Recv.Set.{Falls, erase_all-append}
use quic_x.Codec.PacketNumber.{PacketNumberSpace}
use quic_x.Ack.Recv.Ranges.{down, numbers, Apart, AtLeast, collect_runs-Collected, Collected}
use quic_x.Ack.Sent.Covers.{generated, same}
use quic_x.Ack.Frame.{AckFrame}
use quic_x.Ack.Probe.{in_ranges, in_frame, check_ack_covers_probe, PmtuProber}

-- Whether a number is in a list.
pub elem : ℕ → List ℕ → Bool
elem x [] = false
elem x (y ∷ ys) = if y == x then true else elem x ys

elem-append : (x : ℕ) (ys zs : List ℕ) → elem x (ys ++ zs) ≡ (if elem x ys then true else elem x zs)
unfolding elem
elem-append x [] zs = refl
elem-append x (y ∷ ys) zs = ground (arith, elem-append x ys zs)

elem-down :
    (x high count : ℕ)
    → count ≤ high
    → elem x (down high (suc count)) ≡ (leb (high - count) x && leb x high)
unfolding elem down
elem-down x high zero h = ground arith
elem-down x high (suc count) h = ground (arith, elem-down x (high - 1) count)

in_ranges-ranges_of :
    (probe bottom prev_low : ℕ) (runs : List (ℕ × ℕ))
    → Apart bottom prev_low runs
    → prev_low < 2 ^ 64
    → in_ranges probe prev_low (ranges_of prev_low runs) ≡ elem probe (numbers runs)
unfolding in_ranges ranges_of numbers elem
in_ranges-ranges_of probe bottom prev_low [] a b = refl
in_ranges-ranges_of probe bottom prev_low ((high, low) ∷ runs) (o, g, l, a) b =
    let ih = in_ranges-ranges_of probe bottom low runs a (omega arith) in
    let gap : sub64 (sub64 prev_low (sub64 (sub64 prev_low high) 2)) 2 ≡ high = omega arith in
    let len : sub64 high low ≡ high - low = omega arith in
    let fits : leb (high - low) high ≡ true = ground arith in
    let end : sub64 high (high - low) ≡ low = omega arith in
    let start : high - (high - low) ≡ low = omega arith in
    let d = elem-down probe high (high - low) (omega arith) in
    rw gap (
      rw len (
        rw fits (
          rw end (
            rw ih (
              rw (elem-append probe (down high (suc (high - low))) (numbers runs))
                (rw d (rw start refl)))))))

-- No number above the largest is in the further runs.
elem-numbers_above :
    (probe bottom prev_low : ℕ) (runs : List (ℕ × ℕ))
    → Apart bottom prev_low runs
    → prev_low ≤ probe
    → elem probe (numbers runs) ≡ false
unfolding numbers elem
elem-numbers_above probe bottom prev_low [] a h = refl
elem-numbers_above probe bottom prev_low ((high, low) ∷ runs) (o, g, l, a) h =
    let ih = elem-numbers_above probe bottom low runs a (omega arith) in
    let d = elem-down probe high (high - low) (omega arith) in
    let above : leb probe high ≡ false = ground arith in
    rw (elem-append probe (down high (suc (high - low))) (numbers runs))
      (rw d (rw above (rw ih (ground arith))))

in_frame-frame_of :
    (probe bottom high low delay : ℕ) (ecn : Option (ℕ × ℕ × ℕ)) (runs : List (ℕ × ℕ))
    → low ≤ high
    → bottom ≤ low
    → Apart bottom low runs
    → high < 2 ^ 64
    → high < bottom + 2 ^ 32
    → (frame_of ((high, low) ∷ runs) delay ecn >>= λ f. some (in_frame probe f))
      ≡ some (elem probe (numbers ((high, low) ∷ runs)))
unfolding frame_of in_frame numbers
in_frame-frame_of probe bottom high low delay ecn runs o b a hh hf =
    let first : sub64 high low % 2 ^ 32 % 2 ^ 32 ≡ high - low = omega arith in
    let end : sub64 high (high - low) ≡ low = omega arith in
    let start : high - (high - low) ≡ low = omega arith in
    let d = elem-down probe high (high - low) (omega arith) in
    let more = in_ranges-ranges_of probe bottom low runs a (omega arith) in
    let above = elem-numbers_above probe bottom low runs a in
    rw first (
      rw end (
        rw more (
          rw (elem-append probe (down high (suc (high - low))) (numbers runs))
            (rw d (rw start (ground arith))))))

check_some :
    (p : PmtuProber) (f : AckFrame)
    → p.probe_inflight ≡ true
    → 0 < p.probe_packet_number
    → (check_ack_covers_probe p (some f)).1 ≡ in_frame p.probe_packet_number f
unfolding check_ack_covers_probe
check_some p f fl pn = ground arith

some_injective : (a b : Bool) → some a ≡ some b → a ≡ b
some_injective a b e = ground arith

check_of_frame :
    (p : PmtuProber) (bottom high low delay : ℕ) (ecn : Option (ℕ × ℕ × ℕ)) (runs : List (ℕ × ℕ))
    → low ≤ high
    → bottom ≤ low
    → Apart bottom low runs
    → high < 2 ^ 64
    → high < bottom + 2 ^ 32
    → p.probe_inflight ≡ true
    → 0 < p.probe_packet_number
    → (check_ack_covers_probe p (frame_of ((high, low) ∷ runs) delay ecn)).1
      ≡ elem p.probe_packet_number (numbers ((high, low) ∷ runs))
unfolding frame_of
check_of_frame p bottom high low delay ecn runs o b a hh hf fl pn =
    let f = in_frame-frame_of p.probe_packet_number bottom high low delay ecn runs o b a hh hf in
    check_some p _ fl pn ∙ some_injective _ _ f

check_runs :
    (p : PmtuProber) (bottom high delay : ℕ) (ecn : Option (ℕ × ℕ × ℕ)) (rest : List ℕ)
    (runs : List (ℕ × ℕ)) (acked : List ℕ)
    → high < 2 ^ 64
    → high < bottom + 2 ^ 32
    → p.probe_inflight ≡ true
    → 0 < p.probe_packet_number
    → Collected bottom 64 high high rest runs acked
    → (a : List ℕ) × (high ∷ rest ≡ high ∷ (a ++ erase_all (high ∷ acked) (high ∷ rest)))
      × ((check_ack_covers_probe p (frame_of runs delay ecn)).1
          ≡ elem p.probe_packet_number (high ∷ a))
unfolding numbers down
check_runs p bottom high delay ecn rest runs acked hh hf fl pn c =
    let z : high - high ≡ 0 = omega arith in
    let are = rw z at c.are in
    let found =
      check_of_frame p bottom high c.bottom_run delay ecn c.tail c.ordered c.reaches c.apart hh hf
        fl pn in
    (
      acked,
      rw c.splits (rw (erase_all-append (high ∷ acked) c.dropped) refl),
      rw c.starts (rw found (rw (same high c.bottom_run runs c.tail acked c.starts c.are) refl)),
    )

-- Let a space wait for `high` and the numbers `rest`, which fall below it and are less than 2^32
-- away, and let a probe be in flight under a number that is not 0. Then `CheckAckCoversProbe` says
-- of the frame that `MayGenerateAckFrame` builds whether the probe's number is `high` or one of the
-- `acked` numbers that left the space with it.
pub check_ack_covers_probe-may_generate_ack_frame :
    (p : PmtuProber) (c : RecvControl) (now : ℕ) (ns : PacketNumberSpace) (ecn_enabled : Bool)
    (bottom high : ℕ) (rest : List ℕ)
    → (space_of c ns).wait_ack_packet_numbers ≡ high ∷ rest
    → Falls high rest
    → AtLeast bottom (high ∷ rest)
    → high < 2 ^ 64
    → high < bottom + 2 ^ 32
    → p.probe_inflight ≡ true
    → 0 < p.probe_packet_number
    → (acked : List ℕ) × (high ∷ rest
        ≡ high
          ∷ (acked
              ++ (space_of
                  (may_generate_ack_frame c now ns ecn_enabled).0
                  ns).wait_ack_packet_numbers))
      × ((check_ack_covers_probe p (may_generate_ack_frame c now ns ecn_enabled).1).1
          ≡ elem p.probe_packet_number (high ∷ acked))
check_ack_covers_probe-may_generate_ack_frame p c now ns ecn_enabled bottom high rest e f (lh, l) hh
      hf fl pn =
    let (delay, ecn, frame, left) = generated c now ns ecn_enabled high rest e in
    let runs = collect_runs-Collected bottom 64 high high rest (omega arith) hh lh f l in
    rw frame (rw left (check_runs p bottom high delay ecn rest _ _ hh hf fl pn runs))
