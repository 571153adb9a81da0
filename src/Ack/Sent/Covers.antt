-- ===== src/Ack/Sent/Covers.antt =====
-- The sender's walk over the ACK frames that a receiver builds.
use quic_x.Common.{
  ℕ, zero, suc, ◌+◌, ◌-◌, ◌%◌, ◌^◌, ◌≤◌, ◌<◌, ◌≡◌, refl, Bool, Option, some, List, [], ◌∷◌, ◌++◌,
  arith, ltb, if◌then◌else◌, length, ◌>>=◌, sub64,
}
use quic_x.Ack.Recv.Set.{Falls, erase_all-append}
use quic_x.Ack.Recv.Ranges.{down, numbers, Apart, AtLeast, collect_runs-Collected, Collected}
use quic_x.Ack.Recv.{
  space_of, erase_all, collect_runs, ranges_of, frame_of, runs_of, may_generate_ack_frame,
  RecvControl,
}
use quic_x.Ack.Frame.{AckFrame}
use quic_x.Codec.PacketNumber.{PacketNumberSpace, initial, handshake, application}
use quic_x.Ack.Sent.{walk_first, walk_range, walk_ranges, acked_numbers}

walk_first_lem : (n pn : ℕ) → n ≤ pn → pn < 2 ^ 64 → walk_first n pn ≡ (down (pn - 1) n, pn - n)
unfolding walk_first down
walk_first_lem zero pn h b = ground arith
walk_first_lem (suc n) pn h b =
    let p : sub64 pn 1 ≡ pn - 1 = omega arith in
    rw p (rw (walk_first_lem n (pn - 1) (omega arith) (omega arith)) (ground arith))

walk_range_lem :
    (k fuel i range_length pn : ℕ)
    → i + k ≡ range_length
    → range_length + 1 < 2 ^ 32
    → k ≤ pn
    → pn < 2 ^ 64
    → k + 2 ≤ fuel
    → walk_range fuel i range_length pn ≡ some (down pn (suc k), pn - k)
unfolding walk_range down
walk_range_lem k zero i range_length pn e hr hp b hf = ground arith
walk_range_lem zero (suc zero) i range_length pn e hr hp b hf = ground arith
walk_range_lem zero (suc (suc fuel)) i range_length pn e hr hp b hf = ground arith
walk_range_lem (suc k) (suc fuel) i range_length pn e hr hp b hf =
    let ih =
      walk_range_lem k fuel (i + 1) range_length (pn - 1) (omega arith) hr (omega arith)
        (omega arith) (omega arith) in
    let p : sub64 pn 1 ≡ pn - 1 = omega arith in
    let w : (i + 1) % 2 ^ 32 ≡ i + 1 = omega arith in ground arith

-- The further ranges of a frame name the runs that they were made from.
walk_ranges-ranges_of :
    (fuel bottom prev_low : ℕ) (runs : List (ℕ × ℕ))
    → Apart bottom prev_low runs
    → prev_low < 2 ^ 64
    → prev_low ≤ bottom + fuel
    → fuel < 2 ^ 32
    → walk_ranges fuel (ranges_of prev_low runs) prev_low ≡ some (numbers runs)
unfolding walk_ranges ranges_of numbers
walk_ranges-ranges_of fuel bottom prev_low [] a hb hf h32 = refl
walk_ranges-ranges_of fuel bottom prev_low ((high, low) ∷ runs) (o, g, b, a) hb hf h32 =
    let ih = walk_ranges-ranges_of fuel bottom low runs a (omega arith) (omega arith) h32 in
    let gap : sub64 (sub64 prev_low (sub64 (sub64 prev_low high) 2)) 2 ≡ high = omega arith in
    let len : sub64 high low ≡ high - low = omega arith in
    let end : high - (high - low) ≡ low = omega arith in
    let range =
      walk_range_lem (high - low) fuel 0 (high - low) high (omega arith) (omega arith) (omega arith)
        (omega arith) (omega arith) in
    rw gap (rw len (rw range (rw end (rw ih refl))))

-- A frame made of the numbers that a space waited for: it takes the largest, `high`, and the
-- `acked` numbers behind it out of the space, and the sender looks up the same numbers, but for
-- `high` when it is not above the largest number acknowledged before.
pub record Report (fuel largest_acked high : ℕ) (before after : List ℕ) (frame : Option AckFrame)
    : Type 0 where
  pub sent : AckFrame
  pub is_sent : frame ≡ some sent
  pub largest : sent.largest_acknowledged ≡ high
  pub few : length sent.ack_ranges ≤ 63
  pub acked : List ℕ
  pub takes : before ≡ high ∷ (acked ++ after)
  pub walks :
      acked_numbers fuel largest_acked sent
      ≡ some ((if ltb largest_acked high then high ∷ [] else []) ++ acked)

length-ranges_of :
    (prev_low : ℕ) (runs : List (ℕ × ℕ)) → length (ranges_of prev_low runs) ≡ length runs
unfolding ranges_of
length-ranges_of prev_low [] = refl
length-ranges_of prev_low ((high, low) ∷ runs) = ground (arith, length-ranges_of low runs)

-- The first run and the others, as the frame holds them.
acked_numbers-frame_of :
    (fuel largest_acked bottom high low delay : ℕ) (ecn : Option (ℕ × ℕ × ℕ)) (runs : List (ℕ × ℕ))
    → low ≤ high
    → bottom ≤ low
    → Apart bottom low runs
    → high < 2 ^ 64
    → high ≤ bottom + fuel
    → fuel < 2 ^ 32
    → (frame_of ((high, low) ∷ runs) delay ecn >>= acked_numbers fuel largest_acked)
      ≡ some (
          (if ltb largest_acked high then high ∷ [] else [])
          ++ (down (high - 1) (high - low) ++ numbers runs))
unfolding frame_of acked_numbers
acked_numbers-frame_of fuel largest_acked bottom high low delay ecn runs o b a hh hf h32 =
    let first : sub64 high low % 2 ^ 32 % 2 ^ 32 ≡ high - low = omega arith in
    let end : high - (high - low) ≡ low = omega arith in
    let ranges = walk_ranges-ranges_of fuel bottom low runs a (omega arith) (omega arith) h32 in
    rw first (rw (walk_first_lem (high - low) high (omega arith) hh) (rw end (rw ranges refl)))

-- What a frame and the space behind it are made of.
pub generated :
    (c : RecvControl) (now : ℕ) (ns : PacketNumberSpace) (ecn_enabled : Bool) (high : ℕ)
    (rest : List ℕ)
    → (space_of c ns).wait_ack_packet_numbers ≡ high ∷ rest
    → (delay : ℕ) × (ecn : Option (ℕ × ℕ × ℕ)) × ((may_generate_ack_frame c now ns ecn_enabled).1
        ≡ frame_of (collect_runs 64 high high rest).0 delay ecn)
      × ((space_of (may_generate_ack_frame c now ns ecn_enabled).0 ns).wait_ack_packet_numbers
          ≡ erase_all (high ∷ (collect_runs 64 high high rest).1) (high ∷ rest))
unfolding may_generate_ack_frame runs_of
generated c now initial ecn_enabled high rest e = rw e (_, _, refl, refl)
generated c now handshake ecn_enabled high rest e = rw e (_, _, refl, refl)
generated c now application ecn_enabled high rest e = rw e (_, _, refl, refl)

fewer :
    (run : ℕ × ℕ) (runs tail : List (ℕ × ℕ))
    → runs ≡ run ∷ tail
    → length runs ≤ 64
    → length tail ≤ 63
fewer run runs tail e h = ground arith

-- The numbers of the runs without the first.
pub same :
    (high low : ℕ) (runs tail : List (ℕ × ℕ)) (acked : List ℕ)
    → runs ≡ (high, low) ∷ tail
    → numbers runs ≡ down high (suc (high - high)) ++ acked
    → acked ≡ down (high - 1) (high - low) ++ numbers tail
unfolding numbers down
same high low runs tail acked e are =
    let z : high - high ≡ 0 = omega arith in
    let h = rw z at are in let g = rw e at h in ground arith

report :
    (fuel largest_acked bottom high delay : ℕ) (ecn : Option (ℕ × ℕ × ℕ)) (rest : List ℕ)
    (runs : List (ℕ × ℕ)) (acked : List ℕ)
    → high < 2 ^ 64
    → high ≤ bottom + fuel
    → fuel < 2 ^ 32
    → Collected bottom 64 high high rest runs acked
    → Report fuel largest_acked high
        (high ∷ rest)
        (erase_all (high ∷ acked) (high ∷ rest))
        (frame_of runs delay ecn)
unfolding frame_of numbers down
report fuel largest_acked bottom high delay ecn rest runs acked hh hf h32 c =
    let walk =
      acked_numbers-frame_of fuel largest_acked bottom high c.bottom_run delay ecn c.tail c.ordered
        c.reaches c.apart hh hf h32 in
    rw c.starts (record {
      sent = _;
      is_sent = refl;
      largest = refl;
      few = rw (length-ranges_of c.bottom_run c.tail) (fewer _ _ _ c.starts c.few);
      acked = acked;
      takes = rw c.splits (rw (erase_all-append (high ∷ acked) c.dropped) refl);
      walks = rw (same high c.bottom_run runs c.tail acked c.starts c.are) walk;
    })

-- Let a space wait for `high` and the numbers `rest`, which fall below it, with no more than `fuel`
-- (below 2^32) from the smallest, at least `bottom`, to `high` (below 2^64). Then the frame that
-- `MayGenerateAckFrame` builds is a `Report`: there is one, with `high` as its largest number and
-- with 63 further ranges at most. The numbers that leave the space are the ones that the sender
-- looks up, in order, in `OnPacketAck` of that frame, except that it leaves `high` out when `high`
-- is not above its largest number acknowledged before. Each loop of the walk ends in `fuel` rounds.
pub may_generate_ack_frame-Report :
    (c : RecvControl) (now : ℕ) (ns : PacketNumberSpace) (ecn_enabled : Bool)
    (fuel largest_acked bottom high : ℕ) (rest : List ℕ)
    → (space_of c ns).wait_ack_packet_numbers ≡ high ∷ rest
    → Falls high rest
    → AtLeast bottom (high ∷ rest)
    → high < 2 ^ 64
    → high ≤ bottom + fuel
    → fuel < 2 ^ 32
    → Report fuel largest_acked high
        (high ∷ rest)
        (space_of (may_generate_ack_frame c now ns ecn_enabled).0 ns).wait_ack_packet_numbers
        (may_generate_ack_frame c now ns ecn_enabled).1
may_generate_ack_frame-Report c now ns ecn_enabled fuel largest_acked bottom high rest e f (lh, l)
      hh hf h32 =
    let (delay, ecn, frame, left) = generated c now ns ecn_enabled high rest e in
    let runs = collect_runs-Collected bottom 64 high high rest (omega arith) hh lh f l in
    rw frame (rw left (report fuel largest_acked bottom high delay ecn rest _ _ hh hf h32 runs))
