-- ===== src/Ack/Probe/Limit.antt =====
-- The limit that the prober finds.
use quic_x.Common.{
  ℕ, ◌≤◌, ◌≡◌, refl, ◌⊎◌, inl, inr, Bool, false, Option, none, some, List, [], ◌∷◌, arith,
}
use quic_x.Ack.Frame.{AckFrame}
use quic_x.Ack.Probe.{
  new_prober, start_probe, on_probe_result, reset_for_new_path, set_probe_packet_number,
  check_ack_covers_probe, PmtuProber,
}

pub data ProbeCall : Type 0 where
  starts : ProbeCall
  ends : Bool → ProbeCall
  moves : ProbeCall
  numbered : ℕ → ProbeCall
  acks : Option AckFrame → ProbeCall

unfoldable pub probe_step : PmtuProber → ProbeCall → PmtuProber
probe_step p starts = start_probe p
probe_step p (ends success) = on_probe_result p success
probe_step p moves = reset_for_new_path p
probe_step p (numbered pn) = set_probe_packet_number p pn
probe_step p (acks frame) = (check_ack_covers_probe p frame).0

unfoldable pub probe_run : PmtuProber → List ProbeCall → PmtuProber
probe_run p [] = p
probe_run p (x ∷ xs) = probe_run (probe_step p x) xs

-- The limit is one of three sizes, and what is probed one of two, and no smaller than the limit
-- while it is probed.
abbrev pub IsLimit : PmtuProber → Type 0
IsLimit p =
    ((p.mtu_limit_bytes ≡ 1200) ⊎ ((p.mtu_limit_bytes ≡ 1450) ⊎ (p.mtu_limit_bytes ≡ 1500)))
    × ((p.probe_target_bytes ≡ 1450) ⊎ (p.probe_target_bytes ≡ 1500))
    × ((p.probe_inflight ≡ false) ⊎ (p.mtu_limit_bytes ≤ p.probe_target_bytes))

-- Any call but a move to a new path.
abbrev pub IsOnPath : ProbeCall → Type 0
IsOnPath moves = ⊥
IsOnPath _ = Unit {0}

step-IsLimit : (p : PmtuProber) (x : ProbeCall) → IsLimit p → IsLimit (probe_step p x)
unfolding probe_step start_probe on_probe_result reset_for_new_path set_probe_packet_number
    check_ack_covers_probe
step-IsLimit p starts i = ground arith
step-IsLimit p (ends success) i = ground arith
step-IsLimit p moves i = ground arith
step-IsLimit p (numbered pn) i = ground arith
step-IsLimit p (acks none) i = ground arith
step-IsLimit p (acks (some f)) i = ground arith

step-le :
    (p : PmtuProber) (x : ProbeCall)
    → IsOnPath x
    → IsLimit p
    → p.mtu_limit_bytes ≤ (probe_step p x).mtu_limit_bytes
unfolding probe_step start_probe on_probe_result reset_for_new_path set_probe_packet_number
    check_ack_covers_probe
step-le p starts o i = ground arith
step-le p (ends success) o i = ground arith
step-le p moves o i = ground arith
step-le p (numbered pn) o i = ground arith
step-le p (acks none) o i = ground arith
step-le p (acks (some f)) o i = ground arith

run-IsLimit : (p : PmtuProber) (xs : List ProbeCall) → IsLimit p → IsLimit (probe_run p xs)
unfolding probe_run
run-IsLimit p [] i = i
run-IsLimit p (x ∷ xs) i = run-IsLimit (probe_step p x) xs (step-IsLimit p x i)

-- After any calls on a new prober the limit is 1200, 1450 or 1500 bytes, the probed size is 1450 or
-- 1500 bytes, and no smaller than the limit while it is probed; and no call but a move to a new
-- path lowers the limit.
pub probe_run-IsLimit :
    (xs : List ProbeCall) (y : ProbeCall)
    → IsOnPath y
    → IsLimit (probe_run new_prober xs)
      × ((probe_run new_prober xs).mtu_limit_bytes
          ≤ (probe_step (probe_run new_prober xs) y).mtu_limit_bytes)
probe_run-IsLimit xs y o =
    let i = run-IsLimit new_prober xs (inr (inl refl), inl refl, inl refl) in
    (i, step-le (probe_run new_prober xs) y o i)
