-- ===== src/Ack/Recv/Ranges.antt =====
-- The runs that the receiver collects, and their numbers.
use mathlib.Core.List.{append_assoc}
use quic_x.Common.{
  ℕ, zero, suc, ◌+◌, ◌-◌, ◌^◌, ◌≤◌, ◌<◌, max, ◌≡◌, refl, inl, inr, List, [], ◌∷◌, ◌++◌, arith, leb,
  ◌==◌, Bool-cases, length, All, add64,
}
use quic_x.Ack.Recv.{collect_runs}
use quic_x.Ack.Recv.Set.{Falls}

-- `count` numbers from `high` down.
unfoldable pub down : ℕ → ℕ → List ℕ
down high zero = []
down high (suc count) = high ∷ down (high - 1) count

-- The numbers of some runs, one run after the other.
unfoldable pub numbers : List (ℕ × ℕ) → List ℕ
numbers [] = []
numbers ((high, low) ∷ runs) = down high (suc (high - low)) ++ numbers runs

-- Runs that fall below `prev_low` with a number missing in front of each, and reach down to
-- `bottom` at most.
abbrev pub Apart : ℕ → ℕ → List (ℕ × ℕ) → Type 0
Apart bottom prev_low [] = Unit {0}
Apart bottom prev_low ((high, low) ∷ runs) =
    (low ≤ high) × (high + 2 ≤ prev_low) × (bottom ≤ low) × Apart bottom low runs

abbrev pub AtLeast : ℕ → List ℕ → Type 0
AtLeast bottom = All (λ x. bottom ≤ x)

-- A run grows downwards at its end.
down-suc :
    (high count : ℕ)
    → count ≤ high
    → down high (suc count) ≡ down high count ++ ((high - count) ∷ [])
unfolding down
down-suc high zero h = ground arith
down-suc high (suc count) h = ground (arith, down-suc (high - 1) count)

-- What the loop collects from a run [low, high] and the numbers below it.
pub record Collected (bottom left high low : ℕ) (rest : List ℕ) (runs : List (ℕ × ℕ))
    (acked : List ℕ) : Type 0 where
  pub tail : List (ℕ × ℕ)
  pub bottom_run : ℕ
  pub starts : runs ≡ (high, bottom_run) ∷ tail
  pub ordered : bottom_run ≤ high
  pub reaches : bottom ≤ bottom_run
  pub apart : Apart bottom bottom_run tail
  pub are : numbers runs ≡ down high (suc (high - low)) ++ acked
  pub few : length runs ≤ max left 1
  pub dropped : List ℕ
  pub splits : rest ≡ acked ++ dropped

-- A run whose end moves down by one.
grow_run :
    (high low pn : ℕ) (acked : List ℕ)
    → low ≤ high
    → pn + 1 ≡ low
    → down high (suc (high - pn)) ++ acked ≡ down high (suc (high - low)) ++ pn ∷ acked
grow_run high low pn acked h e =
    let n : high - pn ≡ suc (high - low) = omega arith in
    let p : high - suc (high - low) ≡ pn = omega arith in
    let e : down high (suc (suc (high - low))) ≡ down high (suc (high - low)) ++ (pn ∷ []) =
      rw (down-suc high (suc (high - low)) (omega arith)) (rw p refl) in
    rw n (rw e (append_assoc (down high (suc (high - low))) (pn ∷ []) acked))

-- One more number at the end of the run.
grow :
    (bottom left high low pn : ℕ) (rest : List ℕ) (runs : List (ℕ × ℕ)) (acked : List ℕ)
    → low ≤ high
    → pn + 1 ≡ low
    → Collected bottom left high pn rest runs acked
    → Collected bottom left high low (pn ∷ rest) runs (pn ∷ acked)
grow bottom left high low pn rest runs acked h e c = record {
  tail = c.tail;
  bottom_run = c.bottom_run;
  starts = c.starts;
  ordered = c.ordered;
  reaches = c.reaches;
  apart = c.apart;
  are = rw c.are (grow_run high low pn acked h e);
  few = c.few;
  dropped = c.dropped;
  splits = rw c.splits refl;
}

-- A run that ends, with another below it.
split :
    (bottom left high low pn : ℕ) (rest : List ℕ) (runs : List (ℕ × ℕ)) (acked : List ℕ)
    → low ≤ high
    → bottom ≤ low
    → (pn + 2 ≤ low) × (2 ≤ left)
    → Collected bottom (left - 1) pn pn rest runs acked
    → Collected bottom left high low (pn ∷ rest) ((high, low) ∷ runs) (pn ∷ acked)
unfolding numbers down
split bottom left high low pn rest runs acked h hb (hp, hl) c = record {
  tail = runs;
  bottom_run = low;
  starts = refl;
  ordered = h;
  reaches = hb;
  apart = rw c.starts (c.ordered, hp, c.reaches, c.apart);
  are = let z : pn - pn ≡ 0 = omega arith in rw c.are (rw z refl);
  few = omega (arith, c.few);
  dropped = c.dropped;
  splits = rw c.splits refl;
}

pub collect_runs-Collected :
    (bottom left high low : ℕ) (rest : List ℕ)
    → low ≤ high
    → high < 2 ^ 64
    → bottom ≤ low
    → Falls low rest
    → AtLeast bottom rest
    → Collected bottom left high low rest
        (collect_runs left high low rest).0
        (collect_runs left high low rest).1
unfolding collect_runs numbers
collect_runs-Collected bottom left high low [] h hh hb f l = record {
  tail = [];
  bottom_run = low;
  starts = refl;
  ordered = h;
  reaches = hb;
  apart = tt;
  are = refl;
  few = omega arith;
  dropped = [];
  splits = refl;
}
collect_runs-Collected bottom left high low (pn ∷ rest) h hh hb (hp, f) (lp, l) =
    let longer = collect_runs-Collected bottom left high pn rest (omega arith) hh lp f l in
    let another =
      collect_runs-Collected bottom (left - 1) pn pn rest (omega arith) (omega arith) lp f l in
    elim (Bool-cases (add64 pn 1 == low)) [
      | inl next ↦ rw next (grow bottom left high low pn rest _ _ h (ground arith) longer)
      | inr gap ↦ rw gap (elim (Bool-cases (leb left 1)) [
        | inl full ↦ rw full (record {
          tail = [];
          bottom_run = low;
          starts = refl;
          ordered = h;
          reaches = hb;
          apart = tt;
          are = refl;
          few = omega arith;
          dropped = pn ∷ rest;
          splits = refl;
        })
        | inr more ↦ rw more (split bottom left high low pn rest _ _ h hb (ground arith) another)
      ])
    ]
