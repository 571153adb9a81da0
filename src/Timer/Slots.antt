-- ===== src/Timer/Slots.antt =====
-- The slots of the timer in their order.
use quic_x.Common.{
  ℕ, suc, ◌≤◌, ◌<◌, ◌≡◌, refl, inl, inr, true, false, List, [], ◌∷◌, ◌++◌, arith, ltb, leb, ◌==◌,
  if◌then◌else◌, Bool-cases, length, add64,
}
use quic_x.Timer.{
  new_timer, time_or_clock, put, add_timer, drop_id, slot_or_none, take_out, remove_timer,
  run_slots, timer_run, TreeMapTimer,
}

-- The slots rise from `low` on, and none is empty.
abbrev pub Rises : ℕ → List (ℕ × List ℕ) → Type 0
Rises low [] = Unit {0}
Rises low ((slot, ids) ∷ slots) = (low ≤ slot) × (0 < length ids) × Rises (suc slot) slots

-- The calls that change the timer.
pub data TimerCall : Type 0 where
  adds : ℕ → ℕ → ℕ → TimerCall
  removes : ℕ → ℕ → TimerCall
  runs : ℕ → ℕ → TimerCall

unfoldable pub after_call : TreeMapTimer → TimerCall → TreeMapTimer
after_call t (adds time_ms clock now) = (add_timer t time_ms clock now).0
after_call t (removes time id) = (remove_timer t time id).0
after_call t (runs clock now) = (timer_run t clock now).1

unfoldable pub after_calls : TreeMapTimer → List TimerCall → TreeMapTimer
after_calls t [] = t
after_calls t (x ∷ xs) = after_calls (after_call t x) xs

Rises-lower : (a b : ℕ) (slots : List (ℕ × List ℕ)) → a ≤ b → Rises b slots → Rises a slots
Rises-lower a b [] h r = tt
Rises-lower a b ((slot, ids) ∷ slots) h (l, n, r) = (omega arith, n, r)

put-Rises :
    (low time id : ℕ) (slots : List (ℕ × List ℕ))
    → low ≤ time
    → Rises low slots
    → Rises low (put time id slots)
unfolding put
put-Rises low time id [] h r = (h, omega arith, tt)
put-Rises low time id ((slot, ids) ∷ slots) h (l, n, r) = elim (Bool-cases (ltb time slot)) [
  | inl e ↦ rw e (h, omega arith, (ground arith, n, r))
  | inr e ↦ rw e (elim (Bool-cases (time == slot)) [
    | inl d ↦ rw d (l, omega arith, r)
    | inr d ↦ rw d (l, n, put-Rises (suc slot) time id slots (ground arith) r)
  ])
]

slot_or_none-Rises :
    (low slot : ℕ) (ids : List ℕ) (slots : List (ℕ × List ℕ))
    → low ≤ slot
    → Rises (suc slot) slots
    → Rises low (slot_or_none slot ids slots)
unfolding slot_or_none
slot_or_none-Rises low slot [] slots h r = Rises-lower low (suc slot) slots (omega arith) r
slot_or_none-Rises low slot (x ∷ xs) slots h r = (h, omega arith, r)

take_out-Rises :
    (low time id : ℕ) (slots : List (ℕ × List ℕ))
    → Rises low slots
    → Rises low (take_out time id slots).0
unfolding take_out
take_out-Rises low time id [] r = tt
take_out-Rises low time id ((slot, ids) ∷ slots) (l, n, r) = elim (Bool-cases (slot == time)) [
  | inl e ↦ rw e (slot_or_none-Rises low slot (drop_id id ids) slots l r)
  | inr e ↦ rw e (l, n, take_out-Rises (suc slot) time id slots r)
]

run_slots-Rises :
    (low now : ℕ) (slots : List (ℕ × List ℕ)) → Rises low slots → Rises low (run_slots now slots).1
unfolding run_slots
run_slots-Rises low now [] r = tt
run_slots-Rises low now ((slot, ids) ∷ slots) (l, n, r) = elim (Bool-cases (leb slot now)) [
  | inl e ↦ rw e (
      Rises-lower low (suc slot) (run_slots now slots).1 (omega arith)
        (run_slots-Rises (suc slot) now slots r))
  | inr e ↦ rw e (l, n, r)
]

after_call-Rises :
    (t : TreeMapTimer) (x : TimerCall) → Rises 0 t.timer_map → Rises 0 (after_call t x).timer_map
unfolding after_call add_timer remove_timer timer_run
after_call-Rises t (adds time_ms clock now) r = put-Rises 0 _ _ t.timer_map (omega arith) r
after_call-Rises t (removes time id) r = take_out-Rises 0 time id t.timer_map r
after_call-Rises t (runs clock now) r = run_slots-Rises 0 _ t.timer_map r

from-Rises :
    (t : TreeMapTimer) (xs : List TimerCall)
    → Rises 0 t.timer_map
    → Rises 0 (after_calls t xs).timer_map
unfolding after_calls
from-Rises t [] r = r
from-Rises t (x ∷ xs) r = from-Rises (after_call t x) xs (after_call-Rises t x r)

-- The tasks of the slots that are due, and the slots that are not, each slot looked at.
pub due : ℕ → List (ℕ × List ℕ) → List ℕ
due now [] = []
due now ((slot, ids) ∷ slots) = if leb slot now then ids ++ due now slots else due now slots

pub kept : ℕ → List (ℕ × List ℕ) → List (ℕ × List ℕ)
kept now [] = []
kept now ((slot, ids) ∷ slots) =
    if leb slot now then kept now slots else ((slot, ids) ∷ kept now slots)

none_due :
    (low now : ℕ) (slots : List (ℕ × List ℕ))
    → now < low
    → Rises low slots
    → (due now slots ≡ []) × (kept now slots ≡ slots)
unfolding due kept
none_due low now [] h r = (refl, refl)
none_due low now ((slot, ids) ∷ slots) h (l, n, r) =
    let (d, k) = none_due (suc slot) now slots (omega arith) r in
    let late : leb slot now ≡ false = ground arith in rw late (d, rw k refl)

run_slots-due :
    (low now : ℕ) (slots : List (ℕ × List ℕ))
    → Rises low slots
    → run_slots now slots ≡ (due now slots, kept now slots)
unfolding run_slots due kept
run_slots-due low now [] r = refl
run_slots-due low now ((slot, ids) ∷ slots) (l, n, r) = elim (Bool-cases (leb slot now)) [
  | inl e ↦ rw e (rw (run_slots-due (suc slot) now slots r) refl)
  | inr e ↦ let (d, k) = none_due (suc slot) now slots (ground arith) r in rw e (rw d (rw k refl))
]

-- After any calls on a new timer, `TimerRun` at a time that is not 0 calls exactly the tasks of the
-- slots up to that time, in rising order of time, and leaves exactly the later slots, although it
-- stops at the first later one.
pub timer_run-after_calls :
    (xs : List TimerCall) (clock now : ℕ)
    → 0 < now
    → let t = after_calls new_timer xs in
      ((timer_run t clock now).0 ≡ due now t.timer_map)
      × ((timer_run t clock now).1.timer_map ≡ kept now t.timer_map)
unfolding timer_run
timer_run-after_calls xs clock now h =
    let t = after_calls new_timer xs in
    let e = run_slots-due 0 now t.timer_map (from-Rises new_timer xs tt) in
    let given : (now == 0) ≡ false = ground arith in rw given (rw e (refl, refl))

take_out-put :
    (low time id : ℕ) (slots : List (ℕ × List ℕ))
    → Rises low slots
    → take_out time id (put time id slots) ≡ (slots, true)
unfolding take_out put drop_id slot_or_none
take_out-put low time id [] r = ground arith
take_out-put low time id ((slot, []) ∷ slots) (l, n, r) = absurd (omega arith)
take_out-put low time id ((slot, x ∷ xs) ∷ slots) (l, n, r) =
    ground (arith, take_out-put (suc slot) time id slots r)

-- After any calls on a new timer, a task that is added and then removed, by the time and the number
-- that it was given, leaves the slots as they were, and its removal succeeds.
pub remove_timer-add_timer :
    (xs : List TimerCall) (time_ms clock now : ℕ)
    → let t = after_calls new_timer xs in
      let (u, time, id) = add_timer t time_ms clock now in
      ((remove_timer u time id).0.timer_map ≡ t.timer_map) × ((remove_timer u time id).1 ≡ true)
unfolding add_timer remove_timer
remove_timer-add_timer xs time_ms clock now =
    let t = after_calls new_timer xs in
    let e =
      take_out-put 0 (add64 (time_or_clock clock now) time_ms) (add64 t.next_id 1) t.timer_map
        (from-Rises new_timer xs tt) in
    rw e (refl, refl)
