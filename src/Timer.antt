-- ===== src/Timer.antt =====
-- `TreeMapTimer` of src/common/timer/treemap_timer.cpp. The map is the list of its slots in rising
-- order of time, and a slot the list of the numbers of its tasks, the newest first; the order in
-- which an `unordered_map` gives them is not specified. A task stands for its callback, which
-- every task is taken to have: the test of `tcb_` before the call is left out. The clock,
-- which the code reads when the caller gives no time, is an argument.
pub mod Slots
mod Tests
use quic_x.Common.{
  ℕ, ◌%◌, ◌^◌, Bool, true, false, Option, none, some, List, [], ◌∷◌, ◌++◌, ltb, leb, ◌==◌,
  if◌then◌else◌, add64, sub64,
}

pub record TreeMapTimer : Type 0 where
  pub next_id : ℕ
  pub timer_map : List (ℕ × List ℕ)

abbrev pub new_timer : TreeMapTimer
new_timer = record { next_id = 0; timer_map = [] }

-- `now` as the code takes it.
abbrev pub time_or_clock : ℕ → ℕ → ℕ
time_or_clock clock now = if now == 0 then clock else now

-- `timer_map_[time][id] = task`
unfoldable pub put : ℕ → ℕ → List (ℕ × List ℕ) → List (ℕ × List ℕ)
put time id [] = (time, id ∷ []) ∷ []
put time id ((slot, ids) ∷ slots) =
    if ltb time slot
    then (time, id ∷ []) ∷ (slot, ids) ∷ slots
    else if time == slot
    then (slot, id ∷ ids) ∷ slots
    else ((slot, ids) ∷ put time id slots)

-- The timer, with the time and the number that are stored in the task.
unfoldable pub add_timer : TreeMapTimer → ℕ → ℕ → ℕ → TreeMapTimer × ℕ × ℕ
add_timer t time_ms clock now =
    let time = add64 (time_or_clock clock now) time_ms in
    let id = add64 t.next_id 1 in
    (record { next_id = id; timer_map = put time id t.timer_map }, time, id)

unfoldable pub drop_id : ℕ → List ℕ → List ℕ
drop_id id [] = []
drop_id id (x ∷ xs) = if x == id then xs else (x ∷ drop_id id xs)

-- A slot without tasks is taken out of the map.
unfoldable pub slot_or_none : ℕ → List ℕ → List (ℕ × List ℕ) → List (ℕ × List ℕ)
slot_or_none slot [] slots = slots
slot_or_none slot (x ∷ xs) slots = (slot, x ∷ xs) ∷ slots

unfoldable pub take_out : ℕ → ℕ → List (ℕ × List ℕ) → List (ℕ × List ℕ) × Bool
take_out time id [] = ([], false)
take_out time id ((slot, ids) ∷ slots) =
    let more = take_out time id slots in
    if slot == time
    then (slot_or_none slot (drop_id id ids) slots, true)
    else ((slot, ids) ∷ more.0, more.1)

-- `RemoveTimer` of a task with this time and number.
unfoldable pub remove_timer : TreeMapTimer → ℕ → ℕ → TreeMapTimer × Bool
remove_timer t time id =
    let (slots, found) = take_out time id t.timer_map in (record t { timer_map = slots }, found)

-- The difference as an `int32_t`, 0 where that is negative; `none` is -1.
unfoldable pub min_time : TreeMapTimer → ℕ → ℕ → Option ℕ
min_time t clock now = elim t.timer_map [
  | [] ↦ none
  | slot ∷ slots ↦
      let next_time = sub64 slot.0 (time_or_clock clock now) % 2 ^ 32 in
      if leb (2 ^ 31) next_time then some 0 else some next_time
]

-- The tasks of the slots up to `now`, and the slots that are left.
unfoldable pub run_slots : ℕ → List (ℕ × List ℕ) → List ℕ × List (ℕ × List ℕ)
run_slots now [] = ([], [])
run_slots now ((slot, ids) ∷ slots) =
    let more = run_slots now slots in
    if leb slot now then (ids ++ more.0, more.1) else ([], (slot, ids) ∷ slots)

-- The tasks whose callbacks are called, in order, and the timer.
unfoldable pub timer_run : TreeMapTimer → ℕ → ℕ → List ℕ × TreeMapTimer
timer_run t clock now =
    let (due, slots) = run_slots (time_or_clock clock now) t.timer_map in
    (due, record t { timer_map = slots })
