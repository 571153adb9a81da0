-- ===== src/Timer/Tests.antt =====
-- The timer at work.
use quic_x.Common.{◌≡◌, refl, some, List, [], ◌∷◌, arith}
use quic_x.Timer.{
  new_timer, put, add_timer, drop_id, slot_or_none, take_out, remove_timer, min_time, run_slots,
  timer_run,
}
use quic_x.Timer.Slots.{
  after_call, after_calls, due, kept, timer_run-after_calls, TimerCall, adds, removes,
}

abbrev some_timers : List TimerCall
some_timers = adds 30 0 100 ∷ adds 10 0 100 ∷ adds 10 0 100 ∷ removes 110 2 ∷ []

timer_run-after_calls_example :
    let t = after_calls new_timer some_timers in
    ((timer_run t 0 115).0 ≡ due 115 t.timer_map)
    × ((timer_run t 0 115).1.timer_map ≡ kept 115 t.timer_map)
timer_run-after_calls_example = timer_run-after_calls some_timers 0 115 (omega arith)

first_in_ten : min_time (record { next_id = 1; timer_map = (110, 1 ∷ []) ∷ [] }) 0 100 ≡ some 10
unfolding min_time
first_in_ten = refl

third_task : (timer_run (after_calls new_timer some_timers) 0 115).0 ≡ 3 ∷ []
unfolding timer_run run_slots after_calls after_call add_timer put remove_timer take_out drop_id
    slot_or_none
third_task = refl
