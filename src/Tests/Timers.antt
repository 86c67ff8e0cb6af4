-- ===== src/Tests/Timers.antt =====
-- Watchdog timers at concrete inputs.
use cross_compile.Base.{
  ℕ, ◌+◌, ◌≡◌, refl, sym, ◌∙◌, true, false, some, List, [], ◌∷◌, ◌++◌, arith, ◌==◌, if◌then◌else◌,
}
use mathlib.Core.List.{append_assoc}
use cross_compile.Base.Int.{pos}
use cross_compile.Wdog.{
  Timers, Handler, is_due, wdog_valid, wd_start, wd_delete, unlink_wdog, next_of, process_tick_for,
  tick, process_from, process_timer_list,
}
use cross_compile.Wdog.Round.{tick_all, Gentle, process_timer_list-tick_all}
use cross_compile.Wdog.Laws.{rounds, wd_start_on_time}
use cross_compile.Wdog.Stop.{deleted_next_stops}

-- Timer 1 is due at the next tick, timer 2 at the one after it, and timer 3 is stopped. The function
-- of a timer is its number and 6.
abbrev three_timers : Timers
three_timers = record {
  wdog_list = 1 ∷ 2 ∷ 3 ∷ [];
  wdog = λ k. record {
    ticks_remaining = if k == 1 then 1 else if k == 2 then 2 else 0;
    timeout_func = k + 6;
    timeout_parm = 50;
  };
}

-- The functions only write down that they were called.
abbrev logging : Handler (List ℕ)
logging f parm (w, s) = (w, f ∷ s)

called : (w : Timers) × (process_timer_list logging 4 (three_timers, []) ≡ some (w, 7 ∷ []))
unfolding process_timer_list process_from process_tick_for wdog_valid next_of tick
called = (_, refl)

tick-logging : (v : Timers × List ℕ) (id : ℕ) → (tick logging v id).0.wdog_list ≡ v.0.wdog_list
unfolding tick
tick-logging v id = ground arith

logging-Gentle : Gentle logging (λ v. Unit {0})
logging-Gentle v pre id rest inv e d =
    let same = tick-logging v id in
    (tt, (pre ++ id ∷ [], same ∙ e ∙ sym (append_assoc pre (id ∷ []) rest)), rw same d)

process_timer_list-tick_all_example :
    (process_timer_list logging 4 (three_timers, [])
      ≡ some (tick_all logging (three_timers, []) (1 ∷ 2 ∷ 3 ∷ [])))
    × Unit {0}
process_timer_list-tick_all_example =
    process_timer_list-tick_all logging (λ v. Unit {0}) logging-Gentle 4 (three_timers, []) tt
      (refl, (refl, (refl, tt))) refl (omega arith)

-- Timer 3 is started for seven ticks of the clock, which are three of the timers.
wd_start_on_time_example :
    (v : Timers × List ℕ) × (rounds logging 4 2 ((wd_start three_timers 3 (pos 7) 9 60).0, [])
      ≡ some v)
    × ((v.0.wdog 3).timeout_func ≡ 9)
    × ((v.0.wdog 3).timeout_parm ≡ 60)
    × (is_due (v.0.wdog 3) ≡ true)
unfolding wdog_valid
wd_start_on_time_example =
    wd_start_on_time logging 3 three_timers [] (pos 7) 9 60 4 2 (λ f parm v. (refl, refl))
      (omega arith) refl (refl, (refl, (refl, tt))) refl (omega arith)

-- A function that deletes timer 2.
abbrev deleting : Handler (List ℕ)
deleting f parm (w, s) = ((wd_delete w 2).0, f ∷ s)

deleted : wdog_valid (tick deleting (three_timers, []) 1).0 2 ≡ false
unfolding tick wd_delete wdog_valid unlink_wdog
deleted = refl

-- Timer 1 deletes timer 2, and timer 3 gets no tick.
deleted_next_stops_example :
    process_from deleting 4 (three_timers, []) 1 ≡ some (tick deleting (three_timers, []) 1)
deleted_next_stops_example =
    deleted_next_stops deleting 1 (three_timers, []) [] 1 2 (3 ∷ []) refl (refl, (refl, (refl, tt)))
      refl deleted
