-- ===== src/Wdog/Stop.antt =====
-- A handler that deletes the timer that comes next.
use cross_compile.Base.{
  ℕ, suc, ◌≡◌, refl, ◌∙◌, false, some, List, ◌∷◌, ◌++◌, arith, elem, elem-append,
}
use cross_compile.Base.{Distinct}
use cross_compile.Wdog.{Timers, Handler, wdog_valid, tick, process_tick_for, process_from}
use cross_compile.Wdog.Round.{process_tick_for_next, process_from_step}

missing :
    {S : Type 0} (handler : Handler S) (v : Timers × S) (id : ℕ)
    → wdog_valid v.0 id ≡ false
    → process_tick_for handler v id ≡ (v, 0)
unfolding process_tick_for
missing handler v id gone = rw gone

pub process_from_null :
    {S : Type 0} (handler : Handler S) (fuel : ℕ) (v : Timers × S)
    → process_from handler (suc fuel) v 0 ≡ some v
unfolding process_from
process_from_null handler fuel v = refl

-- If the tick of a timer takes the next one off a list that holds no timer twice and no NULL, the
-- loop stops there: the timers that come after it miss this tick, though they may be on the list
-- still.
pub deleted_next_stops :
    {S : Type 0} (handler : Handler S) (fuel : ℕ) (v : Timers × S) (pre : List ℕ) (id next : ℕ)
    (rest : List ℕ)
    → v.0.wdog_list ≡ pre ++ id ∷ next ∷ rest
    → Distinct v.0.wdog_list
    → elem 0 v.0.wdog_list ≡ false
    → wdog_valid (tick handler v id).0 next ≡ false
    → process_from handler (suc (suc (suc fuel))) v id ≡ some (tick handler v id)
deleted_next_stops handler fuel v pre id next rest e d nn gone =
    let l : elem 0 (pre ++ id ∷ next ∷ rest) ≡ false = rw e at nn in
    process_from_step handler (suc (suc fuel)) v id
      (ground (arith, elem-append 0 pre (id ∷ next ∷ rest)))
      (process_tick_for_next handler v pre id (next ∷ rest) e d)
    ∙ process_from_step handler (suc fuel) (tick handler v id) next
        (ground (arith, elem-append 0 pre (id ∷ next ∷ rest)))
        (missing handler (tick handler v id) next gone)
    ∙ process_from_null handler fuel (tick handler v id)
