-- ===== src/Wdog/Laws.antt =====
-- When a watchdog timer calls its function, and what the calls on timers do.
use cross_compile.Base.{
  ℕ, zero, suc, ◌+◌, ◌-◌, ◌*◌, ◌&&◌, ltb, leb, Bool, ◌<◌, ◌≡◌, ◌≢◌, refl, sym, ◌∙◌, true, false,
  Option, some, List, [], ◌∷◌, ◌++◌, arith, ◌==◌, if◌then◌else◌, elem, elem-erase, elem-erase_ne,
  length,
}
use mathlib.Core.List.{append_assoc}
use cross_compile.Base.Int.{ℤ, pos, negsuc}
use cross_compile.Errno.{ok, error, obj_id_error}
use cross_compile.Susp.Pointers.{Distinct}
use cross_compile.Msgq.Ring.{◌>>=◌}
use cross_compile.Wdog.{
  Timers, set_wdog, Handler, is_due, wdog_valid, tick, process_timer_list, ticks_for, wd_start,
  wd_cancel, wd_create, wd_delete,
}
use cross_compile.Wdog.Round.{tick_all, process_timer_list-tick_all}

-- `n` ticks of the system, with `fuel` for each.
unfoldable pub rounds : {S : Type 0} → Handler S → ℕ → ℕ → Timers × S → Option (Timers × S)
rounds handler fuel zero v = some v
rounds handler fuel (suc n) v = process_timer_list handler fuel v >>= λ v'. rounds handler fuel n v'

-- Whether the function of a timer that was started with a delay is to be called in the tick after the
-- first `n`: in the first tick for a delay below 4, and otherwise in the tick whose number is half the
-- delay, rounded down.
abbrev pub is_time : ℤ → ℕ → Bool
is_time (pos delay) n =
    if ltb delay 4 then n == 0 else leb (2 * (n + 1)) delay && ltb delay (2 * (n + 1) + 2)
is_time (negsuc m) n = n == 0

is_time-ticks_for : (delay : ℤ) (n : ℕ) → (ticks_for delay == n + 1) ≡ is_time delay n
unfolding ticks_for
is_time-ticks_for (pos delay) n = ground arith
is_time-ticks_for (negsuc m) n = ground arith

module _ {S : Type 0} (handler : Handler S) (k : ℕ) where
  -- No handler touches the list or the timer `k`.
  abbrev pub Quiet : Type 0
  Quiet =
      (f parm : ℕ) (v : Timers × S)
      → ((handler f parm v).0.wdog_list ≡ v.0.wdog_list)
        × ((handler f parm v).0.wdog k ≡ v.0.wdog k)

  tick-Quiet :
      (quiet : Quiet) (v : Timers × S) (id : ℕ)
      → ((tick handler v id).0.wdog_list ≡ v.0.wdog_list)
        × ((tick handler v id).0.wdog k ≡ (
            if id == k
            then record (v.0.wdog k) { ticks_remaining = (v.0.wdog k).ticks_remaining - 1 }
            else v.0.wdog k))
  unfolding tick
  tick-Quiet quiet (w, s) id =
      let t = w.wdog id in
      ground (
        arith,
        quiet t.timeout_func t.timeout_parm
            (set_wdog w id (record t { ticks_remaining = t.ticks_remaining - 1 }), s),
      )

  tick_all-Quiet :
      (quiet : Quiet) (v : Timers × S) (l : List ℕ)
      → Distinct l
      → ((tick_all handler v l).0.wdog_list ≡ v.0.wdog_list)
        × ((tick_all handler v l).0.wdog k ≡ (
            if elem k l
            then record (v.0.wdog k) { ticks_remaining = (v.0.wdog k).ticks_remaining - 1 }
            else v.0.wdog k))
  unfolding tick_all
  tick_all-Quiet quiet v [] d = (refl, refl)
  tick_all-Quiet quiet v (id ∷ l) d =
      ground (arith, tick-Quiet quiet v id, tick_all-Quiet quiet (tick handler v id) l d.1)

  round-Quiet :
      (quiet : Quiet) (fuel : ℕ) (v : Timers × S)
      → Distinct v.0.wdog_list
      → elem 0 v.0.wdog_list ≡ false
      → elem k v.0.wdog_list ≡ true
      → length v.0.wdog_list < fuel
      → (v' : Timers × S) × (process_timer_list handler fuel v ≡ some v')
        × (v'.0.wdog_list ≡ v.0.wdog_list)
        × (v'.0.wdog k ≡ record (v.0.wdog k) { ticks_remaining = (v.0.wdog k).ticks_remaining - 1 })
  round-Quiet quiet fuel v d nn there h =
      let (done, _) =
        process_timer_list-tick_all handler (λ v. Unit {0})
          (λ u pre id rest inv e d'.
            let same = (tick-Quiet quiet u id).0 in
            (tt, (pre ++ id ∷ [], same ∙ e ∙ sym (append_assoc pre (id ∷ []) rest)), rw same d'))
          fuel v tt d nn h in
      let (same, at) = tick_all-Quiet quiet v v.0.wdog_list d in
      (tick_all handler v v.0.wdog_list, done, same, ground arith)

  rounds-Quiet :
      (quiet : Quiet) (fuel n : ℕ) (v : Timers × S)
      → Distinct v.0.wdog_list
      → elem 0 v.0.wdog_list ≡ false
      → elem k v.0.wdog_list ≡ true
      → length v.0.wdog_list < fuel
      → (v' : Timers × S) × (rounds handler fuel n v ≡ some v')
        × (v'.0.wdog_list ≡ v.0.wdog_list)
        × (v'.0.wdog k ≡ record (v.0.wdog k) { ticks_remaining = (v.0.wdog k).ticks_remaining - n })
  unfolding rounds
  rounds-Quiet quiet fuel zero v d nn there h = (v, refl, refl, ground arith)
  rounds-Quiet quiet fuel (suc n) v d nn there h =
      let (u, e, same, at) = round-Quiet quiet fuel v d nn there h in
      let (v', e', same', at') =
        rounds-Quiet quiet fuel n u (rw same d) (rw same nn) (rw same there) (rw same h) in
      (v', rw e e', same' ∙ same, ground arith)

  -- A timer of the list is started with a function that is not NULL, the list holds no timer twice
  -- and no NULL, and no handler touches the list or this timer: with more fuel than the list has
  -- timers, any number `n` of rounds of the timer list are processed, the timer then still has the
  -- function and its argument, and it is due in the next round exactly if that is the first one and the
  -- delay is below 4, or if the number of the round is half the delay, rounded down.
  pub wd_start_on_time :
      (w : Timers) (s : S) (delay : ℤ) (f parm fuel n : ℕ)
      → Quiet
      → f ≢ 0
      → wdog_valid w k ≡ true
      → Distinct w.wdog_list
      → elem 0 w.wdog_list ≡ false
      → length w.wdog_list < fuel
      → (v : Timers × S) × (rounds handler fuel n ((wd_start w k delay f parm).0, s) ≡ some v)
        × ((v.0.wdog k).timeout_func ≡ f)
        × ((v.0.wdog k).timeout_parm ≡ parm)
        × (is_due (v.0.wdog k) ≡ is_time delay n)
  unfolding wd_start wdog_valid
  wd_start_on_time w s delay f parm fuel n quiet func there d nn h =
      let started = (wd_start w k delay f parm).0 in
      let same : started.wdog_list ≡ w.wdog_list = ground arith in
      let (v, e, _, at) =
        rounds-Quiet quiet fuel n (started, s) (rw same d) (rw same nn) (rw same there)
          (rw same h) in
      (v, e, ground arith, ground arith, ground arith ∙ is_time-ticks_for delay n)

  -- A timer that is cancelled does not call its function, whatever number of ticks pass.
  pub wd_cancel_never :
      (w : Timers) (s : S) (fuel n : ℕ)
      → Quiet
      → wdog_valid w k ≡ true
      → Distinct w.wdog_list
      → elem 0 w.wdog_list ≡ false
      → length w.wdog_list < fuel
      → (v : Timers × S) × (rounds handler fuel n ((wd_cancel w k).0, s) ≡ some v)
        × (is_due (v.0.wdog k) ≡ false)
  unfolding wd_cancel wdog_valid
  wd_cancel_never w s fuel n quiet there d nn h =
      let cancelled = (wd_cancel w k).0 in
      let same : cancelled.wdog_list ≡ w.wdog_list = ground arith in
      let (v, e, _, at) =
        rounds-Quiet quiet fuel n (cancelled, s) (rw same d) (rw same nn) (rw same there)
          (rw same h) in
      (v, e, ground arith)

-- A timer that is not on the list, which holds no timer twice, is refused by wdStart, wdCancel and
-- wdDelete with S_objLib_OBJ_ID_ERROR, and nothing changes. One that is on the list is accepted by
-- each; the first two leave the list and the other timers, and wdDelete takes it alone off the
-- list. A new timer is the last on the list and is not due.
pub wd_cases :
    (w : Timers) (id other block : ℕ) (delay : ℤ) (f parm : ℕ)
    → Distinct w.wdog_list
    → other ≢ id
    → (let there = wdog_valid w id in
        let r = (if there then ok tt else error obj_id_error) in
        ((wd_start w id delay f parm).1 ≡ r)
        × ((wd_cancel w id).1 ≡ r)
        × ((wd_delete w id).1 ≡ r)
        × ((wd_start w id delay f parm).0.wdog_list ≡ w.wdog_list)
        × ((wd_cancel w id).0.wdog_list ≡ w.wdog_list)
        × ((wd_start w id delay f parm).0.wdog other ≡ w.wdog other)
        × ((wd_cancel w id).0.wdog other ≡ w.wdog other)
        × ((wd_start w id delay f parm).0 ≡ (if there then (wd_start w id delay f parm).0 else w))
        × ((wd_cancel w id).0 ≡ (if there then (wd_cancel w id).0 else w))
        × ((wd_delete w id).0 ≡ (if there then (wd_delete w id).0 else w))
        × (wdog_valid (wd_delete w id).0 id ≡ false)
        × (wdog_valid (wd_delete w id).0 other ≡ wdog_valid w other)
        × ((wd_create w (some block)).0.wdog_list ≡ w.wdog_list ++ block ∷ [])
        × (is_due ((wd_create w (some block)).0.wdog block) ≡ false))
unfolding wd_start wd_cancel wd_delete wd_create wdog_valid
wd_cases w id other block delay f parm d ne =
    ground (arith, elem-erase id w.wdog_list d, elem-erase_ne other id w.wdog_list ne)
