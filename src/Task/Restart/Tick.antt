-- ===== src/Task/Restart/Tick.antt =====
-- The tick at which a task that restarts itself starts over.
use cross_compile.Base.{
  ℕ, zero, suc, ◌+◌, ◌<◌, ◌≡◌, ◌≢◌, refl, sym, ap, ◌∙◌, true, false, some, List, [], ◌∷◌, ◌++◌,
  arith, if◌then◌else◌, elem, elem-append, erase-append_last, head_or_null, length, ltb, ◌-◌,
  Distinct,
}
use mathlib.Core.List.{append_assoc}
use cross_compile.Base.Int.{pos}
use cross_compile.Wdog.{
  Timers, Handler, is_due, tick, set_wdog, wdog_valid, process_from, wd_create, wd_start, wd_delete,
  ticks_for, link_wdog, unlink_wdog,
}
use cross_compile.Wdog.Round.{process_tick_for_next, process_from_step}
use cross_compile.Wdog.{process_timer_list}
use cross_compile.Wdog.Stop.{process_from_null}
use cross_compile.Task.Types.{readied, task_for}
use cross_compile.Task.Restart.{Os, functions, self_starter}

-- No timer of a list calls its function at the next tick.
abbrev pub NoneDue : Timers → List ℕ → Type 0
NoneDue w [] = Unit {0}
NoneDue w (id ∷ l) = (is_due (w.wdog id) ≡ false) × NoneDue w l

-- What a tick leaves of the timers, if no function is called.
abbrev pub counted : Timers → ℕ → Timers
counted w id =
    if ltb 0 (w.wdog id).ticks_remaining
    then set_wdog w id (record (w.wdog id) { ticks_remaining = (w.wdog id).ticks_remaining - 1 })
    else w

Distinct-append :
    (pre : List ℕ) (id : ℕ) (rest : List ℕ) → Distinct (pre ++ id ∷ rest) → elem id rest ≡ false
Distinct-append [] id rest d = d.0
Distinct-append (x ∷ pre) id rest d = Distinct-append pre id rest d.1

elem-Distinct : (l : List ℕ) (last : ℕ) → Distinct (l ++ last ∷ []) → elem last l ≡ false
elem-Distinct [] last d = refl
elem-Distinct (x ∷ l) last d = ground (arith, elem-append x l (last ∷ []), elem-Distinct l last d.1)

tick_not_due :
    {S : Type 0} (handler : Handler S) (w : Timers) (s : S) (id : ℕ)
    → is_due (w.wdog id) ≡ false
    → tick handler (w, s) id ≡ (counted w id, s)
unfolding tick
tick_not_due handler w s id h = ground arith

counted-wdog_list : (w : Timers) (id : ℕ) → (counted w id).wdog_list ≡ w.wdog_list
counted-wdog_list w id = ground arith

counted_ne : (w : Timers) (id j : ℕ) → j ≢ id → (counted w id).wdog j ≡ w.wdog j
counted_ne w id j ne = ground arith

set_wdog-NoneDue :
    (w w' : Timers) (id : ℕ) (l : List ℕ)
    → ((j : ℕ) → j ≢ id → w'.wdog j ≡ w.wdog j)
    → elem id l ≡ false
    → NoneDue w l
    → NoneDue w' l
set_wdog-NoneDue w w' id [] same e n = tt
set_wdog-NoneDue w w' id (x ∷ l) same e (h, n) =
    (ap is_due (same x (λ q. ground arith)) ∙ h, set_wdog-NoneDue w w' id l same (ground arith) n)

-- The loop comes by timers that are not due, to one behind them.
process_from-NoneDue :
    {S : Type 0} (handler : Handler S) (fuel last : ℕ) (w : Timers) (s : S) (pre l : List ℕ)
    → w.wdog_list ≡ pre ++ (l ++ last ∷ [])
    → Distinct w.wdog_list
    → elem 0 (l ++ last ∷ []) ≡ false
    → NoneDue w l
    → length l + 1 < fuel
    → (w' : Timers) × (w'.wdog_list ≡ w.wdog_list)
      × (w'.wdog last ≡ w.wdog last)
      × (process_from handler fuel (w, s) (head_or_null (l ++ last ∷ []))
          ≡ some (tick handler (w', s) last))
process_from-NoneDue handler zero last w s pre l e d nn n h = absurd (omega arith)
process_from-NoneDue handler (suc zero) last w s pre l e d nn n h = absurd (omega arith)
process_from-NoneDue handler (suc (suc fuel)) last w s pre [] e d nn n h =
    let here = process_tick_for_next handler (w, s) pre last [] e d in
    (
      w,
      refl,
      refl,
      process_from_step handler (suc fuel) (w, s) last (λ q. ground arith) here
          ∙ process_from_null handler fuel (tick handler (w, s) last),
    )
process_from-NoneDue handler (suc (suc fuel)) last w s pre (id ∷ l) e d nn (due, n) h =
    let here = process_tick_for_next handler (w, s) pre id (l ++ last ∷ []) e d in
    let same = counted-wdog_list w id in
    let apart = Distinct-append pre id (l ++ last ∷ []) (rw e at d) in
    let e' = same ∙ e ∙ sym (append_assoc pre (id ∷ []) (l ++ last ∷ [])) in
    let out : elem id l ≡ false = ground (arith, elem-append id l (last ∷ [])) in
    let ne : last ≢ id = λ q. ground (arith, elem-append id l (last ∷ [])) in
    let (w', list, at, done) =
      process_from-NoneDue handler (suc fuel) last (counted w id) s (pre ++ id ∷ []) l e'
        (rw same d) (ground arith) (set_wdog-NoneDue w (counted w id) id l (counted_ne w id) out n)
        (omega arith) in
    (
      w',
      list ∙ same,
      at ∙ counted_ne w id last ne,
      process_from_step handler (suc fuel) (w, s) id (λ q. ground arith) here
          ∙ ap (λ v. process_from handler (suc fuel) v (head_or_null (l ++ last ∷ [])))
              (tick_not_due handler w s id due)
          ∙ done,
    )

-- A timer that was made and started with a delay of 1.
abbrev pub started : Timers → ℕ → ℕ → ℕ → Timers
started w block f parm = (wd_start (wd_create w (some block)).0 block (pos 1) f parm).0

started_lem :
    (w : Timers) (block f parm : ℕ)
    → ((started w block f parm).wdog_list ≡ w.wdog_list ++ block ∷ [])
      × ((started w block f parm).wdog block
          ≡ record { ticks_remaining = 1; timeout_func = f; timeout_parm = parm })
      × ((j : ℕ) → j ≢ block → (started w block f parm).wdog j ≡ w.wdog j)
unfolding wd_start wd_create wdog_valid ticks_for link_wdog
started_lem w block f parm =
    let there : elem block (w.wdog_list ++ block ∷ []) ≡ true =
      ground (arith, elem-append block w.wdog_list (block ∷ [])) in
    (ground arith, ground arith, λ j ne. ground arith)

-- The tick of the timer that restarts a task.
restart_fires :
    (starter exc id : ℕ) (others : Handler Os) (w : Timers) (s : Os) (l : List ℕ)
    (t taskid block : ℕ)
    → starter ≢ 0
    → s.restart_wdog ≡ block
    → w.wdog_list ≡ l ++ block ∷ []
    → elem block l ≡ false
    → w.wdog block ≡ record { ticks_remaining = 1; timeout_func = starter; timeout_parm = taskid }
    → task_for s.world exc taskid ≡ t
    → t ≢ 0
    → (let v = tick (functions starter exc (some id) others) (w, s) block in
        (v.0.wdog_list ≡ l) × (v.1.world ≡ readied s.world t id))
unfolding tick self_starter wd_delete wdog_valid unlink_wdog
restart_fires starter exc id others w s l t taskid block func wd list out at found task =
    let there : elem block (l ++ block ∷ []) ≡ true =
      ground (arith, elem-append block l (block ∷ [])) in
    ground (arith, erase-append_last block l out)

-- The turn of the exception task after self_restart, if no other timer is due.
pub restarts_next_tick :
    (starter exc id fuel : ℕ) (others : Handler Os) (w v : Timers) (s : Os) (t block : ℕ)
    → starter ≢ 0
    → t ≢ 0
    → task_for s.world exc (s.world.tcb t).taskid ≡ t
    → v ≡ started w block starter (s.world.tcb t).taskid
    → s.restart_wdog ≡ block
    → Distinct (w.wdog_list ++ block ∷ [])
    → elem 0 (w.wdog_list ++ block ∷ []) ≡ false
    → NoneDue w w.wdog_list
    → length w.wdog_list + 1 < fuel
    → (r : Timers × Os) × (process_timer_list (functions starter exc (some id) others) fuel (v, s)
        ≡ some r)
      × (r.0.wdog_list ≡ w.wdog_list)
      × (r.1.world ≡ readied s.world t id)
unfolding process_timer_list
restarts_next_tick starter exc id fuel others w v s t block func task found timers wd d nn n h =
    let handler = functions starter exc (some id) others in
    let taskid = (s.world.tcb t).taskid in
    let (list, at, rest) = started_lem w block starter taskid in
    let out : elem block w.wdog_list ≡ false = elem-Distinct w.wdog_list block d in
    let l : v.wdog_list ≡ w.wdog_list ++ block ∷ [] = ap (λ u. u.wdog_list) timers ∙ list in
    let n' = set_wdog-NoneDue w (started w block starter taskid) block w.wdog_list rest out n in
    let (w', same, at', done) =
      process_from-NoneDue handler fuel block v s [] w.wdog_list l (rw l d) nn (rw timers n') h in
    let (gone, world) =
      restart_fires starter exc id others w' s w.wdog_list t taskid block func wd (same ∙ l) out
        (at' ∙ ap (λ u. u.wdog block) timers ∙ at) found task in
    (
      tick handler (w', s) block,
      ap (λ u. process_from handler fuel (v, s) (head_or_null u)) l ∙ done,
      gone,
      world,
    )
