-- ===== src/Wdog.antt =====
-- lib/lwdLib.c: watchdog timers. wdog_list is the list of the control blocks, and `wdog` what a
-- pointer to one leads to. The function that a timer calls is a parameter, `handler`, which takes the
-- function pointer and its int (by its 32 bits) and changes the timers, by calls of this library, and
-- the rest `S` of the program's state. A function pointer is a number, and NULL is 0.
pub mod Round
pub mod Laws
pub mod Stop
use cross_compile.Base.{
  ℕ, zero, suc, ◌-◌, ◌/◌, Bool, true, false, not, ◌&&◌, Option, none, some, List, [], ◌∷◌, ◌++◌,
  ltb, ◌==◌, if◌then◌else◌, elem, erase, head_or_null,
}
use cross_compile.Base.Int.{ℤ, pos, negsuc}
use cross_compile.Errno.{Result, ok, error, obj_id_error}

-- v2pt_wdog_t.
pub record Timer : Type 0 where
  pub ticks_remaining : ℕ
  pub timeout_func : ℕ
  pub timeout_parm : ℕ

pub record Timers : Type 0 where
  pub wdog_list : List ℕ
  pub wdog : ℕ → Timer

abbrev pub set_wdog : Timers → ℕ → Timer → Timers
set_wdog w id t = record w { wdog = λ j. if j == id then t else w.wdog j }

-- Whether the timer still exists; if so, the caller holds its wdog_lock.
unfoldable pub wdog_valid : Timers → ℕ → Bool
wdog_valid w id = elem id w.wdog_list

unfoldable pub link_wdog : Timers → ℕ → Timers
link_wdog w new_wdog = record w { wdog_list = w.wdog_list ++ new_wdog ∷ [] }

unfoldable pub unlink_wdog : Timers → ℕ → Timers
unlink_wdog w id = record w { wdog_list = erase id w.wdog_list }

-- What `next` of a control block on the list leads to.
unfoldable pub next_of : List ℕ → ℕ → ℕ
next_of [] id = 0
next_of (x ∷ xs) id = if x == id then head_or_null xs else next_of xs id

unfoldable pub wd_cancel : Timers → ℕ → Timers × Result (Unit {0})
unfolding wdog_valid
wd_cancel w id =
    if wdog_valid w id
    then (set_wdog w id (record (w.wdog id) { ticks_remaining = 0 }), ok tt)
    else (w, error obj_id_error)

-- `block` is what ts_malloc returns, `none` for NULL; the other fields of the block stay as they are.
unfoldable pub wd_create : Timers → Option ℕ → Timers × Option ℕ
unfolding link_wdog
wd_create w none = (w, none)
wd_create w (some block) =
    (link_wdog (set_wdog w block (record (w.wdog block) { ticks_remaining = 0 })) block, some block)

unfoldable pub wd_delete : Timers → ℕ → Timers × Result (Unit {0})
unfolding wdog_valid unlink_wdog
wd_delete w id = if wdog_valid w id then (unlink_wdog w id, ok tt) else (w, error obj_id_error)

-- `delay / 2`, but at least 1.
unfoldable pub ticks_for : ℤ → ℕ
ticks_for (pos delay) = if ltb (delay / 2) 1 then 1 else delay / 2
ticks_for (negsuc n) = 1

unfoldable pub wd_start : Timers → ℕ → ℤ → ℕ → ℕ → Timers × Result (Unit {0})
unfolding wdog_valid
wd_start w id delay f parm =
    if wdog_valid w id
    then (
      set_wdog w id
          (record { ticks_remaining = ticks_for delay; timeout_func = f; timeout_parm = parm }),
      ok tt,
    )
    else (w, error obj_id_error)

-- The function that a timer calls.
abbrev pub Handler : Type 0 → Type 0
Handler S = ℕ → ℕ → Timers × S → Timers × S

-- The tick is the last one before the timeout, and there is a function to call.
abbrev pub is_due : Timer → Bool
is_due t = t.ticks_remaining == 1 && not (t.timeout_func == 0)

-- A tick of a timer that exists.
unfoldable pub tick : {S : Type 0} → Handler S → Timers × S → ℕ → Timers × S
tick handler (w, s) id =
    let t = w.wdog id in
    let w' = set_wdog w id (record t { ticks_remaining = t.ticks_remaining - 1 }) in
    if ltb 0 t.ticks_remaining
    then (if is_due t then handler t.timeout_func t.timeout_parm (w', s) else (w', s))
    else (w, s)

-- The next timer is read before the handler is called.
unfoldable pub process_tick_for : {S : Type 0} → Handler S → Timers × S → ℕ → (Timers × S) × ℕ
process_tick_for handler v id =
    if wdog_valid v.0 id then (tick handler v id, next_of v.0.wdog_list id) else (v, 0)

-- The loop of process_timer_list; `none` means that the fuel ran out.
unfoldable pub process_from : {S : Type 0} → Handler S → ℕ → Timers × S → ℕ → Option (Timers × S)
process_from handler zero v next = none
process_from handler (suc fuel) v next = elim (next == 0) [
  | true ↦ some v
  | false ↦
      process_from handler fuel (process_tick_for handler v next).0
        (process_tick_for handler v next).1
]

-- All timers, a tick later.
unfoldable pub process_timer_list : {S : Type 0} → Handler S → ℕ → Timers × S → Option (Timers × S)
process_timer_list handler fuel v = process_from handler fuel v (head_or_null v.0.wdog_list)
