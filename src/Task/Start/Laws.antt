-- ===== src/Task/Start/Laws.antt =====
-- New tasks: their identifiers, and what taskInit and taskActivate do when they succeed.
use cross_compile.Base.{
  ℕ, ◌+◌, ◌<◌, ◌≤◌, ◌≡◌, ◌≢◌, Bool, true, false, ◌&&◌, Option, none, some, List, [], ◌∷◌, ◌++◌,
  arith, ◌==◌, ltb, leb, if◌then◌else◌,
}
use cross_compile.Errno.{ok}
use cross_compile.Priority.{translate_priority}
use cross_compile.Task.Types.{
  World, set_tcb, locked, unlocked, readied, is_dead, my_task, task_for, first_with,
}
use cross_compile.Task.Table.{Spawning, above_all, new_tid, new_tcb, new_sems, task_init}
use cross_compile.Task.Start.{activate, task_activate}

-- No task of a list passes a test.
abbrev pub NoneWith : (ℕ → Bool) → List ℕ → Type 0
NoneWith test [] = Unit {0}
NoneWith test (x ∷ l) = (test x ≡ false) × NoneWith test l

pub first_with_last :
    (test : ℕ → Bool) (l : List ℕ) (t : ℕ)
    → NoneWith test l
    → test t ≡ true
    → first_with test (l ++ t ∷ []) ≡ t
unfolding first_with
first_with_last test [] t n h = ground arith
first_with_last test (x ∷ l) t (e, n) h = ground (arith, first_with_last test l t n h)

above_all_bounds :
    (w : World) (n : ℕ) (l : List ℕ) → n ≤ 65536 → (n ≤ above_all w n l) × (above_all w n l ≤ 65536)
unfolding above_all
above_all_bounds w n [] h = (omega arith, h)
above_all_bounds w n (t ∷ l) h =
    let n' =
      if ltb (w.tcb t).taskid 65536 && leb n (w.tcb t).taskid then (w.tcb t).taskid + 1 else n in
    let b : (n ≤ n') × (n' ≤ 65536) = ground arith in
    let r = above_all_bounds w n' l b.1 in (ground (arith, r, b), r.1)

above_all_fresh :
    (w : World) (n : ℕ) (l : List ℕ)
    → n ≤ 65536
    → above_all w n l < 65536
    → NoneWith (λ t. (w.tcb t).taskid == above_all w n l) l
unfolding above_all
above_all_fresh w n [] h low = tt
above_all_fresh w n (t ∷ l) h low =
    let n' =
      if ltb (w.tcb t).taskid 65536 && leb n (w.tcb t).taskid then (w.tcb t).taskid + 1 else n in
    let b : n' ≤ 65536 = ground arith in
    let r = above_all_bounds w n' l b in (ground (arith, r), above_all_fresh w n' l b low)

-- The number that new_tid gives is from 1 to 65536, and if it is not 65536, no task of the list has
-- it as its identifier.
pub new_tid_fresh :
    (w : World)
    → new_tid w ≢ 65536
    → (1 ≤ new_tid w)
      × (new_tid w < 65536)
      × NoneWith (λ t. (w.tcb t).taskid == new_tid w) w.task_list
unfolding new_tid
new_tid_fresh w ne =
    let b = above_all_bounds w 1 w.task_list (omega arith) in
    (b.0, omega arith, above_all_fresh w 1 w.task_list (omega arith) (omega arith))

-- taskInit without options, with a priority in range.
pub task_init-ok :
    (w : World) (task : ℕ) (a : Spawning) (named : Bool)
    → a.opts ≡ 0
    → task ≢ 0
    → (translate_priority a.pri w.min_priority w.sems.sched.max_priority).1 ≡ none
    → (let p = (translate_priority a.pri w.min_priority w.sems.sched.max_priority).0 in
        task_init w task a named ≡ (
          record (set_tcb w task (new_tcb w task a named)) {
            sems = new_sems w.sems task p;
            task_list = w.task_list ++ task ∷ [];
          },
          ok tt,
        ))
unfolding task_init
task_init-ok w task a named opts real e = ground arith

pub task_activate-dead :
    (w : World) (self tid t id : ℕ)
    → task_for w self tid ≡ t
    → t ≢ 0
    → is_dead w t ≡ true
    → task_activate w self tid (some id) ≡ (unlocked (readied (locked w self) t id) self, ok tt)
unfolding task_activate activate task_for my_task
task_activate-dead w self tid t id found real dead = ground arith

pub task_activate_ready :
    (w : World) (self tid t : ℕ) (thread : Option ℕ)
    → task_for w self tid ≡ t
    → t ≢ 0
    → is_dead w t ≡ false
    → task_activate w self tid thread ≡ (unlocked (locked w self) self, ok tt)
unfolding task_activate activate task_for my_task
task_activate_ready w self tid t thread found real dead = ground arith
