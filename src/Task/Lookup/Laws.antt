-- ===== src/Task/Lookup/Laws.antt =====
-- Names, priorities and the list of identifiers.
use cross_compile.Base.{
  ℕ, ◌≡◌, ◌≢◌, refl, not, ◌&&◌, Option, none, some, List, [], ◌∷◌, ◌==◌, if◌then◌else◌,
}
use cross_compile.Base.Int.{ℤ}
use cross_compile.Errno.{Errno, Result, ok, error}
use cross_compile.Priority.{translate_priority}
use cross_compile.Sched.{set_priority}
use cross_compile.Task.Types.{
  World, Tcb, set_tcb, locked, with_sched, my_task, task_for, first_with,
}

-- The test of a lookup by identifier, in two states that agree on the identifiers of a list.
abbrev pub SameIds : (ℕ → Tcb) → (ℕ → Tcb) → List ℕ → Type 0
SameIds f g [] = Unit {0}
SameIds f g (t ∷ l) = ((f t).taskid ≡ (g t).taskid) × ((f t).pthrid ≡ (g t).pthrid) × SameIds f g l

first_with-SameIds :
    (f g : ℕ → Tcb) (n : ℕ) (l : List ℕ)
    → SameIds f g l
    → first_with (λ t. (f t).taskid == n) l ≡ first_with (λ t. (g t).taskid == n) l
unfolding first_with
first_with-SameIds f g n [] s = refl
first_with-SameIds f g n (t ∷ l) (e, _, s) = rw (e, first_with-SameIds f g n l s) refl

first_with_thread-SameIds :
    (f g : ℕ → Tcb) (n : ℕ) (l : List ℕ)
    → SameIds f g l
    → first_with (λ t. (f t).pthrid == n) l ≡ first_with (λ t. (g t).pthrid == n) l
unfolding first_with
first_with_thread-SameIds f g n [] s = refl
first_with_thread-SameIds f g n (t ∷ l) (_, e, s) = rw (e, first_with_thread-SameIds f g n l s) refl

pub task_for-SameIds :
    (v w : World) (self n : ℕ)
    → v.task_list ≡ w.task_list
    → SameIds v.tcb w.tcb w.task_list
    → task_for v self n ≡ task_for w self n
unfolding task_for my_task
task_for-SameIds v w self n list s =
    rw
      (
        list,
        first_with-SameIds v.tcb w.tcb n w.task_list s,
        first_with_thread-SameIds v.tcb w.tcb self w.task_list s,
      )
      refl

abbrev pub reported : Option Errno → Result (Unit {0})
reported none = ok tt
reported (some c) = error c

-- The state that taskPrioritySet leaves, for a task that is found.
module _ (w : World) (self tid t : ℕ) (pri : ℤ) (found : task_for w self tid ≡ t)
    (real : t ≢ 0) where
  abbrev pub asked : ℕ
  asked = (translate_priority pri w.min_priority w.sems.sched.max_priority).0

  -- Inside taskLock and taskUnlock.
  abbrev pub inside : World
  inside = record (set_tcb (locked w self) t (record (w.tcb t) { vxw_priority = pri })) {
    sems = record (locked w self).sems {
      tasks = record w.sems.tasks {
        sched_priority = λ j. if j == t then asked else w.sems.tasks.sched_priority j;
      };
    };
  }

  abbrev pub applied : World
  applied =
      if not (tid == 0) && not (t == my_task (locked w self) self)
      then with_sched inside (set_priority inside.sems.sched t asked)
      else inside
