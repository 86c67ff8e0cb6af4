-- ===== src/Susp.antt =====
-- lib/ltaskLib.c: the lists of tasks suspended on an object (link_susp_task, unlink_susp_task,
-- signal_for_my_task), seen as lists of task pointers. `Pointers` has the same functions over the
-- intrusive pointers of the task control blocks, and shows that they behave as these. A task pointer
-- is a number, and NULL is 0.
pub mod Pointers
pub mod Signal
use cross_compile.Base.{
  ℕ, Bool, true, false, List, [], ◌∷◌, ◌++◌, ltb, ◌==◌, if◌then◌else◌, elem, erase, head_or_null,
}

-- The fields of the task control blocks that the lists depend on: the Linux priority, and the PEND
-- bit of `state`.
pub record Tasks : Type 0 where
  pub sched_priority : ℕ → ℕ
  pub pend : ℕ → Bool

abbrev pub set_pend : Tasks → ℕ → Bool → Tasks
set_pend ts t b = record ts { pend = λ j. if j == t then b else ts.pend j }

-- The entries before the first `x`.
unfoldable pub until : ℕ → List ℕ → List ℕ
until x [] = []
until x (y ∷ ys) = if y == x then [] else y ∷ until x ys

-- `nxt_susp` of the new entry is cleared before the walk looks for an older link of it: what
-- followed an older link is dropped.
unfoldable pub link_susp_task : Tasks → List ℕ → ℕ → Tasks × List ℕ
link_susp_task ts list new_entry =
    if new_entry == 0
    then (ts, list)
    else (set_pend ts new_entry true, until new_entry list ++ new_entry ∷ [])

unfoldable pub unlink_susp_task : Tasks → List ℕ → ℕ → Tasks × List ℕ
unlink_susp_task ts list entry =
    if entry == 0
    then (ts, list)
    else if elem entry list
    then (set_pend ts entry false, erase entry list)
    else (ts, list)

-- The loop of `signal_for_my_task` over the pended list, for priority order.
unfoldable pub highest : Tasks → ℕ → List ℕ → ℕ
highest ts signalled [] = signalled
highest ts signalled (t ∷ rest) =
    highest ts (if ltb (ts.sched_priority signalled) (ts.sched_priority t) then t else signalled)
      rest

unfoldable pub signalled_task : Tasks → List ℕ → ℕ → ℕ
unfolding highest
signalled_task ts list pend_order =
    if pend_order == 0 then head_or_null list else highest ts (head_or_null list) list

-- `me` is `my_task()`, NULL for a thread that is no task.
unfoldable pub signal_for_my_task : Tasks → List ℕ → ℕ → ℕ → Bool
unfolding signalled_task
signal_for_my_task ts list pend_order me = signalled_task ts list pend_order == me
