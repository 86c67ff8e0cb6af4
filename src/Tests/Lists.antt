-- ===== src/Tests/Lists.antt =====
-- Suspension lists at concrete inputs: head cell 100, tasks 1 to 4.
use cross_compile.Base.{
  ℕ, ◌≤◌, ◌≡◌, refl, true, false, some, [], ◌∷◌, arith, ◌==◌, if◌then◌else◌, elem,
}
use cross_compile.Susp
use cross_compile.Susp.{Tasks, signalled_task, signal_for_my_task}
use cross_compile.Susp.Pointers.{Mem, Chain, link_susp_task, unlink_susp_task}
use cross_compile.Susp.Pointers.Link.{link_susp_task-Chain}
use cross_compile.Susp.Pointers.Unlink.{unlink_susp_task-Chain}
use cross_compile.Susp.Signal.{signalled_task_lem}

-- 100 heads the list 1, 2, 3.
abbrev linked : Mem
linked j = if j == 100 then 1 else if j == 1 then 2 else if j == 2 then 3 else 0

-- Task 2 has the highest priority.
abbrev ranks : Tasks
ranks = record { sched_priority = λ j. if j == 2 then 50 else 10; pend = λ j. true }

link_susp_task-Chain_example :
    (m' : Mem) × (link_susp_task 9 linked 100 4 ≡ some m')
    × Chain m' 100 (Susp.link_susp_task ranks (1 ∷ 2 ∷ 3 ∷ []) 4).1
    × ((j : ℕ) → elem j (100 ∷ 4 ∷ 1 ∷ 2 ∷ 3 ∷ []) ≡ false → m' j ≡ linked j)
link_susp_task-Chain_example =
    link_susp_task-Chain ranks 9 linked 100 4 (1 ∷ 2 ∷ 3 ∷ []) (omega arith) (omega arith) refl
      (refl, (refl, (refl, tt))) (refl, omega arith, (refl, omega arith, (refl, omega arith, refl)))

unlink_susp_task-Chain_example :
    (m' : Mem) × (unlink_susp_task 9 linked 100 2 ≡ some m')
    × Chain m' 100 (Susp.unlink_susp_task ranks (1 ∷ 2 ∷ 3 ∷ []) 2).1
    × ((j : ℕ) → elem j (100 ∷ 1 ∷ 2 ∷ 3 ∷ []) ≡ false → m' j ≡ linked j)
unlink_susp_task-Chain_example =
    unlink_susp_task-Chain ranks 9 linked 100 2 (1 ∷ 2 ∷ 3 ∷ []) (omega arith) (omega arith) refl
      (refl, (refl, (refl, tt))) (refl, omega arith, (refl, omega arith, (refl, omega arith, refl)))

signalled_task_lem_example :
    (elem (signalled_task ranks (1 ∷ 2 ∷ 3 ∷ []) 1) (1 ∷ 2 ∷ 3 ∷ []) ≡ true)
    × (10 ≤ ranks.sched_priority (signalled_task ranks (1 ∷ 2 ∷ 3 ∷ []) 1))
signalled_task_lem_example = signalled_task_lem ranks 1 3 (2 ∷ 3 ∷ []) 1 (omega arith) refl

signal_for_two : signal_for_my_task ranks (1 ∷ 2 ∷ 3 ∷ []) 1 2 ≡ true
unfolding signal_for_my_task Susp.highest
signal_for_two = refl
