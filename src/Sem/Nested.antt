-- ===== src/Sem/Nested.antt =====
-- A task takes a mutex more than once.
use cross_compile.Base.{ℕ, zero, suc, ◌+◌, ◌≡◌, ◌≢◌, refl, ◌∙◌, true, Option, none, some, [], arith}
use cross_compile.Errno.{ok, wait_forever}
use cross_compile.Clock.{Timeval}
use cross_compile.Msgq.Receive.{timeout_for}
use cross_compile.Sched.{Thread}
use cross_compile.Sem.Types.{set_waiting, send, Sems, set_smcb, is_mutex}
use cross_compile.Sem.Registry.{sem_find_lock}
use cross_compile.Sem.Give.{relinquish, sem_give, give_token}
use cross_compile.Sem.Take.{returned, sem_take}
use cross_compile.Sem.Token.{sem_take_token}

-- `n` calls of semTake that all return OK, and then the semaphores.
unfoldable pub take_times : ℕ → Sems → Thread → Timeval → ℕ → Option Sems
take_times zero w t now k = some w
take_times (suc n) w t now k = elim (sem_take w t now k wait_forever) [
  | some (w', returned (ok x)) ↦ take_times n w' t now k
  | _ ↦ none
]

unfoldable pub give_times : ℕ → Sems → Thread → ℕ → Sems
give_times zero w t k = w
give_times (suc n) w t k = give_times n (sem_give w t k).0 t k

-- `me` owns the mutex at a depth.
abbrev Deep : ℕ → ℕ → ℕ → Sems → Type 0
Deep me depth k w =
    (sem_find_lock w k ≡ true)
    × (is_mutex (w.smcb k).flags ≡ true)
    × ((w.smcb k).current_owner ≡ me)
    × ((w.smcb k).token_count ≡ 0)
    × ((w.smcb k).recursion_level ≡ depth)

-- The mutex exists and is free, and no task waits for it.
abbrev pub Free : ℕ → Sems → Type 0
Free k w =
    (sem_find_lock w k ≡ true)
    × (is_mutex (w.smcb k).flags ≡ true)
    × ((w.smcb k).current_owner ≡ 0)
    × ((w.smcb k).token_count ≡ 1)
    × ((w.smcb k).recursion_level ≡ 0)

again : Sems → ℕ → ℕ → Sems
again w me k =
    set_waiting
      (set_smcb w k (record (w.smcb k) { recursion_level = (w.smcb k).recursion_level + 1 })) me 0

sem_take-again :
    {depth : ℕ} (w : Sems) (t : Thread) (now : Timeval) (k : ℕ)
    → Deep t.my_task depth k w
    → sem_take w t now k wait_forever ≡ some (again w t.my_task k, returned (ok tt))
unfolding sem_take again
sem_take-again w t now k d = ground arith

again-Deep :
    {depth : ℕ} (w : Sems) (me k : ℕ) → Deep me depth k w → Deep me (suc depth) k (again w me k)
unfolding again sem_find_lock
again-Deep w me k d = ground arith

take_times-step :
    (n : ℕ) (w v : Sems) (t : Thread) (now : Timeval) (k : ℕ)
    → sem_take w t now k wait_forever ≡ some (v, returned (ok tt))
    → take_times (suc n) w t now k ≡ take_times n v t now k
unfolding take_times
take_times-step n w v t now k e = ground arith

take_times-Deep :
    {depth : ℕ} (n : ℕ) (w : Sems) (t : Thread) (now : Timeval) (k : ℕ)
    → Deep t.my_task depth k w
    → (w' : Sems) × (take_times n w t now k ≡ some w') × Deep t.my_task (depth + n) k w'
unfolding take_times
take_times-Deep zero w t now k d = (w, refl, ground arith)
take_times-Deep {depth = depth} (suc n) w t now k d =
    let (w', e, d') =
      take_times-Deep {depth = suc depth} n (again w t.my_task k) t now k
        (again-Deep w t.my_task k d) in
    (
      w',
      take_times-step n w (again w t.my_task k) t now k (sem_take-again w t now k d) ∙ e,
      ground arith,
    )

sem_give-inner :
    {depth : ℕ} (w : Sems) (t : Thread) (k : ℕ)
    → Deep t.my_task (suc (suc depth)) k w
    → Deep t.my_task (suc depth) k (sem_give w t k).0
unfolding sem_give give_token sem_find_lock
sem_give-inner w t k d = ground arith

sem_give-last : (w : Sems) (t : Thread) (k : ℕ) → Deep t.my_task 1 k w → Free k (sem_give w t k).0
unfolding sem_give give_token sem_find_lock relinquish
sem_give-last w t k d = ground arith

give_times-Free :
    (n : ℕ) (w : Sems) (t : Thread) (k : ℕ)
    → Deep t.my_task (suc n) k w
    → Free k (give_times (suc n) w t k)
unfolding give_times
give_times-Free zero w t k d = sem_give-last w t k d
give_times-Free (suc n) w t k d = give_times-Free n (sem_give w t k).0 t k (sem_give-inner w t k d)

-- A task that takes a free mutex in service, which no task waits for, any number of times gets
-- it each time at once; it owns it then at that depth, and as many calls of semGive make it free
-- again.
pub mutex_round_trip :
    (n : ℕ) (w : Sems) (t : Thread) (now : Timeval) (k : ℕ)
    → Free k w
    → (w.smcb k).send_type ≡ send
    → (w.smcb k).first_susp ≡ []
    → t.my_task ≢ 0
    → (w' : Sems) × (take_times (suc n) w t now k ≡ some w')
      × ((w'.smcb k).current_owner ≡ t.my_task)
      × ((w'.smcb k).recursion_level ≡ suc n)
      × Free k (give_times (suc n) w' t k)
unfolding timeout_for
mutex_round_trip n w t now k (found, kind, owner, tokens, level) live empty task =
    let (v, e, taken, found') =
      sem_take_token w t now k wait_forever none refl found task live (omega arith) empty
        (ground arith) in
    let first : Deep t.my_task 1 k v = ground arith in
    let (w', e', d) = take_times-Deep n v t now k first in
    (
      w',
      take_times-step n w v t now k e ∙ e',
      ground arith,
      ground arith,
      give_times-Free n w' t k (ground arith),
    )
