-- ===== src/Task/Valid/Spawner.antt =====
-- Sequences of calls on tasks, with taskSpawn in its steps: the identifier that it takes is free when it
-- is stored, as long as no other thread makes a task in between.
use cross_compile.Base.{
  ℕ, ◌%◌, ◌^◌, ◌≡◌, ◌≢◌, refl, ◌∙◌, Bool, true, false, not, ◌&&◌, inl, inr, none, some, List, [],
  ◌∷◌, arith, ◌==◌, if◌then◌else◌, elem, Distinct, Bool-cases,
}
use cross_compile.Errno.{Result, ok, error}
use cross_compile.Task.Types.{World}
use cross_compile.Task.Table.{Spawning, new_tid, task_init}
use cross_compile.Task.Start.{spawn_init, spawn_store}
use cross_compile.Task.Start.Laws.{NoneWith, new_tid_fresh}
use cross_compile.Task.Valid.{Valid, Unique, ids, Keeps, Keeps-Valid, NoneWith-erase}
use cross_compile.Task.Valid.Added.{task_init-Valid, task_init-ids, task_init-list, NoneWith-last}
use cross_compile.Task.Valid.Steps.{TaskStep, TaskStep-Keeps, Found, Valid-Found}

-- Where a taskSpawn stands: it has read an identifier, or it has called taskInit, with this result.
pub data Spawner : Type 0 where
  idle : Spawner
  numbered : ℕ → Spawner
  filled : ℕ → ℕ → Result (Unit {0}) → Spawner

-- The block is not on the list, and no task is identified by its address.
abbrev pub IsNew : World → ℕ → Type 0
IsNew w t = (elem t w.task_list ≡ false) × NoneWith (λ x. ids w x == t % 2 ^ 32) w.task_list

-- A step of a call. One thread at a time is in taskInit, or in taskSpawn before it has stored the
-- identifier; the steps of all other calls come in between, and what is left of taskSpawn is taskActivate,
-- a call of its own. new_tid finds the highest identifier free.
pub data CallStep : World → Spawner → World → Spawner → Type 0 where
  numbers : {w : World} → new_tid w ≢ 65536 → CallStep w idle w (numbered (new_tid w))
  fills :
      {w : World} {tid : ℕ} (default_name : ℕ → List ℕ) (a : Spawning) (t : ℕ) (named : Bool)
      → IsNew w t
      → CallStep w
          (numbered tid)
          (spawn_init w default_name a t named tid).0
          (filled t tid (spawn_init w default_name a t named tid).1)
  stores :
      {w : World} {t tid : ℕ} {r : Result (Unit {0})}
      → CallStep w (filled t tid r) (spawn_store w t tid r) idle
  inits :
      {w : World} (t : ℕ) (a : Spawning) (named : Bool)
      → IsNew w t
      → CallStep w idle (task_init w t a named).0 idle
  others : {w v : World} {s : Spawner} → TaskStep w v → CallStep w s v s

pub data CallSteps : World → Spawner → World → Spawner → Type 0 where
  here : {w : World} {s : Spawner} → CallSteps w s w s
  more :
      {u v w : World} {r s t : Spawner} → CallStep u r v s → CallSteps v s w t → CallSteps u r w t

-- No task but `t` has the identifier.
abbrev others_with : World → ℕ → ℕ → ℕ → Bool
others_with w t tid x = not (x == t) && ids w x == tid

-- The identifier that a taskSpawn has read is still free.
abbrev IsFree : World → Spawner → Type 0
IsFree w idle = Unit {0}
IsFree w (numbered tid) = NoneWith (λ x. ids w x == tid) w.task_list
IsFree w (filled t tid r) = NoneWith (others_with w t tid) w.task_list

NoneWith-same : (f g : ℕ → Bool) (l : List ℕ) → ((x : ℕ) → g x ≡ f x) → NoneWith f l → NoneWith g l
NoneWith-same f g [] same n = tt
NoneWith-same f g (x ∷ l) same (e, n) = (same x ∙ e, NoneWith-same f g l same n)

-- A test on the identifiers keeps failing.
Keeps-NoneWith :
    (w v : World) (test : ℕ → ℕ → Bool)
    → Keeps w v
    → NoneWith (λ x. test x (ids w x)) w.task_list
    → NoneWith (λ x. test x (ids v x)) v.task_list
Keeps-NoneWith w v test (same, inl e) n =
    rw e (NoneWith-same _ (λ x. test x (ids v x)) w.task_list (λ x. rw (same x) refl) n)
Keeps-NoneWith w v test (same, inr (t, e)) n = rw e (
    NoneWith-same _ (λ x. test x (ids v x)) _ (λ x. rw (same x) refl)
      (NoneWith-erase _ t w.task_list n))

Keeps-IsFree : (w v : World) (s : Spawner) → Keeps w v → IsFree w s → IsFree v s
Keeps-IsFree w v idle k free = tt
Keeps-IsFree w v (numbered tid) k free = Keeps-NoneWith w v (λ x n. n == tid) k free
Keeps-IsFree w v (filled t tid r) k free =
    Keeps-NoneWith w v (λ x n. not (x == t) && n == tid) k free

-- taskInit changes the identifier of its own block only.
others_free :
    (w v : World) (t tid : ℕ) (l : List ℕ)
    → ((j : ℕ) → j ≢ t → ids v j ≡ ids w j)
    → NoneWith (λ x. ids w x == tid) l
    → NoneWith (others_with v t tid) l
others_free w v t tid [] same n = tt
others_free w v t tid (x ∷ l) same (e, n) = (
  elim (Bool-cases (x == t)) [
    | inl q ↦ rw q refl
    | inr q ↦ rw (q, same x (λ p. ground (arith, p, q))) e
  ],
  others_free w v t tid l same n,
)

-- The identifier is stored.
others_stored :
    (f : ℕ → ℕ) (t n tid : ℕ) (l : List ℕ)
    → n ≢ tid
    → NoneWith (λ x. f x == n) l
    → NoneWith (λ x. (if x == t then tid else f x) == n) l
others_stored f t n tid [] ne h = tt
others_stored f t n tid (x ∷ l) ne (e, h) = (ground arith, others_stored f t n tid l ne h)

alone :
    (f : ℕ → ℕ) (t tid : ℕ) (l : List ℕ)
    → elem t l ≡ false
    → NoneWith (λ x. not (x == t) && f x == tid) l
    → NoneWith (λ x. (if x == t then tid else f x) == tid) l
alone f t tid [] out h = tt
alone f t tid (x ∷ l) out (e, h) = (ground arith, alone f t tid l (ground arith) h)

Unique-stored :
    (f : ℕ → ℕ) (t tid : ℕ) (l : List ℕ)
    → Distinct l
    → NoneWith (λ x. not (x == t) && f x == tid) l
    → Unique f l
    → Unique (λ x. if x == t then tid else f x) l
Unique-stored f t tid [] d free u = tt
Unique-stored f t tid (x ∷ l) (out, d) (e, free) (n, u) = (
  elim (Bool-cases (x == t)) [
    | inl q ↦ rw q (alone f t tid l (ground arith) free)
    | inr q ↦ rw q (others_stored f t (f x) tid l (λ p. ground (arith, p, q, e)) n)
  ],
  Unique-stored f t tid l d free u,
)

spawn_store-Valid :
    (w : World) (t tid : ℕ) (r : Result (Unit {0}))
    → NoneWith (others_with w t tid) w.task_list
    → Valid w
    → Valid (spawn_store w t tid r)
unfolding spawn_store
spawn_store-Valid w t tid (error c) free valid = valid
spawn_store-Valid w t tid (ok x) free (d, n, u) =
    let same : (j : ℕ) → ids (spawn_store w t tid (ok x)) j ≡ (if j == t then tid else ids w j) =
      λ j. ground arith in
    (d, n, Unique-same _ _ w.task_list same (Unique-stored (ids w) t tid w.task_list d free u))
  where
    Unique-same : (f g : ℕ → ℕ) (l : List ℕ) → ((j : ℕ) → g j ≡ f j) → Unique f l → Unique g l
    Unique-same f g [] same u = tt
    Unique-same f g (x ∷ l) same (n, u) =
        (NoneWith-same _ _ l (λ y. rw (same y, same x) refl) n, Unique-same f g l same u)

spawn_init-IsFree :
    (w : World) (default_name : ℕ → List ℕ) (a : Spawning) (t : ℕ) (named : Bool) (tid : ℕ)
    → NoneWith (λ x. ids w x == tid) w.task_list
    → (let v = (spawn_init w default_name a t named tid).0 in
        NoneWith (others_with v t tid) v.task_list)
unfolding spawn_init
spawn_init-IsFree w default_name a t named tid free =
    let name : List ℕ = elim a.name [ none ↦ default_name tid | some n ↦ n ] in
    let a' : Spawning = record a { name = some name } in
    let v = (task_init w t a' named).0 in
    let n = others_free w v t tid w.task_list (task_init-ids w t a' named) free in
    elim (task_init-list w t a' named) [
      | inl e ↦ rw e n
      | inr e ↦ rw e (NoneWith-last (others_with v t tid) w.task_list t n (ground arith))
    ]

spawn_init-Valid :
    (w : World) (default_name : ℕ → List ℕ) (a : Spawning) (t : ℕ) (named : Bool) (tid : ℕ)
    → IsNew w t
    → Valid w
    → Valid (spawn_init w default_name a t named tid).0
unfolding spawn_init
spawn_init-Valid w default_name a t named tid (out, fresh) valid =
    task_init-Valid w t _ named out fresh valid

CallStep-Valid :
    {w v : World} {r s : Spawner} → CallStep w r v s → Valid w → IsFree w r → Valid v × IsFree v s
CallStep-Valid {w = w} (numbers ne) valid free =
    let (low, high, fresh) = new_tid_fresh w ne in (valid, fresh)
CallStep-Valid {w = w} (fills {tid = tid} default_name a t named new) valid free = (
  spawn_init-Valid w default_name a t named tid new valid,
  spawn_init-IsFree w default_name a t named tid free,
)
CallStep-Valid {w = w} (stores {t = t} {tid = tid} {r = r}) valid free =
    (spawn_store-Valid w t tid r free valid, tt)
CallStep-Valid {w = w} (inits t a named (out, fresh)) valid free =
    (task_init-Valid w t a named out fresh valid, tt)
CallStep-Valid {w = w} {v = v} {r = r} (others step) valid free =
    let k = TaskStep-Keeps step in (Keeps-Valid w v k valid, Keeps-IsFree w v r k free)

CallSteps-Valid : {w v : World} {r s : Spawner} → CallSteps w r v s → Valid w → IsFree w r → Valid v
CallSteps-Valid here valid free = valid
CallSteps-Valid (more step rest) valid free =
    let (valid', free') = CallStep-Valid step valid free in CallSteps-Valid rest valid' free'

-- Whatever steps of the calls on tasks and semaphores are taken, by whichever threads, while one thread
-- at a time is in taskInit or in taskSpawn before it has stored the identifier, the blocks that these
-- get are not on the list and no task is identified by their addresses, and new_tid finds the highest
-- identifier free: in a list of tasks that is in order at first, no task ever stands twice, nor does
-- NULL, and no two tasks have the same identifier, even where calls of other threads come between the
-- steps of taskSpawn. So by the identifier of a listed task, unless that is 0, every thread finds it:
-- taskIdVerify returns OK, taskTcb its control block, taskName its name and taskPriorityGet its
-- priority.
pub CallSteps-Found :
    {w v : World} {s : Spawner} (self t : ℕ)
    → CallSteps w idle v s
    → Valid w
    → elem t v.task_list ≡ true
    → ids v t ≢ 0
    → Valid v × Found v self t
CallSteps-Found {v = v} self t steps valid there ne =
    let valid' = CallSteps-Valid steps valid tt in (valid', Valid-Found v self t valid' there ne)
