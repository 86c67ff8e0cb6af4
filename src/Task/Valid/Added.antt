-- ===== src/Task/Valid/Added.antt =====
-- New tasks keep the list in order.
use cross_compile.Base.{
  ℕ, ◌%◌, ◌^◌, ◌≡◌, ◌≢◌, refl, ◌⊎◌, inl, inr, Bool, false, List, [], ◌∷◌, ◌++◌, arith, ◌==◌, elem,
  elem-append, Distinct, Bool-cases, Option-cases,
}
use cross_compile.Errno.{Errno, Result, ok, error, enosys, obj_id_error}
use cross_compile.Priority.{translate_priority}
use cross_compile.Task.Types.{World}
use cross_compile.Task.Table.{Spawning, task_init, new_tcb}
use cross_compile.Task.Start.Laws.{NoneWith}
use cross_compile.Task.Valid.{Valid, ids, Unique}

-- Two states agree on a list.
NoneWith-agree :
    (f g : ℕ → ℕ) (n t : ℕ) (l : List ℕ)
    → ((j : ℕ) → j ≢ t → g j ≡ f j)
    → elem t l ≡ false
    → NoneWith (λ x. f x == n) l
    → NoneWith (λ x. g x == n) l
NoneWith-agree f g n t [] same out h = tt
NoneWith-agree f g n t (x ∷ l) same out (e, h) =
    (rw (same x (λ q. ground arith)) e, NoneWith-agree f g n t l same (ground arith) h)

Unique-agree :
    (f g : ℕ → ℕ) (t : ℕ) (l : List ℕ)
    → ((j : ℕ) → j ≢ t → g j ≡ f j)
    → elem t l ≡ false
    → Unique f l
    → Unique g l
Unique-agree f g t [] same out u = tt
Unique-agree f g t (x ∷ l) same out (n, u) = (
  rw (same x (λ q. ground arith)) (NoneWith-agree f g (f x) t l same (ground arith) n),
  Unique-agree f g t l same (ground arith) u,
)

pub NoneWith-last :
    (test : ℕ → Bool) (l : List ℕ) (t : ℕ)
    → NoneWith test l
    → test t ≡ false
    → NoneWith test (l ++ t ∷ [])
NoneWith-last test [] t n e = (e, tt)
NoneWith-last test (x ∷ l) t (e', n) e = (e', NoneWith-last test l t n e)

Unique-last :
    (f : ℕ → ℕ) (l : List ℕ) (t : ℕ)
    → Unique f l
    → NoneWith (λ x. f x == f t) l
    → Unique f (l ++ t ∷ [])
Unique-last f [] t u n = (tt, tt)
Unique-last f (x ∷ l) t (h, u) (e, n) =
    (NoneWith-last (λ y. f y == f x) l t h (ground arith), Unique-last f l t u n)

Distinct-last : (l : List ℕ) (t : ℕ) → Distinct l → elem t l ≡ false → Distinct (l ++ t ∷ [])
Distinct-last [] t d out = (refl, tt)
Distinct-last (x ∷ l) t (e, d) out =
    (ground (arith, elem-append x l (t ∷ [])), Distinct-last l t d (ground arith))

-- A block that is not on the list is changed, or put at the end of it.
pub unlisted-Valid :
    (w v : World) (t : ℕ)
    → ((j : ℕ) → j ≢ t → ids v j ≡ ids w j)
    → elem t w.task_list ≡ false
    → v.task_list ≡ w.task_list
    → Valid w
    → Valid v
unlisted-Valid w v t same out e (d, n, u) =
    (rw e d, rw e n, rw e (Unique-agree (ids w) (ids v) t w.task_list same out u))

pub listed-Valid :
    (w v : World) (t : ℕ)
    → ((j : ℕ) → j ≢ t → ids v j ≡ ids w j)
    → elem t w.task_list ≡ false
    → t ≢ 0
    → NoneWith (λ x. ids w x == ids v t) w.task_list
    → v.task_list ≡ w.task_list ++ t ∷ []
    → Valid w
    → Valid v
listed-Valid w v t same out real fresh e (d, n, u) =
    let u' = Unique-agree (ids w) (ids v) t w.task_list same out u in
    let fresh' = NoneWith-agree (ids w) (ids v) (ids v t) t w.task_list same out fresh in
    (
      rw e (Distinct-last w.task_list t d out),
      rw e (ground (arith, elem-append 0 w.task_list (t ∷ []))),
      rw e (Unique-last (ids v) w.task_list t u' fresh'),
    )

-- taskInit either reports an error, or puts the task at the end of the list.
abbrev InitCases : World → ℕ → World × Result (Unit {0}) → Type 0
InitCases w t r =
    ((c : Errno) × (r.1 ≡ error c) × (r.0.task_list ≡ w.task_list))
    ⊎ ((r.1 ≡ ok tt) × (t ≢ 0) × (r.0.task_list ≡ w.task_list ++ t ∷ []) × (ids r.0 t ≡ t % 2 ^ 32))

pub task_init-ids :
    (w : World) (t : ℕ) (a : Spawning) (named : Bool) (j : ℕ)
    → j ≢ t
    → ids (task_init w t a named).0 j ≡ ids w j
unfolding task_init
task_init-ids w t a named j ne =
    let e = (translate_priority a.pri w.min_priority w.sems.sched.max_priority).1 in
    elim (Option-cases e) [ inl q ↦ ground arith | inr (c, q) ↦ ground arith ]

task_init-cases :
    (w : World) (t : ℕ) (a : Spawning) (named : Bool) → InitCases w t (task_init w t a named)
unfolding task_init new_tcb
task_init-cases w t a named =
    let e = (translate_priority a.pri w.min_priority w.sems.sched.max_priority).1 in
    elim (Bool-cases (a.opts == 0)) [
      | inr q ↦ inl (enosys, ground arith, ground arith)
      | inl o ↦ elim (Bool-cases (t == 0)) [
        | inl q ↦ inl (obj_id_error, ground arith, ground arith)
        | inr q ↦ elim (Option-cases e) [
          | inl p ↦ inr (ground arith, (λ z. ground arith), ground arith, ground arith)
          | inr (c, p) ↦ inl (c, ground arith, ground arith)
        ]
      ]
    ]

-- taskInit of a block that is not on the list, by whose address no task of the list is identified.
pub task_init-Valid :
    (w : World) (t : ℕ) (a : Spawning) (named : Bool)
    → elem t w.task_list ≡ false
    → NoneWith (λ x. ids w x == t % 2 ^ 32) w.task_list
    → Valid w
    → Valid (task_init w t a named).0
task_init-Valid w t a named out fresh valid =
    let v = (task_init w t a named).0 in
    let same = task_init-ids w t a named in
    elim (task_init-cases w t a named) [
      | inl (c, e, list) ↦ unlisted-Valid w v t same out list valid
      | inr (e, real, list, id) ↦ listed-Valid w v t same out real (rw id fresh) list valid
    ]

-- taskInit leaves the list, or puts the task at its end.
pub task_init-list :
    (w : World) (t : ℕ) (a : Spawning) (named : Bool)
    → ((task_init w t a named).0.task_list ≡ w.task_list)
      ⊎ ((task_init w t a named).0.task_list ≡ w.task_list ++ t ∷ [])
task_init-list w t a named = elim (task_init-cases w t a named) [
  | inl (c, e, list) ↦ inl list
  | inr (e, real, list, id) ↦ inr list
]
