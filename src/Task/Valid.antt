-- ===== src/Task/Valid.antt =====
-- The list of the tasks stays in order: what each call does to the list and to the identifiers.
pub mod Keeping
pub mod Deletions
pub mod Calls
pub mod Added
pub mod Steps
pub mod Spawner
use cross_compile.Base.{
  ℕ, zero, suc, ◌+◌, ◌%◌, ◌^◌, ◌≡◌, ◌≢◌, refl, sym, ap, ◌∙◌, ◌⊎◌, inl, inr, Bool, true, false, not,
  ◌&&◌, ◌||◌, Option, none, some, List, [], ◌∷◌, ◌++◌, arith, ◌==◌, if◌then◌else◌, elem,
  elem-append, elem-erase_ne, erase, Distinct, ==_refl, ==_false, ==_true, Bool-cases, Option-cases,
}
use cross_compile.Errno.{Result, ok, error}
use cross_compile.Task.Types.{
  World, Tcb, set_tcb, locked, unlocked, my_task, task_for, first_with, readied, stop_waiting,
}
use cross_compile.Task.Table.{Spawning, task_init, new_tcb}
use cross_compile.Task.Start.{activate, task_activate}
use cross_compile.Task.Start.Laws.{NoneWith}

-- No two tasks of the list have the same identifier.
abbrev pub Unique : (ℕ → ℕ) → List ℕ → Type 0
Unique f [] = Unit {0}
Unique f (t ∷ l) = NoneWith (λ x. f x == f t) l × Unique f l

abbrev pub ids : World → ℕ → ℕ
ids w j = (w.tcb j).taskid

-- No task stands on the list twice, NULL does not, and no two of its tasks have the same identifier.
abbrev pub Valid : World → Type 0
Valid w = Distinct w.task_list × (elem 0 w.task_list ≡ false) × Unique (ids w) w.task_list

-- A call leaves the identifiers, and takes a task off the list at most.
abbrev pub Keeps : World → World → Type 0
Keeps w v =
    ((j : ℕ) → ids v j ≡ ids w j)
    × ((v.task_list ≡ w.task_list) ⊎ ((t : ℕ) × (v.task_list ≡ erase t w.task_list)))

pub NoneWith-erase :
    (test : ℕ → Bool) (t : ℕ) (l : List ℕ) → NoneWith test l → NoneWith test (erase t l)
NoneWith-erase test t [] n = tt
NoneWith-erase test t (x ∷ l) (e, n) = elim (Bool-cases (x == t)) [
  | inl q ↦ rw q n
  | inr q ↦ rw q (e, NoneWith-erase test t l n)
]

Unique-erase : (f : ℕ → ℕ) (t : ℕ) (l : List ℕ) → Unique f l → Unique f (erase t l)
Unique-erase f t [] u = tt
Unique-erase f t (x ∷ l) (n, u) = elim (Bool-cases (x == t)) [
  | inl q ↦ rw q u
  | inr q ↦ rw q (NoneWith-erase (λ y. f y == f x) t l n, Unique-erase f t l u)
]

elem-erase-false : (x t : ℕ) (l : List ℕ) → elem x l ≡ false → elem x (erase t l) ≡ false
elem-erase-false x t [] e = refl
elem-erase-false x t (y ∷ l) e = ground (arith, elem-erase-false x t l)

erase-Distinct : (t : ℕ) (l : List ℕ) → Distinct l → Distinct (erase t l)
erase-Distinct t [] d = tt
erase-Distinct t (x ∷ l) (e, d) = elim (Bool-cases (x == t)) [
  | inl q ↦ rw q d
  | inr q ↦ rw q (elem-erase-false x t l e, erase-Distinct t l d)
]

NoneWith-ids :
    (f g : ℕ → ℕ) (n : ℕ) (l : List ℕ)
    → ((j : ℕ) → g j ≡ f j)
    → NoneWith (λ x. f x == n) l
    → NoneWith (λ x. g x == n) l
NoneWith-ids f g n [] same h = tt
NoneWith-ids f g n (x ∷ l) same (e, h) = (rw (same x) e, NoneWith-ids f g n l same h)

Unique-ids : (f g : ℕ → ℕ) (l : List ℕ) → ((j : ℕ) → g j ≡ f j) → Unique f l → Unique g l
Unique-ids f g [] same u = tt
Unique-ids f g (t ∷ l) same (n, u) =
    (rw (same t) (NoneWith-ids f g (f t) l same n), Unique-ids f g l same u)

pub Keeps-Valid : (w v : World) → Keeps w v → Valid w → Valid v
Keeps-Valid w v (same, inl e) (d, n, u) =
    (rw e d, rw e n, rw e (Unique-ids (ids w) (ids v) w.task_list same u))
Keeps-Valid w v (same, inr (t, e)) (d, n, u) = (
  rw e (erase-Distinct t w.task_list d),
  rw e (elem-erase-false 0 t w.task_list n),
  rw e (
      Unique-ids (ids w) (ids v) (erase t w.task_list) same (Unique-erase (ids w) t w.task_list u)),
)

NoneWith-elem :
    (test : ℕ → Bool) (t : ℕ) (l : List ℕ) → elem t l ≡ true → NoneWith test l → test t ≡ false
NoneWith-elem test t [] there n = absurd (ground arith)
NoneWith-elem test t (x ∷ l) there (e, n) = elim (Bool-cases (x == t)) [
  | inl q ↦ ap test (sym (==_true x t q)) ∙ e
  | inr q ↦ NoneWith-elem test t l (ground arith) n
]

first_with-Unique :
    (f : ℕ → ℕ) (t : ℕ) (l : List ℕ)
    → elem t l ≡ true
    → Unique f l
    → first_with (λ x. f x == f t) l ≡ t
unfolding first_with
first_with-Unique f t [] there u = absurd (ground arith)
first_with-Unique f t (x ∷ l) there (n, u) = elim (Bool-cases (x == t)) [
  | inl q ↦ let e = ==_true x t q in rw (ap f e, ==_refl (f t)) e
  | inr q ↦
      let there' : elem t l ≡ true = ground arith in
      let other : (f t == f x) ≡ false = NoneWith-elem (λ y. f y == f x) t l there' n in
      let other' : (f x == f t) ≡ false = ground arith in
      rw other' (first_with-Unique f t l there' u)
]

-- In a list that is in order, every task is found by its identifier, unless that is 0.
pub task_for-Valid :
    (w : World) (self t : ℕ)
    → Valid w
    → elem t w.task_list ≡ true
    → ids w t ≢ 0
    → task_for w self (ids w t) ≡ t
unfolding task_for
task_for-Valid w self t (d, n, u) there ne =
    rw (==_false (ids w t) 0 ne) (first_with-Unique (ids w) t w.task_list there u)
