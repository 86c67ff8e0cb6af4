-- ===== src/Task/Valid/Keeping.antt =====
-- How calls that keep the list in order are put together.
use cross_compile.Base.{
  ℕ, ◌≡◌, refl, ap, ◌∙◌, inl, inr, Bool, true, false, arith, if◌then◌else◌, erase,
}
use cross_compile.Task.Types.{World, readied}
use cross_compile.Task.Valid.{Keeps, ids}

pub world-Keeps : (w : World) → Keeps w w
world-Keeps w = (λ j. refl, inl refl)

pub either-Keeps :
    {A : Type 0} (w : World) (f : A → World) (b : Bool) (x y : A)
    → Keeps w (f x)
    → Keeps w (f y)
    → Keeps w (f (if b then x else y))
either-Keeps w f true x y k k' = k
either-Keeps w f false x y k k' = k'

pub either_result-Keeps :
    {B : Type 0} (w : World) (b : Bool) (x y : World × B)
    → Keeps w x.0
    → Keeps w y.0
    → Keeps w (if b then x else y).0
either_result-Keeps w true x y k k' = k
either_result-Keeps w false x y k k' = k'

-- A call that changes the list after one that leaves it.
pub after-Keeps :
    (w u v : World)
    → ((j : ℕ) → ids u j ≡ ids w j)
    → u.task_list ≡ w.task_list
    → Keeps u v
    → Keeps w v
after-Keeps w u v same e (same', inl e') = (λ j. same' j ∙ same j, inl (e' ∙ e))
after-Keeps w u v same e (same', inr (t, e')) =
    (λ j. same' j ∙ same j, inr (t, e' ∙ ap (erase t) e))

pub readied-ids : (w : World) (t thread j : ℕ) → ids (readied w t thread) j ≡ ids w j
readied-ids w t thread j = ground arith
