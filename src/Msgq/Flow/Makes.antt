-- ===== src/Msgq/Flow/Makes.antt =====
-- What the result of a call makes of the messages of a queue.
use cross_compile.Base.{
  ℕ, ◌≡◌, ◌≢◌, refl, ◌∙◌, Bool, true, false, Option, none, some, arith, if◌then◌else◌,
}
use cross_compile.Errno.{RetCode, awake, etimedout, failed}
use cross_compile.Msgq.Types.{Mqueue, Queues, set_qcb}
use cross_compile.Msgq.Flow.{Event, core}
use cross_compile.Msgq.Flow.Moves.{Moved, idle, posts, overfills, fetches}

-- What a call that gives `o` makes of queue `k`, with the event that `ev` reads off the result.
abbrev pub Makes : {A : Type 0} → ℕ → Queues → (A → Event) → Option (Queues × A) → Type 0
Makes k w ev none = Unit
Makes k w ev (some r) = Moved (w.qcb k) (r.0.qcb k) (ev r.1)

pub result-Moved :
    {A : Type 0} (k : ℕ) (w : Queues) (ev : A → Event) {o : Option (Queues × A)} {v : Queues}
    {at : A}
    → Makes k w ev o
    → o ≡ some (v, at)
    → Moved (w.qcb k) (v.qcb k) (ev at)
result-Moved k w ev m e = coe 0 1 (i. Makes k w ev (e i)) m

pub either :
    {A : Type 0} (P : A → Type 0) (b : Bool) {x y : A}
    → (b ≡ true → P x)
    → (b ≡ false → P y)
    → P (if b then x else y)
either P true f g = f refl
either P false f g = g refl

pub retcode_either :
    {A : Type 0} (P : A → Type 0) (r : RetCode) {x y : A}
    → (r ≡ etimedout → P x)
    → (r ≢ etimedout → P y)
    → P (elim r [ etimedout ↦ x | _ ↦ y ])
retcode_either P awake f g = g (ground arith)
retcode_either P etimedout f g = f refl
retcode_either P failed f g = g (ground arith)

qcb_after : (w : Queues) (k : ℕ) (q : Mqueue) → (set_qcb w k q).qcb k ≡ q
qcb_after w k q = ground arith

module _ (k : ℕ) (w : Queues) where
  pub set-Moved :
      (w' : Queues) (q' : Mqueue) (e : Event)
      → Moved (w.qcb k) q' e
      → Moved (w.qcb k) ((set_qcb w' k q').qcb k) e
  set-Moved w' q' e m = coe 1 0 (i. Moved (w.qcb k) (qcb_after w' k q' i) e) m

abbrev pub MadeBy : {A : Type 0} → ℕ → Queues → (A → Event) → Queues × A → Type 0
MadeBy k w ev r = Moved (w.qcb k) (r.0.qcb k) (ev r.1)

-- A step may first change what is not among the messages.
pub Moved-from_same : (q p q' : Mqueue) {e : Event} → core p ≡ core q → Moved p q' e → Moved q q' e
Moved-from_same q p q' same (idle e) = idle (e ∙ same)
Moved-from_same q p q' same (posts r msg n u front c room small avail which e) =
    posts r msg n u front (c ∙ same) room small avail which e
Moved-from_same q p q' same (overfills r msg n u c over small avail e) =
    overfills r msg n u (c ∙ same) over small avail e
Moved-from_same q p q' same (fetches r buf out n c some_msg big e) =
    fetches r buf out n (c ∙ same) some_msg big e

pub Makes-from_same :
    {A : Type 0} (k : ℕ) (w w' : Queues) (ev : A → Event) (o : Option (Queues × A))
    → core (w'.qcb k) ≡ core (w.qcb k)
    → Makes k w' ev o
    → Makes k w ev o
Makes-from_same k w w' ev none same m = tt
Makes-from_same k w w' ev (some r) same m = Moved-from_same (w.qcb k) (w'.qcb k) _ same m
