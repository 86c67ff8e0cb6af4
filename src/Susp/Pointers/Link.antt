-- ===== src/Susp/Pointers/Link.antt =====
-- `link_susp_task` over pointers makes the list that its list-level version computes.
use cross_compile.Base.{
  ℕ, zero, suc, ◌+◌, ◌<◌, ◌≤◌, ◌≡◌, refl, ◌≢◌, false, some, List, [], ◌∷◌, ◌++◌, arith, ◌==◌,
  if◌then◌else◌, elem, length, Bool-cases, inl, inr,
}
use mathlib.Core.List.{append-nil}
use cross_compile.Susp.{Tasks, until}
use cross_compile.Susp
use cross_compile.Susp.Pointers.{Mem, write, link_walk, link_susp_task, Chain, Distinct}

-- A write outside the list and its head changes nothing.
pub Chain-write :
    (m : Mem) (i a v : ℕ) (xs : List ℕ)
    → i ≢ a
    → elem a xs ≡ false
    → Chain m i xs
    → Chain (write m a v) i xs
Chain-write m i a v [] ne out c = ground arith
Chain-write m i a v (x ∷ xs) ne out c =
    (ground arith, c.1, Chain-write m x a v xs (ground arith) (ground arith) c.2)

-- What the walk makes of a list whose entry `new` (if it is there) was cut behind: `new` ends it.
link_walk-Chain :
    (f : ℕ) (m : Mem) (i new : ℕ) (xs : List ℕ)
    → length xs + 1 < f
    → new ≢ 0
    → i ≢ new
    → m new ≡ 0
    → elem i xs ≡ false
    → Distinct xs
    → Chain m i xs
    → elem new xs ≡ false
    → (m' : Mem) × (link_walk f m i new ≡ some m')
      × Chain m' i (xs ++ new ∷ [])
      × ((j : ℕ) → elem j (i ∷ xs) ≡ false → m' j ≡ m j)
unfolding link_walk
link_walk-Chain zero m i new xs hf n0 ine cut out d c fresh = absurd (omega arith)
link_walk-Chain (suc f) m i new [] hf n0 ine cut out d c fresh =
    (write m i new, ground arith, (ground arith, n0, ground arith), λ j h. ground arith)
link_walk-Chain (suc f) m i new (x ∷ xs) hf n0 ine cut out d c fresh =
    let (m', e, c', frame) =
      link_walk-Chain f m x new xs (omega arith) n0 (ground arith) cut d.0 d.1 c.2 (ground arith) in
    (m', ground arith, (ground (arith, frame i), c.1, c'), λ j h. ground (arith, frame j))

-- The walk over a list that ends in `new` already: it is taken out and linked again.
link_walk-Chain_last :
    (f : ℕ) (m : Mem) (i new : ℕ) (xs : List ℕ)
    → length xs + 1 < f
    → new ≢ 0
    → i ≢ new
    → elem i xs ≡ false
    → Distinct xs
    → elem new xs ≡ false
    → Chain m i (xs ++ new ∷ [])
    → (m' : Mem) × (link_walk f m i new ≡ some m')
      × Chain m' i (xs ++ new ∷ [])
      × ((j : ℕ) → elem j (i ∷ xs) ≡ false → m' j ≡ m j)
unfolding link_walk
link_walk-Chain_last zero m i new xs hf n0 ine out d fresh c = absurd (omega arith)
link_walk-Chain_last (suc zero) m i new xs hf n0 ine out d fresh c = absurd (omega arith)
link_walk-Chain_last (suc (suc f)) m i new [] hf n0 ine out d fresh c = (
  write (write m i (m (m i))) i new,
  ground arith,
  (ground arith, n0, ground arith),
  λ j h. ground arith,
)
link_walk-Chain_last (suc (suc f)) m i new (x ∷ xs) hf n0 ine out d fresh c =
    let (m', e, c', frame) =
      link_walk-Chain_last (suc f) m x new xs (omega arith) n0 (ground arith) d.0 d.1 (ground arith)
        c.2 in
    (m', ground (arith, e), (ground (arith, frame i), c.1, c'), λ j h. ground (arith, frame j))

-- Clearing `new`'s cell cuts the list behind it.
Chain-cut :
    (m : Mem) (i new : ℕ) (xs : List ℕ)
    → i ≢ new
    → elem i xs ≡ false
    → Distinct xs
    → Chain m i xs
    → Chain (write m new 0) i (until new xs ++ (if elem new xs then new ∷ [] else []))
unfolding until
Chain-cut m i new [] ine out d c = ground arith
Chain-cut m i new (x ∷ xs) ine out d c = elim (Bool-cases (x == new)) [
  | inl hit ↦ rw hit (ground arith, ground arith, ground arith)
  | inr miss ↦ rw miss (ground arith, c.1, Chain-cut m x new xs (ground arith) d.0 d.1 c.2)
]

until-fresh : (x : ℕ) (xs : List ℕ) → elem x (until x xs) ≡ false
unfolding until
until-fresh x [] = refl
until-fresh x (y ∷ ys) = ground (arith, until-fresh x ys)

until-absent : (x a : ℕ) (xs : List ℕ) → elem a xs ≡ false → elem a (until x xs) ≡ false
unfolding until
until-absent x a [] h = refl
until-absent x a (y ∷ ys) h = ground (arith, until-absent x a ys)

until-Distinct : (x : ℕ) (xs : List ℕ) → Distinct xs → Distinct (until x xs)
unfolding until
until-Distinct x [] d = tt
until-Distinct x (y ∷ ys) d = ground (arith, until-Distinct x ys d.1, until-absent x y ys d.0)

length-until-le : (x : ℕ) (xs : List ℕ) → length (until x xs) ≤ length xs
unfolding until
length-until-le x [] = omega arith
length-until-le x (y ∷ ys) = ground (arith, length-until-le x ys)

-- The whole walk, from the memory in which `new`'s cell is cleared.
link_walk-until :
    (f : ℕ) (m : Mem) (i new : ℕ) (xs : List ℕ)
    → length xs + 1 < f
    → new ≢ 0
    → i ≢ new
    → elem i xs ≡ false
    → Distinct xs
    → Chain m i xs
    → (m' : Mem) × (link_walk f (write m new 0) i new ≡ some m')
      × Chain m' i (until new xs ++ new ∷ [])
      × ((j : ℕ) → elem j (i ∷ until new xs) ≡ false → m' j ≡ write m new 0 j)
link_walk-until f m i new xs hf n0 ine out d c = elim (Bool-cases (elem new xs)) [
  | inl old ↦
      link_walk-Chain_last f (write m new 0) i new (until new xs)
        (omega (arith, length-until-le new xs)) n0 ine (until-absent new i xs out)
        (until-Distinct new xs d) (until-fresh new xs)
        (rw old at (Chain-cut m i new xs ine out d c))
  | inr fresh ↦
      link_walk-Chain f (write m new 0) i new (until new xs) (omega (arith, length-until-le new xs))
        n0 ine (ground arith) (until-absent new i xs out) (until-Distinct new xs d)
        (rw append-nil at (rw fresh at (Chain-cut m i new xs ine out d c))) (until-fresh new xs)
]

-- `link_susp_task` on a well-formed list whose head cell is no task ends within its fuel. The list
-- is then the one of the list-level function, and no other cell has changed.
pub link_susp_task-Chain :
    (ts : Tasks) (f : ℕ) (m : Mem) (list_head new : ℕ) (xs : List ℕ)
    → length xs + 1 < f
    → list_head ≢ new
    → elem list_head xs ≡ false
    → Distinct xs
    → Chain m list_head xs
    → (m' : Mem) × (link_susp_task f m list_head new ≡ some m')
      × Chain m' list_head (Susp.link_susp_task ts xs new).1
      × ((j : ℕ) → elem j (list_head ∷ new ∷ xs) ≡ false → m' j ≡ m j)
unfolding link_susp_task Susp.link_susp_task
link_susp_task-Chain ts f m i new xs hf ine out d c = elim (Bool-cases (new == 0)) [
  | inl null ↦ rw null (m, refl, c, λ j h. refl)
  | inr task ↦ rw task (
      let (m', e, c', frame) = link_walk-until f m i new xs hf (ground arith) ine out d c in
      (m', e, c', λ j h. ground (arith, frame j, until-absent new j xs)))
]

until-append : (x : ℕ) (xs ys : List ℕ) → elem x xs ≡ false → until x (xs ++ x ∷ ys) ≡ xs
unfolding until
until-append x [] ys h = ground arith
until-append x (z ∷ xs) ys h = ground (arith, until-append x xs ys)

-- A task that is linked a second time, while other tasks stand behind it, ends the list: the tasks
-- behind it are no longer linked, although no one has taken them out.
pub relink_drops_tail :
    (f : ℕ) (m : Mem) (list_head new : ℕ) (before behind : List ℕ)
    → length (before ++ new ∷ behind) + 1 < f
    → new ≢ 0
    → list_head ≢ new
    → elem list_head (before ++ new ∷ behind) ≡ false
    → Distinct (before ++ new ∷ behind)
    → elem new before ≡ false
    → Chain m list_head (before ++ new ∷ behind)
    → (m' : Mem) × (link_susp_task f m list_head new ≡ some m')
      × Chain m' list_head (before ++ new ∷ [])
unfolding link_susp_task
relink_drops_tail f m i new before behind hf n0 ine out d fresh c =
    let (m', e, c', _) = link_walk-until f m i new (before ++ new ∷ behind) hf n0 ine out d c in
    (m', ground arith, rw (until-append new before behind fresh) at c')
