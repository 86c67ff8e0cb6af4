-- ===== src/Susp/Pointers/Unlink.antt =====
-- `unlink_susp_task` over pointers makes the list that its list-level version computes.
use cross_compile.Base.{
  ℕ, zero, suc, ◌<◌, ◌≡◌, refl, ◌≢◌, false, some, List, [], ◌∷◌, arith, ◌==◌, elem, erase, length,
  Bool-cases, inl, inr, erase-not_elem,
}
use cross_compile.Susp
use cross_compile.Susp.{Tasks}
use cross_compile.Susp.Pointers.{Mem, write, unlink_walk, unlink_susp_task, Chain, Distinct}
use cross_compile.Susp.Pointers.Link.{Chain-write}

-- With `*i = x->nxt_susp` and the entry's own cell cleared, `i` heads what followed `x`.
Chain-removed :
    (m : Mem) (i x entry : ℕ) (xs : List ℕ)
    → i ≢ entry
    → elem i xs ≡ false
    → elem entry xs ≡ false
    → Chain m x xs
    → Chain (write (write m i (m x)) entry 0) i xs
Chain-removed m i x entry [] ine out gone c = ground arith
Chain-removed m i x entry (y ∷ ys) ine out gone c = (
  ground arith,
  c.1,
  Chain-write (write m i (m x)) y entry 0 ys (ground arith) (ground arith)
      (Chain-write m y i (m x) ys (ground arith) (ground arith) c.2),
)

unlink_walk-Chain :
    (f : ℕ) (m : Mem) (i entry : ℕ) (xs : List ℕ)
    → length xs < f
    → i ≢ entry
    → elem i xs ≡ false
    → Distinct xs
    → Chain m i xs
    → (m' : Mem) × (unlink_walk f m i entry ≡ some m')
      × Chain m' i (erase entry xs)
      × ((j : ℕ) → elem j (i ∷ xs) ≡ false → m' j ≡ m j)
unfolding unlink_walk
unlink_walk-Chain zero m i entry xs hf ine out d c = absurd (omega arith)
unlink_walk-Chain (suc f) m i entry [] hf ine out d c = (m, ground arith, c, λ j h. refl)
unlink_walk-Chain (suc f) m i entry (x ∷ xs) hf ine out d c = elim (Bool-cases (x == entry)) [
  | inl hit ↦ (
    write (write m i (m (m i))) entry 0,
    ground arith,
    rw (hit, c.0) (Chain-removed m i x entry xs ine (ground arith) (ground arith) c.2),
    λ j h. ground arith,
  )
  | inr miss ↦
      let (m', e, c', frame) =
        unlink_walk-Chain f m x entry xs (omega arith) (ground arith) d.0 d.1 c.2 in
      (
        m',
        ground (arith, e),
        rw miss (ground (arith, frame i), c.1, c'),
        λ j h. ground (arith, frame j),
      )
]

-- A NULL entry is ignored. Otherwise the walk ends within its fuel, the list loses the entry if it
-- holds it, and no cell outside the list and its head changes.
pub unlink_susp_task-Chain :
    (ts : Tasks) (f : ℕ) (m : Mem) (list_head entry : ℕ) (xs : List ℕ)
    → length xs < f
    → list_head ≢ entry
    → elem list_head xs ≡ false
    → Distinct xs
    → Chain m list_head xs
    → (m' : Mem) × (unlink_susp_task f m list_head entry ≡ some m')
      × Chain m' list_head (Susp.unlink_susp_task ts xs entry).1
      × ((j : ℕ) → elem j (list_head ∷ xs) ≡ false → m' j ≡ m j)
unfolding unlink_susp_task Susp.unlink_susp_task
unlink_susp_task-Chain ts f m i entry xs hf ine out d c = elim (Bool-cases (entry == 0)) [
  | inl null ↦ rw null (m, refl, c, λ j h. refl)
  | inr task ↦ rw task (
      let (m', e, c', frame) = unlink_walk-Chain f m i entry xs hf ine out d c in
      elim (Bool-cases (elem entry xs)) [
        | inl there ↦ rw there (m', e, c', frame)
        | inr absent ↦ rw absent (m', e, rw (erase-not_elem entry xs absent) at c', frame)
      ])
]
