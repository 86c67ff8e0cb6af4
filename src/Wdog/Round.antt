-- ===== src/Wdog/Round.antt =====
-- A tick of the system reaches each watchdog timer once.
use cross_compile.Base.{
  ℕ, zero, suc, ◌<◌, ◌≡◌, ◌≢◌, refl, ap, ◌∙◌, true, false, some, List, [], ◌∷◌, ◌++◌, arith, elem,
  elem-append, head_or_null, length, ==_false,
}
use cross_compile.Susp.Pointers.{Distinct}
use cross_compile.Wdog.{
  Timers, Handler, wdog_valid, next_of, tick, process_tick_for, process_from, process_timer_list,
}

next_of-append :
    (pre rest : List ℕ) (id : ℕ)
    → Distinct (pre ++ id ∷ rest)
    → next_of (pre ++ id ∷ rest) id ≡ head_or_null rest
unfolding next_of
next_of-append [] rest id d = ground arith
next_of-append (x ∷ pre) rest id d = ground (
  arith,
  next_of-append pre rest id d.1,
  elem-append id pre (id ∷ rest),
  elem-append x pre (id ∷ rest),
)

pub process_tick_for_next :
    {S : Type 0} (handler : Handler S) (v : Timers × S) (pre : List ℕ) (id : ℕ) (rest : List ℕ)
    → v.0.wdog_list ≡ pre ++ id ∷ rest
    → Distinct v.0.wdog_list
    → process_tick_for handler v id ≡ (tick handler v id, head_or_null rest)
unfolding process_tick_for wdog_valid
process_tick_for_next handler v pre id rest e d =
    let there : elem id v.0.wdog_list ≡ true =
      rw e (ground (arith, elem-append id pre (id ∷ rest))) in
    let next : next_of v.0.wdog_list id ≡ head_or_null rest =
      rw e (next_of-append pre rest id (rw e at d)) in
    rw (there, next)

pub process_from_step :
    {S : Type 0} (handler : Handler S) (fuel : ℕ) (v : Timers × S) (id : ℕ) {r : (Timers × S) × ℕ}
    → id ≢ 0
    → process_tick_for handler v id ≡ r
    → process_from handler (suc fuel) v id ≡ process_from handler fuel r.0 r.1
unfolding process_from
process_from_step handler fuel v id ne e =
    rw (==_false id 0 ne, process_from) (ap (λ r. process_from handler fuel r.0 r.1) e)

-- A tick of each of the timers, in turn.
unfoldable pub tick_all : {S : Type 0} → Handler S → Timers × S → List ℕ → Timers × S
tick_all handler v [] = v
tick_all handler v (id ∷ rest) = tick_all handler (tick handler v id) rest

module _ {S : Type 0} (handler : Handler S) (Inv : Timers × S → Type 0) where
  -- With the invariant, a tick of a timer leaves the list of the timers behind it as it is: the
  -- handler may start and cancel timers, and delete its own timer and those before it.
  abbrev pub Gentle : Type 0
  Gentle =
      (v : Timers × S) (pre : List ℕ) (id : ℕ) (rest : List ℕ)
      → Inv v
      → v.0.wdog_list ≡ pre ++ id ∷ rest
      → Distinct v.0.wdog_list
      → Inv (tick handler v id)
        × ((pre' : List ℕ) × ((tick handler v id).0.wdog_list ≡ pre' ++ rest))
        × Distinct (tick handler v id).0.wdog_list

  process_from-tick_all :
      (gentle : Gentle) (fuel : ℕ) (v : Timers × S) (pre rest : List ℕ)
      → Inv v
      → v.0.wdog_list ≡ pre ++ rest
      → Distinct v.0.wdog_list
      → elem 0 rest ≡ false
      → length rest < fuel
      → (process_from handler fuel v (head_or_null rest) ≡ some (tick_all handler v rest))
        × Inv (tick_all handler v rest)
  unfolding process_from tick_all
  process_from-tick_all gentle zero v pre rest inv e d nn h = absurd (omega arith)
  process_from-tick_all gentle (suc fuel) v pre [] inv e d nn h = (refl, inv)
  process_from-tick_all gentle (suc fuel) v pre (id ∷ rest) inv e d nn h =
      let here = process_tick_for_next handler v pre id rest e d in
      let (inv', (pre', e'), d') = gentle v pre id rest inv e d in
      let (done, inv'') =
        process_from-tick_all gentle fuel (tick handler v id) pre' rest inv' e' d' (ground arith)
          (omega arith) in
      (process_from_step handler fuel v id (ground arith) here ∙ done, inv'')

  -- With more fuel than the list has timers, process_timer_list ends, and each timer that was on
  -- the list when it began has had exactly one tick, in the order of the list: if the list holds
  -- no timer twice and no NULL, and if, under an invariant that holds at first, the tick of a
  -- timer keeps the invariant, leaves no timer twice on the list, and leaves the timers behind it
  -- as they are. The handlers may so start and cancel timers, and delete the own timer and those
  -- before it.
  pub process_timer_list-tick_all :
      (gentle : Gentle) (fuel : ℕ) (v : Timers × S)
      → Inv v
      → Distinct v.0.wdog_list
      → elem 0 v.0.wdog_list ≡ false
      → length v.0.wdog_list < fuel
      → (process_timer_list handler fuel v ≡ some (tick_all handler v v.0.wdog_list))
        × Inv (tick_all handler v v.0.wdog_list)
  unfolding process_timer_list
  process_timer_list-tick_all gentle fuel v inv d nn h =
      process_from-tick_all gentle fuel v [] v.0.wdog_list inv refl d nn h
