-- ===== src/Task/Start/Race.antt =====
-- Two threads in taskSpawn at the same time.
use cross_compile.Base.{
  ℕ, ◌≡◌, ◌≢◌, refl, ap, ◌∙◌, Bool, true, false, Option, none, some, List, [], ◌∷◌, ◌++◌, arith,
  ◌==◌, elem, ==_false,
}
use cross_compile.Errno.{Result, ok, error}
use cross_compile.Priority.{translate_priority}
use cross_compile.Task.Types.{
  World, set_tcb, task_for, is_dead, first_with, locked, unlocked, readied,
}
use cross_compile.Task.Table.{Spawning, new_tid, new_tcb, new_sems}
use cross_compile.Task.Start.{spawn_init, spawn_store, spawn_activate}
use cross_compile.Task.Start.Laws.{
  NoneWith, new_tid_fresh, task_init-ok, task_activate-dead, task_activate_ready,
}

-- A task in the middle of the list is found, if none before it passes.
first_with_middle :
    (test : ℕ → Bool) (l : List ℕ) (t : ℕ) (rest : List ℕ)
    → NoneWith test l
    → test t ≡ true
    → first_with test ((l ++ t ∷ []) ++ rest) ≡ t
unfolding first_with
first_with_middle test [] t rest n h = ground arith
first_with_middle test (x ∷ l) t rest (e, n) h = ground (arith, first_with_middle test l t rest n h)

NoneWith-off :
    (f g : ℕ → ℕ) (n t1 t2 : ℕ) (l : List ℕ)
    → ((j : ℕ) → j ≢ t1 → j ≢ t2 → g j ≡ f j)
    → elem t1 l ≡ false
    → elem t2 l ≡ false
    → NoneWith (λ x. f x == n) l
    → NoneWith (λ x. g x == n) l
NoneWith-off f g n t1 t2 [] same out out' h = tt
NoneWith-off f g n t1 t2 (x ∷ l) same out out' (e, h) = (
  rw (same x (λ q. ground (arith, q)) (λ q. ground (arith, q))) e,
  NoneWith-off f g n t1 t2 l same (ground arith) (ground arith) h,
)

-- What a call asks for, with the name that taskSpawn gives.
abbrev called : (ℕ → List ℕ) → Spawning → ℕ → Spawning
called default_name a tid = record a {
  name = some (elim a.name [ none ↦ default_name tid | some n ↦ n ]);
}

-- The tasks as a taskInit that succeeds leaves them.
abbrev begun : World → (ℕ → List ℕ) → Spawning → ℕ → Bool → ℕ → World
begun w default_name a t named tid =
    record (set_tcb w t (new_tcb w t (called default_name a tid) named)) {
      sems =
          new_sems w.sems t (translate_priority a.pri w.min_priority w.sems.sched.max_priority).0;
      task_list = w.task_list ++ t ∷ [];
    }

abbrev IsPlain : World → Spawning → Type 0
IsPlain w a =
    (a.opts ≡ 0) × ((translate_priority a.pri w.min_priority w.sems.sched.max_priority).1 ≡ none)

begun_lem :
    (w : World) (default_name : ℕ → List ℕ) (a : Spawning) (t : ℕ) (named : Bool) (tid : ℕ)
    → IsPlain w a
    → t ≢ 0
    → spawn_init w default_name a t named tid ≡ (begun w default_name a t named tid, ok tt)
unfolding spawn_init
begun_lem w default_name a t named tid (opts, e) real =
    task_init-ok w t (called default_name a tid) named opts real e

module _ (w : World) (default_name : ℕ → List ℕ) (a b : Spawning) (t1 t2 : ℕ)
    (named1 named2 : Bool) where
  -- The tasks when both calls have stored the identifier that both have read.
  abbrev both : World
  both =
      let w2 =
        begun (begun w default_name a t1 named1 (new_tid w)) default_name b t2 named2 (new_tid w) in
      let w3 = set_tcb w2 t1 (record (w2.tcb t1) { taskid = new_tid w; static_task = false }) in
      set_tcb w3 t2 (record (w3.tcb t2) { taskid = new_tid w; static_task = false })

  begun-IsPlain : IsPlain w b → IsPlain (begun w default_name a t1 named1 (new_tid w)) b
  unfolding new_sems
  begun-IsPlain (opts, e) = (opts, ground (arith, e))

  both_steps :
      IsPlain w a
      → IsPlain w b
      → t1 ≢ 0
      → t2 ≢ 0
      → (let tid = new_tid w in
          let (w1, e1) = spawn_init w default_name a t1 named1 tid in
          let (w2, e2) = spawn_init w1 default_name b t2 named2 tid in
          spawn_store (spawn_store w2 t1 tid e1) t2 tid e2 ≡ both)
  unfolding spawn_store
  both_steps pa pb real1 real2 =
      let tid = new_tid w in
      let w1 = begun w default_name a t1 named1 tid in
      let first = begun_lem w default_name a t1 named1 tid pa real1 in
      let second = begun_lem w1 default_name b t2 named2 tid (begun-IsPlain pb) real2 in
      rw first (rw second refl)

  both_found :
      (v : World)
      → ((j : ℕ) → (v.tcb j).taskid ≡ (both.tcb j).taskid)
      → v.task_list ≡ both.task_list
      → (self : ℕ) → t1 ≢ t2
      → elem t1 w.task_list ≡ false
      → elem t2 w.task_list ≡ false
      → new_tid w ≢ 65536
      → task_for v self (new_tid w) ≡ t1
  unfolding task_for
  both_found v same list self apart out1 out2 ne =
      let (low, high, fresh) = new_tid_fresh w ne in
      let nonzero : new_tid w ≢ 0 = λ q. ground (arith, low, q) in
      let off =
        NoneWith-off (λ j. (w.tcb j).taskid) (λ j. (v.tcb j).taskid) (new_tid w) t1 t2 w.task_list
          (λ j p q. same j ∙ ground (arith, p, q)) out1 out2 fresh in
      let it : ((v.tcb t1).taskid == new_tid w) ≡ true = rw (same t1) (ground arith) in
      rw (==_false (new_tid w) 0 nonzero, list)
        (first_with_middle (λ j. (v.tcb j).taskid == new_tid w) w.task_list t1 (t2 ∷ []) off it)

  -- The first call has made its task READY, and then the second has looked for its own.
  abbrev one_ready : ℕ → ℕ → World
  one_ready s1 id1 = unlocked (readied (locked both s1) t1 id1) s1

  both_activated :
      (s1 s2 id1 : ℕ) (thread2 : Option ℕ)
      → t1 ≢ 0
      → t1 ≢ t2
      → elem t1 w.task_list ≡ false
      → elem t2 w.task_list ≡ false
      → new_tid w ≢ 65536
      → (let v = one_ready s1 id1 in
          (spawn_activate both s1 (new_tid w) (some id1) ≡ (v, some (new_tid w)))
          × (spawn_activate v s2 (new_tid w) thread2
              ≡ (unlocked (locked v s2) s2, some (new_tid w))))
  unfolding new_tcb new_sems spawn_activate
  both_activated s1 s2 id1 thread2 real apart out1 out2 ne =
      let tid = new_tid w in
      let v = one_ready s1 id1 in
      let finished : World × Result (Unit {0}) → World × Option ℕ =
        λ r. (r.0, elim r.1 [ ok x ↦ some tid | error c ↦ none ]) in
      let found = both_found both (λ j. refl) refl s1 apart out1 out2 ne in
      let found' = both_found v (λ j. ground arith) refl s2 apart out1 out2 ne in
      (
        ap finished (task_activate-dead both s1 tid t1 id1 found real (ground arith)),
        ap finished (task_activate_ready v s2 tid t1 thread2 found' real (ground arith)),
      )

-- Two threads are in taskSpawn, without options and with priorities in range, for two blocks that
-- are not on the list. Both read the identifier, then both call taskInit, then both store the
-- identifier, and then the first calls taskActivate and after it the second. Both calls return the
-- same identifier, and both tasks stand on the list under it. Any thread that looks it up finds the
-- first of the two, also the second call's taskActivate: the second task gets no thread and stays
-- DEAD, though its taskSpawn has returned an identifier.
pub interleaved_spawns :
    (w : World) (default_name : ℕ → List ℕ) (a b : Spawning) (t1 t2 : ℕ) (named1 named2 : Bool)
    (s1 s2 self id1 : ℕ) (thread2 : Option ℕ)
    → IsPlain w a
    → IsPlain w b
    → t1 ≢ 0
    → t2 ≢ 0
    → t1 ≢ t2
    → elem t1 w.task_list ≡ false
    → elem t2 w.task_list ≡ false
    → new_tid w ≢ 65536
    → (let tid = new_tid w in
        let (w1, e1) = spawn_init w default_name a t1 named1 tid in
        let (w2, e2) = spawn_init w1 default_name b t2 named2 tid in
        let w4 = spawn_store (spawn_store w2 t1 tid e1) t2 tid e2 in
        let (w5, r1) = spawn_activate w4 s1 tid (some id1) in
        let (w6, r2) = spawn_activate w5 s2 tid thread2 in
        (r1 ≡ some tid)
        × (r2 ≡ some tid)
        × (w6.task_list ≡ (w.task_list ++ t1 ∷ []) ++ t2 ∷ [])
        × ((w6.tcb t1).taskid ≡ tid)
        × ((w6.tcb t2).taskid ≡ tid)
        × (task_for w6 self tid ≡ t1)
        × ((w6.tcb t1).pthrid ≡ id1)
        × ((w6.tcb t2).pthrid ≡ 0)
        × (is_dead w6 t2 ≡ true))
unfolding new_tcb new_sems
interleaved_spawns w default_name a b t1 t2 named1 named2 s1 s2 self id1 thread2 pa pb real1 real2
      apart out1 out2 ne =
    let (first, second) =
      both_activated w default_name a b t1 t2 named1 named2 s1 s2 id1 thread2 real1 apart out1 out2
        ne in
    let u = both w default_name a b t1 t2 named1 named2 in
    let v = one_ready w default_name a b t1 t2 named1 named2 s1 id1 in
    let last = unlocked (locked v s2) s2 in
    let found =
      both_found w default_name a b t1 t2 named1 named2 last (λ j. ground arith) refl self apart
        out1 out2 ne in
    rw (both_steps w default_name a b t1 t2 named1 named2 pa pb real1 real2) (
      rw first (
        rw second (
          refl,
          refl,
          refl,
          ground arith,
          ground arith,
          found,
          ground arith,
          ground arith,
          ground arith,
        )))
