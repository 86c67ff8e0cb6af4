-- ===== src/Sem/Create.antt =====
-- What semBCreate, semCCreate and semMCreate make.
use cross_compile.Base.{
  ℕ, ◌+◌, ◌%◌, ◌≡◌, true, false, none, some, List, [], ◌∷◌, ◌++◌, arith, ◌==◌, if◌then◌else◌, elem,
  elem-append, Bool-cases, ◌⊎◌, inl, inr,
}
use cross_compile.Sem.Types.{Sems, is_mutex}
use cross_compile.Sem.Registry.{
  sem_find_lock, sem_b_create, sem_c_create, sem_m_create, refused_options, new_sem, link_smcb,
}
use cross_compile.Sem.Mutex.{AsMutex}

found_last : (s : ℕ) (l : List ℕ) → elem s (l ++ s ∷ []) ≡ true
found_last s l = ground (arith, elem-append s l (s ∷ []))

mutex_flags : (opt : ℕ) → is_mutex (opt % 16 + 16) ≡ true
unfolding is_mutex
mutex_flags opt = ground arith

binary_flags : (opt : ℕ) → is_mutex (opt % 2 + 0) ≡ false
unfolding is_mutex
binary_flags opt = ground arith

counting_flags : (opt : ℕ) → is_mutex (opt % 2 + 32) ≡ false
unfolding is_mutex
counting_flags opt = ground arith

-- The calls that create a semaphore, with memory for it. An option that is not implemented gives
-- NULL, and no semaphore changes. Otherwise the new semaphore exists, with no task waiting: the
-- binary one with a token if its state is not 0, the counting one with the count asked for, and
-- the mutex free, with no owner. Only the last is a mutex.
pub sem_create_cases :
    (w : Sems) (s opt initial : ℕ)
    → (let (wb, b) = sem_b_create w (some s) opt initial in
        let (wc, c) = sem_c_create w (some s) opt initial in
        let (wm, m) = sem_m_create w (some s) opt in
        ((refused_options opt ≡ true)
          × (b ≡ none)
          × (c ≡ none)
          × (m ≡ none)
          × (wb ≡ w)
          × (wc ≡ w)
          × (wm ≡ w))
        ⊎ ((refused_options opt ≡ false)
            × (b ≡ some s)
            × (c ≡ some s)
            × (m ≡ some s)
            × (sem_find_lock wb s ≡ true)
            × (sem_find_lock wc s ≡ true)
            × (sem_find_lock wm s ≡ true)
            × ((wb.smcb s).token_count ≡ (if initial == 0 then 0 else 1))
            × ((wc.smcb s).token_count ≡ initial)
            × AsMutex (wm.smcb s)
            × ((wm.smcb s).current_owner ≡ 0)
            × ((wb.smcb s).first_susp ≡ [])
            × ((wc.smcb s).first_susp ≡ [])
            × ((wm.smcb s).first_susp ≡ [])
            × (is_mutex (wb.smcb s).flags ≡ false)
            × (is_mutex (wc.smcb s).flags ≡ false)))
unfolding sem_b_create sem_c_create sem_m_create sem_find_lock new_sem link_smcb
sem_create_cases w s opt initial = elim (Bool-cases (refused_options opt)) [
  | inl y ↦ inl (ground arith)
  | inr n ↦ inr (
      ground
        (arith, found_last s w.sem_list, mutex_flags opt, binary_flags opt, counting_flags opt))
]
