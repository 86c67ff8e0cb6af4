-- ===== src/Sem/Registry.antt =====
-- lib/lsemLib.c: the list of the semaphores (sem_find_lock, link_smcb, unlink_smcb), new_sem,
-- semBCreate, semCCreate and semMCreate. What ts_malloc returns is an argument, `none` for NULL.
use cross_compile.Base.{
  false, ℕ, ◌+◌, ◌%◌, Bool, ◌||◌, Option, none, some, [], ◌∷◌, ◌++◌, ◌==◌, if◌then◌else◌, elem,
  erase,
}
use cross_compile.Sem.Types.{
  send, Semaphore, Sems, set_smcb, priority_bit, delete_safe, inversion_safe,
}

-- Whether the semaphore still exists; if so, the caller holds its sem_lock.
unfoldable pub sem_find_lock : Sems → ℕ → Bool
sem_find_lock w sem = elem sem w.sem_list

unfoldable pub link_smcb : Sems → ℕ → Sems
link_smcb w new_sem = record w { sem_list = w.sem_list ++ new_sem ∷ [] }

unfoldable pub unlink_smcb : Sems → ℕ → Sems
unlink_smcb w smid = record w { sem_list = erase smid w.sem_list }

unfoldable pub new_sem : ℕ → Semaphore
new_sem count = record {
  sem_lock = false;
  sem_send = 0;
  flags = 0;
  smdel_cplt = 0;
  token_count = count;
  send_type = send;
  recursion_level = 0;
  current_owner = 0;
  first_susp = [];
}

-- The options that are not implemented.
abbrev pub refused_options : ℕ → Bool
refused_options opt = priority_bit opt == 1 || delete_safe opt || inversion_safe opt

-- NULL is `none`. The code then leaves ENOSYS in errno for the options, and what malloc left there
-- for the memory.
unfoldable pub sem_b_create : Sems → Option ℕ → ℕ → ℕ → Sems × Option ℕ
unfolding new_sem link_smcb
sem_b_create w block opt initial_state = if refused_options opt then (w, none) else elim block [
  | none ↦ (w, none)
  | some s ↦ (
    link_smcb
        (set_smcb w s
          (record (new_sem (if initial_state == 0 then 0 else 1)) { flags = priority_bit opt + 0 }))
        s,
    some s,
  )
]

unfoldable pub sem_c_create : Sems → Option ℕ → ℕ → ℕ → Sems × Option ℕ
unfolding new_sem link_smcb
sem_c_create w block opt initial_count = if refused_options opt then (w, none) else elim block [
  | none ↦ (w, none)
  | some s ↦ (
    link_smcb (set_smcb w s (record (new_sem initial_count) { flags = priority_bit opt + 32 })) s,
    some s,
  )
]

unfoldable pub sem_m_create : Sems → Option ℕ → ℕ → Sems × Option ℕ
unfolding new_sem link_smcb
sem_m_create w block opt = if refused_options opt then (w, none) else elim block [
  | none ↦ (w, none)
  | some s ↦ (link_smcb (set_smcb w s (record (new_sem 1) { flags = opt % 16 + 16 })) s, some s)
]
