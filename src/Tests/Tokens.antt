-- ===== src/Tests/Tokens.antt =====
-- A counting semaphore that several tasks use, at concrete inputs.
use cross_compile.Base.{refl, false, Option, none, some, [], ◌∷◌, arith}
use cross_compile.Errno.{ok, wait_forever}
use cross_compile.Susp
use cross_compile.Sem.Types.{send, Semaphore, Sems, is_mutex}
use cross_compile.Sem.Registry.{sem_find_lock}
use cross_compile.Sem
use cross_compile.Sem.Give.{sem_give}
use cross_compile.Sem.Take
use cross_compile.Sem.Take.{TakeAt, returned, sem_take}
use cross_compile.Sem.Counting.{
  given, taken, takes, gives, TokenSteps, here, more, InService, Balanced, TokenSteps-Balanced,
}
use cross_compile.Tests.Semaphores.{with_sem, four, five, noon}

-- With two tokens.
abbrev counter : Semaphore
counter = record {
  sem_lock = false;
  sem_send = 0;
  flags = 32;
  smdel_cplt = 0;
  token_count = 2;
  send_type = send;
  recursion_level = 0;
  current_owner = 0;
  first_susp = [];
}

abbrev left_by : Option (Sems × TakeAt) → Sems
left_by none = with_sem counter
left_by (some r) = r.0

abbrev one_left : Sems
one_left = left_by (sem_take (with_sem counter) five noon 9 wait_forever)

abbrev two_left : Sems
two_left = (sem_give one_left four 9).0

counter-InService : InService counter
unfolding is_mutex
counter-InService = record { plain = refl; sending = refl; level = refl }

take_and_give : TokenSteps 9 (with_sem counter) (taken ∷ given ∷ []) two_left
unfolding sem_take sem_find_lock is_mutex Take.wait_for_token Take.join_waiting Take.take_look
    Susp.link_susp_task Susp.until Susp.unlink_susp_task Susp.signal_for_my_task sem_give
    Susp.signalled_task Susp.highest Sem.Give.give_token Sem.Give.relinquish Take.take_finish
    Take.take_continue Take.token_round Take.own Take.verdict_of Take.dismissed
    Sem.Types.inversion_safe Sem.Types.delete_safe
take_and_give =
    more (takes five noon wait_forever (returned (ok tt)) (ground arith) refl)
      (more (gives four (ok tt) refl) here)

TokenSteps-Balanced_example : Balanced 9 (with_sem counter) (taken ∷ given ∷ []) two_left
TokenSteps-Balanced_example = TokenSteps-Balanced take_and_give counter-InService
