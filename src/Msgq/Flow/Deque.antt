-- ===== src/Msgq/Flow/Deque.antt =====
-- The abstract view of a queue that many tasks use: a list of messages with two ends.
use cross_compile.Base.{ℕ, ◌≤◌, ◌≡◌, List, [], ◌∷◌, length, Bool, false, ◌||◌}
use cross_compile.Msgq.Send.Cases.{inserted}
use cross_compile.Msgq.Flow.{Event, quiet, sent, got, overruns}

-- The abstract queue: a list of at most `limit` + 1 messages of at most `size` bytes.
pub data Deque (limit size : ℕ) : List (List ℕ) → Event → List (List ℕ) → Type 0 where
  rests : {ms ms' : List (List ℕ)} → ms' ≡ ms → Deque limit size ms quiet ms'
  puts :
      {ms ms' : List (List ℕ)} (urgent : Bool) (m : List ℕ)
      → length ms ≤ limit
      → length m ≤ size
      → ms' ≡ inserted urgent m ms
      → Deque limit size ms (sent urgent m) ms'
  takes : {ms ms' : List (List ℕ)} (m : List ℕ) → ms ≡ m ∷ ms' → Deque limit size ms (got m) ms'

pub data Deques (limit size : ℕ) : List (List ℕ) → List Event → List (List ℕ) → Type 0 where
  ends : {ms : List (List ℕ)} → Deques limit size ms [] ms
  follows :
      {ms ms' ms'' : List (List ℕ)} {e : Event} {es : List Event}
      → Deque limit size ms e ms'
      → Deques limit size ms' es ms''
      → Deques limit size ms (e ∷ es) ms''

-- The messages that went in, and those that came out, in their order.
abbrev pub sent_ones : List Event → List (List ℕ)
sent_ones [] = []
sent_ones (sent u m ∷ es) = m ∷ sent_ones es
sent_ones (e ∷ es) = sent_ones es

abbrev pub got_ones : List Event → List (List ℕ)
got_ones [] = []
got_ones (got m ∷ es) = m ∷ got_ones es
got_ones (e ∷ es) = got_ones es

abbrev pub any_overruns : List Event → Bool
any_overruns [] = false
any_overruns (e ∷ es) = overruns e || any_overruns es

abbrev pub is_urgent : Event → Bool
is_urgent (sent u m) = u
is_urgent e = false

abbrev pub any_urgent : List Event → Bool
any_urgent [] = false
any_urgent (e ∷ es) = is_urgent e || any_urgent es
