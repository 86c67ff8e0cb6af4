-- ===== src/Msgq/Flow/Moves.antt =====
-- What a step does to the messages of a queue: nothing, one posted, or one fetched.
use cross_compile.Base.{
  ℕ, ◌<◌, ◌≤◌, ◌≡◌, ◌⊎◌, refl, ap, ◌∙◌, sym, Bool, true, false, Option, some, some-injective, List,
  [], arith, length, take, length-take, inl, inr,
}
use cross_compile.Errno.{ok}
use cross_compile.Msgq.Types.{Mqueue}
use cross_compile.Msgq.Ring.{fetch_msg_from}
use cross_compile.Msgq.Ring.View.{window}
use cross_compile.Msgq.Ring.Valid.{
  RingInv, IsValid, Kept, contents, length-contents, contents-empty,
}
use cross_compile.Msgq.Ring.Fetch.{fetch_msg_from_refines, fetch_msg_from-Kept}
use cross_compile.Msgq.Send.{post}
use cross_compile.Msgq.Send.Cases.{inserted, post_refines, post-Kept}
use cross_compile.Msgq.Flow.Deque.{Deque, rests, puts, takes}
use cross_compile.Msgq.Flow.{Event, overruns, quiet, sent, overran, fetched, Core, core}

-- The messages go through a control block `p` that differs from `q` in no message. A normal and an
-- urgent message are one where the queue is empty.
pub data Moved (q q' : Mqueue) : Event → Type 0 where
  idle : core q' ≡ core q → Moved q q' quiet
  posts :
      (p : Mqueue) (msg : List ℕ) (msglen : ℕ) (urgent as_urgent : Bool)
      → core p ≡ core q
      → p.msg_count ≤ p.msgs_per_queue
      → msglen ≤ p.msg_len
      → msglen ≤ length msg
      → (as_urgent ≡ urgent) ⊎ (p.msg_count ≡ 0)
      → post p (some msg) msglen as_urgent ≡ some q'
      → Moved q q' (sent urgent (take msglen msg))
  overfills :
      (p : Mqueue) (msg : List ℕ) (msglen : ℕ) (urgent : Bool)
      → core p ≡ core q
      → p.msgs_per_queue < p.msg_count
      → msglen ≤ p.msg_len
      → msglen ≤ length msg
      → post p (some msg) msglen urgent ≡ some q'
      → Moved q q' (overran urgent (take msglen msg))
  fetches :
      (p : Mqueue) (buf : List ℕ) (out : Option (List ℕ)) (n : ℕ)
      → core p ≡ core q
      → 0 < p.msg_count
      → p.msg_len ≤ length buf
      → fetch_msg_from p (some buf) ≡ some (q', out, n)
      → Moved q q' (fetched (ok n) out)

-- A valid queue with its limits.
pub record Sound (limit size : ℕ) (q : Mqueue) : Type 0 where
  pub valid : IsValid q
  pub limit_is : q.msgs_per_queue ≡ limit
  pub size_is : q.msg_len ≡ size

abbrev ValidCore : Core → Type 0
ValidCore c = RingInv c.extent c.queue_head c.queue_tail c.msg_count c.msgs_per_queue c.msg_len

abbrev held : Core → List (List ℕ)
held c = window c.msgs_per_queue c.extent c.queue_head c.msg_count

pub core-IsValid : (p q : Mqueue) → core p ≡ core q → IsValid q → IsValid p
core-IsValid p q e v = coe 1 0 (i. ValidCore (e i)) v

pub core-contents : (p q : Mqueue) → core p ≡ core q → contents p ≡ contents q
core-contents p q e = ap held e

module _ {limit size : ℕ} (p q : Mqueue) (e : core p ≡ core q) where
  pub core-Sound : Sound limit size q → Sound limit size p
  core-Sound s = record {
    valid = core-IsValid p q e s.valid;
    limit_is = ap (λ c. c.msgs_per_queue) e ∙ s.limit_is;
    size_is = ap (λ c. c.msg_len) e ∙ s.size_is;
  }

pub Kept-Sound :
    {limit size : ℕ} {q q' : Mqueue}
    → Sound limit size q
    → IsValid q'
    → Kept q q'
    → Sound limit size q'
Kept-Sound s v k = record {
  valid = v;
  limit_is = k.limit ∙ s.limit_is;
  size_is = k.size ∙ s.size_is;
}

inserted-alike :
    (q : Mqueue) (m : List ℕ) (u v : Bool)
    → (v ≡ u) ⊎ (q.msg_count ≡ 0)
    → inserted v m (contents q) ≡ inserted u m (contents q)
inserted-alike q m u v (inl e) = ap (λ b. inserted b m (contents q)) e
inserted-alike q m u v (inr e) = rw (contents-empty q e) (emptied u v)
  where
    emptied : (a b : Bool) → inserted b m [] ≡ inserted a m []
    emptied true true = refl
    emptied true false = refl
    emptied false true = refl
    emptied false false = refl

-- Every move of a sound queue that does not overrun it is one of the abstract queue.
pub Moved-Deque :
    {limit size : ℕ} {q q' : Mqueue} {e : Event}
    → 0 < size
    → Sound limit size q
    → Moved q q' e
    → overruns e ≡ false
    → Sound limit size q' × Deque limit size (contents q) e (contents q')
Moved-Deque {q = q} {q' = q'} bytes s (idle same) fine =
    (core-Sound q' q same s, rests (core-contents q' q same))
Moved-Deque {q = q} {q' = q'} bytes s (posts p msg n u front same room small avail which e) fine =
    let sp = core-Sound p q same s in
    let (r, er, v, c) = post_refines p msg n front sp.valid room small avail in
    let er' : r ≡ q' = some-injective _ _ (sym er ∙ e) in
    (
      Kept-Sound sp (coe 0 1 (i. IsValid (er' i)) v) (post-Kept p (some msg) n front e).0,
      puts u (take n msg)
          (omega (
            arith,
            length-contents q,
            ap (λ k. k.msg_count) same,
            ap (λ k. k.msgs_per_queue) same,
            s.limit_is,
          ))
          (omega (arith, length-take n msg, sp.size_is))
          (sym (ap contents er')
            ∙ c
            ∙ inserted-alike p (take n msg) u front which
            ∙ ap (λ ms. inserted u (take n msg) ms) (core-contents p q same)),
    )
Moved-Deque bytes s (overfills p msg n u same room small avail e) fine = absurd (ground arith)
Moved-Deque {limit = limit} {size = size} {q = q} {q' = q'} bytes s
      (fetches p buf out n same some_msg big e) fine =
    let sp = core-Sound p q same s in
    let (r, out', n', er, v, c, le, d, len) =
      fetch_msg_from_refines p buf sp.valid (omega (arith, sp.size_is)) big some_msg in
    let er' : (r, some out', n') ≡ (q', out, n) = some-injective _ _ (sym er ∙ e) in
    (
      Kept-Sound sp (coe 0 1 (i. IsValid (er' i).0) v) (fetch_msg_from-Kept p (some buf) e).0,
      coe 0 1
          (i. Deque limit size (contents q) (fetched (ok (er' i).2) (er' i).1) (contents (er' i).0))
          (takes (take n' out') (sym (core-contents p q same) ∙ c)),
    )
