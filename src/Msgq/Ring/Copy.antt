-- ===== src/Msgq/Ring/Copy.antt =====
-- The copy loops stay inside their objects, and copy what they should.
use cross_compile.Base.{
  ℕ, zero, suc, ◌≤◌, ◌<◌, ◌≡◌, ◌⊎◌, refl, ap, some, List, [], ◌∷◌, arith, length, get_or, set, take,
  drop,
}
use cross_compile.Msgq.Types.{Slot, no_slot, Mqueue}
use cross_compile.Msgq.Ring.{copy_bytes, store_at, copy_out, clear_first}
use cross_compile.Msgq.Ring.View.{payload}

-- Where both sides have `n` bytes the loop runs without a fault: the first `n` bytes are then those
-- of the source, and the others are as before.
pub copy_bytes_lem :
    (n : ℕ) (src dst : List ℕ)
    → n ≤ length src
    → n ≤ length dst
    → (r : List ℕ) × (copy_bytes n src dst ≡ some r)
      × (take n r ≡ take n src)
      × (drop n r ≡ drop n dst)
      × (length r ≡ length dst)
unfolding copy_bytes
copy_bytes_lem zero src dst hs hd = (dst, refl, refl, refl, refl)
copy_bytes_lem (suc n) [] dst hs hd = absurd (omega arith)
copy_bytes_lem (suc n) (s ∷ src) [] hs hd = absurd (omega arith)
copy_bytes_lem (suc n) (s ∷ src) (d ∷ dst) hs hd =
    let (r, e, front, back, len) = copy_bytes_lem n src dst (omega arith) (omega arith) in
    (s ∷ r, rw e, ap (◌∷◌ s) front, back, ap suc len)

pub store_at_lem :
    (q : Mqueue) (i n : ℕ) (msg : List ℕ)
    → n ≤ length msg
    → n ≤ length (get_or q.extent i no_slot).msgbuf
    → (v : Slot) × (store_at q i (some msg) n ≡ some (set q.extent i v))
      × (payload v ≡ take n msg)
      × (v.msglen ≡ n)
      × (length v.msgbuf ≡ length (get_or q.extent i no_slot).msgbuf)
unfolding store_at
store_at_lem q i n msg hm hb =
    let (r, e, front, _, len) = copy_bytes_lem n msg (get_or q.extent i no_slot).msgbuf hm hb in
    (record { msglen = n; msgbuf = r }, rw e, front, refl, len)

-- The clearing of a fetched element stays inside the extent if the elements have bytes, or if it is
-- not the last element.
pub clear_first_lem :
    (q : Mqueue) (i : ℕ) (bs : List ℕ)
    → (0 < length bs) ⊎ (i < q.msgs_per_queue)
    → (r : List ℕ) × (clear_first q i bs ≡ some r) × (length r ≡ length bs)
unfolding clear_first
clear_first_lem q i [] h = ([], ground arith, refl)
clear_first_lem q i (b ∷ bs) h = (0 ∷ bs, refl, refl)

pub copy_out_lem :
    (s : Slot) (buf : List ℕ)
    → s.msglen ≤ length s.msgbuf
    → s.msglen ≤ length buf
    → (r : List ℕ) × (copy_out s (some buf) ≡ some (some r, s.msglen))
      × (take s.msglen r ≡ payload s)
      × (drop s.msglen r ≡ drop s.msglen buf)
      × (length r ≡ length buf)
unfolding copy_out
copy_out_lem s buf hs hb =
    let (r, e, front, back, len) = copy_bytes_lem s.msglen s.msgbuf buf hs hb in
    (r, rw e, front, back, len)
