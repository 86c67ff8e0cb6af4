-- ===== src/Msgq/Ring/View.antt =====
-- The messages that an extent holds, in the order in which they are fetched, and what a write of one
-- element does to them.
use cross_compile.Base.{
  ℕ, zero, suc, ◌+◌, ◌-◌, ◌<◌, ◌≤◌, ◌≡◌, refl, ap, ◌∙◌, List, [], ◌∷◌, ◌++◌, arith, leb, ◌==◌,
  if◌then◌else◌, length, get_or, set, take, get_or-set_self, get_or-set_ne,
}
use mathlib.Core.Path.{ap₂}
use cross_compile.Msgq.Types.{Slot, no_slot}

abbrev pub payload : Slot → List ℕ
payload s = take s.msglen s.msgbuf

-- The element `k` places behind `h`, for `k <= last + 1`.
abbrev pub place : ℕ → ℕ → ℕ → ℕ
place last h k = if leb (h + k) last then h + k else h + k - (last + 1)

-- Reading back what was written.
get_or-set_at :
    (slots : List Slot) (h t : ℕ) (v : Slot) {n : ℕ}
    → length slots ≡ n
    → h < n
    → h ≡ t
    → get_or (set slots t v) h no_slot ≡ v
get_or-set_at slots h t v len lt e = rw e (get_or-set_self slots t v no_slot (omega arith))

module _ (last : ℕ) where
  unfoldable pub window : List Slot → ℕ → ℕ → List (List ℕ)
  window slots h zero = []
  window slots h (suc n) = payload (get_or slots h no_slot) ∷ window slots (place last h 1) n

  -- A write behind the window leaves it alone.
  pub window-set_out :
      (slots : List Slot) (v : Slot) (h t m n : ℕ)
      → n ≤ m
      → m ≤ last
      → h ≤ last
      → t ≡ place last h m
      → window (set slots t v) h n ≡ window slots h n
  unfolding window
  window-set_out slots v h t m zero le lm lh e = refl
  window-set_out slots v h t m (suc n) le lm lh e =
      ap₂ (λ s r. payload s ∷ r) (get_or-set_ne slots t h v no_slot (ground arith))
        (window-set_out slots v (place last h 1) t (m - 1) n (omega arith) (omega arith)
          (ground arith) (ground arith))

  -- A write just behind the window makes it longer.
  pub window-set_next :
      (slots : List Slot) (v : Slot) (h t n : ℕ)
      → length slots ≡ last + 1
      → n ≤ last
      → h ≤ last
      → t ≡ place last h n
      → window (set slots t v) h (suc n) ≡ window slots h n ++ payload v ∷ []
  unfolding window
  window-set_next slots v h t zero len ln lh e =
      ap₂ (λ s r. payload s ∷ r) (get_or-set_at slots h t v len (ground arith) (ground arith)) refl
  window-set_next slots v h t (suc n) len ln lh e =
      ap₂ (λ s r. payload s ∷ r) (get_or-set_ne slots t h v no_slot (ground arith))
        (window-set_next slots v (place last h 1) t n len (omega arith) (ground arith)
          (ground arith))

  -- A write just before the window puts one message in front.
  pub window-set_front :
      (slots : List Slot) (v : Slot) (h t n : ℕ)
      → length slots ≡ last + 1
      → n ≤ last
      → h ≤ last
      → t ≡ (if h == 0 then last else h - 1)
      → window (set slots t v) t (suc n) ≡ payload v ∷ window slots h n
  unfolding window
  window-set_front slots v h t n len ln lh e =
      ap₂ (λ s r. payload s ∷ r) (get_or-set_at slots t t v len (ground arith) refl)
        (ap (λ k. window (set slots t v) k n) back
          ∙ window-set_out slots v h t last n ln (omega arith) lh (ground arith))
    where
      back : place last t 1 ≡ h
      back = ground arith

  pub window-cons :
      (slots : List Slot) (h n : ℕ)
      → 0 < n
      → window slots h n ≡ payload (get_or slots h no_slot) ∷ window slots (place last h 1) (n - 1)
  unfolding window
  window-cons slots h zero pos = absurd (omega arith)
  window-cons slots h (suc n) pos =
      let e : n ≡ suc n - 1 = omega arith in
      ap (λ k. payload (get_or slots h no_slot) ∷ window slots (place last h 1) k) e

  -- A write at the first element leaves the messages behind it alone.
  pub window-set_first :
      (slots : List Slot) (v : Slot) (h n : ℕ)
      → n ≤ last
      → h ≤ last
      → window (set slots h v) (place last h 1) n ≡ window slots (place last h 1) n
  window-set_first slots v h n ln lh =
      window-set_out slots v (place last h 1) h last n ln (omega arith) (ground arith)
        (ground arith)

  pub length-window : (slots : List Slot) (h n : ℕ) → length (window slots h n) ≡ n
  unfolding window
  length-window slots h zero = refl
  length-window slots h (suc n) = ap suc (length-window slots (place last h 1) n)
