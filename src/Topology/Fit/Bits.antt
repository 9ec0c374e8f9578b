-- ===== src/Topology/Fit/Bits.antt =====
-- The ids below a bound, and the masks of pkg/noderesourcetopology/filter.go as lists of them.
use mathlib.Core.Path.{subst}
use native.Mathlib.Decide.{dec_lt}
use plugins_improve.Prelude.{
  ℕ, zero, suc, ◌<◌, All, ◌==◌, Bool, true, false, List, [], ◌∷◌, ◌++◌, ◌≡◌, refl, sym, ◌∙◌, arith,
  length, keep,
}
use plugins_improve.Topology.Fit.{BitMaskApi, up_to}

module _ (P : ℕ → Type 0) where
  All-snoc : (xs : List ℕ) (x : ℕ) → All P xs → P x → All P (xs ++ x ∷ [])
  All-snoc [] x h p = (p, tt)
  All-snoc (y ∷ ys) x h p = (h.0, All-snoc ys x h.1 p)

  snoc-All : (xs : List ℕ) (x : ℕ) → All P (xs ++ x ∷ []) → All P xs × P x
  snoc-All [] x h = (tt, h.0)
  snoc-All (y ∷ ys) x h = let rest = snoc-All ys x h.1 in ((h.0, rest.0), rest.1)

  pub All-up_to : (n : ℕ) → ((i : ℕ) → i < n → P i) → All P (up_to n)
  All-up_to zero h = tt
  All-up_to (suc n) h =
      All-snoc (up_to n) n (All-up_to n (λ i k. h i (omega arith))) (h n (omega arith))

  pub up_to-All : (n : ℕ) → All P (up_to n) → (i : ℕ) → i < n → P i
  up_to-All zero h i k = elim k [ ]
  up_to-All (suc n) h i k =
      let parts = snoc-All (up_to n) n h in
      elim (dec_lt i n) [
        | yes l ↦ up_to-All n parts.0 i l
        | no l ↦ subst P {x = n} {y = i} (omega arith) parts.1
      ]

pub keep-nil : (p : ℕ → Bool) (xs : List ℕ) → keep p xs ≡ [] → All (λ i. p i ≡ false) xs
unfolding keep
keep-nil p [] h = tt
keep-nil p (x ∷ xs) h = ground (arith, keep-nil p xs)

pub length-zero : (xs : List ℕ) → (length xs == 0) ≡ true → xs ≡ []
length-zero [] h = refl
length-zero (x ∷ xs) h = ground arith

pub keep-none : (p : ℕ → Bool) (xs : List ℕ) → All (λ i. p i ≡ false) xs → keep p xs ≡ []
unfolding keep
keep-none p [] h = refl
keep-none p (x ∷ xs) h = ground (arith, keep-none p xs h.1)

pub keep_ext : (p q : ℕ → Bool) (xs : List ℕ) → All (λ i. p i ≡ q i) xs → keep p xs ≡ keep q xs
unfolding keep
keep_ext p q [] h = refl
keep_ext p q (x ∷ xs) h = ground (arith, keep_ext p q xs h.1)

module _ (mask : BitMaskApi) where
  open mask use {B, empty, fill, add, meet, is_empty, get_bits, has_bit}

  pub is_empty-has_bit : (b : B) (id : ℕ) → is_empty b ≡ true → id < 64 → has_bit b id ≡ false
  is_empty-has_bit b id e k =
      up_to-All (λ i. has_bit b i ≡ false) 64
        (keep-nil (has_bit b) (up_to 64) (
          sym (mask.get_bits-has_bit b)
          ∙ length-zero (get_bits b) (sym (mask.is_empty-get_bits b) ∙ e)))
        id k
