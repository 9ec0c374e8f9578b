-- ===== src/Prelude/Int.antt =====
-- Signed integers over the native numbers, under the library's names, with Go's fixed widths.
use Prim.Native.Nat.{ℕ, suc, ◌+◌, ◌-◌, ◌*◌, ◌/◌, ◌%◌, ◌^◌, ◌≤◌, ◌<◌}
use mathlib.Core.Path.{◌≡◌}
use mathlib.Core.Bool.{Bool}
use native.Mathlib.Omega.{arith}
use plugins_improve.Prelude.Tests.{ltb, leb, ◌==◌, if◌then◌else◌}

-- `negsuc n` is -(n + 1).
pub data ℤ : Type 0 where
  pos : ℕ → ℤ
  negsuc : ℕ → ℤ

abbrev pub pos_part : ℤ → ℕ
pos_part (pos n) = n
pos_part (negsuc n) = 0

abbrev pub neg_part : ℤ → ℕ
neg_part (pos n) = 0
neg_part (negsuc n) = suc n

-- a - b, as an integer.
abbrev pub sub_ℕ : ℕ → ℕ → ℤ
sub_ℕ a b = if leb b a then pos (a - b) else negsuc (b - a - 1)

infixl 65 ◌+ℤ◌ ◌-ℤ◌
infix 50 ◌≤ℤ◌ ◌<ℤ◌
unfoldable pub ◌+ℤ◌ : ℤ → ℤ → ℤ
a +ℤ b = sub_ℕ (pos_part a + pos_part b) (neg_part a + neg_part b)

unfoldable pub ◌-ℤ◌ : ℤ → ℤ → ℤ
a -ℤ b = sub_ℕ (pos_part a + neg_part b) (neg_part a + pos_part b)

abbrev pub ◌≤ℤ◌ : ℤ → ℤ → Type 0
a ≤ℤ b = pos_part a + neg_part b ≤ pos_part b + neg_part a

abbrev pub ◌<ℤ◌ : ℤ → ℤ → Type 0
a <ℤ b = pos_part a + neg_part b < pos_part b + neg_part a

abbrev pub ltb_ℤ : ℤ → ℤ → Bool
ltb_ℤ a b = ltb (pos_part a + neg_part b) (pos_part b + neg_part a)

abbrev pub leb_ℤ : ℤ → ℤ → Bool
leb_ℤ a b = leb (pos_part a + neg_part b) (pos_part b + neg_part a)

abbrev pub eqb_ℤ : ℤ → ℤ → Bool
eqb_ℤ a b = (pos_part a + neg_part b) == (pos_part b + neg_part a)

pub +ℤ_parts :
    (a b : ℤ)
    → pos_part (a +ℤ b) + neg_part a + neg_part b ≡ neg_part (a +ℤ b) + pos_part a + pos_part b
unfolding ◌+ℤ◌
+ℤ_parts a b = ground arith

pub -ℤ_parts :
    (a b : ℤ)
    → pos_part (a -ℤ b) + neg_part a + pos_part b ≡ neg_part (a -ℤ b) + pos_part a + neg_part b
unfolding ◌-ℤ◌
-ℤ_parts a b = ground arith

pub eq_of_parts : (a b : ℤ) → pos_part a + neg_part b ≡ pos_part b + neg_part a → a ≡ b
eq_of_parts a b h = ground arith

-- Two's complement: the value between -h and h - 1 that differs by a multiple of 2 * h.
abbrev wrap : ℕ → ℤ → ℤ
wrap h (pos n) = sub_ℕ ((n + h) % (2 * h)) h
wrap h (negsuc n) = sub_ℕ ((2 * h - 1 - n % (2 * h) + h) % (2 * h)) h

unfoldable pub wrap64 : ℤ → ℤ
wrap64 z = wrap (2 ^ 63) z

unfoldable pub wrap32 : ℤ → ℤ
wrap32 z = wrap (2 ^ 31) z

abbrev pub InInt64 : ℤ → Type 0
InInt64 z = (pos_part z < 2 ^ 63) × (neg_part z ≤ 2 ^ 63)

abbrev pub InInt32 : ℤ → Type 0
InInt32 z = (pos_part z < 2 ^ 31) × (neg_part z ≤ 2 ^ 31)

pub wrap64_id : (z : ℤ) → InInt64 z → wrap64 z ≡ z
unfolding wrap64
wrap64_id (pos n) h = ground arith
wrap64_id (negsuc n) h = ground arith

pub wrap32_id : (z : ℤ) → InInt32 z → wrap32 z ≡ z
unfolding wrap32
wrap32_id (pos n) h = ground arith
wrap32_id (negsuc n) h = ground arith

pub wrap64-InInt64 : (z : ℤ) → InInt64 (wrap64 z)
unfolding wrap64
wrap64-InInt64 (pos n) = ground arith
wrap64-InInt64 (negsuc n) = ground arith

-- int64 addition and subtraction.
unfoldable pub add64 : ℤ → ℤ → ℤ
add64 a b = wrap64 (a +ℤ b)

unfoldable pub sub64 : ℤ → ℤ → ℤ
sub64 a b = wrap64 (a -ℤ b)

pub add64-InInt64 : (a b : ℤ) → InInt64 (add64 a b)
unfolding add64
add64-InInt64 a b = wrap64-InInt64 (a +ℤ b)

pub sub64-InInt64 : (a b : ℤ) → InInt64 (sub64 a b)
unfolding sub64
sub64-InInt64 a b = wrap64-InInt64 (a -ℤ b)

-- Also where the sum wraps, subtraction undoes addition.
pub sub64-add64 : (a b : ℤ) → InInt64 a → InInt64 b → sub64 (add64 a b) b ≡ a
unfolding add64 sub64 wrap64 ◌+ℤ◌ ◌-ℤ◌
sub64-add64 (pos a) (pos b) h k = ground arith
sub64-add64 (pos a) (negsuc b) h k = ground arith
sub64-add64 (negsuc a) (pos b) h k = ground arith
sub64-add64 (negsuc a) (negsuc b) h k = ground arith

-- Wrapping changes a value by a multiple of 2 ^ 64.
wrap64_parts :
    (z : ℤ)
    → (q r : ℕ) × (pos_part (wrap64 z) + neg_part z + 2 ^ 64 * q
        ≡ neg_part (wrap64 z) + pos_part z + 2 ^ 64 * r)
unfolding wrap64
wrap64_parts (pos n) = ((n + 2 ^ 63) / 2 ^ 64, 0, ground arith)
wrap64_parts (negsuc n) =
    ((2 ^ 64 - 1 - n % 2 ^ 64 + 2 ^ 63) / 2 ^ 64, n / 2 ^ 64 + 1, ground arith)

-- Two values of the range that differ by a multiple of 2 ^ 64 are equal.
congruent_eq :
    (a b : ℤ) (q r : ℕ)
    → InInt64 a
    → InInt64 b
    → pos_part a + neg_part b + 2 ^ 64 * q ≡ neg_part a + pos_part b + 2 ^ 64 * r
    → a ≡ b
congruent_eq a b q r h k e = eq_of_parts a b (omega arith)

-- Modulo 2 ^ 64, the order of an addition and a subtraction does not matter.
pub add64-sub64 : (a b c : ℤ) → add64 (sub64 a b) c ≡ sub64 (add64 a c) b
unfolding add64 sub64
add64-sub64 a b c =
    let (q1, r1, e1) = wrap64_parts (a -ℤ b) in
    let (q2, r2, e2) = wrap64_parts (wrap64 (a -ℤ b) +ℤ c) in
    let (q3, r3, e3) = wrap64_parts (a +ℤ c) in
    let (q4, r4, e4) = wrap64_parts (wrap64 (a +ℤ c) -ℤ b) in
    congruent_eq (add64 (sub64 a b) c) (sub64 (add64 a c) b) (q1 + q2 + r3 + r4) (r1 + r2 + q3 + q4)
      (add64-InInt64 (sub64 a b) c) (sub64-InInt64 (add64 a c) b)
      (omega (
        arith,
        e1,
        e2,
        e3,
        e4,
        -ℤ_parts a b,
        +ℤ_parts (wrap64 (a -ℤ b)) c,
        +ℤ_parts a c,
        -ℤ_parts (wrap64 (a +ℤ c)) b,
      ))

pub add64_comm : (a b : ℤ) → add64 a b ≡ add64 b a
unfolding add64 ◌+ℤ◌
add64_comm a b = ground arith

infixl 70 ◌*ℤ◌
unfoldable pub ◌*ℤ◌ : ℤ → ℤ → ℤ
a *ℤ b =
    sub_ℕ (pos_part a * pos_part b + neg_part a * neg_part b)
      (pos_part a * neg_part b + neg_part a * pos_part b)

unfoldable pub mul64 : ℤ → ℤ → ℤ
mul64 a b = wrap64 (a *ℤ b)

-- Division as Go has it, towards zero; a divisor of 0 panics there, which its callers write out.
unfoldable pub quot64 : ℤ → ℤ → ℤ
quot64 (pos a) (pos b) = pos (a / b)
quot64 (pos a) (negsuc b) = sub_ℕ 0 (a / suc b)
quot64 (negsuc a) (pos b) = sub_ℕ 0 (suc a / b)
quot64 (negsuc a) (negsuc b) = wrap64 (pos (suc a / suc b))

pub add64_small : (a b : ℕ) → a + b < 2 ^ 63 → add64 (pos a) (pos b) ≡ pos (a + b)
unfolding add64 ◌+ℤ◌ wrap64
add64_small a b h = ground arith

pub sub64_small : (a b : ℕ) → b ≤ a → a < 2 ^ 63 → sub64 (pos a) (pos b) ≡ pos (a - b)
unfolding sub64 ◌-ℤ◌ wrap64
sub64_small a b h k = ground arith

pub mul64_small : (a b : ℕ) → a * b < 2 ^ 63 → mul64 (pos a) (pos b) ≡ pos (a * b)
unfolding mul64 ◌*ℤ◌ wrap64
mul64_small a b h = ground arith
