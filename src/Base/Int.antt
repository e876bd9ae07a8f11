-- ===== src/Base/Int.antt =====
-- Signed integers over the native numbers, the range of i128, and Rust's saturating operations.
use Prim.Native.Nat.{ℕ, suc, ◌+◌, ◌-◌, ◌*◌, ◌/◌, ◌%◌, ◌^◌, ◌≤◌}
use mathlib.Core.Path.{◌≡◌}
use mathlib.Core.Bool.{Bool}
use native.Mathlib.Omega.{arith}
use noc_iq_contracts.Base.Tests.{ltb, leb, ◌==◌, if◌then◌else◌}

-- `negsuc n` is -(n + 1).
pub data ℤ : Type 0 where
  pos : ℕ → ℤ
  negsuc : ℕ → ℤ

abbrev pub pos_part : ℤ → ℕ
pos_part (pos n) = n
pos_part (negsuc n) = 0

abbrev pub neg_part : ℤ → ℕ
neg_part (pos n) = 0
neg_part (negsuc n) = suc n

-- a - b, as an integer.
abbrev pub sub_ℕ : ℕ → ℕ → ℤ
sub_ℕ a b = if leb b a then pos (a - b) else negsuc (b - a - 1)

infixl 65 ◌+ℤ◌
infixl 70 ◌*ℤ◌
infix 50 ◌≤ℤ◌
unfoldable pub ◌+ℤ◌ : ℤ → ℤ → ℤ
a +ℤ b = sub_ℕ (pos_part a + pos_part b) (neg_part a + neg_part b)

unfoldable pub ◌*ℤ◌ : ℤ → ℤ → ℤ
a *ℤ b =
    sub_ℕ (pos_part a * pos_part b + neg_part a * neg_part b)
      (pos_part a * neg_part b + neg_part a * pos_part b)

unfoldable pub neg_ℤ : ℤ → ℤ
neg_ℤ a = sub_ℕ (neg_part a) (pos_part a)

abbrev pub ◌≤ℤ◌ : ℤ → ℤ → Type 0
a ≤ℤ b = pos_part a + neg_part b ≤ pos_part b + neg_part a

abbrev pub ltb_ℤ : ℤ → ℤ → Bool
ltb_ℤ a b = ltb (pos_part a + neg_part b) (pos_part b + neg_part a)

abbrev pub leb_ℤ : ℤ → ℤ → Bool
leb_ℤ a b = leb (pos_part a + neg_part b) (pos_part b + neg_part a)

abbrev pub eqb_ℤ : ℤ → ℤ → Bool
eqb_ℤ a b = (pos_part a + neg_part b) == (pos_part b + neg_part a)

-- 2 ^ 127 - 1; the least i128 is `negsuc i128_max`.
abbrev pub i128_max : ℕ
i128_max = 2 ^ 127 - 1

-- The nearest i128.
unfoldable pub saturate : ℤ → ℤ
saturate a =
    if ltb i128_max (pos_part a)
    then pos i128_max
    else if ltb (suc i128_max) (neg_part a)
    then negsuc i128_max
    else a

-- `i128::saturating_add`, `i128::saturating_mul`
unfoldable pub saturating_add : ℤ → ℤ → ℤ
saturating_add a b = saturate (a +ℤ b)

unfoldable pub saturating_mul : ℤ → ℤ → ℤ
saturating_mul a b = saturate (a *ℤ b)

-- `-a` on i128, which wraps at the least value.
unfoldable pub wrapping_neg : ℤ → ℤ
wrapping_neg a = if ltb i128_max (neg_part a) then a else neg_ℤ a

-- `div_euclid` by a divisor above 0: the quotient rounds down.
unfoldable pub div_euclid : ℤ → ℕ → ℤ
div_euclid (pos n) d = pos (n / d)
div_euclid (negsuc n) d = negsuc (n / d)

-- 2 ^ 128
abbrev pub i128_span : ℕ
i128_span = 2 ^ 128

-- The i128 that is left of an integer where a build without overflow checks wraps.
unfoldable pub wrap_i128 : ℤ → ℤ
wrap_i128 (pos n) =
    let word = n % i128_span in
    if leb word i128_max then pos word else negsuc (i128_span - 1 - word)
wrap_i128 (negsuc n) =
    let word = n % i128_span in
    if leb word i128_max then negsuc word else pos (i128_span - 1 - word)

-- `/` by a divisor above 0 on i128: the quotient is cut towards 0.
unfoldable pub div_trunc : ℤ → ℕ → ℤ
div_trunc (pos n) d = pos (n / d)
div_trunc (negsuc n) d = neg_ℤ (pos (suc n / d))

pub wrap_i128-pos : (n : ℕ) → n ≤ i128_max → wrap_i128 (pos n) ≡ pos n
unfolding wrap_i128
wrap_i128-pos n h = ground arith

pub pos-mul : (a b : ℕ) → pos a *ℤ pos b ≡ pos (a * b)
unfolding ◌*ℤ◌
pos-mul a b = ground arith

pub wrap_i128-sub :
    (a b : ℕ) → a ≤ i128_max → b ≤ a → wrap_i128 (pos a +ℤ neg_ℤ (pos b)) ≡ pos (a - b)
unfolding ◌+ℤ◌ neg_ℤ
wrap_i128-sub a b h le =
    let e : pos a +ℤ neg_ℤ (pos b) ≡ pos (a - b) = ground arith in
    rw e (wrap_i128-pos (a - b) (omega arith))
