-- ===== src/Number.antt =====
-- The numbers of the program, which are IEEE-754 doubles. Every finite double is a whole multiple
-- of 2^-1074, so `finite z` stands for z * 2^-1074 and comparisons are exact; the two zeros are one
-- value. Operations that round (`+ - * /`, `Math.floor`) are no part of this file.
use Prim.Native.Nat.{◌^◌}
use open_neotrader.Base.{
  ◌*◌, ℕ, suc, ◌+◌, ◌-◌, ◌≡◌, refl, Bool, true, false, not, ◌&&◌, arith, ltb, if◌then◌else◌,
}

-- `negsuc n` is -(n + 1).
pub data ℤ : Type 0 where
  pos : ℕ → ℤ
  negsuc : ℕ → ℤ

abbrev pub pos_part : ℤ → ℕ
pos_part (pos n) = n
pos_part (negsuc _) = 0

abbrev pub neg_part : ℤ → ℕ
neg_part (pos _) = 0
neg_part (negsuc n) = suc n

abbrev pub ltb_ℤ : ℤ → ℤ → Bool
ltb_ℤ a b = ltb (pos_part a + neg_part b) (pos_part b + neg_part a)

abbrev pub neg : ℤ → ℤ
neg (pos 0') = if ltb 0 0' then negsuc (0' - 1) else pos 0
neg (negsuc n) = pos (suc n)

pub data Number : Type 0 where
  nan : Number
  neg_inf : Number
  finite : ℤ → Number
  pos_inf : Number

-- `a < b`, which is false when a side is NaN.
abbrev pub num_lt : Number → Number → Bool
num_lt nan _ = false
num_lt neg_inf nan = false
num_lt neg_inf neg_inf = false
num_lt neg_inf _ = true
num_lt (finite a) (finite b) = ltb_ℤ a b
num_lt (finite _) pos_inf = true
num_lt (finite _) _ = false
num_lt pos_inf _ = false

abbrev pub is_nan : Number → Bool
is_nan nan = true
is_nan _ = false

-- `a <= b`, which is false too when a side is NaN.
abbrev pub num_le : Number → Number → Bool
num_le a b = not (is_nan a) && not (is_nan b) && not (num_lt b a)

-- `Number.isFinite`
abbrev pub is_finite : Number → Bool
is_finite (finite _) = true
is_finite _ = false

abbrev pub zero_num : Number
zero_num = finite (pos 0)

-- a whole number
unfoldable pub num_of : ℕ → Number
num_of n = finite (pos (n * 2 ^ 1074))

-- `Math.abs`
abbrev pub num_abs : Number → Number
num_abs neg_inf = pos_inf
num_abs (finite (negsuc n)) = finite (pos (suc n))
num_abs x = x

abbrev pub num_neg : Number → Number
num_neg nan = nan
num_neg neg_inf = pos_inf
num_neg (finite z) = finite (neg z)
num_neg pos_inf = neg_inf

-- `Math.max`, which is NaN when a side is NaN.
abbrev pub num_max : Number → Number → Number
num_max a b = if is_nan a then nan else if is_nan b then nan else if num_lt a b then b else a

-- `Math.min`
abbrev pub num_min : Number → Number → Number
num_min a b = if is_nan a then nan else if is_nan b then nan else if num_lt b a then b else a

pub num_lt_irrefl : (a : Number) → num_lt a a ≡ false
num_lt_irrefl nan = refl
num_lt_irrefl neg_inf = refl
num_lt_irrefl (finite (pos n)) = ground arith
num_lt_irrefl (finite (negsuc n)) = ground arith
num_lt_irrefl pos_inf = refl

-- The larger of two numbers lies below neither.
pub num_max_upper :
    (a b : Number) → (num_lt (num_max a b) a ≡ false) × (num_lt (num_max a b) b ≡ false)
num_max_upper a b = ground arith
