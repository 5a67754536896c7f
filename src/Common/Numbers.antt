-- ===== src/Common/Numbers.antt =====
-- Python's numbers: `int` as ℤ over the native ℕ, `float` as a dyadic rational, an infinity or nan.
use Prim.Native.Nat.{ℕ, suc, ◌+◌, ◌-◌, ◌*◌, ◌^◌}
use mathlib.Core.Bool.{Bool, true, false, not, ◌&&◌}
use ormas_subnet.Common.Tests.{ltb, leb, ◌==◌}

-- `negsuc n` is -(n + 1).
pub data ℤ : Type 0 where
  pos : ℕ → ℤ
  negsuc : ℕ → ℤ

abbrev pub pos_part : ℤ → ℕ
pos_part (pos n) = n
pos_part (negsuc n) = 0

abbrev pub neg_part : ℤ → ℕ
neg_part (pos n) = 0
neg_part (negsuc n) = suc n

abbrev pub int_eq : ℤ → ℤ → Bool
int_eq (pos a) (pos b) = a == b
int_eq (negsuc a) (negsuc b) = a == b
int_eq _ _ = false

abbrev pub int_le : ℤ → ℤ → Bool
int_le a b = leb (pos_part a + neg_part b) (pos_part b + neg_part a)

-- `0 < n`
abbrev pub int_pos : ℤ → Bool
int_pos a = ltb 0 (pos_part a)

-- `n < 0`
abbrev pub int_neg : ℤ → Bool
int_neg (pos n) = false
int_neg (negsuc n) = true

-- A `float`: `finite m e` is m times 2 to the power of e.
pub data Float : Type 0 where
  nan : Float
  inf : Bool → Float
  finite : ℤ → ℤ → Float

abbrev pub is_finite : Float → Bool
is_finite (finite m e) = true
is_finite _ = false

-- m * 2 ^ (e - low), for `low` at most e
abbrev pub scale_by : ℤ → ℕ → ℤ
scale_by (pos m) k = pos (m * 2 ^ k)
scale_by (negsuc m) k = negsuc ((m + 1) * 2 ^ k - 1)

-- e - f where it is positive, else 0
abbrev pub int_sub : ℤ → ℤ → ℕ
int_sub e f = (pos_part e + neg_part f) - (pos_part f + neg_part e)

-- `a <= b` on floats; every comparison with nan is false.
abbrev pub float_le : Float → Float → Bool
float_le nan _ = false
float_le _ nan = false
float_le (inf true) _ = true
float_le (inf false) (inf false) = true
float_le (inf false) _ = false
float_le (finite m e) (inf negative) = not negative
float_le (finite m e) (finite n f) = int_le (scale_by m (int_sub e f)) (scale_by n (int_sub f e))

-- `0 < a`
abbrev pub float_pos : Float → Bool
float_pos (finite m e) = int_pos m
float_pos (inf negative) = not negative
float_pos nan = false

-- `a < 0`
abbrev pub float_neg : Float → Bool
float_neg (finite m e) = int_neg m
float_neg (inf negative) = negative
float_neg nan = false

-- `a == b` on floats
abbrev pub float_eq : Float → Float → Bool
float_eq a b = float_le a b && float_le b a
