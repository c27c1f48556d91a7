-- ===== src/Base/Integers.antt =====
-- Python's integers, for the offsets that may be negative.
use Prim.Native.Nat.{ℕ, zero, suc, ◌+◌, ◌-◌, compare, Ordering}

pub data ℤ : Type 0 where
  pos negsuc : ℕ → ℤ

-- `a - (b + 1)`
abbrev sub_suc : ℕ → ℕ → ℤ
sub_suc a b = elim (compare b a) [ Ordering.lt ↦ pos (a - suc b) | _ ↦ negsuc (b - a) ]

infixl 60 ◌+ℤ◌
abbrev pub ◌+ℤ◌ : ℤ → ℤ → ℤ
pos a +ℤ pos b = pos (a + b)
pos a +ℤ negsuc b = sub_suc a b
negsuc a +ℤ pos b = sub_suc b a
negsuc a +ℤ negsuc b = negsuc (suc (a + b))

abbrev neg : ℤ → ℤ
neg (pos zero) = pos zero
neg (pos (suc n)) = negsuc n
neg (negsuc n) = pos (suc n)

infixl 60 ◌-ℤ◌
abbrev pub ◌-ℤ◌ : ℤ → ℤ → ℤ
a -ℤ b = a +ℤ neg b

-- `max(0, i)`
abbrev pub to_nat : ℤ → ℕ
to_nat (pos n) = n
to_nat (negsuc n) = 0
