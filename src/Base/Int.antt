-- ===== src/Base/Int.antt =====
-- JavaScript numbers that the program uses as whole numbers: counts of seconds and of uses.
use Prim.Native.Nat.{ℕ, zero, suc, ◌-◌, ◌%◌, ◌^◌}
use mathlib.Core.Bool.{Bool, true, false}
use access_control.Base.Tests.{if◌then◌else◌, ltb}

-- `negsuc n` is -(n + 1).
pub data ℤ : Type 0 where
  pos : ℕ → ℤ
  negsuc : ℕ → ℤ

-- `n > 0`
abbrev pub is_positive : ℤ → Bool
is_positive (pos zero) = false
is_positive (pos (suc n)) = true
is_positive (negsuc n) = false

-- `n - 1`
abbrev pub pred : ℤ → ℤ
pred (pos zero) = negsuc 0
pred (pos (suc n)) = pos n
pred (negsuc n) = negsuc (suc n)

-- `n || other`: 0 is falsy.
abbrev pub nonzero_or : ℤ → ℤ → ℤ
nonzero_or (pos zero) other = other
nonzero_or (pos (suc n)) other = pos (suc n)
nonzero_or (negsuc n) other = negsuc n

-- An `int` from its lowest 32 bits.
unfoldable pub wrapped : ℕ → ℤ
wrapped n =
    let bits = n % 2 ^ 32 in if ltb bits 2147483648 then pos bits else negsuc (4294967295 - bits)
