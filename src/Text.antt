-- ===== src/Text.antt =====
-- The string operations of JavaScript that the program uses. A string is a list of code points:
-- the program looks at none outside the basic plane.
pub mod DotNet
pub mod Trim
pub mod Decimal
use Prim.Native.Char.{Char, code}
use Prim.Native.String.{[], ◌∷◌}
use access_control.Base.{
  ℕ, zero, suc, ◌/◌, ◌%◌, String, Bool, true, false, Option, none, some, ◌&&◌, ◌||◌, leb, ltb,
  nat_eq, if◌then◌else◌, ◌≡◌, refl,
}

-- `${s}${t}`: it computes on the text that stands before a variable.
abbrev pub append : String → String → String
append [] t = t
append (c ∷ s) t = c ∷ append s t

abbrev pub is_empty : String → Bool
is_empty [] = true
is_empty (c ∷ s) = false

-- `s.slice(0, n)`
abbrev pub first : ℕ → String → String
first zero s = []
first (suc n) [] = []
first (suc n) (c ∷ s) = c ∷ first n s

abbrev pub last_code : String → Option ℕ
last_code [] = none
last_code (c ∷ []) = some (code c)
last_code (c ∷ d ∷ s) = last_code (d ∷ s)

abbrev pub is_slash : Char → Bool
is_slash c = nat_eq (code c) b'/'

-- `\s`, what `trim` removes
unfoldable pub is_space : Char → Bool
is_space c =
    let n = code c in
    (leb 9 n && leb n 13)
    || nat_eq n 32
    || nat_eq n 0xa0
    || nat_eq n 0x1680
    || (leb 0x2000 n && leb n 0x200a)
    || nat_eq n 0x2028
    || nat_eq n 0x2029
    || nat_eq n 0x202f
    || nat_eq n 0x205f
    || nat_eq n 0x3000
    || nat_eq n 0xfeff

-- Without the longest run at the end, or at the start, on which the test holds.
unfoldable pub drop_end : (Char → Bool) → String → String
drop_end p [] = []
drop_end p (c ∷ s) = let rest = drop_end p s in if p c && is_empty rest then [] else c ∷ rest

unfoldable pub drop_start : (Char → Bool) → String → String
drop_start p [] = []
drop_start p (c ∷ s) = let rest = drop_start p s in if p c then rest else c ∷ s

-- `s.trim()`
unfoldable pub trim : String → String
unfolding drop_end drop_start is_space
trim s = drop_end is_space (drop_start is_space s)

-- `s.replace(/\/+$/, '')`
unfoldable pub strip_slashes : String → String
unfolding drop_end
strip_slashes s = drop_end is_slash s

abbrev pub is_digit : Char → Bool
is_digit c = leb b'0' (code c) && leb (code c) b'9'

-- `s.replace(/\D/g, '')`
unfoldable pub digits_only : String → String
digits_only [] = []
digits_only (c ∷ s) = let rest = digits_only s in if is_digit c then c ∷ rest else rest

-- The character for a digit below ten.
abbrev pub digit_char : ℕ → Char
digit_char zero = "0"
digit_char (suc zero) = "1"
digit_char (suc (suc zero)) = "2"
digit_char (suc (suc (suc zero))) = "3"
digit_char (suc (suc (suc (suc zero)))) = "4"
digit_char (suc (suc (suc (suc (suc zero))))) = "5"
digit_char (suc (suc (suc (suc (suc (suc zero)))))) = "6"
digit_char (suc (suc (suc (suc (suc (suc (suc zero))))))) = "7"
digit_char (suc (suc (suc (suc (suc (suc (suc (suc zero)))))))) = "8"
digit_char (suc (suc (suc (suc (suc (suc (suc (suc (suc n))))))))) = "9"

-- `n.toString()`, on fuel: the digits of n before a text. A number needs no more fuel than itself.
unfoldable pub show_before : ℕ → ℕ → String → String
show_before zero n tail = digit_char (n % 10) ∷ tail
show_before (suc fuel) n tail =
    let more = show_before fuel (n / 10) (digit_char (n % 10) ∷ tail) in
    if ltb n 10 then digit_char (n % 10) ∷ tail else more

unfoldable pub show : ℕ → String
unfolding show_before
show n = show_before n n ""

show_1205 : show 1205 ≡ "1205"
unfolding show
show_1205 = refl
