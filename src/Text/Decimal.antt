-- ===== src/Text/Decimal.antt =====
-- Decimal text and back.
use Prim.Native.Char.{code}
use Prim.Native.String.{[], ◌∷◌}
use access_control.Base.{
  ℕ, zero, suc, ◌+◌, ◌-◌, ◌*◌, ◌/◌, ◌%◌, ◌≤◌, ◌<◌, String, ◌≡◌, refl, arith, ltb, Bool-cases, ap,
  inl, inr, ◌∙◌,
}
use access_control.Text.{digit_char, show_before, show}

-- Reading decimal digits, most significant first, on from a number.
abbrev pub read_on : ℕ → String → ℕ
read_on n [] = n
read_on n (c ∷ s) = read_on (n * 10 + (code c - b'0')) s

pub code-digit_char : (d : ℕ) → d < 10 → code (digit_char d) - b'0' ≡ d
code-digit_char zero h = refl
code-digit_char (suc zero) h = refl
code-digit_char (suc (suc zero)) h = refl
code-digit_char (suc (suc (suc zero))) h = refl
code-digit_char (suc (suc (suc (suc zero)))) h = refl
code-digit_char (suc (suc (suc (suc (suc zero))))) h = refl
code-digit_char (suc (suc (suc (suc (suc (suc zero)))))) h = refl
code-digit_char (suc (suc (suc (suc (suc (suc (suc zero))))))) h = refl
code-digit_char (suc (suc (suc (suc (suc (suc (suc (suc zero)))))))) h = refl
code-digit_char (suc (suc (suc (suc (suc (suc (suc (suc (suc n))))))))) h = omega arith

read-digit :
    (m n : ℕ) (tail : String)
    → read_on m (digit_char (n % 10) ∷ tail) ≡ read_on (m * 10 + n % 10) tail
read-digit m n tail = rw (code-digit_char (n % 10) (omega arith))

pub read_on-show_before :
    (fuel n : ℕ) (tail : String) → n ≤ fuel → read_on 0 (show_before fuel n tail) ≡ read_on n tail
unfolding show_before
read_on-show_before zero n tail h = read-digit 0 n tail ∙ ap (λ m. read_on m tail) (omega arith)
read_on-show_before (suc fuel) n tail h = elim (Bool-cases (ltb n 10)) [
  | inl small ↦ rw small (read-digit 0 n tail ∙ ap (λ m. read_on m tail) (ground arith))
  | inr large ↦ rw large (
      read_on-show_before fuel (n / 10) (digit_char (n % 10) ∷ tail) (ground arith)
      ∙ read-digit (n / 10) n tail
      ∙ ap (λ m. read_on m tail) (omega arith))
]

-- Reading what `show` prints gives the number back: the fuel is enough.
pub read_on-show : (n : ℕ) → read_on 0 (show n) ≡ n
unfolding show
read_on-show n = read_on-show_before n n "" (omega arith)
