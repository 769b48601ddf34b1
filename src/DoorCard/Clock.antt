-- ===== src/DoorCard/Clock.antt =====
-- The countdown's text read back.
use Prim.Native.Char.{code}
use access_control.Base.{
  ℕ, zero, suc, ◌+◌, ◌-◌, ◌*◌, ◌/◌, ◌%◌, ◌≤◌, ◌<◌, String, ◌≡◌, refl, ap, ◌∙◌, false, arith, nat_eq,
  ltb, Bool-cases, inl, inr, if◌then◌else◌,
}
use access_control.Text.{append, show, show_before, digit_char}
use access_control.Text.Decimal.{read_on, read_on-show, code-digit_char}
use access_control.DoorCard.{pad_two, format_countdown}

-- Minutes, a colon and seconds, read as a number of seconds.
abbrev pub read_clock : ℕ → String → ℕ
read_clock minutes String.[] = minutes * 60
read_clock minutes (String.◌∷◌ c s) =
    let more = read_clock (minutes * 10 + (code c - b'0')) s in
    if nat_eq (code c) b':' then minutes * 60 + read_on 0 s else more

digit_no_colon : (d : ℕ) → d < 10 → nat_eq (code (digit_char d)) b':' ≡ false
digit_no_colon d h = ground (arith, code-digit_char d h)

read_clock-digit :
    (m d : ℕ) (s : String)
    → d < 10
    → read_clock m (String.◌∷◌ (digit_char d) s) ≡ read_clock (m * 10 + d) s
read_clock-digit m d s h =
    rw (digit_no_colon d h) (ap (λ k. read_clock (m * 10 + k) s) (code-digit_char d h))

show_before-append :
    (fuel n : ℕ) (s t : String) → append (show_before fuel n s) t ≡ show_before fuel n (append s t)
unfolding show_before
show_before-append zero n s t = refl
show_before-append (suc fuel) n s t = elim (Bool-cases (ltb n 10)) [
  | inl small ↦ rw small
  | inr large ↦ rw large (show_before-append fuel (n / 10) (String.◌∷◌ (digit_char (n % 10)) s) t)
]

read_clock-show_before :
    (fuel n : ℕ) (tail : String)
    → n ≤ fuel
    → read_clock 0 (show_before fuel n tail) ≡ read_clock n tail
unfolding show_before
read_clock-show_before zero n tail h =
    read_clock-digit 0 (n % 10) tail (omega arith) ∙ ap (λ m. read_clock m tail) (omega arith)
read_clock-show_before (suc fuel) n tail h = elim (Bool-cases (ltb n 10)) [
  | inl small ↦
      rw small (
        read_clock-digit 0 (n % 10) tail (omega arith) ∙ ap (λ m. read_clock m tail) (ground arith))
  | inr large ↦ rw large (
      read_clock-show_before fuel (n / 10) (String.◌∷◌ (digit_char (n % 10)) tail) (ground arith)
      ∙ read_clock-digit (n / 10) (n % 10) tail (omega arith)
      ∙ ap (λ m. read_clock m tail) (omega arith))
]

read_on-pad_two : (s : String) → read_on 0 (pad_two s) ≡ read_on 0 s
read_on-pad_two String.[] = refl
read_on-pad_two (String.◌∷◌ c String.[]) = refl
read_on-pad_two (String.◌∷◌ c (String.◌∷◌ d s)) = refl

-- The countdown that a card shows, minutes and seconds with a colon between, stands for the number
-- of seconds that it was made from.
read_clock-format_countdown : (n : ℕ) → read_clock 0 (format_countdown n) ≡ n
unfolding format_countdown show
read_clock-format_countdown n =
    let seconds = append ":" (pad_two (show (n % 60))) in
    ap (read_clock 0) (show_before-append (n / 60) (n / 60) "" seconds)
    ∙ read_clock-show_before (n / 60) (n / 60) seconds (omega arith)
    ∙ ap (λ k. n / 60 * 60 + k) (read_on-pad_two (show (n % 60)) ∙ read_on-show (n % 60))
    ∙ (omega arith)
