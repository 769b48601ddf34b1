-- ===== src/Policy/Windows.antt =====
-- The hours and the days at which a policy is active.
use access_control.Base.{
  ℕ, zero, suc, ◌+◌, ◌-◌, ◌%◌, ◌^◌, ◌<◌, ◌≡◌, refl, ◌∙◌, ap, not, some, leb, nat_eq, arith,
  Bool-cases, inl, inr, if◌then◌else◌,
}
use access_control.Schedule.{toggle_bit}
use access_control.Schedule.Days.{toggle_bit_lem}
use access_control.Policy.{
  ServerPolicy, day_ticks, weekday, day_bit, is_day_of_week_active, window_active,
}

-- Counted from the start of the window, and round midnight.
abbrev pub since : ℕ → ℕ → ℕ
since start time = (time + day_ticks - start) % day_ticks

since_lem :
    (start time : ℕ)
    → start < day_ticks
    → time < day_ticks
    → since start time ≡ (if leb start time then time - start else time + day_ticks - start)
since_lem start time hs ht = elim (Bool-cases (leb start time)) [
  | inl after ↦ rw after (ground arith)
  | inr before ↦ rw before (ground arith)
]

-- A window from a start to an end, over midnight or not, is the times of the day that come no
-- later after the start than the end does, counted round the clock.
pub window_active-since :
    (start end now : ℕ)
    → start < day_ticks
    → end < day_ticks
    → now < day_ticks
    → window_active (some start) (some end) now ≡ leb (since start now) (since start end)
unfolding window_active
window_active-since start end now hs he hn =
    ground (arith, since_lem start now hs hn, since_lem start end hs he)

day_bit_lem : (i : ℕ) → i < 7 → day_bit ((i + 1) % 7) ≡ 2 ^ i
day_bit_lem zero h = refl
day_bit_lem (suc zero) h = refl
day_bit_lem (suc (suc zero)) h = refl
day_bit_lem (suc (suc (suc zero))) h = refl
day_bit_lem (suc (suc (suc (suc zero)))) h = refl
day_bit_lem (suc (suc (suc (suc (suc zero))))) h = refl
day_bit_lem (suc (suc (suc (suc (suc (suc zero)))))) h = refl
day_bit_lem (suc (suc (suc (suc (suc (suc (suc n))))))) h = absurd (omega arith)

-- On a mask below 128, pressing day i in the schedule editor turns the server's answer over at the
-- times that fall on that day, and leaves it at every other time; days are counted from Monday as
-- 0.
toggle_bit-is_day_of_week_active :
    (i j : ℕ) (p : ServerPolicy) (utc : ℕ)
    → i < 7
    → j < 7
    → p.days_of_week < 128
    → weekday utc ≡ (j + 1) % 7
    → is_day_of_week_active (record p { days_of_week = toggle_bit p.days_of_week (2 ^ i) }) utc
      ≡ (if nat_eq i j then not (is_day_of_week_active p utc) else is_day_of_week_active p utc)
unfolding is_day_of_week_active
toggle_bit-is_day_of_week_active i j p utc hi hj low day =
    let bit : day_bit (weekday utc) ≡ 2 ^ j = ap day_bit day ∙ day_bit_lem j hj in
    rw bit (toggle_bit_lem i j p.days_of_week hi hj low).0
