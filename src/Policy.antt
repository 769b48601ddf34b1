-- ===== src/Policy.antt =====
-- The server's access policies, src/CodeMaster.Core/Models/AccessPolicy.cs: when one is active. A
-- `DateTime` is its ticks since the year 1, in tenths of microseconds, and a `TimeOnly` its ticks
-- since midnight.
pub mod Entry
pub mod Evaluation
pub mod Hashes
pub mod Keypad
pub mod Admission
pub mod Passes
pub mod Pins
pub mod Windows
use Prim.Native.Nat.{bit_and}
use access_control.Base.{
  String, ℕ, zero, suc, ◌+◌, ◌*◌, ◌/◌, ◌%◌, ℤ, is_positive, Bool, true, false, not, ◌&&◌, ◌||◌,
  Option, none, some, ltb, leb, nat_eq, if◌then◌else◌,
}
use access_control.Model.{ScheduleType, always, weekly_recurring, date_range, one_time}

pub record ServerPolicy : Type 0 where
  pub id : String
  pub schedule_type : ScheduleType
  pub days_of_week : ℕ
  pub start_time : Option ℕ
  pub end_time : Option ℕ
  pub valid_from : Option ℕ
  pub valid_until : Option ℕ
  pub remaining_uses : Option ℤ
  pub is_enabled : Bool

-- `TimeSpan.TicksPerDay`
abbrev pub day_ticks : ℕ
day_ticks = 864000000000

-- `DateTime.DayOfWeek`, from Sunday as 0: the first day of the year 1 was a Monday.
abbrev pub weekday : ℕ → ℕ
weekday ticks = (ticks / day_ticks + 1) % 7

-- `TimeOnly.FromDateTime`
abbrev pub time_of_day : ℕ → ℕ
time_of_day ticks = ticks % day_ticks

abbrev pub day_bit : ℕ → ℕ
day_bit zero = 64
day_bit (suc zero) = 1
day_bit (suc (suc zero)) = 2
day_bit (suc (suc (suc zero))) = 4
day_bit (suc (suc (suc (suc zero)))) = 8
day_bit (suc (suc (suc (suc (suc zero))))) = 16
day_bit (suc (suc (suc (suc (suc (suc zero)))))) = 32
day_bit (suc (suc (suc (suc (suc (suc (suc n))))))) = 0

unfoldable pub is_day_of_week_active : ServerPolicy → ℕ → Bool
is_day_of_week_active p utc = not (nat_eq (bit_and p.days_of_week (day_bit (weekday utc))) 0)

-- The cases of `IsTimeWindowActive`, for a time of the day.
unfoldable pub window_active : Option ℕ → Option ℕ → ℕ → Bool
window_active none none now = true
window_active (some start) (some end) now =
    if leb start end then leb start now && leb now end else leb start now || leb now end
window_active (some start) none now = leb start now
window_active none (some end) now = leb now end

abbrev pub is_time_window_active : ServerPolicy → ℕ → Bool
is_time_window_active p utc = window_active p.start_time p.end_time (time_of_day utc)

-- `!RemainingUses.HasValue || RemainingUses.Value > 0`
abbrev pub has_uses : Option ℤ → Bool
has_uses none = true
has_uses (some uses) = is_positive uses

abbrev pub is_before : ℕ → Option ℕ → Bool
is_before utc none = false
is_before utc (some from) = ltb utc from

abbrev pub is_after : ℕ → Option ℕ → Bool
is_after utc none = false
is_after utc (some until) = ltb until utc

abbrev pub schedule_active : ScheduleType → ServerPolicy → ℕ → Bool
schedule_active always p utc = true
schedule_active one_time p utc = has_uses p.remaining_uses
schedule_active date_range p utc = is_time_window_active p utc
schedule_active weekly_recurring p utc = is_day_of_week_active p utc && is_time_window_active p utc

unfoldable pub is_active_at : ServerPolicy → ℕ → Bool
is_active_at p utc =
    if not p.is_enabled
    then false
    else if is_before utc p.valid_from
    then false
    else if is_after utc p.valid_until
    then false
    else schedule_active p.schedule_type p utc
