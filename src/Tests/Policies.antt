-- ===== src/Tests/Policies.antt =====
-- Examples of the server's policies: weekdays, from ten in the evening to six in the morning.
use access_control.Policy.Evaluation.{Table, evaluate}
use access_control.Policy.Passes.{grants_of, grants, only, grants-only}
use access_control.Policy.Entry.{other_policy_grants}
use access_control.Base.{
  pos, differ, [], ◌∷◌, ◌+◌, ◌*◌, ◌≡◌, refl, true, false, none, some, arith, leb,
}
use access_control.Model.{weekly_recurring, one_time}
use access_control.Policy.{
  ServerPolicy, day_ticks, window_active, is_day_of_week_active, is_active_at,
}
use access_control.Policy.Windows.{since, window_active-since}

abbrev pub at_night : ServerPolicy
at_night = record {
  id = "nights";
  schedule_type = weekly_recurring;
  days_of_week = 31;
  start_time = some (22 * 36000000000);
  end_time = some (6 * 36000000000);
  valid_from = none;
  valid_until = none;
  remaining_uses = none;
  is_enabled = true;
}

window_active-since_example :
    window_active (some (22 * 36000000000)) (some (6 * 36000000000)) (3 * 36000000000)
    ≡ leb (since (22 * 36000000000) (3 * 36000000000)) (since (22 * 36000000000) (6 * 36000000000))
window_active-since_example =
    window_active-since (22 * 36000000000) (6 * 36000000000) (3 * 36000000000) (omega arith)
      (omega arith) (omega arith)

-- The hours after midnight belong to the day on which they fall, not to the day before.
monday_morning : is_active_at at_night (3 * 36000000000) ≡ true
unfolding is_active_at is_day_of_week_active window_active
monday_morning = refl

saturday_morning : is_active_at at_night (5 * day_ticks + 3 * 36000000000) ≡ false
unfolding is_active_at is_day_of_week_active window_active
saturday_morning = refl

-- A pass of two uses, without dates.
abbrev pass : ServerPolicy
pass = record at_night { id = "pass"; schedule_type = one_time; remaining_uses = some (pos 2) }

grants-only_example : grants (1 ∷ 2 ∷ 3 ∷ []) (only pass) ≡ 2
grants-only_example =
    grants-only pass refl refl 2 (1 ∷ 2 ∷ 3 ∷ []) ((refl, refl), ((refl, refl), ((refl, refl), tt)))

abbrev spent_table : Table
spent_table = only (record pass { remaining_uses = some (pos 0) })

other_policy_grants_example :
    grants_of (evaluate 5 (record { of_user = pass ∷ []; of_door = at_night ∷ [] })).1 ≡ 1
unfolding is_active_at
other_policy_grants_example = other_policy_grants 5 pass at_night (differ _ _ refl) refl refl
