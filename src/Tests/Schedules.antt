-- ===== src/Tests/Schedules.antt =====
-- Examples of the schedule editor.
use access_control.Base.{pos, ◌≡◌, refl, none, some, List, [], ◌∷◌, arith, inl, inr}
use access_control.Model.{PolicyDraft, weekly_recurring, date_range, one_time}
use access_control.Schedule.{
  Edit, choose_type, press_day, choose_uses, days_of_week, days, pills, view, weekly_panel,
  apply_edit, handle_type_change, toggle_day, dates_panel, before_T,
}
use access_control.Schedule.Reach.{
  Reach, here, next, type, uses, IsPolicy, Reach-IsPolicy, apply_all, shown_times_not_kept,
}
use access_control.UserForms.{standard_access}

-- A pass of three uses.
abbrev pass : PolicyDraft
pass = apply_edit (choose_uses (pos 3)) (apply_edit (choose_type one_time) standard_access)

pass_reached : Reach standard_access pass
unfolding apply_edit handle_type_change
pass_reached =
    next (choose_uses (pos 3)) (next (choose_type one_time) here (type one_time) refl)
      (uses 2 (inr (inr (inl refl))) refl refl) refl

Reach-IsPolicy_example : IsPolicy pass
Reach-IsPolicy_example = Reach-IsPolicy pass_reached (record { mask = omega arith; uses = refl })

abbrev weekly : List Edit
weekly = choose_type weekly_recurring ∷ press_day 64 ∷ []

shown_times_not_kept_example :
    let q = apply_all weekly standard_access in
    ((view q).panel ≡ weekly_panel (pills (days_of_week q) days) "08:00" "18:00")
    × (q.start_time ≡ none)
    × (q.end_time ≡ none)
unfolding apply_edit handle_type_change toggle_day
shown_times_not_kept_example =
    shown_times_not_kept weekly standard_access (tt, (tt, tt)) refl refl refl

shown_range :
    (view (record standard_access {
      schedule_type = some date_range;
      valid_from = some "2026-01-02T00:00:00Z";
    })).panel
    ≡ dates_panel "2026-01-02" ""
unfolding view before_T
shown_range = refl
