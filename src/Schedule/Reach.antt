-- ===== src/Schedule/Reach.antt =====
-- What holds of every policy that the editor can produce.
use access_control.Base.{
  ℕ, suc, ◌^◌, ◌<◌, ◌≡◌, refl, ℤ, pos, true, Option, none, some, List, [], ◌∷◌, String, arith, ◌∙◌,
  ◌⊎◌, inl, inr, All,
}
use access_control.Model.{PolicyDraft, ScheduleType, always, weekly_recurring, date_range, one_time}
use access_control.Schedule.{
  schedule_type, days_of_week, is_one_time, Edit, choose_type, press_day, press_preset, enter_start,
  enter_end, enter_from, enter_until, choose_uses, toggle_enabled, apply_edit, handle_type_change,
  uses_or_one, preset_mask, Preset, view, weekly_panel, pills, days, all, weekdays, weekends,
}
use access_control.Schedule.Days.{toggle_bit_lem}

-- The buttons for the number of uses: 1, 2, 3 and 5.
abbrev pub IsChoice : ℕ → Type 0
IsChoice n = (n ≡ 0) ⊎ (n ≡ 1) ⊎ (n ≡ 2) ⊎ (n ≡ 4)

-- An edit whose control the editor shows for a policy: the days and presets while the schedule is
-- weekly, the dates while it is a range, the number of uses (1, 2, 3 or 5) while it is a pass.
pub data Offered (p : PolicyDraft) : Edit → Type 0 where
  type : (t : ScheduleType) → Offered p (choose_type t)
  day :
      (i : ℕ) {e : Edit}
      → i < 7
      → schedule_type p ≡ weekly_recurring
      → e ≡ press_day (2 ^ i)
      → Offered p e
  preset : (m : Preset) → schedule_type p ≡ weekly_recurring → Offered p (press_preset m)
  start : (t : String) → schedule_type p ≡ weekly_recurring → Offered p (enter_start t)
  finish : (t : String) → schedule_type p ≡ weekly_recurring → Offered p (enter_end t)
  from : (t : String) → schedule_type p ≡ date_range → Offered p (enter_from t)
  until : (t : String) → schedule_type p ≡ date_range → Offered p (enter_until t)
  uses :
      (n : ℕ) {e : Edit}
      → IsChoice n
      → is_one_time (schedule_type p) ≡ true
      → e ≡ choose_uses (pos (suc n))
      → Offered p e
  enabled : Offered p toggle_enabled

-- The policies that offered edits lead to.
pub data Reach (p : PolicyDraft) : PolicyDraft → Type 0 where
  here : Reach p p
  next : {q r : PolicyDraft} (e : Edit) → Reach p q → Offered q e → r ≡ apply_edit e q → Reach p r

-- A pass has a positive number of uses, no other schedule has one.
abbrev pub UsesFit : ScheduleType → Option ℤ → Type 0
UsesFit one_time r = (n : ℕ) × (r ≡ some (pos (suc n)))
UsesFit always r = r ≡ none
UsesFit weekly_recurring r = r ≡ none
UsesFit date_range r = r ≡ none

-- The uses fit the kind of schedule, and the days are a mask of seven.
pub record IsPolicy (p : PolicyDraft) : Type 0 where
  pub mask : days_of_week p < 128
  pub uses : UsesFit (schedule_type p) p.remaining_uses

uses_positive :
    (r : Option ℤ)
    → ((n : ℕ) × (r ≡ some (pos (suc n)))) ⊎ (r ≡ none)
    → (n : ℕ) × (some (uses_or_one r) ≡ some (pos (suc n)))
uses_positive r (inl (n, e)) = (n, rw e)
uses_positive r (inr e) = (0, rw e)

uses_of :
    (t : ScheduleType) (r : Option ℤ)
    → UsesFit t r
    → ((n : ℕ) × (r ≡ some (pos (suc n)))) ⊎ (r ≡ none)
uses_of one_time r h = inl h
uses_of always r h = inr h
uses_of weekly_recurring r h = inr h
uses_of date_range r h = inr h

type-IsPolicy :
    (t : ScheduleType) {p : PolicyDraft} → IsPolicy p → IsPolicy (handle_type_change t p)
unfolding handle_type_change
type-IsPolicy one_time {p} h = record {
  mask = h.mask;
  uses = uses_positive p.remaining_uses (uses_of (schedule_type p) p.remaining_uses h.uses);
}
type-IsPolicy always h = record { mask = h.mask; uses = refl }
type-IsPolicy weekly_recurring h = record { mask = h.mask; uses = refl }
type-IsPolicy date_range h = record { mask = h.mask; uses = refl }

one_time-UsesFit :
    (t : ScheduleType) (n : ℕ) → is_one_time t ≡ true → UsesFit t (some (pos (suc n)))
one_time-UsesFit one_time n h = (n, refl)
one_time-UsesFit always n h = cc
one_time-UsesFit weekly_recurring n h = cc
one_time-UsesFit date_range n h = cc

mask-low : (m : Preset) → preset_mask m < 128
unfolding preset_mask
mask-low all = omega arith
mask-low weekdays = omega arith
mask-low weekends = omega arith

Offered-IsPolicy :
    {p : PolicyDraft} {e : Edit} → Offered p e → IsPolicy p → IsPolicy (apply_edit e p)
unfolding apply_edit
Offered-IsPolicy (type t) h = type-IsPolicy t h
Offered-IsPolicy {p} (day i lt weekly e) h = rw e (record {
  mask = (toggle_bit_lem i 0 (days_of_week p) lt (omega arith) h.mask).1;
  uses = h.uses;
})
Offered-IsPolicy (preset m weekly) h = record { mask = mask-low m; uses = h.uses }
Offered-IsPolicy (start t weekly) h = record { mask = h.mask; uses = h.uses }
Offered-IsPolicy (finish t weekly) h = record { mask = h.mask; uses = h.uses }
Offered-IsPolicy (from t range) h = record { mask = h.mask; uses = h.uses }
Offered-IsPolicy (until t range) h = record { mask = h.mask; uses = h.uses }
Offered-IsPolicy {p} (uses n choice pass e) h =
    rw e (record { mask = h.mask; uses = one_time-UsesFit (schedule_type p) n pass })
Offered-IsPolicy enabled h = record { mask = h.mask; uses = h.uses }

-- Whatever edits are made, each through a control that is shown, the policy stays one: a one-time
-- pass has a positive number of uses, a policy of another kind has none, and the days are a mask
-- below 128.
pub Reach-IsPolicy : {p q : PolicyDraft} → Reach p q → IsPolicy p → IsPolicy q
Reach-IsPolicy here h = h
Reach-IsPolicy (next e r offered same) h = rw same (Offered-IsPolicy offered (Reach-IsPolicy r h))

-- An edit that enters neither time.
abbrev pub EntersNoTime : Edit → Type 0
EntersNoTime (enter_start t) = ⊥
EntersNoTime (enter_end t) = ⊥
EntersNoTime _ = Unit

abbrev pub apply_all : List Edit → PolicyDraft → PolicyDraft
apply_all [] p = p
apply_all (e ∷ es) p = apply_all es (apply_edit e p)

times_kept :
    (e : Edit) (p : PolicyDraft)
    → EntersNoTime e
    → ((apply_edit e p).start_time ≡ p.start_time) × ((apply_edit e p).end_time ≡ p.end_time)
unfolding apply_edit
times_kept (choose_type t) p h = (refl, refl)
times_kept (enter_start t) p h = absurd h
times_kept (enter_end t) p h = absurd h
times_kept _ p h = (refl, refl)

weekly_times :
    (p : PolicyDraft)
    → schedule_type p ≡ weekly_recurring
    → p.start_time ≡ none
    → p.end_time ≡ none
    → (view p).panel ≡ weekly_panel (pills (days_of_week p) days) "08:00" "18:00"
unfolding view
weekly_times p weekly no_start no_end = rw weekly (rw (no_start, no_end))

-- The times that a weekly schedule shows before any is entered, 08:00 and 18:00, are not part of
-- the policy: it has no start and no end after any edits that enter neither.
pub shown_times_not_kept :
    (es : List Edit) (p : PolicyDraft)
    → All EntersNoTime es
    → p.start_time ≡ none
    → p.end_time ≡ none
    → schedule_type (apply_all es p) ≡ weekly_recurring
    → let q = apply_all es p in
      ((view q).panel ≡ weekly_panel (pills (days_of_week q) days) "08:00" "18:00")
      × (q.start_time ≡ none)
      × (q.end_time ≡ none)
shown_times_not_kept [] p h no_start no_end weekly =
    (weekly_times p weekly no_start no_end, no_start, no_end)
shown_times_not_kept (e ∷ es) p (untimed, h) no_start no_end weekly =
    let (same_start, same_end) = times_kept e p untimed in
    shown_times_not_kept es (apply_edit e p) h (same_start ∙ no_start) (same_end ∙ no_end) weekly
