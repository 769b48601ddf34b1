-- ===== src/Schedule.antt =====
-- The schedule editor, src/CodeMaster.UI/src/components/users/ScheduleEditor.tsx: its handlers and
-- the controls that it shows. Each handler hands its parent the policy that replaces the one
-- edited.
pub mod Days
pub mod Reach
use Prim.Native.Nat.{bit_and, bit_or}
use Prim.Native.Char.{Char, code}
use access_control.Base.{
  ℕ, ℤ, pos, ◌-◌, ◌^◌, ◌%◌, String, Bool, true, false, not, Option, none, some, List, [], ◌∷◌,
  nat_eq, nonzero_or, given_or, is_truthy, if◌then◌else◌,
}
use access_control.Model.{PolicyDraft, ScheduleType, always, weekly_recurring, date_range, one_time}
use access_control.Text.{append}

-- `DAYS`: the bit, the label and the name of each day.
pub record Day : Type 0 where
  pub bit : ℕ
  pub label : String
  pub full : String

abbrev day : ℕ → String → String → Day
day bit label full = record { bit = bit; label = label; full = full }

abbrev pub days : List Day
days =
    day 1 "M" "Monday"
    ∷ day 2 "T" "Tuesday"
    ∷ day 4 "W" "Wednesday"
    ∷ day 8 "Th" "Thursday"
    ∷ day 16 "F" "Friday"
    ∷ day 32 "Sa" "Saturday"
    ∷ day 64 "Su" "Sunday"
    ∷ []

-- `policy.scheduleType || 'Always'`
abbrev pub schedule_type : PolicyDraft → ScheduleType
schedule_type p = elim p.schedule_type [ none ↦ always | some type ↦ type ]

-- `policy.daysOfWeek ?? 127`
abbrev pub days_of_week : PolicyDraft → ℕ
days_of_week p = elim p.days_of_week [ none ↦ 127 | some days ↦ days ]

-- `policy.remainingUses || 1`
abbrev pub uses_or_one : Option ℤ → ℤ
uses_or_one none = pos 1
uses_or_one (some n) = nonzero_or n (pos 1)

abbrev pub is_one_time : ScheduleType → Bool
is_one_time one_time = true
is_one_time _ = false

unfoldable pub handle_type_change : ScheduleType → PolicyDraft → PolicyDraft
handle_type_change type p = record p {
  schedule_type = some type;
  remaining_uses = if is_one_time type then some (uses_or_one p.remaining_uses) else none;
}

-- `~bit`, as the 32-bit word that JavaScript's `&` reads
abbrev pub bit_not : ℕ → ℕ
bit_not bit = 2 ^ 32 - 1 - bit

-- `(days & bit) !== 0`
abbrev pub is_active : ℕ → ℕ → Bool
is_active days bit = not (nat_eq (bit_and days bit) 0)

-- `(daysOfWeek & bit) !== 0 ? daysOfWeek & ~bit : daysOfWeek | bit`, where daysOfWeek is below 2^31
unfoldable pub toggle_bit : ℕ → ℕ → ℕ
toggle_bit days bit = if is_active days bit then bit_and days (bit_not bit) else bit_or days bit

unfoldable pub toggle_day : ℕ → PolicyDraft → PolicyDraft
unfolding toggle_bit
toggle_day bit p = record p { days_of_week = some (toggle_bit (days_of_week p) bit) }

pub data Preset : Type 0 where
  all weekdays weekends : Preset

unfoldable pub preset_mask : Preset → ℕ
preset_mask all = 127
preset_mask weekdays = bit_or (bit_or (bit_or (bit_or 1 2) 4) 8) 16
preset_mask weekends = bit_or 32 64

unfoldable pub select_preset : Preset → PolicyDraft → PolicyDraft
unfolding preset_mask
select_preset preset p = record p { days_of_week = some (preset_mask preset) }

-- What the user can do. The controls of a kind of schedule are there while it is chosen.
pub data Edit : Type 0 where
  choose_type : ScheduleType → Edit
  press_day : ℕ → Edit
  press_preset : Preset → Edit
  enter_start enter_end enter_from enter_until : String → Edit
  choose_uses : ℤ → Edit
  toggle_enabled : Edit

-- `policy.isEnabled === false`
abbrev pub is_disabled : Option Bool → Bool
is_disabled (some false) = true
is_disabled (some true) = false
is_disabled none = false

-- The `onClick` and `onChange` of the controls.
unfoldable pub apply_edit : Edit → PolicyDraft → PolicyDraft
unfolding handle_type_change toggle_day select_preset
apply_edit (choose_type type) p = handle_type_change type p
apply_edit (press_day bit) p = toggle_day bit p
apply_edit (press_preset preset) p = select_preset preset p
apply_edit (enter_start time) p = record p { start_time = some time }
apply_edit (enter_end time) p = record p { end_time = some time }
apply_edit (enter_from date) p = record p { valid_from = some (append date "T00:00:00Z") }
apply_edit (enter_until date) p = record p { valid_until = some (append date "T23:59:59Z") }
apply_edit (choose_uses uses) p = record p { remaining_uses = some uses }
apply_edit toggle_enabled p = record p { is_enabled = some (is_disabled p.is_enabled) }

-- `date.split('T')[0]`
unfoldable pub before_T : String → String
before_T String.[] = ""
before_T (String.◌∷◌ c s) =
    let rest = before_T s in if nat_eq (code c) b'T' then "" else String.◌∷◌ c rest

-- `date ? date.split('T')[0] : ''`
abbrev pub shown_date : Option String → String
shown_date none = ""
shown_date (some date) = if is_truthy (some date) then before_T date else ""

pub record DayPill : Type 0 where
  pub label : String
  pub pressed : Bool

-- What the editor shows, without its styling: only the panel of the chosen kind is there.
pub data Panel : Type 0 where
  no_panel : Panel
  weekly_panel : List DayPill → String → String → Panel
  dates_panel : String → String → Panel
  uses_panel : Option ℤ → Panel

pub record EditorView : Type 0 where
  pub selected_type : ScheduleType
  pub panel : Panel
  pub status : String

abbrev pub pills : ℕ → List Day → List DayPill
pills mask [] = []
pills mask (d ∷ ds) = record { label = d.label; pressed = is_active mask d.bit } ∷ pills mask ds

abbrev pub panel_of : ScheduleType → PolicyDraft → Panel
panel_of always p = no_panel
panel_of weekly_recurring p =
    weekly_panel (pills (days_of_week p) days) (given_or p.start_time "08:00")
      (given_or p.end_time "18:00")
panel_of date_range p = dates_panel (shown_date p.valid_from) (shown_date p.valid_until)
panel_of one_time p = uses_panel p.remaining_uses

unfoldable pub view : PolicyDraft → EditorView
unfolding before_T
view p = record {
  selected_type = schedule_type p;
  panel = panel_of (schedule_type p) p;
  status = if is_disabled p.is_enabled then "Disabled" else "Active";
}
