-- ===== src/DoorCard.antt =====
-- The card of an access point, src/CodeMaster.UI/src/components/doors/DoorCard.tsx: its handlers
-- and what it shows, without styling and icons.
pub mod Clock
pub mod Commands
use Prim.Native.String
use access_control.Base.{
  ℕ, ◌/◌, ◌%◌, ℤ, pos, negsuc, String, Bool, true, false, Option, none, some, Outcome, found_or,
  is_truthy, given_or, if◌then◌else◌, lookup,
}
use access_control.Model.{
  AccessPoint, LockStateType, DoorContactStateType, closed, open_door, jammed, unknown,
}
use access_control.Text.{append, show}
use access_control.Doors.{DoorState, unlock_door, lock_door}

pub data Feedback : Type 0 where
  said_unlocked said_locked : Feedback

-- The card's own state, with the store.
pub record CardState : Type 0 where
  pub action_feedback : Option Feedback
  pub store : DoorState

abbrev pub feedback_if : Bool → Feedback → Option Feedback → Option Feedback
feedback_if true new old = some new
feedback_if false new old = old

unfoldable pub handle_unlock : AccessPoint → Outcome (Unit {0}) → CardState → CardState
handle_unlock door o c =
    let done = unlock_door door.id o c.store in
    record { action_feedback = feedback_if done.1 said_unlocked c.action_feedback; store = done.0 }

unfoldable pub handle_lock : AccessPoint → Outcome (Unit {0}) → CardState → CardState
handle_lock door o c =
    let done = lock_door door.id o c.store in
    record { action_feedback = feedback_if done.1 said_locked c.action_feedback; store = done.0 }

-- `setTimeout(() => setActionFeedback(null), 2500)`
unfoldable pub feedback_expired : CardState → CardState
feedback_expired c = record c { action_feedback = none }

-- `text.padStart(2, '0')`
abbrev pub pad_two : String → String
pad_two String.[] = "00"
pad_two (String.◌∷◌ c String.[]) = String.◌∷◌ "0" (String.◌∷◌ c String.[])
pad_two (String.◌∷◌ c (String.◌∷◌ d s)) = String.◌∷◌ c (String.◌∷◌ d s)

unfoldable pub format_countdown : ℕ → String
format_countdown seconds = append (show (seconds / 60)) (append ":" (pad_two (show (seconds % 60))))

-- `door.lockState || 'Locked'`, `door.contactState || 'Closed'`
abbrev pub state_or_locked : Option LockStateType → LockStateType
state_or_locked none = LockStateType.locked
state_or_locked (some state) = state

abbrev pub contact_or_closed : Option DoorContactStateType → DoorContactStateType
contact_or_closed none = closed
contact_or_closed (some state) = state

abbrev pub lock_state : AccessPoint → LockStateType
lock_state d = state_or_locked d.lock_state

abbrev pub contact_state : AccessPoint → DoorContactStateType
contact_state d = contact_or_closed d.contact_state

-- `undefined` is as null to `??`.
abbrev pub unless_null : Option (Option ℤ) → Option ℤ
unless_null none = none
unless_null (some value) = value

abbrev pub number_or_zero : Option ℤ → ℤ
number_or_zero none = pos 0
number_or_zero (some n) = n

-- `autoLockCountdowns[door.id] ?? door.remainingCountdownSeconds ?? 0`
unfoldable pub countdown : DoorState → AccessPoint → ℤ
countdown s door = number_or_zero (
    found_or (unless_null (lookup door.id s.auto_lock_countdowns))
      (unless_null door.remaining_countdown_seconds))

-- `isOperating[door.id] || false`
abbrev pub flag_or_false : Option Bool → Bool
flag_or_false none = false
flag_or_false (some flag) = flag

abbrev pub lock_badge : LockStateType → String
lock_badge LockStateType.locked = "Locked"
lock_badge LockStateType.unlocked = "Unlocked"
lock_badge jammed = "Jammed"
lock_badge unknown = "Unknown"

abbrev pub contact_badge : DoorContactStateType → String
contact_badge closed = "Door Closed"
contact_badge open_door = "Door Open"

-- `countdown > 0 ? `AutoLock in ${formatCountdown(countdown)}` : 'AutoLocking...'`
abbrev pub countdown_text : ℤ → String
countdown_text (pos ℕ.zero) = "AutoLocking..."
countdown_text (pos (ℕ.suc n)) = append "AutoLock in " (format_countdown (ℕ.suc n))
countdown_text (negsuc n) = "AutoLocking..."

abbrev pub auto_lock_text : DoorContactStateType → ℤ → String
auto_lock_text open_door seconds = "AutoLock Paused"
auto_lock_text closed seconds = countdown_text seconds

-- The badge of the automatic lock, there while the door is unlocked.
abbrev pub auto_lock_badge : Bool → LockStateType → DoorContactStateType → ℤ → Option String
auto_lock_badge true LockStateType.unlocked contact seconds = some (auto_lock_text contact seconds)
auto_lock_badge true LockStateType.locked contact seconds = none
auto_lock_badge true jammed contact seconds = none
auto_lock_badge true unknown contact seconds = none
auto_lock_badge false state contact seconds = none

-- The settings that are summed up while the automatic lock is enabled.
pub record Timers : Type 0 where
  pub day : ℤ
  pub night : ℤ
  pub retries : Bool

abbrev pub timers : AccessPoint → Option Timers
timers d =
    if d.auto_lock_enabled
    then some (record {
      day = d.auto_lock_day_seconds;
      night = d.auto_lock_night_seconds;
      retries = d.retry_on_failure;
    })
    else none

-- `${lockProviderType} ${keypadProviderType ? `• ${keypadProviderType}` : ''}`
abbrev pub providers : AccessPoint → String
providers d = append d.lock_provider_type (
    append " " (
      if is_truthy d.keypad_provider_type
      then append "• " (given_or d.keypad_provider_type "")
      else ""))

pub record CardView : Type 0 where
  pub name : String
  pub provider_text : String
  pub lock_text : String
  pub contact_text : String
  pub auto_lock : Option String
  pub timer_summary : Option Timers
  pub feedback : Option Feedback
  pub buttons_disabled : Bool

unfoldable pub view : AccessPoint → CardState → CardView
unfolding countdown
view d c = record {
  name = d.name;
  provider_text = providers d;
  lock_text = lock_badge (lock_state d);
  contact_text = contact_badge (contact_state d);
  auto_lock =
      auto_lock_badge d.auto_lock_enabled (lock_state d) (contact_state d) (countdown c.store d);
  timer_summary = timers d;
  feedback = c.action_feedback;
  buttons_disabled = flag_or_false (lookup d.id c.store.is_operating);
}
