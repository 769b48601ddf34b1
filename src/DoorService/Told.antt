-- ===== src/DoorService/Told.antt =====
-- What a machine that is told something makes of its view of the lock.
use mathlib.Core.Option
use access_control.Base.{
  String, ◌≡◌, sym, ◌∙◌, ap, Bool, Option, none, some, Dict, lookup, lookup-insert, if◌then◌else◌,
  ◌==◌, eq_iff, arith, Option-cases, inl, inr,
}
use access_control.Model.{LockStateType, DoorContactStateType}
use access_control.AutoLock.{
  Machine, Ended, left, on_lock_state_changed, on_door_contact_changed, attempt_ended,
  arm_countdown_timer, arm_retry_timer,
}
use access_control.DoorService.{told}

abbrev pub Agrees : Option Machine → Option LockStateType → Type 0
Agrees none state = Unit
Agrees (some m) state = state ≡ some m.lock_state

pub lock_state-on_lock_state_changed :
    (l : LockStateType) (m : Machine) → (left (on_lock_state_changed l m)).lock_state ≡ l
unfolding on_lock_state_changed arm_countdown_timer arm_retry_timer
lock_state-on_lock_state_changed l m = ground arith

pub lock_state-on_door_contact_changed :
    (c : DoorContactStateType) (m : Machine)
    → (left (on_door_contact_changed c m)).lock_state ≡ m.lock_state
unfolding on_door_contact_changed arm_countdown_timer
lock_state-on_door_contact_changed c m = ground arith

pub lock_state-attempt_ended :
    (success : Bool) (m : Machine)
    → (left (attempt_ended success m)).lock_state
      ≡ (if success then LockStateType.locked else m.lock_state)
unfolding attempt_ended arm_retry_timer
lock_state-attempt_ended success m = ground arith

pub lookup-told :
    (tell : Machine → Ended) (id j : String) (ms : Dict Machine)
    → lookup j (told tell id ms)
      ≡ (if id == j then Option.map (λ m. left (tell m)) (lookup j ms) else lookup j ms)
lookup-told tell id j ms = elim (Option-cases (lookup id ms)) [
  | inl e ↦ rw e (ground (arith, eq_iff id j, e))
  | inr (m, e) ↦ rw e (lookup-insert id j (left (tell m)) ms ∙ ground (arith, eq_iff id j, e))
]

pub Agrees-map :
    (f : Machine → Machine) (keeps : (m : Machine) → (f m).lock_state ≡ m.lock_state)
    (o : Option Machine) (state : Option LockStateType)
    → Agrees o state
    → Agrees (Option.map f o) state
Agrees-map f keeps none state h = tt
Agrees-map f keeps (some m) state h = h ∙ ap some (sym (keeps m))

pub Agrees-set :
    (f : Machine → Machine) (l : LockStateType) (sets : (m : Machine) → (f m).lock_state ≡ l)
    (o : Option Machine)
    → Agrees (Option.map f o) (some l)
Agrees-set f l sets none = tt
Agrees-set f l sets (some m) = ap some (sym (sets m))
