-- ===== src/DoorService/Agreed.antt =====
-- What the service keeps of a lock and what the door's machine last saw.
use access_control.Base.{
  String, ◌≡◌, refl, sym, ◌∙◌, ap, ℤ, Bool, true, false, Option, none, some, List, [], ◌∷◌, All,
  Outcome, ok, err, lookup, insert, lookup-insert, if◌then◌else◌, ◌==◌, eq_iff, eq_refl, arith,
  Bool-cases, inl, inr,
}
use access_control.Model.{AccessPoint, LockStateType, DoorContactStateType, unlocked}
use access_control.AutoLock.{
  Machine, Ended, left, returns, cancel_countdown_timer, cancel_retry_timer, on_lock_state_changed,
  on_door_contact_changed, attempt_ended,
}
use access_control.DoorService.{
  ServiceState, told, unlock_door_async, unlocked_door, lock_door_async, locked_door,
  update_door_states, lock_updated, contact_updated, timer_expired, override_delay, has_thrown,
  get_or_create, is_success,
}
use access_control.DoorService.Told.{
  Agrees, lock_state-on_lock_state_changed, lock_state-on_door_contact_changed,
  lock_state-attempt_ended, lookup-told, Agrees-map, Agrees-set,
}

-- A request to the service, or a timer of one of its machines.
pub data Call : Type 0 where
  unlocks : String → Option AccessPoint → Option ℤ → Outcome Bool → Call
  locks : String → Option AccessPoint → Outcome Bool → Call
  reports : String → Option LockStateType → Option DoorContactStateType → Call
  countdown_expires : String → Option AccessPoint → Outcome Bool → Call
  retry_expires : String → Option AccessPoint → Outcome Bool → Call

abbrev pub apply_call : Call → ServiceState → ServiceState
apply_call (unlocks id found minutes answer) s = (unlock_door_async id found minutes answer s).0
apply_call (locks id found answer) s = (lock_door_async id found answer s).0
apply_call (reports id lock contact) s = update_door_states id lock contact s
apply_call (countdown_expires id found answer) s =
    timer_expired cancel_countdown_timer id found answer s
apply_call (retry_expires id found answer) s = timer_expired cancel_retry_timer id found answer s

abbrev pub apply_calls : List Call → ServiceState → ServiceState
apply_calls [] s = s
apply_calls (c ∷ cs) s = apply_calls cs (apply_call c s)

-- The row that is found has the id that was asked for.
abbrev pub Fits : Call → Type 0
Fits (unlocks id (some door) minutes answer) = door.id ≡ id
Fits _ = Unit

-- For each door with a machine, the service's state of the lock is the machine's.
abbrev pub IsAgreed : ServiceState → Type 0
IsAgreed s = (j : String) → Agrees (lookup j s.machines) (lookup j s.lock_states)

-- A machine is told something that does not change its view of the lock.
told-Agrees :
    (tell : Machine → Ended) (id : String) (s : ServiceState)
    (keeps : (m : Machine) → (left (tell m)).lock_state ≡ m.lock_state)
    → IsAgreed s
    → IsAgreed (record s { machines = told tell id s.machines })
told-Agrees tell id s keeps h j = elim (Bool-cases (id == j)) [
  | inl same ↦
      rw (lookup-told tell id j s.machines, same)
        (Agrees-map (λ m. left (tell m)) keeps (lookup j s.machines) (lookup j s.lock_states) (h j))
  | inr other ↦ rw (lookup-told tell id j s.machines, other) (h j)
]

-- A machine is told the state that the service keeps.
lock_updated-Agrees :
    (id : String) (l : LockStateType) (s : ServiceState)
    → IsAgreed s
    → IsAgreed (lock_updated id l s)
lock_updated-Agrees id l s h j = elim (Bool-cases (id == j)) [
  | inl same ↦
      rw
        (
          lookup-told (on_lock_state_changed l) id j s.machines,
          lookup-insert id j l s.lock_states,
          same,
        )
        (Agrees-set (λ m. left (on_lock_state_changed l m)) l (lock_state-on_lock_state_changed l)
          (lookup j s.machines))
  | inr other ↦
      rw
        (
          lookup-told (on_lock_state_changed l) id j s.machines,
          lookup-insert id j l s.lock_states,
          other,
        )
        (h j)
]

contact_updated-Agrees :
    (id : String) (contact : Option DoorContactStateType) (s : ServiceState)
    → IsAgreed s
    → IsAgreed (contact_updated id contact s)
contact_updated-Agrees id none s h = h
contact_updated-Agrees id (some c) s h =
    told-Agrees (on_door_contact_changed c) id s (lock_state-on_door_contact_changed c) h

insert-Agrees :
    (id key j : String) (l : LockStateType) (m : Machine) (s : ServiceState)
    → key ≡ id
    → m.lock_state ≡ l
    → IsAgreed s
    → Agrees (lookup j (insert key m s.machines)) (lookup j (insert id l s.lock_states))
insert-Agrees id key j l m s same shown h =
    rw (same, lookup-insert id j l s.lock_states, lookup-insert id j m s.machines)
      (elim (id == j)
        as (λ b.
          Agrees (if b then some m else lookup j s.machines)
            (if b then some l else lookup j s.lock_states)) [
              | true ↦ ap some (sym shown)
              | false ↦ h j
            ])

unlocked_door-Agrees :
    (id : String) (door : AccessPoint) (minutes : Option ℤ) (s : ServiceState)
    → door.id ≡ id
    → IsAgreed s
    → IsAgreed (unlocked_door id door minutes s).0
unfolding unlocked_door
unlocked_door-Agrees id door minutes s same h j =
    let m : Machine = override_delay minutes (get_or_create door s.machines) in
    insert-Agrees id door.id j unlocked (left (on_lock_state_changed unlocked m)) s same
      (lock_state-on_lock_state_changed unlocked m) h

unlock-Agrees :
    (id : String) (found : Option AccessPoint) (minutes : Option ℤ) (answer : Outcome Bool)
    (s : ServiceState)
    → Fits (unlocks id found minutes answer)
    → IsAgreed s
    → IsAgreed (unlock_door_async id found minutes answer s).0
unfolding unlock_door_async
unlock-Agrees id none minutes answer s fits h = h
unlock-Agrees id (some door) minutes (err e) s fits h = h
unlock-Agrees id (some door) minutes (ok true) s fits h =
    unlocked_door-Agrees id door minutes s fits h
unlock-Agrees id (some door) minutes (ok false) s fits h = h

-- An attempt to lock that says that it succeeded leaves the lock as locked.
abbrev pub Locks : String → ServiceState × Outcome Bool → Type 0
Locks id r = is_success r.1 ≡ true → lookup id r.0.lock_states ≡ some LockStateType.locked

lock-Agrees :
    (id : String) (found : Option AccessPoint) (answer : Outcome Bool) (s : ServiceState)
    → IsAgreed s
    → IsAgreed (lock_door_async id found answer s).0 × Locks id (lock_door_async id found answer s)
unfolding lock_door_async locked_door
lock-Agrees id none answer s h = (h, λ e. cc)
lock-Agrees id (some door) (err e) s h = (h, λ e. cc)
lock-Agrees id (some door) (ok true) s h = (
  lock_updated-Agrees id LockStateType.locked s h,
  λ e. lookup-insert id id LockStateType.locked s.lock_states ∙ rw (eq_refl id) refl,
)
lock-Agrees id (some door) (ok false) s h = (h, λ e. cc)

-- The end of an attempt, where the service's state is locked if it succeeded.
ended-Agrees :
    (success : Bool) (id : String) (s : ServiceState)
    → (success ≡ true → lookup id s.lock_states ≡ some LockStateType.locked)
    → IsAgreed s
    → IsAgreed (record s { machines = told (attempt_ended success) id s.machines })
ended-Agrees false id s locked h j =
    told-Agrees (attempt_ended false) id s (lock_state-attempt_ended false) h j
ended-Agrees true id s locked h j = elim (Bool-cases (id == j)) [
  | inl same ↦
      let e : id ≡ j = ground (arith, eq_iff id j, same) in
      let known : lookup j s.lock_states ≡ some LockStateType.locked = rw (← e) (locked refl) in
      rw (lookup-told (attempt_ended true) id j s.machines, same, known)
        (Agrees-set (λ m. left (attempt_ended true m)) LockStateType.locked
          (lock_state-attempt_ended true) (lookup j s.machines))
  | inr other ↦ rw (lookup-told (attempt_ended true) id j s.machines, other) (h j)
]

expired-Agrees :
    (cancel : Machine → Machine) (keeps : (m : Machine) → (cancel m).lock_state ≡ m.lock_state)
    (id : String) (found : Option AccessPoint) (answer : Outcome Bool) (s : ServiceState)
    → IsAgreed s
    → IsAgreed (timer_expired cancel id found answer s)
unfolding timer_expired
expired-Agrees cancel keeps id found answer s h =
    let t : ServiceState = record s { machines = told (λ m. returns (cancel m)) id s.machines } in
    let cancelled : IsAgreed t = told-Agrees (λ m. returns (cancel m)) id s keeps h in
    let (agreed, kept) = lock-Agrees id found answer t cancelled in
    let tried : ServiceState × Outcome Bool = lock_door_async id found answer t in
    ended-Agrees (is_success tried.1) id tried.0 kept agreed

reports-Agrees :
    (id : String) (lock : Option LockStateType) (contact : Option DoorContactStateType)
    (s : ServiceState)
    → IsAgreed s
    → IsAgreed (update_door_states id lock contact s)
unfolding update_door_states
reports-Agrees id none contact s h = contact_updated-Agrees id contact s h
reports-Agrees id (some l) contact s h =
    let updated = lock_updated-Agrees id l s h in
    elim (Bool-cases (has_thrown (on_lock_state_changed l) (lookup id s.machines))) [
      | inl thrown ↦ rw thrown updated
      | inr quiet ↦ rw quiet (contact_updated-Agrees id contact (lock_updated id l s) updated)
    ]

call-IsAgreed : (c : Call) (s : ServiceState) → Fits c → IsAgreed s → IsAgreed (apply_call c s)
call-IsAgreed (unlocks id found minutes answer) s fits h =
    unlock-Agrees id found minutes answer s fits h
call-IsAgreed (locks id found answer) s fits h = (lock-Agrees id found answer s h).0
call-IsAgreed (reports id lock contact) s fits h = reports-Agrees id lock contact s h
call-IsAgreed (countdown_expires id found answer) s fits h =
    expired-Agrees cancel_countdown_timer (λ m. refl) id found answer s h
call-IsAgreed (retry_expires id found answer) s fits h =
    expired-Agrees cancel_retry_timer (λ m. refl) id found answer s h

-- The service and its machines do not drift apart: after any requests, reports and timers, each
-- with any answer of the lock, the state that the service keeps of a lock is the one that the
-- door's machine last saw, for every door that has a machine. A row that is found has the id that
-- was asked for, and the callback of a timer is one step.
pub apply_calls-IsAgreed :
    (cs : List Call) (s : ServiceState) → All Fits cs → IsAgreed s → IsAgreed (apply_calls cs s)
apply_calls-IsAgreed [] s fits h = h
apply_calls-IsAgreed (c ∷ cs) s (fit, fits) h =
    apply_calls-IsAgreed cs (apply_call c s) fits (call-IsAgreed c s fit h)
