-- ===== src/Doors/Interleaving.antt =====
-- The door store under any order of the halves of its methods.
use access_control.Base.{
  pos, String, ◌≡◌, refl, ◌≢◌, false, none, some, List, [], ◌∷◌, ok, Dict, insert, lookup,
  lookup-insert, by_key, by_key-update_key, update_key, Distinct, Lacks, Distinct-append,
  Distinct-without_key, Distinct-update_key, eq_iff, arith, ◌∙◌, sym,
}
use access_control.Model.{AccessPoint, LockStateType}
use access_control.Doors.{
  DoorState, door_id, tick_countdowns, with_lock_state, with_states, day_seconds,
}
use access_control.Doors.Messages.{
  DoorMsg, fetched, unlocked, locked, created, updated, deleted, state_changed, ticked, reduce, run,
}

-- What the server is trusted with: ids are distinct in a list, fresh on creation, kept on update.
abbrev pub Honest : DoorState → DoorMsg → Type 0
Honest s (fetched (ok doors)) = Distinct door_id doors
Honest s (created (ok d)) = Lacks door_id d.id s.doors
Honest s (updated id (ok d)) = d.id ≡ id
Honest s _ = Unit

abbrev pub HonestRun : DoorState → List DoorMsg → Type 0
HonestRun s [] = Unit
HonestRun s (m ∷ ms) = Honest s m × HonestRun (reduce s m) ms

abbrev DistinctDoors : DoorState → Type 0
DistinctDoors s = Distinct door_id s.doors

Distinct-with_states :
    (id : String) (f : AccessPoint → AccessPoint) (keeps : (d : AccessPoint) → (f d).id ≡ d.id)
    (doors : List AccessPoint)
    → Distinct door_id doors
    → Distinct door_id (update_key door_id id f doors)
Distinct-with_states id f keeps doors h =
    Distinct-update_key door_id id f (λ d e. keeps d ∙ e) doors h

doors-tick_countdowns : (s : DoorState) → (tick_countdowns s).doors ≡ s.doors
unfolding tick_countdowns
doors-tick_countdowns s = ground arith

reduce-Distinct :
    (s : DoorState) (m : DoorMsg) → Honest s m → DistinctDoors s → DistinctDoors (reduce s m)
unfolding reduce
reduce-Distinct s (fetched (ok doors)) trust h = trust
reduce-Distinct s (unlocked id (ok _)) trust h =
    Distinct-with_states id (with_lock_state LockStateType.unlocked) (λ d. refl) s.doors h
reduce-Distinct s (locked id (ok _)) trust h =
    Distinct-with_states id (with_lock_state LockStateType.locked) (λ d. refl) s.doors h
reduce-Distinct s (created (ok d)) trust h = Distinct-append door_id s.doors d h trust
reduce-Distinct s (updated id (ok d)) trust h =
    Distinct-update_key door_id id (λ _. d) (λ _ _. trust) s.doors h
reduce-Distinct s (deleted id (ok _)) trust h = Distinct-without_key door_id id s.doors h
reduce-Distinct s (state_changed id lock none countdown) trust h =
    Distinct-with_states id (with_states lock none) (λ d. refl) s.doors h
reduce-Distinct s (state_changed id lock (some contact) countdown) trust h =
    Distinct-with_states id (with_states lock (some contact)) (λ d. refl) s.doors h
reduce-Distinct s ticked trust h = rw doors-tick_countdowns h
reduce-Distinct s _ trust h = h

-- In whatever order the halves of the methods run, the doors' ids stay distinct, provided the
-- server lists distinct ids, gives a created door a fresh one and keeps the id of an updated door.
run-Distinct :
    (ms : List DoorMsg) (s : DoorState)
    → HonestRun s ms
    → Distinct door_id s.doors
    → Distinct door_id (run s ms).doors
run-Distinct [] s trust h = h
run-Distinct (m ∷ ms) s (trust, later) h =
    run-Distinct ms (reduce s m) later (reduce-Distinct s m trust h)

-- Two states that no read of the store tells apart: an object's order of insertion is forgotten.
pub record SameReads (s t : DoorState) : Type 0 where
  pub doors : s.doors ≡ t.doors
  pub selected : s.selected_door_id ≡ t.selected_door_id
  pub countdowns : (j : String) → lookup j s.auto_lock_countdowns ≡ lookup j t.auto_lock_countdowns
  pub operating : (j : String) → lookup j s.is_operating ≡ lookup j t.is_operating
  pub loading : s.is_loading ≡ t.is_loading
  pub error : s.error ≡ t.error

insert_comm {ℓ} :
    {V : Type ℓ} (a b j : String) (v w : V) (m : Dict V)
    → a ≢ b
    → lookup j (insert a v (insert b w m)) ≡ lookup j (insert b w (insert a v m))
insert_comm a b j v w m ne = ground (
  arith,
  eq_iff a j,
  eq_iff b j,
  lookup-insert a j v (insert b w m),
  lookup-insert b j w m,
  lookup-insert b j w (insert a v m),
  lookup-insert a j v m,
)

update_key_comm :
    (a b : String) (f g : AccessPoint → AccessPoint) (fid : (d : AccessPoint) → (f d).id ≡ d.id)
    (gid : (d : AccessPoint) → (g d).id ≡ d.id) (doors : List AccessPoint)
    → a ≢ b
    → update_key door_id a f (update_key door_id b g doors)
      ≡ update_key door_id b g (update_key door_id a f doors)
update_key_comm a b f g fid gid [] ne = refl
update_key_comm a b f g fid gid (d ∷ doors) ne = ground (
  arith,
  eq_iff d.id a,
  eq_iff d.id b,
  eq_iff (f d).id b,
  eq_iff (g d).id a,
  fid d,
  gid d,
  update_key_comm a b f g fid gid doors ne,
)

day_seconds-lock :
    (a b : String) (doors : List AccessPoint)
    → a ≢ b
    → by_key door_id a (update_key door_id b (with_lock_state LockStateType.locked) doors)
      ≡ by_key door_id a doors
day_seconds-lock a b doors ne = ground (
  arith,
  eq_iff b a,
  by_key-update_key door_id b a (with_lock_state LockStateType.locked) (λ x. refl) doors,
)

-- The replies to an unlock of one door and a lock of another, both successful, may come in either
-- order: no read of the store tells the two results apart.
pub unlock-lock_comm :
    (a b : String) (s : DoorState)
    → a ≢ b
    → SameReads
        (run s (unlocked a (ok tt) ∷ locked b (ok tt) ∷ []))
        (run s (locked b (ok tt) ∷ unlocked a (ok tt) ∷ []))
unfolding reduce
unlock-lock_comm a b s ne = record {
  doors = sym (
      update_key_comm a b (with_lock_state LockStateType.unlocked)
        (with_lock_state LockStateType.locked) (λ d. refl) (λ d. refl) s.doors ne);
  selected = refl;
  countdowns = λ j. rw (day_seconds-lock a b s.doors ne) (
      insert_comm b a j (some (pos 0)) (some (day_seconds (by_key door_id a s.doors)))
        s.auto_lock_countdowns (λ e. ne (sym e)));
  operating = λ j. insert_comm b a j false false s.is_operating (λ e. ne (sym e));
  loading = refl;
  error = refl;
}
