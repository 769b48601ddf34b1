-- ===== src/Doors/Answers.antt =====
-- A command from the store to the server and back: `unlockDoor` and `lockDoor` of the store on what
-- `fetch` gives to `request` of api/apiClient.ts.
use access_control.Base.{
  String, ◌≡◌, refl, Bool, true, false, not, ok, err, Outcome, if◌then◌else◌, nat_eq, Bool-cases,
  inl, inr,
}
use access_control.Api.{Response, responded, is_ok, request}
use access_control.Doors.{DoorState, unlock_door, lock_door}

-- `response.json()` succeeds.
abbrev pub is_value {ℓ} : {A : Type ℓ} → Outcome A → Bool
is_value (ok a) = true
is_value (err e) = false

-- What `unlockDoor` returns of an answer: true for a status of 200 to 299 whose body is JSON, or
-- that has no content; false for any other.
abbrev pub accepted : Response (Unit {0}) → Bool
accepted r =
    if not (is_ok r.status) then false else if nat_eq r.status 204 then true else is_value r.json

unlock_returns :
    (id : String) (o : Outcome (Unit {0})) (s : DoorState) → (unlock_door id o s).1 ≡ is_value o
unfolding unlock_door
unlock_returns id (ok _) s = refl
unlock_returns id (err e) s = refl

lock_returns :
    (id : String) (o : Outcome (Unit {0})) (s : DoorState) → (lock_door id o s).1 ≡ is_value o
unfolding lock_door
lock_returns id (ok _) s = refl
lock_returns id (err e) s = refl

is_value-request : (r : Response (Unit {0})) → is_value (request tt (responded r)) ≡ accepted r
unfolding request
is_value-request r = elim (Bool-cases (is_ok r.status)) [
  | inl good ↦ elim (Bool-cases (nat_eq r.status 204)) [
    | inl empty ↦ rw (good, empty)
    | inr full ↦ rw (good, full)
  ]
  | inr bad ↦ rw bad
]

-- `unlockDoor` and `lockDoor` return true on exactly the answers with a status of 200 to 299 that
-- have no content or a body that is JSON.
command-request :
    (id : String) (r : Response (Unit {0})) (s : DoorState)
    → ((unlock_door id (request tt (responded r)) s).1 ≡ accepted r)
      × ((lock_door id (request tt (responded r)) s).1 ≡ accepted r)
command-request id r s = (
  rw (unlock_returns id (request tt (responded r)) s) (is_value-request r),
  rw (lock_returns id (request tt (responded r)) s) (is_value-request r),
)
