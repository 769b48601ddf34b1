-- ===== src/DoorService/Agreement.antt =====
-- A command from the page to the server and back, and a refresh after it.
use mathlib.Core.Option
use access_control.Base.{
  ℤ, String, ◌≡◌, refl, ◌∙◌, ap, Bool, true, false, Option, none, some, List, [], ◌∷◌, map, Outcome,
  ok, err, by_key, ◌==◌, eq_refl, eq_iff, arith, Bool-cases, inl, inr,
}
use access_control.Model.{AccessPoint, AccessLog, LockStateType, AccessEventType, locked, unlocked}
use access_control.Api.{request, responded}
use access_control.Doors.{
  DoorState, door_id, unlock_door, lock_door, fetch_doors, unlock_door_end, lock_door_end,
}
use access_control.Doors.Commands.{unlock_door_lem, lock_door-ok}
use access_control.DoorService.{
  ServiceState, get_door_lock_state, lock_state_or_locked, unlock_door_async, unlocked_door,
  lock_door_async, locked_door,
}
use access_control.DoorService.Endpoints.{
  Server, Context, Reply, not_found, failed, done, response_of, manual_log, unlock, unlock_found,
  lock_found, logged, get_all, sent_door,
}
use access_control.DoorService.Unlocking.{lookup-insert_self}

by_key-get_all :
    (id : String) (s : ServiceState) (doors : List AccessPoint)
    → by_key door_id id (map (sent_door s) doors)
      ≡ Option.map (sent_door s) (by_key door_id id doors)
by_key-get_all id s [] = refl
by_key-get_all id s (door ∷ doors) = ground (arith, by_key-get_all id s doors)

id-by_key :
    (id : String) (doors : List AccessPoint) (door : AccessPoint)
    → by_key door_id id doors ≡ some door
    → door.id ≡ id
id-by_key id [] door e = cc
id-by_key id (d ∷ doors) door e = elim (Bool-cases (d.id == id)) [
  | inl here ↦ ground (arith, here, e, eq_iff d.id id)
  | inr other ↦ id-by_key id doors door (ground (arith, other, e))
]

-- The lock's state that a refresh brings.
pub refreshed :
    (id : String) (door : AccessPoint) (server : Server) (page : DoorState)
    → by_key door_id id server.doors ≡ some door
    → Option.map
        (λ d. d.lock_state)
        (by_key door_id id (fetch_doors (ok (get_all server)) page).doors)
      ≡ some (some (get_door_lock_state id server.service))
unfolding fetch_doors get_all
refreshed id door server page known =
    ap (Option.map (λ d. d.lock_state)) (by_key-get_all id server.service server.doors)
    ∙ rw known (
        ap (λ k. some (some (get_door_lock_state k server.service)))
          (id-by_key id server.doors door known))

logged_done :
    (log : AccessLog) (server : Server) (r : ServiceState × Outcome Bool)
    → (logged log server r).1 ≡ done
    → (logged log server r).0 ≡ record server { service = r.0; logs = log ∷ server.logs }
logged_done log server (s, ok true) e = refl
logged_done log server (s, ok false) e = cc
logged_done log server (s, err x) e = cc

-- The server after a command that was done.
abbrev pub Done : LockStateType → AccessLog → String → Server → Server → Type 0
Done state log id server t =
    (get_door_lock_state id t.service ≡ state)
    × (t.logs ≡ log ∷ server.logs)
    × (t.doors ≡ server.doors)

unlock_found-Done :
    (c : Context) (id : String) (minutes : Option ℤ) (details : String) (answer : Outcome Bool)
    (found : Option AccessPoint) (server : Server)
    → (unlock_found c id minutes details answer found server).1 ≡ done
    → Done unlocked
        (manual_log c id AccessEventType.unlocked (some details))
        id
        server
        (unlock_found c id minutes details answer found server).0
unfolding unlock_door_async unlocked_door get_door_lock_state
unlock_found-Done c id minutes details answer none server e = cc
unlock_found-Done c id minutes details (err x) (some door) server e = cc
unlock_found-Done c id minutes details (ok false) (some door) server e = cc
unlock_found-Done c id minutes details (ok true) (some door) server e =
    let same =
      logged_done (manual_log c id AccessEventType.unlocked (some details)) server
        (unlocked_door id door minutes server.service) e in
    rw same (
      ap lock_state_or_locked (lookup-insert_self id unlocked server.service.lock_states),
      refl,
      refl,
    )

pub lock_found-Done :
    (c : Context) (id : String) (answer : Outcome Bool) (found : Option AccessPoint)
    (server : Server)
    → (lock_found c id answer found server).1 ≡ done
    → Done locked
        (manual_log c id AccessEventType.locked (some "Remote lock via API"))
        id
        server
        (lock_found c id answer found server).0
unfolding lock_door_async locked_door get_door_lock_state
lock_found-Done c id answer none server e = cc
lock_found-Done c id (err x) (some door) server e = cc
lock_found-Done c id (ok false) (some door) server e = cc
lock_found-Done c id (ok true) (some door) server e =
    (ap lock_state_or_locked (lookup-insert_self id locked server.service.lock_states), refl, refl)

-- The store's method succeeds on no reply but the one of a command that was done.
unlock_door-done :
    (id status_text : String) (text : Option String) (reply : Reply) (page : DoorState)
    → (unlock_door id (request tt (responded (response_of status_text text reply))) page).1 ≡ true
    → reply ≡ done
unfolding unlock_door unlock_door_end request
unlock_door-done id status_text text not_found page e = cc
unlock_door-done id status_text text failed page e = cc
unlock_door-done id status_text text done page e = refl

pub lock_door-done :
    (id status_text : String) (text : Option String) (reply : Reply) (page : DoorState)
    → (lock_door id (request tt (responded (response_of status_text text reply))) page).1 ≡ true
    → reply ≡ done
unfolding lock_door lock_door_end request
lock_door-done id status_text text not_found page e = cc
lock_door-done id status_text text failed page e = cc
lock_door-done id status_text text done page e = refl

pub request_done :
    (status_text : String) (text : Option String)
    → request tt (responded (response_of status_text text done)) ≡ ok tt
unfolding request
request_done status_text text = refl

-- The lock's state that the page shows of a door.
abbrev pub shown_state : String → DoorState → Option (Option LockStateType)
shown_state id page = Option.map (λ d. d.lock_state) (by_key door_id id page.doors)

shown_state-unlock :
    (id : String) (page : DoorState) (shown : AccessPoint)
    → by_key door_id id page.doors ≡ some shown
    → shown_state id (unlock_door id (ok tt) page).0 ≡ some (some unlocked)
shown_state-unlock id page shown listed =
    ap (Option.map (λ d. d.lock_state)) (unlock_door_lem id id page).0
    ∙ rw (eq_refl id, listed) refl

pub shown_state-lock :
    (id : String) (page : DoorState) (shown : AccessPoint)
    → by_key door_id id page.doors ≡ some shown
    → shown_state id (lock_door id (ok tt) page).0 ≡ some (some locked)
shown_state-lock id page shown listed =
    ap (Option.map (λ d. d.lock_state)) (lock_door-ok id id page).0 ∙ rw (eq_refl id, listed) refl

-- The page and the server agree after an unlock: if the store's `unlockDoor` returns true on the
-- server's answer, for a door that both list, the server has the lock as unlocked and one entry
-- more in its audit trail, the page shows the lock as unlocked, and a refresh shows that too.
pub unlock_door-unlock :
    (c : Context) (id : String) (minutes : Option ℤ) (details : String) (answer : Outcome Bool)
    (server : Server) (page : DoorState) (door shown : AccessPoint) (status_text : String)
    (text : Option String)
    → by_key door_id id server.doors ≡ some door
    → by_key door_id id page.doors ≡ some shown
    → let (t, reply) = unlock c id minutes details answer server in
      let (page', success) =
        unlock_door id (request tt (responded (response_of status_text text reply))) page in
      success ≡ true
      → (get_door_lock_state id t.service ≡ unlocked)
        × (t.logs ≡ manual_log c id AccessEventType.unlocked (some details) ∷ server.logs)
        × (shown_state id page' ≡ some (some unlocked))
        × (shown_state id (fetch_doors (ok (get_all t)) page') ≡ some (some unlocked))
unfolding unlock
unlock_door-unlock c id minutes details answer server page door shown status_text text known listed
      success =
    let (state, logs, doors) = facts in
    (
      state,
      logs,
      rw (is_done, request_done status_text text) (shown_state-unlock id page shown listed),
      refreshed id door r.0 page' (rw doors known) ∙ ap (λ s. some (some s)) state,
    )
  where
    r : Server × Reply
    r = unlock_found c id minutes details answer (by_key door_id id server.doors) server

    page' : DoorState
    page' = (unlock_door id (request tt (responded (response_of status_text text r.1))) page).0

    is_done : r.1 ≡ done
    is_done = unlock_door-done id status_text text r.1 page success

    facts : Done unlocked (manual_log c id AccessEventType.unlocked (some details)) id server r.0
    facts =
        unlock_found-Done c id minutes details answer (by_key door_id id server.doors) server
          is_done
