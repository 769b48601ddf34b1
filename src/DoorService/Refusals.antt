-- ===== src/DoorService/Refusals.antt =====
-- A lock command that is done, and an unlock that is not.
use access_control.Base.{
  ℤ, String, ◌≡◌, refl, ◌≢◌, ◌∙◌, ap, Bool, true, false, Option, none, some, ◌∷◌, Outcome, ok, err,
  by_key,
}
use access_control.Model.{AccessPoint, AccessLog, AccessEventType, locked}
use access_control.Api.{request, responded}
use access_control.Doors.{
  DoorState, door_id, unlock_door, lock_door, fetch_doors, unlock_door_end, operate_begin,
  operate_failed,
}
use access_control.DoorService.{ServiceState, get_door_lock_state}
use access_control.DoorService.Endpoints.{
  Server, Context, Reply, not_found, failed, done, response_of, manual_log, unlock, unlock_found,
  lock, lock_found, logged, get_all,
}
use access_control.DoorService.Agreement.{
  Done, shown_state, refreshed, lock_found-Done, lock_door-done, request_done, shown_state-lock,
}

-- The page and the server agree after a lock command: if the store's `lockDoor` returns true on the
-- server's answer, for a door that both list, the server has the lock as locked and one entry more
-- in its audit trail, the page shows the lock as locked, and a refresh shows that too.
lock_door-lock :
    (c : Context) (id : String) (answer : Outcome Bool) (server : Server) (page : DoorState)
    (door shown : AccessPoint) (status_text : String) (text : Option String)
    → by_key door_id id server.doors ≡ some door
    → by_key door_id id page.doors ≡ some shown
    → let (t, reply) = lock c id answer server in
      let (page', success) =
        lock_door id (request tt (responded (response_of status_text text reply))) page in
      success ≡ true
      → (get_door_lock_state id t.service ≡ locked)
        × (t.logs
            ≡ manual_log c id AccessEventType.locked (some "Remote lock via API") ∷ server.logs)
        × (shown_state id page' ≡ some (some locked))
        × (shown_state id (fetch_doors (ok (get_all t)) page') ≡ some (some locked))
unfolding lock
lock_door-lock c id answer server page door shown status_text text known listed success =
    let (state, logs, doors) = facts in
    (
      state,
      logs,
      rw (is_done, request_done status_text text) (shown_state-lock id page shown listed),
      refreshed id door r.0 page' (rw doors known) ∙ ap (λ s. some (some s)) state,
    )
  where
    r : Server × Reply
    r = lock_found c id answer (by_key door_id id server.doors) server

    page' : DoorState
    page' = (lock_door id (request tt (responded (response_of status_text text r.1))) page).0

    is_done : r.1 ≡ done
    is_done = lock_door-done id status_text text r.1 page success

    facts :
        Done locked
          (manual_log c id AccessEventType.locked (some "Remote lock via API"))
          id
          server
          r.0
    facts = lock_found-Done c id answer (by_key door_id id server.doors) server is_done

logged_refused :
    (log : AccessLog) (server : Server) (r : ServiceState × Outcome Bool)
    → (logged log server r).1 ≢ done
    → (logged log server r).0.logs ≡ server.logs
logged_refused log server (s, ok true) ne = absurd (ne refl)
logged_refused log server (s, ok false) ne = refl
logged_refused log server (s, err e) ne = refl

unlock_found-refused :
    (c : Context) (id : String) (minutes : Option ℤ) (details : String) (answer : Outcome Bool)
    (found : Option AccessPoint) (server : Server)
    → (unlock_found c id minutes details answer found server).1 ≢ done
    → (unlock_found c id minutes details answer found server).0.logs ≡ server.logs
unlock_found-refused c id minutes details answer none server ne = refl
unlock_found-refused c id minutes details answer (some door) server ne =
    logged_refused (manual_log c id AccessEventType.unlocked (some details)) server _ ne

-- What the page keeps, and the error that it shows, of a reply that is not that of success.
page_refused :
    (id status_text : String) (text : Option String) (reply : Reply) (page : DoorState)
    → let (page', success) =
        unlock_door id (request tt (responded (response_of status_text text reply))) page in
      success ≡ false
      → (reply ≢ done)
        × (page'.doors ≡ page.doors)
        × (page'.auto_lock_countdowns ≡ page.auto_lock_countdowns)
        × (page'.error ≢ none)
unfolding unlock_door unlock_door_end operate_begin operate_failed request
page_refused id status_text text not_found page e = ((λ h. cc), refl, refl, (λ h. cc))
page_refused id status_text text failed page e = ((λ h. cc), refl, refl, (λ h. cc))
page_refused id status_text text done page e = cc

-- Where the store's `unlockDoor` returns false on the server's answer, nothing is recorded as an
-- unlock: the audit trail is what it was, the page shows its doors and countdowns as before, and it
-- shows an error. That holds of a door that the server does not list, of a lock that refuses, and
-- of an exception.
pub unlock_door-refused :
    (c : Context) (id : String) (minutes : Option ℤ) (details : String) (answer : Outcome Bool)
    (server : Server) (page : DoorState) (status_text : String) (text : Option String)
    → let (t, reply) = unlock c id minutes details answer server in
      let (page', success) =
        unlock_door id (request tt (responded (response_of status_text text reply))) page in
      success ≡ false
      → (t.logs ≡ server.logs)
        × (page'.doors ≡ page.doors)
        × (page'.auto_lock_countdowns ≡ page.auto_lock_countdowns)
        × (page'.error ≢ none)
unfolding unlock
unlock_door-refused c id minutes details answer server page status_text text e =
    let found = by_key door_id id server.doors in
    let reply : Reply = (unlock_found c id minutes details answer found server).1 in
    let (ne, doors, countdowns, message) = page_refused id status_text text reply page e in
    (unlock_found-refused c id minutes details answer found server ne, doors, countdowns, message)
