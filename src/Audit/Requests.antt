-- ===== src/Audit/Requests.antt =====
-- What the store asks the server for, and what it makes of the answers.
use access_control.Base.{
  String, ◌≡◌, refl, Option, List, [], ◌∷◌, ok, arith, All, Distinct, none, some, ℕ, ◌≤◌, length,
  Bool-cases, inl, inr, without_key, length-take,
}
use access_control.Model.{AccessLog}
use access_control.Api.Calls.{request_of}
use access_control.Audit.{
  AuditState, FilterChange, same, to, change_filter, fetch_logs_begin, fetch_logs_end, set_filter,
  add_log_event, log_id, max_logs, AuditMsg, filter_set, fetched, event_added, live_toggled, reduce,
  run,
}
use access_control.Audit.Feed.{refused, logs-add_log_event, pushed-Distinct}

abbrev pub only_event_type : Option String → FilterChange
only_event_type event_type = record {
  door_id = same;
  user_id = same;
  method = same;
  event_type = to event_type;
  limit = same;
}

-- Choosing an event type sends the very request that a refresh without it sends, and whatever list
-- comes back is shown whole: the filter by event has no effect on what is fetched.
event_type_not_requested :
    (event_type : Option String) (logs : List AccessLog) (s : AuditState)
    → let (t, call) = set_filter (only_event_type event_type) s in
      (request_of call ≡ request_of (fetch_logs_begin s).1)
      × (t.filter.event_type ≡ event_type)
      × ((fetch_logs_end (ok logs) t).logs ≡ logs)
unfolding set_filter fetch_logs_end request_of
event_type_not_requested event_type logs s = (refl, refl, refl)

-- Two changes of the filter whose answers come in the other order: the entries shown are those of
-- the first filter, under the second.
stale_logs :
    (f g : FilterChange) (old new : List AccessLog) (s : AuditState)
    → let t = run s (filter_set f ∷ filter_set g ∷ fetched (ok new) ∷ fetched (ok old) ∷ []) in
      (t.logs ≡ old) × (t.filter ≡ change_filter g (change_filter f s.filter))
unfolding reduce
stale_logs f g old new s = (refl, refl)

added-IsTrail :
    (event : AccessLog) (s : AuditState) {limit : ℕ}
    → Distinct log_id s.logs × (length s.logs ≤ limit)
    → max_logs ≤ limit
    → Distinct log_id (add_log_event event s).logs × (length (add_log_event event s).logs ≤ limit)
added-IsTrail event s h le =
    rw (logs-add_log_event event s) (elim (Bool-cases (refused s.filter event)) [
      | inl no_match ↦ rw no_match h
      | inr match ↦ rw match (
        pushed-Distinct event s h.0,
        omega (arith, length-take 200 (event ∷ without_key log_id event.id s.logs)),
      )
    ])

-- What the server is trusted with: a list has distinct ids, and at most `limit` entries.
abbrev pub Honest : ℕ → AuditMsg → Type 0
Honest limit (fetched (ok logs)) = Distinct log_id logs × (length logs ≤ limit)
Honest limit _ = Unit

abbrev IsTrail : ℕ → AuditState → Type 0
IsTrail limit s = Distinct log_id s.logs × (length s.logs ≤ limit)

reduce-IsTrail :
    (limit : ℕ) (s : AuditState) (m : AuditMsg)
    → max_logs ≤ limit
    → Honest limit m
    → IsTrail limit s
    → IsTrail limit (reduce s m)
unfolding reduce
reduce-IsTrail limit s (fetched (ok logs)) le trust h = trust
reduce-IsTrail limit s (event_added event) le trust h = added-IsTrail event s h le
reduce-IsTrail limit s (live_toggled none) le trust h = h
reduce-IsTrail limit s (live_toggled (some enabled)) le trust h = h
reduce-IsTrail limit s _ le trust h = h

-- In whatever order requests, answers, changes of the filter and events come, the entries have
-- distinct ids and are no more than `limit` (200 or above), if each list that the server answers
-- with has distinct ids and at most `limit` entries.
pub run-IsTrail :
    (limit : ℕ) (ms : List AuditMsg) (s : AuditState)
    → max_logs ≤ limit
    → All (Honest limit) ms
    → Distinct log_id s.logs
    → length s.logs ≤ limit
    → Distinct log_id (run s ms).logs × (length (run s ms).logs ≤ limit)
run-IsTrail limit [] s le trust distinct bounded = (distinct, bounded)
run-IsTrail limit (m ∷ ms) s le (here, trust) distinct bounded =
    let (distinct', bounded') = reduce-IsTrail limit s m le here (distinct, bounded) in
    run-IsTrail limit ms (reduce s m) le trust distinct' bounded'
