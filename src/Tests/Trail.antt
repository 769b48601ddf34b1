-- ===== src/Tests/Trail.antt =====
-- Examples of the store of the audit trail and of its feed.
use access_control.Base.{
  ◌≡◌, refl, ◌≤◌, none, some, List, [], ◌∷◌, ok, err, none, differ, arith, length, Distinct,
}
use access_control.Model.{AccessEventType, denied}
use access_control.Api.Calls.{request_of, form_encode, params_text, log_params}
use access_control.Audit.{
  AuditState, AuditMsg, fetched, fetch_started, filter_set, event_added, log_id, set_filter,
  fetch_logs_begin, fetch_logs_end, fetch_logs, change_filter, add_log_event, run, reduce,
  default_filter,
}
use access_control.Audit.Feed.{IsFeed, add_log_event-IsFeed}
use access_control.Audit.Requests.{run-IsTrail}
use access_control.LiveFeed.{no_events, by_door, by_event, choose, shown, feed_view, subject}
use access_control.Audit
use access_control.Text.{show}
use access_control.Tests.{log, two_logs, two_doors}

-- The feed of one door.
abbrev front_logs : AuditState
front_logs = record two_logs { filter = record default_filter { door_id = some "front" } }

front_logs-IsFeed : IsFeed front_logs
front_logs-IsFeed = record {
  distinct = ((differ _ _ refl, tt), (tt, tt));
  matching = (
    record { door = refl; user = tt; method = tt; event_type = tt },
    (record { door = refl; user = tt; method = tt; event_type = tt }, tt),
  );
  bounded = omega arith;
}

add_log_event-IsFeed_example : IsFeed (add_log_event (log "l1" denied) front_logs)
add_log_event-IsFeed_example = add_log_event-IsFeed (log "l1" denied) front_logs front_logs-IsFeed

added :
    (add_log_event (log "l1" denied) front_logs).logs
    ≡ log "l1" denied ∷ log "l2" AccessEventType.locked ∷ []
unfolding add_log_event
added = refl

-- An event of another door is refused.
not_added :
    add_log_event (record (log "l3" denied) { access_point_id = "back" }) front_logs ≡ front_logs
unfolding add_log_event
not_added = refl

abbrev some_messages : List AuditMsg
some_messages =
    fetch_started
    ∷ event_added (log "l3" denied)
    ∷ fetched (ok (log "l4" denied ∷ []))
    ∷ event_added (log "l4" denied)
    ∷ []

run-IsTrail_example :
    Distinct log_id (run two_logs some_messages).logs
    × (length (run two_logs some_messages).logs ≤ 500)
run-IsTrail_example =
    run-IsTrail 500 some_messages two_logs (omega arith)
      (tt, (tt, (((tt, tt), omega arith), (tt, tt)))) ((differ _ _ refl, tt), (tt, tt))
      (omega arith)

-- The request for a door whose id needs encoding.
requested :
    (request_of (choose by_door "a b" two_logs).1).endpoint ≡ "/api/logs?doorId=a+b&limit=100"
unfolding choose set_filter request_of log_params params_text form_encode show
requested = refl

failed_fetch : (fetch_logs (err none) two_logs).error ≡ some "Failed to fetch access logs"
unfolding fetch_logs
failed_fetch = refl

chosen_all : shown by_event (choose by_event "" front_logs).0.filter ≡ ""
unfolding shown choose set_filter
chosen_all = refl

empty_feed : (feed_view (λ text. text) two_doors Audit.initial).body ≡ no_events
unfolding feed_view
empty_feed = refl

shown_subject : subject (log "l1" denied) ≡ "User ann-12"
shown_subject = refl
