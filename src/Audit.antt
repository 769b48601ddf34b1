-- ===== src/Audit.antt =====
-- The store of the audit trail, src/CodeMaster.UI/src/stores/useAuditStore.ts. `fetchLogs` is
-- split at its `await`: the first half also gives the call that it makes.
pub mod Answers
pub mod Feed
pub mod Missed
pub mod Requests
pub mod Server
use access_control.Base.{
  ℕ, ℤ, pos, String, Bool, true, false, not, Option, none, some, List, [], ◌∷◌, Outcome, ok, err,
  message_or, is_truthy, given_or, if◌then◌else◌, take, keep, without_key, found_or, ◌==◌, ◌&&◌,
  ◌||◌,
}
use access_control.Model.{AccessLog, AuditFilter, event_text, method_text}
use access_control.Api.Calls.{ApiCall, list_logs}

pub record AuditState : Type 0 where
  pub logs : List AccessLog
  pub filter : AuditFilter
  pub is_loading : Bool
  pub is_live : Bool
  pub error : Option String

-- `{ limit: 100 }`
abbrev pub default_filter : AuditFilter
default_filter = record {
  door_id = none;
  user_id = none;
  method = none;
  event_type = none;
  limit = some (pos 100);
}

abbrev pub initial : AuditState
initial = record {
  logs = [];
  filter = default_filter;
  is_loading = false;
  is_live = true;
  error = none;
}

abbrev pub log_id : AccessLog → String
log_id l = l.id

unfoldable pub fetch_logs_begin : AuditState → AuditState × ApiCall
fetch_logs_begin s = (record s { is_loading = true; error = none }, list_logs s.filter)

unfoldable pub fetch_logs_end : Outcome (List AccessLog) → AuditState → AuditState
fetch_logs_end (ok logs) s = record s { logs = logs; is_loading = false }
fetch_logs_end (err e) s = record s {
  error = some (message_or e "Failed to fetch access logs");
  is_loading = false;
}

unfoldable pub fetch_logs : Outcome (List AccessLog) → AuditState → AuditState
unfolding fetch_logs_begin fetch_logs_end
fetch_logs o s = fetch_logs_end o (fetch_logs_begin s).0

-- A field that an update of the filter leaves out, or gives as undefined or as a value.
pub data Change {ℓ} (A : Type ℓ) : Type ℓ where
  same : Change A
  to : Option A → Change A

abbrev pub apply_change {ℓ} : {A : Type ℓ} → Change A → Option A → Option A
apply_change same old = old
apply_change (to new) old = new

-- `Partial<AuditFilter>`
pub record FilterChange : Type 0 where
  pub door_id : Change String
  pub user_id : Change String
  pub method : Change String
  pub event_type : Change String
  pub limit : Change ℤ

-- `{ ...get().filter, ...newFilter }`
abbrev pub change_filter : FilterChange → AuditFilter → AuditFilter
change_filter new f = record {
  door_id = apply_change new.door_id f.door_id;
  user_id = apply_change new.user_id f.user_id;
  method = apply_change new.method f.method;
  event_type = apply_change new.event_type f.event_type;
  limit = apply_change new.limit f.limit;
}

unfoldable pub set_filter : FilterChange → AuditState → AuditState × ApiCall
unfolding fetch_logs_begin
set_filter new s = fetch_logs_begin (record s { filter = change_filter new s.filter })

unfoldable pub clear_filter : AuditState → AuditState × ApiCall
unfolding fetch_logs_begin
clear_filter s = fetch_logs_begin (record s { filter = default_filter })

-- `wanted && actual !== wanted`
abbrev pub excludes : Option String → String → Bool
excludes wanted actual = is_truthy wanted && not (actual == given_or wanted "")

-- `userId && event.userId !== userId`, where the event may have no user
abbrev pub excludes_user : Option String → Option String → Bool
excludes_user wanted none = is_truthy wanted
excludes_user wanted (some actual) = excludes wanted actual

abbrev pub max_logs : ℕ
max_logs = 200

unfoldable pub add_log_event : AccessLog → AuditState → AuditState
add_log_event event s =
    if excludes s.filter.door_id event.access_point_id
    then s
    else if excludes_user s.filter.user_id event.user_id
    then s
    else if excludes s.filter.method (method_text event.method)
    then s
    else if excludes s.filter.event_type (event_text event.event_type)
    then s
    else record s { logs = take max_logs (event ∷ without_key log_id event.id s.logs) }

unfoldable pub toggle_live : Option Bool → AuditState → AuditState
toggle_live none s = record s { is_live = not s.is_live }
toggle_live (some enabled) s = record s { is_live = enabled }

-- What the store is told, in the order in which the event loop delivers it.
pub data AuditMsg : Type 0 where
  fetch_started filter_cleared : AuditMsg
  fetched : Outcome (List AccessLog) → AuditMsg
  filter_set : FilterChange → AuditMsg
  event_added : AccessLog → AuditMsg
  live_toggled : Option Bool → AuditMsg

unfoldable pub reduce : AuditState → AuditMsg → AuditState
unfolding fetch_logs_begin fetch_logs_end set_filter clear_filter add_log_event toggle_live
reduce s fetch_started = (fetch_logs_begin s).0
reduce s filter_cleared = (clear_filter s).0
reduce s (fetched o) = fetch_logs_end o s
reduce s (filter_set new) = (set_filter new s).0
reduce s (event_added event) = add_log_event event s
reduce s (live_toggled enabled) = toggle_live enabled s

abbrev pub run : AuditState → List AuditMsg → AuditState
run s [] = s
run s (m ∷ ms) = run (reduce s m) ms
