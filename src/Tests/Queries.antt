-- ===== src/Tests/Queries.antt =====
-- Examples of the server's audit trail. Letters have no case here, and the names are read exactly.
use Prim.Native.Char.{Char}
use access_control.Base.{
  ◌≡◌, refl, String, Option, none, some, List, [], ◌∷◌, ok, ◌==◌, if◌then◌else◌, arith, All,
}
use access_control.Model.{
  AccessLog, AccessMethod, AccessEventType, denied, ring_keypad, built_in_keypad, zwave_keypad,
  manual, rf, auto_lock, method_text,
}
use access_control.Text.DotNet.{is_null_or_white_space, is_white_space, map_chars}
use access_control.Audit.{AuditState, fetch_logs_end}
use access_control.Audit.Feed.{Met}
use access_control.Audit.Server.{get_logs}
use access_control.Audit.Answers.{query_of, fetched-Met}
use access_control.Audit.Missed.{of_user_only, older_entries_missed}
use access_control.Tests.{log, two_logs}

abbrev no_case : Char → Char
no_case c = c

abbrev read_method : String → Option AccessMethod
read_method name =
    if name == "RingKeypad"
    then some ring_keypad
    else if name == "BuiltInKeypad"
    then some built_in_keypad
    else if name == "ZWaveKeypad"
    then some zwave_keypad
    else if name == "Manual"
    then some manual
    else if name == "RF"
    then some rf
    else if name == "AutoLock"
    then some auto_lock
    else none

read_method_text : (m : AccessMethod) → read_method (method_text m) ≡ some m
read_method_text ring_keypad = refl
read_method_text built_in_keypad = refl
read_method_text zwave_keypad = refl
read_method_text manual = refl
read_method_text rf = refl
read_method_text auto_lock = refl

abbrev no_event : String → Option AccessEventType
no_event name = none

-- The front door's entries by hand.
abbrev by_hand : AuditState
by_hand = record two_logs {
  filter = record two_logs.filter { door_id = some "front"; method = some "Manual" };
}

abbrev rows : List AccessLog
rows = log "l3" denied ∷ record (log "l4" denied) { method = rf } ∷ []

fetched-Met_example :
    All
      (λ (l : AccessLog). Met (some "front") (some l.access_point_id))
      (fetch_logs_end
        (ok (get_logs no_case read_method no_event (query_of by_hand.filter) rows))
        by_hand).logs
unfolding is_null_or_white_space is_white_space fetch_logs_end
fetched-Met_example =
    (fetched-Met no_case read_method no_event rows by_hand read_method_text refl (manual, refl)).0

-- One entry of another user, then one of the user.
older_entries_missed_example :
    get_logs no_case read_method no_event
      (of_user_only (some "bob") 1)
      (log "l3" denied ∷ record (log "l4" denied) { user_id = some "bob" } ∷ [])
    ≡ []
unfolding is_null_or_white_space is_white_space map_chars
older_entries_missed_example =
    older_entries_missed no_case read_method no_event 0 (some "bob") "bob" (log "l3" denied ∷ [])
      (record (log "l4" denied) { user_id = some "bob" } ∷ []) (omega arith) refl refl (refl, tt)
