-- ===== src/Audit/Server.antt =====
-- The server's side of the audit trail: `GetLogs` of
-- src/CodeMaster.Web/Controllers/AccessLogsController.cs, with the two queries of
-- src/CodeMaster.Data/Repositories/AuditLogRepository.cs. The rows, newest first, the reading of an
-- enumeration's name by `Enum.TryParse` and the upper case of a character are arguments.
use Prim.Native.Char.{Char}
use access_control.Base.{
  ℕ, zero, suc, ◌-◌, ◌*◌, ℤ, pos, negsuc, wrapped, String, Bool, false, Option, none, some, List,
  [], ◌∷◌, take, keep, ◌==◌, if◌then◌else◌, leb,
}
use access_control.Model.{AccessLog, AccessMethod, AccessEventType, method_text, event_text}
use access_control.Text.DotNet.{is_null_or_white_space, same_text}

pub record LogQuery : Type 0 where
  pub door_id : Option String
  pub user_id : Option String
  pub method : Option String
  pub event_type : Option String
  pub limit : ℤ
  pub page : ℤ

-- `Math.Clamp(limit, 1, 500)`
abbrev pub clamped : ℤ → ℕ
clamped (pos zero) = 1
clamped (pos (suc n)) = if leb (suc n) 500 then suc n else 500
clamped (negsuc n) = 1

-- `Math.Max(1, page)`
abbrev pub max_one : ℤ → ℕ
max_one (pos zero) = 1
max_one (pos (suc n)) = suc n
max_one (negsuc n) = 1

-- `!string.IsNullOrWhiteSpace(s)`
abbrev pub given : Option String → Option String
given none = none
given (some s) = if is_null_or_white_space s then none else some s

module _ {ℓ} {A : Type ℓ} where
  abbrev pub drop : ℕ → List A → List A
  drop zero xs = xs
  drop (suc n) [] = []
  drop (suc n) (x ∷ xs) = drop n xs

  -- `LIMIT n`: a negative limit is none.
  abbrev pub sql_limit : ℤ → List A → List A
  sql_limit (pos n) xs = take n xs
  sql_limit (negsuc n) xs = xs

  -- `Skip(n)`: nothing, where n is negative.
  abbrev pub skip : ℤ → List A → List A
  skip (pos n) xs = drop n xs
  skip (negsuc n) xs = xs

-- `WHERE AccessPointId = @AccessPointId`, where a door is asked for
abbrev pub rows_of : Option String → List AccessLog → List AccessLog
rows_of none rows = rows
rows_of (some door) rows = keep (λ l. l.access_point_id == door) rows

module _ (upper : Char → Char) (parse_method : String → Option AccessMethod)
    (parse_event_type : String → Option AccessEventType) where
  abbrev pub is_user : String → Option String → Bool
  is_user wanted none = false
  is_user wanted (some user) = same_text upper user wanted

  abbrev pub of_user : Option String → List AccessLog → List AccessLog
  of_user none rows = rows
  of_user (some user) rows = keep (λ l. is_user user l.user_id) rows

  abbrev pub of_method : Option AccessMethod → List AccessLog → List AccessLog
  of_method none rows = rows
  of_method (some method) rows = keep (λ l. method_text l.method == method_text method) rows

  abbrev pub parsed_method : Option String → Option AccessMethod
  parsed_method none = none
  parsed_method (some name) = parse_method name

  abbrev pub of_event_type : Option AccessEventType → List AccessLog → List AccessLog
  of_event_type none rows = rows
  of_event_type (some event_type) rows =
      keep (λ l. event_text l.event_type == event_text event_type) rows

  abbrev pub parsed_event_type : Option String → Option AccessEventType
  parsed_event_type none = none
  parsed_event_type (some name) = parse_event_type name

  abbrev pub filtered : LogQuery → List AccessLog → List AccessLog
  filtered q rows =
      of_event_type (parsed_event_type (given q.event_type))
        (of_method (parsed_method (given q.method)) (of_user (given q.user_id) rows))

  unfoldable pub get_logs : LogQuery → List AccessLog → List AccessLog
  get_logs q rows =
      let limit = clamped q.limit in
      let raw_logs =
        sql_limit (wrapped (limit * max_one q.page)) (rows_of (given q.door_id) rows) in
      take limit (skip (wrapped ((max_one q.page - 1) * limit)) (filtered q raw_logs))
