-- ===== src/Audit/Answers.antt =====
-- What the server answers to the store's filter, and what it leaves out.
use Prim.Native.Char.{Char}
use access_control.Base.{
  ℕ, zero, suc, ◌*◌, ◌≤◌, ◌≡◌, refl, sym, ap, ℤ, pos, negsuc, nonzero_or, wrapped, String, Bool,
  true, false, Option, none, some, List, [], ◌∷◌, keep, length, length-take, All, All-keep,
  All-take, ◌==◌, eq_iff, ok, arith, Bool-cases, inl, inr,
}
use access_control.Model.{
  AccessLog, AccessMethod, AccessEventType, AuditFilter, method_text, event_text, ring_keypad,
  built_in_keypad, zwave_keypad, manual, rf, auto_lock,
}
use access_control.Text.DotNet.{is_null_or_white_space, is_white_space}
use access_control.Audit.{AuditState, fetch_logs_end}
use access_control.Audit.Feed.{Met}
use access_control.Audit.Server.{
  LogQuery, clamped, given, drop, sql_limit, skip, rows_of, is_user, of_user, of_method,
  parsed_method, of_event_type, get_logs,
}

-- The test holds of every entry that is kept.
All-kept {ℓ} : {A : Type ℓ} (p : A → Bool) (xs : List A) → All (λ x. p x ≡ true) (keep p xs)
All-kept p [] = tt
All-kept p (x ∷ xs) = elim (Bool-cases (p x)) [
  | inl holds ↦ rw holds (holds, All-kept p xs)
  | inr fails ↦ rw fails (All-kept p xs)
]

module _ {ℓ κ} {A : Type ℓ} (P : A → Type κ) where
  All-drop : (n : ℕ) (xs : List A) → All P xs → All P (drop n xs)
  All-drop zero xs h = h
  All-drop (suc n) [] h = tt
  All-drop (suc n) (x ∷ xs) (_, h) = All-drop n xs h

  All-skip : (n : ℤ) (xs : List A) → All P xs → All P (skip n xs)
  All-skip (pos n) xs h = All-drop n xs h
  All-skip (negsuc n) xs h = h

  All-sql_limit : (n : ℤ) (xs : List A) → All P xs → All P (sql_limit n xs)
  All-sql_limit (pos n) xs h = All-take P n xs h
  All-sql_limit (negsuc n) xs h = h

  All-mapped : {Q : A → Type κ} (f : (x : A) → P x → Q x) (xs : List A) → All P xs → All Q xs
  All-mapped f [] h = tt
  All-mapped f (x ∷ xs) (p, h) = (f x p, All-mapped f xs h)

All-Unit {ℓ} : {A : Type ℓ} {P : A → Type 0} (f : (x : A) → P x) (xs : List A) → All P xs
All-Unit f [] = tt
All-Unit f (x ∷ xs) = (f x, All-Unit f xs)

-- The limit that the store's request carries, 100 where it has none.
abbrev pub sent_limit : Option ℤ → ℤ
sent_limit none = pos 100
sent_limit (some limit) = nonzero_or limit (pos 100)

-- The query that the server reads from the store's request.
abbrev pub query_of : AuditFilter → LogQuery
query_of f = record {
  door_id = f.door_id;
  user_id = f.user_id;
  method = f.method;
  event_type = none;
  limit = sent_limit f.limit;
  page = pos 1;
}

-- Absent, empty, or with a character that is not white space.
abbrev pub NotBlank : Option String → Type 0
NotBlank none = Unit
NotBlank (some String.[]) = Unit
NotBlank (some (String.◌∷◌ c s)) = is_null_or_white_space (String.◌∷◌ c s) ≡ false

-- Absent, or the name of a method.
abbrev pub IsMethod : Option String → Type 0
IsMethod none = Unit
IsMethod (some name) = (m : AccessMethod) × (name ≡ method_text m)

rows_of-Met :
    (door : Option String) (rows : List AccessLog)
    → NotBlank door
    → All (λ l. Met door (some l.access_point_id)) (rows_of (given door) rows)
unfolding is_null_or_white_space
rows_of-Met none rows h = All-Unit (λ l. tt) rows
rows_of-Met (some String.[]) rows h = All-Unit (λ l. tt) rows
rows_of-Met (some (String.◌∷◌ c s)) rows h = rw h (
    All-mapped (λ (l : AccessLog). (l.access_point_id == String.◌∷◌ c s) ≡ true)
      (λ l e. ap some (sym ((eq_iff l.access_point_id (String.◌∷◌ c s)).0 e)))
      (keep (λ l. l.access_point_id == String.◌∷◌ c s) rows)
      (All-kept (λ l. l.access_point_id == String.◌∷◌ c s) rows))

method_text-Met :
    (m : AccessMethod) (actual : String)
    → method_text m ≡ actual
    → Met (some (method_text m)) (some actual)
method_text-Met ring_keypad actual e = ap some e
method_text-Met built_in_keypad actual e = ap some e
method_text-Met zwave_keypad actual e = ap some e
method_text-Met manual actual e = ap some e
method_text-Met rf actual e = ap some e
method_text-Met auto_lock actual e = ap some e

given-method_text : (m : AccessMethod) → given (some (method_text m)) ≡ some (method_text m)
unfolding is_null_or_white_space is_white_space
given-method_text ring_keypad = refl
given-method_text built_in_keypad = refl
given-method_text zwave_keypad = refl
given-method_text manual = refl
given-method_text rf = refl
given-method_text auto_lock = refl

module _ (upper : Char → Char) (parse_method : String → Option AccessMethod)
    (parse_event_type : String → Option AccessEventType) where
  of_method-Met :
      (parses : (m : AccessMethod) → parse_method (method_text m) ≡ some m) (method : Option String)
      (rows : List AccessLog)
      → IsMethod method
      → All
          (λ l. Met method (some (method_text l.method)))
          (of_method upper parse_method parse_event_type
            (parsed_method upper parse_method parse_event_type (given method))
            rows)
  of_method-Met parses none rows h = All-Unit (λ l. tt) rows
  of_method-Met parses (some name) rows (m, e) =
      rw (e, given-method_text m, parses m)
        (All-mapped (λ (l : AccessLog). (method_text l.method == method_text m) ≡ true)
          (λ l same.
            method_text-Met m (method_text l.method)
              (sym ((eq_iff (method_text l.method) (method_text m)).0 same)))
          (keep (λ l. method_text l.method == method_text m) rows)
          (All-kept (λ l. method_text l.method == method_text m) rows))

  module _ (P : AccessLog → Type 0) where
    All-of_user :
        (user : Option String) (rows : List AccessLog)
        → All P rows
        → All P (of_user upper parse_method parse_event_type user rows)
    All-of_user none rows h = h
    All-of_user (some u) rows h =
        All-keep P (λ l. is_user upper parse_method parse_event_type u l.user_id) rows h

    All-of_method :
        (method : Option AccessMethod) (rows : List AccessLog)
        → All P rows
        → All P (of_method upper parse_method parse_event_type method rows)
    All-of_method none rows h = h
    All-of_method (some m) rows h = All-keep P (λ l. method_text l.method == method_text m) rows h

    All-of_event_type :
        (event_type : Option AccessEventType) (rows : List AccessLog)
        → All P rows
        → All P (of_event_type upper parse_method parse_event_type event_type rows)
    All-of_event_type none rows h = h
    All-of_event_type (some m) rows h =
        All-keep P (λ l. event_text l.event_type == event_text m) rows h

  clamped-low : (limit : ℤ) → clamped limit ≤ 500
  clamped-low (pos zero) = omega arith
  clamped-low (pos (suc n)) = ground arith
  clamped-low (negsuc n) = omega arith

  -- The store and the server agree on a filter by door and by method: whatever rows there are, the
  -- list that the server answers to the store's request, stored by `fetchLogs`, holds entries of
  -- the door and the method of the store's filter only, and no more than 500. The door is none that
  -- is blank, the method is one of the names, and `Enum.TryParse` reads the names.
  pub fetched-Met :
      (rows : List AccessLog) (s : AuditState)
      → ((m : AccessMethod) → parse_method (method_text m) ≡ some m)
      → NotBlank s.filter.door_id
      → IsMethod s.filter.method
      → let answer = get_logs upper parse_method parse_event_type (query_of s.filter) rows in
        let t = fetch_logs_end (ok answer) s in
        All (λ l. Met t.filter.door_id (some l.access_point_id)) t.logs
        × All (λ l. Met t.filter.method (some (method_text l.method))) t.logs
        × (length t.logs ≤ 500)
  unfolding get_logs fetch_logs_end
  fetched-Met rows s parses door method = (
    All-take OfDoor limit paged (
        All-skip OfDoor first matching (
          All-of_method OfDoor wanted_method by_user (
            All-of_user OfDoor (given f.user_id) raw (
              All-sql_limit OfDoor upto (rows_of (given f.door_id) rows)
                (rows_of-Met f.door_id rows door))))),
    All-take OfMethod limit paged
        (All-skip OfMethod first matching (of_method-Met parses f.method by_user method)),
    omega (arith, length-take limit paged, clamped-low (sent_limit f.limit)),
  )
    where
      f : AuditFilter
      f = s.filter

      OfDoor : AccessLog → Type 0
      OfDoor l = Met f.door_id (some l.access_point_id)

      OfMethod : AccessLog → Type 0
      OfMethod l = Met f.method (some (method_text l.method))

      limit : ℕ
      limit = clamped (sent_limit f.limit)

      upto : ℤ
      upto = wrapped (limit * 1)

      first : ℤ
      first = wrapped (0 * limit)

      raw : List AccessLog
      raw = sql_limit upto (rows_of (given f.door_id) rows)

      by_user : List AccessLog
      by_user = of_user upper parse_method parse_event_type (given f.user_id) raw

      wanted_method : Option AccessMethod
      wanted_method = parsed_method upper parse_method parse_event_type (given f.method)

      matching : List AccessLog
      matching = of_method upper parse_method parse_event_type wanted_method by_user

      paged : List AccessLog
      paged = skip first matching
