-- ===== src/Audit/Feed.antt =====
-- What adding an event does to the feed.
use access_control.Base.{
  ℕ, zero, suc, ◌≤◌, String, ◌≡◌, refl, ◌≢◌, ap, ◌∙◌, sym, Bool, true, false, not, Option, none,
  some, List, [], ◌∷◌, if◌then◌else◌, length, length-take, take, All, All-keep, All-take, Distinct,
  Lacks, without_key, Distinct-without_key, Lacks-without_key, ◌==◌, eq_iff, arith, Bool-cases, inl,
  inr,
}
use access_control.Model.{AccessLog, AuditFilter, event_text, method_text}
use access_control.Audit.{AuditState, log_id, excludes, excludes_user, max_logs, add_log_event}

-- A wanted value is met: an absent or empty one by everything, any other by itself alone.
abbrev pub Met : Option String → Option String → Type 0
Met none actual = Unit
Met (some String.[]) actual = Unit
Met (some (String.◌∷◌ c s)) actual = some (String.◌∷◌ c s) ≡ actual

-- An event belongs in a feed under a filter.
pub record Matches (f : AuditFilter) (event : AccessLog) : Type 0 where
  pub door : Met f.door_id (some event.access_point_id)
  pub user : Met f.user_id event.user_id
  pub method : Met f.method (some (method_text event.method))
  pub event_type : Met f.event_type (some (event_text event.event_type))

-- The feed's invariant under its own filter.
pub record IsFeed (s : AuditState) : Type 0 where
  pub distinct : Distinct log_id s.logs
  pub matching : All (Matches s.filter) s.logs
  pub bounded : length s.logs ≤ max_logs

excludes-Met :
    (wanted : Option String) (actual : String)
    → excludes wanted actual ≡ false
    → Met wanted (some actual)
excludes-Met none actual h = tt
excludes-Met (some String.[]) actual h = tt
excludes-Met (some (String.◌∷◌ c s)) actual h = ground (arith, eq_iff actual (String.◌∷◌ c s))

excludes_user-Met :
    (wanted actual : Option String) → excludes_user wanted actual ≡ false → Met wanted actual
excludes_user-Met none none h = tt
excludes_user-Met (some String.[]) none h = tt
excludes_user-Met (some (String.◌∷◌ c s)) none h = cc
excludes_user-Met wanted (some actual) h = excludes-Met wanted actual h

without_of_Lacks :
    (k : String) (xs : List AccessLog) → Lacks log_id k xs → without_key log_id k xs ≡ xs
without_of_Lacks k [] h = refl
without_of_Lacks k (x ∷ xs) (ne, h) = ground (arith, eq_iff x.id k, without_of_Lacks k xs h)

without_head :
    (event : AccessLog) (xs : List AccessLog)
    → Lacks log_id event.id xs
    → without_key log_id event.id (event ∷ xs) ≡ xs
without_head event xs h = ground (arith, eq_iff event.id event.id, without_of_Lacks event.id xs h)

Distinct-take : (n : ℕ) (xs : List AccessLog) → Distinct log_id xs → Distinct log_id (take n xs)
Distinct-take zero xs h = tt
Distinct-take (suc n) [] h = tt
Distinct-take (suc n) (x ∷ xs) (here, h) =
    (All-take (λ (y : AccessLog). y.id ≢ x.id) n xs here, Distinct-take n xs h)

pub pushed-Distinct :
    (event : AccessLog) (s : AuditState)
    → Distinct log_id s.logs
    → Distinct log_id (take max_logs (event ∷ without_key log_id event.id s.logs))
pushed-Distinct event s h =
    Distinct-take max_logs (event ∷ without_key log_id event.id s.logs)
      (Lacks-without_key log_id event.id s.logs, Distinct-without_key log_id event.id s.logs h)

-- What is accepted is put in front; the feed never exceeds 200 entries.
push : AccessLog → AuditState → AuditState
push event s = record s { logs = take max_logs (event ∷ without_key log_id event.id s.logs) }

abbrev pub refused : AuditFilter → AccessLog → Bool
refused f event =
    if excludes f.door_id event.access_point_id
    then true
    else if excludes_user f.user_id event.user_id
    then true
    else if excludes f.method (method_text event.method)
    then true
    else excludes f.event_type (event_text event.event_type)

choose4 {ℓ} :
    {A : Type ℓ} (a b c d : Bool) (x y : A)
    → (if a then x else if b then x else if c then x else if d then x else y)
      ≡ (if (if a then true else if b then true else if c then true else d) then x else y)
choose4 true b c d x y = refl
choose4 false true c d x y = refl
choose4 false false true d x y = refl
choose4 false false false d x y = refl

none4 :
    (a b c d : Bool)
    → (if a then true else if b then true else if c then true else d) ≡ false
    → (a ≡ false) × (b ≡ false) × (c ≡ false) × (d ≡ false)
none4 a b c d h = ground arith

add_log_event_lem :
    (event : AccessLog) (s : AuditState)
    → add_log_event event s ≡ (if refused s.filter event then s else push event s)
unfolding add_log_event push
add_log_event_lem event s =
    choose4 (excludes s.filter.door_id event.access_point_id)
      (excludes_user s.filter.user_id event.user_id)
      (excludes s.filter.method (method_text event.method))
      (excludes s.filter.event_type (event_text event.event_type)) s (push event s)

accepted-Matches : (f : AuditFilter) (event : AccessLog) → refused f event ≡ false → Matches f event
accepted-Matches f event h =
    let (door, user, method, type) = none4 _ _ _ _ h in
    record {
      door = excludes-Met f.door_id event.access_point_id door;
      user = excludes_user-Met f.user_id event.user_id user;
      method = excludes-Met f.method (method_text event.method) method;
      event_type = excludes-Met f.event_type (event_text event.event_type) type;
    }

push-IsFeed :
    (event : AccessLog) (s : AuditState) → Matches s.filter event → IsFeed s → IsFeed (push event s)
unfolding push
push-IsFeed event s m feed =
    let others = without_key log_id event.id s.logs in
    record {
      distinct = pushed-Distinct event s feed.distinct;
      matching =
          All-take (Matches s.filter) max_logs (event ∷ others)
            (m, All-keep (Matches s.filter) (λ l. not (l.id == event.id)) s.logs feed.matching);
      bounded = length-take max_logs (event ∷ others);
    }

-- Adding an event keeps the feed a feed: no two entries have the same id, every entry meets the
-- filter, and there are 200 at most.
pub add_log_event-IsFeed :
    (event : AccessLog) (s : AuditState) → IsFeed s → IsFeed (add_log_event event s)
add_log_event-IsFeed event s feed = elim (Bool-cases (refused s.filter event)) [
  | inl no_match ↦ rw (add_log_event_lem event s) (rw no_match feed)
  | inr match ↦
      rw (add_log_event_lem event s)
        (rw match (push-IsFeed event s (accepted-Matches s.filter event match) feed))
]

take-take : (n : ℕ) (xs : List AccessLog) → take n (take n xs) ≡ take n xs
take-take zero xs = refl
take-take (suc n) [] = refl
take-take (suc n) (x ∷ xs) = ap (x ∷◌) (take-take n xs)

push-push : (event : AccessLog) (s : AuditState) → push event (push event s) ≡ push event s
unfolding push
push-push event s =
    let others = without_key log_id event.id s.logs in
    let lacks =
      All-take (λ (l : AccessLog). l.id ≢ event.id) 199 others
        (Lacks-without_key log_id event.id s.logs) in
    ap (λ logs. record s { logs = event ∷ logs })
      (ap (take 199) (without_head event (take 199 others) lacks) ∙ take-take 199 others)

add_log_event-refused :
    (event : AccessLog) (s : AuditState) → refused s.filter event ≡ true → add_log_event event s ≡ s
add_log_event-refused event s h = rw (add_log_event_lem event s) (rw h)

add_log_event-accepted :
    (event : AccessLog) (s : AuditState)
    → refused s.filter event ≡ false
    → add_log_event event s ≡ push event s
add_log_event-accepted event s h = rw (add_log_event_lem event s) (rw h)

-- An event that is delivered twice is in the feed once: the second time changes nothing.
add_log_event_idem :
    (event : AccessLog) (s : AuditState)
    → add_log_event event (add_log_event event s) ≡ add_log_event event s
add_log_event_idem event s = elim (Bool-cases (refused s.filter event)) [
  | inl no_match ↦ ap (add_log_event event) (add_log_event-refused event s no_match)
  | inr match ↦
      let once = add_log_event-accepted event s match in
      ap (add_log_event event) once
      ∙ add_log_event-accepted event (push event s) (unfold push in match)
      ∙ push-push event s
      ∙ sym once
]

pub logs-add_log_event :
    (event : AccessLog) (s : AuditState)
    → (add_log_event event s).logs ≡ (
        if refused s.filter event
        then s.logs
        else take max_logs (event ∷ without_key log_id event.id s.logs))
unfolding push
logs-add_log_event event s = elim (Bool-cases (refused s.filter event)) [
  | inl no_match ↦ rw no_match (ap (λ t. t.logs) (add_log_event-refused event s no_match))
  | inr match ↦ rw match (ap (λ t. t.logs) (add_log_event-accepted event s match))
]
