-- ===== src/Registry/Unassigned.antt =====
-- What a policy that is saved for a user changes: no assignment is made for it.
use Prim.Native.Char.{Char}
use mathlib.Core.Path.{fun_ext}
use access_control.Base.{
  ℕ, String, ◌≡◌, refl, sym, ap, subst, ◌∙◌, Bool, true, false, none, List, [], ◌∷◌, ◌++◌, All,
  keep, keep-append, by_key, eq_iff, arith, Bool-cases, inl, inr,
}
use access_control.Text.DotNet.{is_null_or_white_space}
use access_control.Policy.{ServerPolicy}
use access_control.Policy.Evaluation.{policy_key}
use access_control.Policy.Keypad.{evaluate_async}
use access_control.Registry.{
  UserRow, CredentialRow, AssignmentRow, Db, user_key, has_user, has_policy, refers, insert_policy,
  update_policy, is_for, is_at, group_of, joined, copies, joined_rows, policies_by_user,
  policies_by_access_point,
}
use access_control.Registry.Actions.{Answer, done, bound_id, with_id, save_policy}
use access_control.Registry.Entry.{members, enter}
use access_control.Registry.Rows.{update_key-Lacks}
use access_control.Registry.Statements.{IsKeyed}

-- No assignment is of a policy that is not there.
joined-unknown :
    (test : AssignmentRow → Bool) (db : Db) (id : String) (rows : List AssignmentRow)
    → has_policy db id ≡ false
    → All (λ a. refers db a ≡ true) rows
    → joined test rows id ≡ false
joined-unknown test db id [] absent h = refl
joined-unknown test db id (a ∷ rows) absent (sound, h) =
    ground (arith, absent, sound, eq_iff a.policy_id id, joined-unknown test db id rows absent h)

copies-unknown :
    (test : AssignmentRow → Bool) (db : Db) (p : ServerPolicy) (rows : List AssignmentRow)
    → has_policy db p.id ≡ false
    → All (λ a. refers db a ≡ true) rows
    → copies test rows p ≡ []
copies-unknown test db p [] absent h = refl
copies-unknown test db p (a ∷ rows) absent (sound, h) =
    ground (arith, absent, sound, eq_iff a.policy_id p.id, copies-unknown test db p rows absent h)

joined_rows-append :
    (test : AssignmentRow → Bool) (rows : List AssignmentRow) (p : ServerPolicy)
    (ps : List ServerPolicy)
    → copies test rows p ≡ []
    → joined_rows test rows (ps ++ p ∷ []) ≡ joined_rows test rows ps
joined_rows-append test rows p [] none_of = rw none_of refl
joined_rows-append test rows p (q ∷ ps) none_of =
    ap (λ rest. copies test rows q ++ rest) (joined_rows-append test rows p ps none_of)

abbrev with_policy : ServerPolicy → Db → Db
with_policy p db = record db { policies = db.policies ++ p ∷ [] }

policies_by_user-with_policy :
    (p : ServerPolicy) (db : Db) (id : String)
    → IsKeyed db
    → has_policy db p.id ≡ false
    → policies_by_user id (with_policy p db) ≡ policies_by_user id db
unfolding policies_by_user
policies_by_user-with_policy p db id h absent =
    let test : AssignmentRow → Bool = is_for id (group_of (by_key user_key id db.users)) in
    keep-append (λ q. joined test db.assignments q.id) db.policies (p ∷ [])
    ∙ rw (joined-unknown test db p.id db.assignments absent h.referring)
        (append-nil (keep (λ q. joined test db.assignments q.id) db.policies))
  where
    append-nil : (ps : List ServerPolicy) → ps ++ [] ≡ ps
    append-nil [] = refl
    append-nil (q ∷ ps) = ap (λ rest. q ∷ rest) (append-nil ps)

policies_by_access_point-with_policy :
    (p : ServerPolicy) (db : Db) (access_point : String)
    → IsKeyed db
    → has_policy db p.id ≡ false
    → policies_by_access_point access_point (with_policy p db)
      ≡ policies_by_access_point access_point db
unfolding policies_by_access_point
policies_by_access_point-with_policy p db access_point h absent =
    joined_rows-append (is_at access_point) db.assignments p db.policies
      (copies-unknown (is_at access_point) db p db.assignments absent h.referring)

-- What saving leaves: the tables as they were, or with the policy in no assignment.
save_policy-after :
    (id : String) (p : ServerPolicy) (new_id : String) (db : Db) (Good : Db → Type 0)
    → has_user db id ≡ true
    → has_policy db (with_id new_id p).id ≡ false
    → Good db
    → Good (with_policy (with_id new_id p) db)
    → ((save_policy id p new_id db).1 ≡ done (with_id new_id p))
      × Good (save_policy id p new_id db).0
unfolding save_policy insert_policy update_policy
save_policy-after id p new_id db Good known absent same added =
    elim (Bool-cases (is_null_or_white_space p.id)) [
      | inl blank ↦
          let absent' : has_policy db new_id ≡ false = rw blank at absent in
          rw (known, blank, absent') (refl, rw blank at added)
      | inr given ↦
          let absent' : has_policy db p.id ≡ false = rw given at absent in
          rw (known, given)
            (
              refl,
              subst (λ (rows : List ServerPolicy). Good (record db { policies = rows }))
                  (sym (update_key-Lacks policy_key p.id (λ _. p) db.policies absent')) same,
            )
    ]

module _ (sha256_hex : String → String) (upper : Char → Char)
    (by_name : List UserRow → List UserRow)
    (by_created : List CredentialRow → List CredentialRow) where
  enter-with_policy :
      (p : ServerPolicy) (db : Db) (code : String) (utc : ℕ) (access_point : String)
      → IsKeyed db
      → has_policy db p.id ≡ false
      → enter sha256_hex upper by_name by_created code utc access_point (with_policy p db)
        ≡ enter sha256_hex upper by_name by_created code utc access_point db
  unfolding enter
  enter-with_policy p db code utc access_point h absent =
      let listed = members sha256_hex upper by_name by_created db in
      ap
        (λ of_user.
          evaluate_async sha256_hex upper code utc listed of_user
            (policies_by_access_point access_point (with_policy p db)))
        (fun_ext (λ id. policies_by_user-with_policy p db id h absent))
      ∙ ap (evaluate_async sha256_hex upper code utc listed (λ id. policies_by_user id db))
          (policies_by_access_point-with_policy p db access_point h absent)

  -- A new schedule that is saved for a user does nothing at a keypad: the action answers that it is
  -- saved, and every PIN at every access point and time gets the answer that it got before, and the
  -- user's policies are the same. The user exists, the saved policy's id is that of no other, and the
  -- tables keep the keys of the schema.
  pub save_policy-enter :
      (id : String) (p : ServerPolicy) (new_id : String) (db : Db) (code : String) (utc : ℕ)
      (access_point : String)
      → IsKeyed db
      → has_user db id ≡ true
      → has_policy db (with_id new_id p).id ≡ false
      → ((save_policy id p new_id db).1 ≡ done (with_id new_id p))
        × (enter sha256_hex upper by_name by_created code utc access_point
              (save_policy id p new_id db).0
            ≡ enter sha256_hex upper by_name by_created code utc access_point db)
        × (policies_by_user id (save_policy id p new_id db).0 ≡ policies_by_user id db)
  save_policy-enter id p new_id db code utc access_point h known absent =
      let saved : ServerPolicy = with_id new_id p in
      let (answer, (same, listed)) =
        save_policy-after id p new_id db
          (λ after.
            (enter sha256_hex upper by_name by_created code utc access_point after
              ≡ enter sha256_hex upper by_name by_created code utc access_point db)
            × (policies_by_user id after ≡ policies_by_user id db))
          known absent (refl, refl)
          (
            enter-with_policy saved db code utc access_point h absent,
            policies_by_user-with_policy saved db id h absent,
          ) in
      (answer, same, listed)

abbrev after_saving : Db → ServerPolicy → List ServerPolicy → Db × Answer ServerPolicy
after_saving db p rows = (record db { policies = rows }, done p)

-- A policy that is sent without an id, as the page sends it, is answered as saved and stored nowhere:
-- it is given a new id before the action looks for one, and so the action updates a row that is not
-- there. The user exists, and the new id is not blank and that of no policy.
pub saved_without_id :
    (id : String) (p : ServerPolicy) (new_id other_id : String) (db : Db)
    → has_user db id ≡ true
    → is_null_or_white_space new_id ≡ false
    → has_policy db new_id ≡ false
    → save_policy id (record p { id = bound_id new_id none }) other_id db
      ≡ (db, done (record p { id = new_id }))
unfolding save_policy update_policy
saved_without_id id p new_id other_id db known given absent =
    rw (known, given)
      (ap (after_saving db (record p { id = new_id }))
        (update_key-Lacks policy_key new_id (λ _. record p { id = new_id }) db.policies absent))
