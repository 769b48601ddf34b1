-- ===== src/Registry/Forgotten.antt =====
-- What is left of a user after the deletion.
use access_control.Base.{
  ℕ, map, ap, All, String, ◌≡◌, refl, Bool, true, false, not, Option, none, some, List, [], ◌∷◌,
  keep, by_key, by_key-without_key, is_id, ◌==◌, eq_iff, eq_refl, arith, ◌∙◌,
}
use access_control.Policy.{ServerPolicy}
use access_control.Registry.{
  CredentialRow, AssignmentRow, Db, user_key, has_user, delete_user, credentials_of, is_for, joined,
  policies_by_user, DoorSlot, set_null, without_gone, is_owned,
}
use access_control.Slots.{SlotSyncStatus}
use access_control.Registry.Actions.{no_content, delete}

keep-none {ℓ} :
    {A : Type ℓ} (p : A → Bool) (none_of : (x : A) → p x ≡ false) (xs : List A) → keep p xs ≡ []
keep-none p none_of [] = refl
keep-none p none_of (x ∷ xs) = ground (arith, none_of x, keep-none p none_of xs)

credentials-dropped :
    (id : String) (rows : List CredentialRow)
    → keep (λ c. c.user_id == id) (keep (λ c. not (c.user_id == id)) rows) ≡ []
credentials-dropped id [] = refl
credentials-dropped id (c ∷ rows) = ground (arith, credentials-dropped id rows)

credentials-others :
    (id other : String) (rows : List CredentialRow)
    → (id == other) ≡ false
    → keep (λ c. c.user_id == other) (keep (λ c. not (c.user_id == id)) rows)
      ≡ keep (λ c. c.user_id == other) rows
credentials-others id other [] apart = refl
credentials-others id other (c ∷ rows) apart = ground (
  arith,
  apart,
  eq_iff c.user_id id,
  eq_iff c.user_id other,
  eq_iff id other,
  credentials-others id other rows apart,
)

is_for-nobody : (id : String) (a : AssignmentRow) → is_for id none a ≡ is_id a.user_id id
is_for-nobody id a = go a.group_id
  where
    go :
        (group : Option String)
        → is_for id none (record a { group_id = group }) ≡ is_id a.user_id id
    go none = ground arith
    go (some g) = ground arith

joined-dropped :
    (id policy : String) (rows : List AssignmentRow)
    → joined (is_for id none) (keep (λ a. not (is_id a.user_id id)) rows) policy ≡ false
joined-dropped id policy [] = refl
joined-dropped id policy (a ∷ rows) =
    ground (arith, is_for-nobody id a, joined-dropped id policy rows)

abbrev pub place : DoorSlot → String × ℕ × SlotSyncStatus
place r = (r.access_point_id, r.slot.slot_number, r.slot.sync_status)

places-kept :
    (no_user no_credential : String → Bool) (rows : List DoorSlot)
    → map place (map (set_null no_user no_credential) rows) ≡ map place rows
places-kept no_user no_credential [] = refl
places-kept no_user no_credential (r ∷ rows) =
    ap (λ rest. place r ∷ rest) (places-kept no_user no_credential rows)

without_gone-is_id :
    (id : String) (o : Option String) → is_id (without_gone (λ user. user == id) o) id ≡ false
without_gone-is_id id none = refl
without_gone-is_id id (some user) = ground arith

users-gone :
    (id : String) (no_credential : String → Bool) (rows : List DoorSlot)
    → All
        (λ r. is_id r.slot.user_id id ≡ false)
        (map (set_null (λ user. user == id) no_credential) rows)
users-gone id no_credential [] = tt
users-gone id no_credential (r ∷ rows) =
    (without_gone-is_id id r.slot.user_id, users-gone id no_credential rows)

-- A user who exists and is deleted: the action answers that there is no content, the id is no user's,
-- there are no credentials under it, no policies are the user's, through a group neither, and no slot
-- has the user; every other user's credentials are as they were. The policies themselves stay, and so
-- do all slots, each with its number and its status.
pub delete-forgotten :
    (id other : String) (db : Db)
    → has_user db id ≡ true
    → (id == other) ≡ false
    → ((delete id db).1 ≡ no_content)
      × (has_user (delete id db).0 id ≡ false)
      × (credentials_of id (delete id db).0 ≡ [])
      × (policies_by_user id (delete id db).0 ≡ [])
      × All (λ r. is_id r.slot.user_id id ≡ false) (delete id db).0.slots
      × (credentials_of other (delete id db).0 ≡ credentials_of other db)
      × ((delete id db).0.policies ≡ db.policies)
      × (map place (delete id db).0.slots ≡ map place db.slots)
unfolding delete delete_user policies_by_user
delete-forgotten id other db known apart =
    let gone : by_key user_key id (delete_user id db).users ≡ none =
      by_key-without_key user_key id id db.users ∙ rw (eq_refl id) refl in
    rw (known, gone)
      (
        refl,
        refl,
        credentials-dropped id db.credentials,
        keep-none
            (λ (p : ServerPolicy).
              joined (is_for id none) (keep (λ a. not (is_id a.user_id id)) db.assignments) p.id)
            (λ p. joined-dropped id p.id db.assignments) db.policies,
        users-gone id (is_owned id db.credentials) db.slots,
        credentials-others id other db.credentials apart,
        refl,
        places-kept (λ user. user == id) (is_owned id db.credentials) db.slots,
      )
