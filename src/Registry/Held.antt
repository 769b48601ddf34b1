-- ===== src/Registry/Held.antt =====
-- The rows of HardwareSlots still refer to rows that are there.
use access_control.Base.{
  String, ◌≡◌, refl, ◌==◌, Bool, true, false, not, Option, none, some, List, [], ◌∷◌, keep, map,
  All, by_key, without_key, arith, Bool-cases, inl, inr,
}
use access_control.Slots.Linked.{All-map}
use access_control.Registry.{
  UserRow, CredentialRow, DoorSlot, Db, user_key, credential_key, is_some, null_or, has_user,
  has_credential, slot_refers, without_gone, set_null, is_owned, delete_user,
}
use access_control.Registry.Rows.{All-mono, is_some-without_key}

kept_key :
    (gone p q : String → Bool) (h : (id : String) → p id ≡ true → gone id ≡ false → q id ≡ true)
    (o : Option String)
    → null_or o p ≡ true
    → null_or (without_gone gone o) q ≡ true
kept_key gone p q h none e = refl
kept_key gone p q h (some id) e = elim (Bool-cases (gone id)) [
  | inl y ↦ rw y refl
  | inr n ↦ rw n (h id e n)
]

-- After a change of the users and the credentials, with what has gone set to null.
pub set_null-slot_refers :
    (db : Db) (us : List UserRow) (cs : List CredentialRow) (no_user no_credential : String → Bool)
    (hu : (id : String)
      → has_user db id ≡ true
      → no_user id ≡ false
      → is_some (by_key user_key id us) ≡ true)
    (hc : (id : String)
      → has_credential db id ≡ true
      → no_credential id ≡ false
      → is_some (by_key credential_key id cs) ≡ true)
    → All (λ r. slot_refers db r ≡ true) db.slots
    → All
        (λ r. slot_refers (record db { users = us; credentials = cs }) r ≡ true)
        (map (set_null no_user no_credential) db.slots)
set_null-slot_refers db us cs no_user no_credential hu hc h =
    All-map (λ r. slot_refers db r ≡ true)
      (λ r. slot_refers (record db { users = us; credentials = cs }) r ≡ true)
      (set_null no_user no_credential)
      (λ (r : DoorSlot) e. ground (
        arith,
        e,
        kept_key no_user (has_user db) (λ id. is_some (by_key user_key id us)) hu r.slot.user_id,
        kept_key no_credential (has_credential db) (λ id. is_some (by_key credential_key id cs)) hc
            r.slot.credential_id,
      ))
      db.slots h

-- Where rows are only added or changed.
pub slot_refers_mono :
    (db : Db) (us : List UserRow) (cs : List CredentialRow)
    (hu : (id : String) → has_user db id ≡ true → is_some (by_key user_key id us) ≡ true)
    (hc : (id : String)
      → has_credential db id ≡ true
      → is_some (by_key credential_key id cs) ≡ true)
    → All (λ r. slot_refers db r ≡ true) db.slots
    → All (λ r. slot_refers (record db { users = us; credentials = cs }) r ≡ true) db.slots
slot_refers_mono db us cs hu hc h =
    All-mono (λ (r : DoorSlot). slot_refers db r ≡ true)
      (λ r. slot_refers (record db { users = us; credentials = cs }) r ≡ true)
      (λ r e. ground (
        arith,
        e,
        mono (has_user db) (λ id. is_some (by_key user_key id us)) hu r.slot.user_id,
        mono (has_credential db) (λ id. is_some (by_key credential_key id cs)) hc
            r.slot.credential_id,
      ))
      db.slots h
  where
    mono :
        (p q : String → Bool) (k : (id : String) → p id ≡ true → q id ≡ true) (o : Option String)
        → null_or o p ≡ true
        → null_or o q ≡ true
    mono p q k none e = refl
    mono p q k (some id) e = k id e

owned-kept :
    (user id : String) (rows : List CredentialRow)
    → is_some (by_key credential_key id rows) ≡ true
    → is_owned user rows id ≡ false
    → is_some (by_key credential_key id (keep (λ c. not (c.user_id == user)) rows)) ≡ true
owned-kept user id [] e n = cc
owned-kept user id (c ∷ rows) e n = ground (arith, e, n, owned-kept user id rows)

pub delete_user-slot_refers :
    (id : String) (db : Db)
    → All (λ r. slot_refers db r ≡ true) db.slots
    → All (λ r. slot_refers (delete_user id db) r ≡ true) (delete_user id db).slots
unfolding delete_user
delete_user-slot_refers id db h =
    set_null-slot_refers db (without_key user_key id db.users)
      (keep (λ c. not (c.user_id == id)) db.credentials) (λ user. user == id)
      (is_owned id db.credentials) (λ j e n. is_some-without_key user_key j id db.users n e)
      (λ j e n. owned-kept id j db.credentials e n) h
