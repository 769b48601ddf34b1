-- ===== src/Slots.antt =====
-- The codes in a lock's hardware, src/CodeMaster.Engine/Services/HardwareSlotSyncWorker.cs, with the
-- rows of src/CodeMaster.Data/Repositories/HardwareSlotRepository.cs. A table is the rows of one
-- access point in the order of their numbers, which the schema keeps distinct: a row is known by its
-- number here, where the code uses the row's id. The lock's replies are arguments, and a command to it
-- may throw, which ends the run.
pub mod Linked
pub mod Orphans
pub mod Reconcile
pub mod Released
pub mod Refused
pub mod Revoked
pub mod Rounds
pub mod Sorted
use access_control.Base.{
  ℕ, zero, suc, ◌+◌, String, Bool, true, false, not, ◌&&◌, ◌||◌, Option, none, some, List, [], ◌∷◌,
  ◌++◌, map, keep, find, is_truthy, is_id, given_or, nat_eq, ltb, if◌then◌else◌, ◌==◌,
}
use access_control.Model.{CredentialType, pin, is_pin}
use access_control.Text.{is_empty}
use access_control.Policy.{ServerPolicy, is_active_at}
use access_control.Policy.Evaluation.{candidates}

pub data SlotSyncStatus : Type 0 where
  synced adding deleting error : SlotSyncStatus

pub record Slot : Type 0 where
  pub slot_number : ℕ
  pub user_id : Option String
  pub credential_id : Option String
  pub sync_status : SlotSyncStatus

pub record HeldCredential : Type 0 where
  pub id : String
  pub type : CredentialType
  pub encrypted_value : Option String
  pub hashed_value : String

pub record Holder : Type 0 where
  pub id : String
  pub name : String
  pub is_active : Bool
  pub policies : List ServerPolicy
  pub credentials : List HeldCredential

-- `desiredAssignments`: a user and a credential each
pub record Assignment : Type 0 where
  pub user : Holder
  pub credential : HeldCredential

abbrev pub is_code : HeldCredential → Bool
is_code c = is_pin c.type && (is_truthy c.encrypted_value || not (is_empty c.hashed_value))

-- `policies.Any(p => p.IsEnabled && p.IsActiveAt(now))`
abbrev pub any_active : ℕ → List ServerPolicy → Bool
any_active now [] = false
any_active now (p ∷ ps) =
    let rest = any_active now ps in if p.is_enabled && is_active_at p now then true else rest

abbrev pub assigned : Holder → Option HeldCredential → List Assignment
assigned user none = []
assigned user (some c) = record { user = user; credential = c } ∷ []

abbrev pub assignment_of : ℕ → List ServerPolicy → Holder → List Assignment
assignment_of now of_door user =
    if user.is_active && any_active now (candidates user.policies of_door)
    then assigned user (find is_code user.credentials)
    else []

unfoldable pub desired_assignments : ℕ → List ServerPolicy → List Holder → List Assignment
desired_assignments now of_door [] = []
desired_assignments now of_door (user ∷ users) =
    assignment_of now of_door user ++ desired_assignments now of_door users

-- `d.User.Id == slot.UserId && d.Credential.Id == slot.CredentialId`
abbrev pub is_slot_of : Assignment → Slot → Bool
is_slot_of d slot = is_id slot.user_id d.user.id && is_id slot.credential_id d.credential.id

abbrev pub still_desired : List Assignment → Slot → Bool
still_desired [] slot = false
still_desired (d ∷ ds) slot =
    let rest = still_desired ds slot in if is_slot_of d slot then true else rest

abbrev pub with_status : SlotSyncStatus → Slot → Slot
with_status status slot = record slot { sync_status = status }

-- `ClearSlotAsync`
abbrev pub without_user : Slot → Slot
without_user slot = record slot { user_id = none; credential_id = none }

-- The code sent for a credential.
abbrev pub pin_code : HeldCredential → String
pin_code c = if is_truthy c.encrypted_value then given_or c.encrypted_value "" else c.hashed_value

abbrev pub is_occupied : ℕ → List ℕ → Bool
is_occupied n [] = false
is_occupied n (m ∷ ms) = let rest = is_occupied n ms in if nat_eq m n then true else rest

-- The first number from n on, of as many as the fuel, that is not occupied.
unfoldable pub first_free : ℕ → ℕ → List ℕ → Option ℕ
first_free zero n occupied = none
first_free (suc fuel) n occupied =
    let rest = first_free fuel (n + 1) occupied in if is_occupied n occupied then rest else some n

-- `ON CONFLICT(AccessPointId, SlotNumber) DO UPDATE`, or the new row in its place by number
abbrev pub allocate : Slot → List Slot → List Slot
allocate new [] = new ∷ []
allocate new (slot ∷ slots) =
    let rest = allocate new slots in
    if nat_eq slot.slot_number new.slot_number
    then new ∷ slots
    else if ltb new.slot_number slot.slot_number
    then new ∷ slot ∷ slots
    else slot ∷ rest

-- `UPDATE … WHERE Id = @Id`
abbrev pub update_slot : ℕ → (Slot → Slot) → List Slot → List Slot
update_slot n f slots = map (λ slot. if nat_eq slot.slot_number n then f slot else slot) slots

-- What the lock is told, the last command first.
pub data Command : Type 0 where
  clear_code : ℕ → Command
  set_code : ℕ → String → String → Command

-- What a command to the lock comes to: its answer, or an exception.
pub data Reply : Type 0 where
  answers : Bool → Reply
  throws : Reply

abbrev pub is_throw : Reply → Bool
is_throw (answers ok) = false
is_throw throws = true

abbrev pub is_ok : Reply → Bool
is_ok (answers ok) = ok
is_ok throws = false

-- The rows, `currentSlots`, the commands so far, and whether one has thrown.
pub record Sync : Type 0 where
  pub table : List Slot
  pub current : List Slot
  pub commands : List Command
  pub threw : Bool

abbrev pub is_synced : SlotSyncStatus → Bool
is_synced synced = true
is_synced _ = false

-- A row's status after its code was sent: it is `adding` before.
abbrev pub status_after : Reply → SlotSyncStatus
status_after (answers ok) = if ok then synced else error
status_after throws = adding

-- The row of an obsolete slot after the command to clear it: it is `deleting` before.
abbrev pub row_after : Reply → Slot → Slot
row_after (answers ok) slot =
    if ok then with_status synced (without_user slot) else with_status error slot
row_after throws slot = with_status deleting slot

-- The numbers of the slots that a user has.
abbrev pub occupied_numbers : List Slot → List ℕ
occupied_numbers [] = []
occupied_numbers (slot ∷ slots) =
    let rest = occupied_numbers slots in
    if is_truthy slot.user_id then slot.slot_number ∷ rest else rest

abbrev pub new_slot : ℕ → Assignment → Slot
new_slot n d = record {
  slot_number = n;
  user_id = some d.user.id;
  credential_id = some d.credential.id;
  sync_status = synced;
}
