-- ===== src/Policy/Keypad.antt =====
-- A PIN that is entered at a keypad, from src/CodeMaster.Engine/Services/AccessPolicyEvaluator.cs:
-- the user that it finds and the whole of `EvaluateAsync`; and the credential that `SetPin` of
-- src/CodeMaster.Web/Controllers/UsersController.cs adds. The storage's rows are arguments: the
-- users, by name, each with the credentials, and the policies of a user and of the access point.
use Prim.Native.Char.{Char}
use access_control.Base.{
  ℕ, String, Bool, true, false, not, Option, none, some, List, [], ◌∷◌, ◌++◌, find, if◌then◌else◌,
}
use access_control.Text.DotNet.{is_null_or_white_space}
use access_control.Policy.{ServerPolicy}
use access_control.Policy.Evaluation.{Table, Verdict, evaluate}
use access_control.Policy.Pins.{StoredCredential, verify_pin}

-- A user of the server, with the credentials.
pub record Member : Type 0 where
  pub id : String
  pub is_active : Bool
  pub credentials : List StoredCredential

pub data Entry : Type 0 where
  no_pin invalid_pin : Entry
  inactive_user : Member → Entry
  judged : Member → Table × Verdict → Entry

module _ (sha256_hex : String → String) (upper : Char → Char) where
  -- The inner loop over the credentials, which stops at the first that the PIN fits.
  unfoldable pub any_verifies : String → List StoredCredential → Bool
  any_verifies pin [] = false
  any_verifies pin (c ∷ cs) =
      let rest = any_verifies pin cs in if verify_pin sha256_hex upper pin c then true else rest

  -- The outer loop, over the users.
  abbrev pub find_member : String → List Member → Option Member
  find_member pin members = find (λ u. any_verifies pin u.credentials) members

  abbrev pub judge : ℕ → (String → List ServerPolicy) → List ServerPolicy → Option Member → Entry
  judge utc policies of_door none = invalid_pin
  judge utc policies of_door (some u) =
      if not u.is_active
      then inactive_user u
      else judged u (evaluate utc (record { of_user = policies u.id; of_door = of_door }))

  unfoldable pub evaluate_async :
      String → ℕ → List Member → (String → List ServerPolicy) → List ServerPolicy → Entry
  evaluate_async pin utc members policies of_door =
      if is_null_or_white_space pin
      then no_pin
      else judge utc policies of_door (find_member pin members)

  abbrev pub new_credential : String → StoredCredential
  new_credential pin = record { encrypted_value = some pin; hashed_value = sha256_hex pin }

  -- The storage lists the new credential with the user's others.
  unfoldable pub set_pin : String → Member → Option Member
  set_pin pin u =
      if is_null_or_white_space pin
      then none
      else some (record u { credentials = u.credentials ++ new_credential pin ∷ [] })
