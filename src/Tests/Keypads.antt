-- ===== src/Tests/Keypads.antt =====
-- Examples of PINs entered at a keypad. In place of SHA-256 stands a text that shows what it was
-- taken of, and letters have no case.
use Prim.Native.Char.{Char}
use access_control.Base.{String, ◌≡◌, refl, Bool, true, none, [], ◌∷◌}
use access_control.Text.{append}
use access_control.Text.DotNet.{map_chars, is_null_or_white_space, is_white_space}
use access_control.Policy.{ServerPolicy, is_active_at, is_day_of_week_active, window_active}
use access_control.Policy.Evaluation.{evaluate, candidates}
use access_control.Policy.Pins.{verify_pin, verify_pin_hash, split}
use access_control.Policy.Keypad.{Member, any_verifies, evaluate_async, new_credential, set_pin}
use access_control.Policy.Admission.{evaluate_async-granted, set_pin-any_verifies}
use access_control.Tests.Policies.{at_night}

abbrev pub digest : String → String
digest s = append "#" s

abbrev pub no_case : Char → Char
no_case c = c

abbrev member : String → Bool → String → Member
member id active pin = record {
  id = id;
  is_active = active;
  credentials = new_credential digest no_case pin ∷ [];
}

abbrev pub always_on : ServerPolicy
always_on = record at_night { days_of_week = 127; start_time = none; end_time = none }

evaluate_async-granted_example :
    any_verifies digest no_case "1234" (member "ann" true "1234").credentials ≡ true
unfolding evaluate_async any_verifies verify_pin verify_pin_hash map_chars is_null_or_white_space
    is_white_space evaluate candidates is_active_at split is_day_of_week_active window_active
evaluate_async-granted_example =
    (evaluate_async-granted digest no_case "1234" 5
      (member "bob" true "9999" ∷ member "ann" true "1234" ∷ []) (λ id. always_on ∷ []) []
      (member "ann" true "1234") (record { of_user = always_on ∷ []; of_door = [] }) always_on
      refl).1

set_pin-any_verifies_example :
    any_verifies digest no_case "5678"
      (record (member "ann" true "1234") {
        credentials =
            new_credential digest no_case "1234" ∷ new_credential digest no_case "5678" ∷ [];
      }).credentials
    ≡ true
unfolding set_pin is_null_or_white_space is_white_space
set_pin-any_verifies_example =
    (set_pin-any_verifies digest no_case "5678" "1234" (member "ann" true "1234")
      (record (member "ann" true "1234") {
        credentials =
            new_credential digest no_case "1234" ∷ new_credential digest no_case "5678" ∷ [];
      })
      refl).0
