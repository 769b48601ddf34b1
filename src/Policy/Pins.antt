-- ===== src/Policy/Pins.antt =====
-- Which PINs a credential accepts, the second half of
-- src/CodeMaster.Engine/Services/AccessPolicyEvaluator.cs. The hash SHA-256 of a text, as lower-case
-- hexadecimal digits, and the upper case of a character are arguments, as .NET computes them.
use mathlib.Core.Option
use Prim.Native.Char.{Char, code}
use Prim.Native.String.{[], ◌∷◌}
use access_control.Base.{
  String, ◌≡◌, Bool, true, false, not, ◌&&◌, ◌||◌, Option, none, some, nat_eq, if◌then◌else◌, ◌==◌,
  arith, eq_refl,
}
use access_control.Text.{append, is_empty}
use access_control.Text.DotNet.{map_chars, same_text}

pub record StoredCredential : Type 0 where
  pub encrypted_value : Option String
  pub hashed_value : String

-- The delimiters `:` and `$`.
abbrev pub is_delimiter : Char → Bool
is_delimiter c = nat_eq (code c) b':' || nat_eq (code c) b'$'

-- What stands before the first delimiter and what stands after it.
unfoldable pub split : String → Option (String × String)
split [] = none
split (c ∷ s) =
    let rest = split s in
    if is_delimiter c
    then some ([], s)
    else Option.map (λ (parts : String × String). (c ∷ parts.0, parts.1)) rest

module _ (sha256_hex : String → String) (upper : Char → Char) where
  abbrev pub verify_parts : String → Option (String × String) → Bool
  verify_parts pin none = false
  verify_parts pin (some (part1, part2)) =
      not (is_empty part1)
      && not (is_empty part2)
      && (same_text upper (sha256_hex (append part1 pin)) part2
          || same_text upper (sha256_hex (append pin part1)) part2
          || same_text upper (sha256_hex (append part2 pin)) part1
          || same_text upper (sha256_hex (append pin part2)) part1)

  unfoldable pub verify_pin_hash : String → String → Bool
  verify_pin_hash pin stored_hash =
      if is_empty pin || is_empty stored_hash
      then false
      else if same_text upper pin stored_hash
      then true
      else if same_text upper (sha256_hex pin) stored_hash
      then true
      else verify_parts pin (split stored_hash)

  -- `!string.IsNullOrEmpty(s) && string.Equals(pin, s, StringComparison.Ordinal)`
  abbrev pub is_given : String → Option String → Bool
  is_given pin none = false
  is_given pin (some s) = not (is_empty s) && pin == s

  unfoldable pub verify_pin : String → StoredCredential → Bool
  verify_pin pin credential =
      if is_empty pin
      then false
      else if not (is_empty credential.hashed_value) && verify_pin_hash pin credential.hashed_value
      then true
      else is_given pin credential.encrypted_value

  abbrev pub hash_pin_with_salt : String → String → String
  hash_pin_with_salt pin salt = append salt (append ":" (sha256_hex (append salt pin)))

  -- A stored hash is itself accepted as the PIN, in either case of its letters: whoever reads the
  -- hashes can enter.
  hash_as_pin :
      (hash : String) (encrypted : Option String)
      → is_empty hash ≡ false
      → verify_pin hash (record { encrypted_value = encrypted; hashed_value = hash }) ≡ true
  unfolding verify_pin verify_pin_hash
  hash_as_pin hash encrypted some_hash = ground (arith, some_hash, eq_refl (map_chars upper hash))
