-- ===== src/Policy/Hashes.antt =====
-- The hashes that the server makes are accepted.
use Prim.Native.Char.{Char}
use Prim.Native.String.{[], ◌∷◌}
use access_control.Base.{String, ◌≡◌, refl, true, false, some, arith, eq_refl}
use access_control.Text.{append, is_empty}
use access_control.Text.Trim.{NoChars}
use access_control.Text.DotNet.{map_chars}
use access_control.Policy.Pins.{is_delimiter, split, verify_pin_hash, hash_pin_with_salt}

split-append :
    (salt hash : String)
    → NoChars is_delimiter salt
    → split (append salt (append ":" hash)) ≡ some (salt, hash)
unfolding split
split-append [] hash h = refl
split-append (c ∷ salt) hash (here, h) = rw (split-append salt hash h, here) refl

is_empty-append : (s t : String) → is_empty t ≡ false → is_empty (append s t) ≡ false
is_empty-append [] t h = h
is_empty-append (c ∷ s) t h = refl

module _ (sha256_hex : String → String) (upper : Char → Char) where
  -- A PIN is accepted for the hash that is made of it with a salt, where the salt is not empty and
  -- has no delimiter, the PIN is not empty, and no hash is empty.
  verify_pin_hash-hash_pin_with_salt :
      (pin salt : String)
      → ((s : String) → is_empty (sha256_hex s) ≡ false)
      → is_empty pin ≡ false
      → is_empty salt ≡ false
      → NoChars is_delimiter salt
      → verify_pin_hash sha256_hex upper pin (hash_pin_with_salt sha256_hex upper pin salt) ≡ true
  unfolding verify_pin_hash
  verify_pin_hash-hash_pin_with_salt pin salt hashes some_pin some_salt plain =
      let hash : String = sha256_hex (append salt pin) in
      ground (
        arith,
        some_pin,
        some_salt,
        hashes (append salt pin),
        is_empty-append salt (append ":" hash) refl,
        split-append salt hash plain,
        eq_refl (map_chars upper hash),
      )
