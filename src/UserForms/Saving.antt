-- ===== src/UserForms/Saving.antt =====
-- Saving a PIN with its schedule, on every outcome of the two calls.
use Prim.Native.Char.{Char}
use access_control.Base.{
  String, ◌≡◌, refl, ◌∙◌, ap, true, false, Option, none, some, List, [], ◌∷◌, ok, err, Outcome,
  arith, by_key, eq_refl, Bool-cases, inl, inr,
}
use access_control.Model.{User, Credential, AccessPolicy, is_pin}
use access_control.Text.{append, is_empty, trim, digits_only, is_digit, is_space}
use access_control.Text.Trim.{AllChars, NoChars, trim_none}
use access_control.Api.Calls.{ApiCall, set_pin}
use access_control.Api.Calls
use access_control.Users.{policy_id, list_at, set_user_pin, save_policy}
use access_control.Users.Records.{pins, set_user_pin-ok, save_policy-ok}
use access_control.UserForms.{
  FormState, Page, pin_replied, send_pin, save_for, handle_save_pin_and_schedule, FormEvent,
  on_event, enter_pin, initial,
}

module _ (user : User) (p : Page) (modal : p.form.pin_modal_user ≡ some user) where
  sent :
      (pin_reply : Outcome Credential) (policy_reply : Outcome AccessPolicy)
      → is_empty (trim p.form.pin_code) ≡ false
      → handle_save_pin_and_schedule pin_reply policy_reply p
        ≡ send_pin user pin_reply policy_reply p
  unfolding handle_save_pin_and_schedule
  sent pin_reply policy_reply given =
      ap (λ u. save_for u pin_reply policy_reply p) modal ∙ (rw given)

  -- The dialog is open for a user and its PIN is not blank: with both calls answered, the first by
  -- a credential of type PIN, the user has the new PIN and no other, and the saved policy; both
  -- requests were made, the PIN's first; the dialog is closed, the code cleared, and the message says
  -- that the PIN is saved for the user; nothing else on the page changed.
  pub save-ok :
      (cred : Credential) (saved : AccessPolicy)
      → is_empty (trim p.form.pin_code) ≡ false
      → is_pin cred.type ≡ true
      → let q = handle_save_pin_and_schedule (ok cred) (ok saved) p in
        (pins (list_at user.id q.store.credentials) ≡ cred ∷ [])
        × (by_key policy_id saved.id (list_at user.id q.store.policies) ≡ some saved)
        × (q.calls
            ≡ Calls.save_policy user.id p.form.policy_data
              ∷ set_pin user.id (trim p.form.pin_code) (some p.form.pin_label)
              ∷ p.calls)
        × (q.form ≡ record p.form {
          pin_modal_user = none;
          pin_code = "";
          status_message = some (append "PIN saved and synced for " user.name);
        })
  unfolding pin_replied save_policy
  save-ok cred saved given pin = rw (sent (ok cred) (ok saved) given) (
    (set_user_pin-ok user.id user.id cred p.store pin).0,
    (save_policy-ok user.id saved.id user.id saved (set_user_pin user.id (ok cred) p.store).0).0
        ∙ (rw (eq_refl saved.id)),
    refl,
    refl,
  )

  -- The dialog is open for a user and its PIN is not blank: if the PIN is saved and the policy is
  -- not, the user has the new PIN and the policies of before,
  -- while the page says that saving the PIN failed and keeps its dialog open.
  pub save-policy_err :
      (cred : Credential) (e : Option String)
      → is_empty (trim p.form.pin_code) ≡ false
      → is_pin cred.type ≡ true
      → let q = handle_save_pin_and_schedule (ok cred) (err e) p in
        (pins (list_at user.id q.store.credentials) ≡ cred ∷ [])
        × (q.store.policies ≡ p.store.policies)
        × (q.form.status_message ≡ some "Failed to save PIN")
        × (q.form.pin_modal_user ≡ some user)
  unfolding pin_replied save_policy set_user_pin
  save-policy_err cred e given pin =
      rw (sent (ok cred) (err e) given)
        ((set_user_pin-ok user.id user.id cred p.store pin).0, refl, refl, modal)

  -- The dialog is open for a user and its PIN is not blank: if the PIN is not saved no policy is
  -- sent, credentials and policies are as they were, and the page says so with its dialog open.
  save-pin_err :
      (e : Option String) (reply : Outcome AccessPolicy)
      → is_empty (trim p.form.pin_code) ≡ false
      → let q = handle_save_pin_and_schedule (err e) reply p in
        (q.calls ≡ set_pin user.id (trim p.form.pin_code) (some p.form.pin_label) ∷ p.calls)
        × (q.store.credentials ≡ p.store.credentials)
        × (q.store.policies ≡ p.store.policies)
        × (q.form.status_message ≡ some "Failed to save PIN")
        × (q.form.pin_modal_user ≡ some user)
  unfolding pin_replied set_user_pin
  save-pin_err e reply given = rw (sent (err e) reply given) (refl, refl, refl, refl, modal)

-- A page whose code is digits alone.
abbrev pub IsDigits : FormState → Type 0
IsDigits f = AllChars is_digit f.pin_code

digits_only-AllChars : (s : String) → AllChars is_digit (digits_only s)
unfolding digits_only
digits_only-AllChars String.[] = tt
digits_only-AllChars (String.◌∷◌ c s) = elim (Bool-cases (is_digit c)) [
  | inl digit ↦ rw digit (digit, digits_only-AllChars s)
  | inr other ↦ rw other (digits_only-AllChars s)
]

on_event-IsDigits : (e : FormEvent) (f : FormState) → IsDigits f → IsDigits (on_event e f)
unfolding on_event
on_event-IsDigits (enter_pin text) f h = digits_only-AllChars text
on_event-IsDigits _ f h = h

abbrev pub run : List FormEvent → FormState → FormState
run [] f = f
run (e ∷ es) f = run es (on_event e f)

run-IsDigits : (es : List FormEvent) (f : FormState) → IsDigits f → IsDigits (run es f)
run-IsDigits [] f h = h
run-IsDigits (e ∷ es) f h = run-IsDigits es (on_event e f) (on_event-IsDigits e f h)

-- No character that passes the test is a space.
digit_not_space : (c : Char) → is_digit c ≡ true → is_space c ≡ false
unfolding is_space
digit_not_space c h = ground arith

digits-NoChars : (s : String) → AllChars is_digit s → NoChars is_space s
digits-NoChars String.[] h = tt
digits-NoChars (String.◌∷◌ c s) (here, h) = (digit_not_space c here, digits-NoChars s h)

trim-digits : (s : String) → AllChars is_digit s → trim s ≡ s
trim-digits s h = trim_none s (digits-NoChars s h)

-- Whatever is typed and pressed on the page, the code that a save sends is the code that the page
-- holds, and it is of digits alone: trimming it removes nothing.
pin_code_digits :
    (es : List FormEvent)
    → AllChars is_digit (run es initial).pin_code
      × (trim (run es initial).pin_code ≡ (run es initial).pin_code)
pin_code_digits es =
    let digits = run-IsDigits es initial tt in
    (digits, trim-digits (run es initial).pin_code digits)
