-- ===== src/Policy/Admission.antt =====
-- Who is let in at a keypad, and what a new PIN changes.
use Prim.Native.Char.{Char}
use Prim.Native.String.{[] as empty, ◌∷◌ as ◌∷∷◌}
use mathlib.Core.Logic.Or
use mathlib.Core.List.{Mem, Mem-prop, mem-cons_self, eq-or-mem_of_mem-cons, mem-cons_of_mem}
use access_control.Base.{
  ℕ, String, ◌≡◌, refl, sym, ap, ◌∙◌, Bool, true, false, not, ◌&&◌, ◌||◌, Option, none, some, List,
  [], ◌∷◌, ◌++◌, find, find-some, keep, if◌then◌else◌, arith, Bool-cases, Option-cases, inl, inr,
  ◌⊎◌, some_inj, eq_refl, subst,
}
use access_control.Schedule.{is_one_time}
use access_control.Text.DotNet.{is_null_or_white_space}
use access_control.Policy.{ServerPolicy, is_active_at}
use access_control.Policy.Evaluation.{
  Table, Verdict, granted, has_id, or_all, candidates, take_use, grant, first_active, evaluate,
}
use access_control.Policy.Pins.{StoredCredential, verify_pin}
use access_control.Policy.Keypad.{
  Member, inactive_user, judged, any_verifies, find_member, judge, evaluate_async, new_credential,
  set_pin,
}

keep-Mem {ℓ} : {A : Type ℓ} (p : A → Bool) (xs : List A) (a : A) → Mem a (keep p xs) → Mem a xs
keep-Mem p [] a m = m
keep-Mem p (x ∷ xs) a m = elim (Bool-cases (p x)) [
  | inl kept ↦
      let m' : Mem a (x ∷ keep p xs) = rw kept at m in
      Or.elim Mem-prop (eq-or-mem_of_mem-cons m')
        (λ e. subst (λ z. Mem z (x ∷ xs)) (sym e) mem-cons_self)
        (λ r. mem-cons_of_mem x (keep-Mem p xs a r))
  | inr dropped ↦
      let m' : Mem a (keep p xs) = rw dropped at m in mem-cons_of_mem x (keep-Mem p xs a m')
]

or_all-Mem :
    (q : ServerPolicy) (some_of all : List ServerPolicy)
    → (Mem q some_of → Mem q all)
    → Mem q (or_all some_of all)
    → Mem q all
or_all-Mem q [] all h m = m
or_all-Mem q (p ∷ ps) all h m = h m

candidates-Mem :
    (q : ServerPolicy) (of_user of_door : List ServerPolicy)
    → Mem q (candidates of_user of_door)
    → Mem q of_user ⊎ Mem q of_door
unfolding candidates
candidates-Mem q [] of_door m = inr m
candidates-Mem q (u ∷ us) [] m = inl m
candidates-Mem q (u ∷ us) (d ∷ ds) m =
    let shared : List ServerPolicy = keep (λ p. has_id p.id (d ∷ ds)) (u ∷ us) in
    inl (or_all-Mem q shared (u ∷ us) (keep-Mem (λ p. has_id p.id (d ∷ ds)) (u ∷ us) q) m)

-- A policy that lets in: enabled and active, of the user or of the access point; the verdict names
-- it, with one use less where it is a pass.
pub record Admits (utc : ℕ) (t : Table) (shown : ServerPolicy) : Type 0 where
  pub policy : ServerPolicy
  pub listed : Mem policy t.of_user ⊎ Mem policy t.of_door
  pub enabled : policy.is_enabled ≡ true
  pub active : is_active_at policy utc ≡ true
  pub result : shown ≡ (if is_one_time policy.schedule_type then take_use policy else policy)

grant-granted :
    (q shown : ServerPolicy) (t : Table)
    → (grant q t).1 ≡ granted shown
    → shown ≡ (if is_one_time q.schedule_type then take_use q else q)
grant-granted q shown t e = elim (Bool-cases (is_one_time q.schedule_type)) [
  | inl pass ↦ rw pass (granted_inj shown (take_use q) (sym (rw pass at e)))
  | inr other ↦ rw other (granted_inj shown q (sym (rw other at e)))
]
  where
    granted_inj : (a b : ServerPolicy) → granted a ≡ granted b → a ≡ b
    granted_inj a b h = cc

first_active-granted :
    (utc : ℕ) (t : Table) (shown : ServerPolicy) (ps : List ServerPolicy)
    → ((q : ServerPolicy) → Mem q ps → Mem q t.of_user ⊎ Mem q t.of_door)
    → (first_active ps utc t).1 ≡ granted shown
    → Admits utc t shown
first_active-granted utc t shown [] from e = cc
first_active-granted utc t shown (p ∷ ps) from e =
    elim (Option-cases (find (λ q. q.is_enabled && is_active_at q utc) (p ∷ ps))) [
      | inl nothing ↦ cc
      | inr (q, found) ↦
          let (m, holds) = find-some (λ x. x.is_enabled && is_active_at x utc) (p ∷ ps) q found in
          let e' : (grant q t).1 ≡ granted shown = rw found at e in
          record {
            policy = q;
            listed = from q m;
            enabled = ground (arith, holds);
            active = ground (arith, holds);
            result = grant-granted q shown t e';
          }
    ]

evaluate-granted :
    (utc : ℕ) (t : Table) (shown : ServerPolicy)
    → (evaluate utc t).1 ≡ granted shown
    → Admits utc t shown
unfolding evaluate
evaluate-granted utc t shown e =
    first_active-granted utc t shown (candidates t.of_user t.of_door)
      (λ q. candidates-Mem q t.of_user t.of_door) e

judged_inj : (u v : Member) (a b : Table × Verdict) → judged u a ≡ judged v b → (u ≡ v) × (a ≡ b)
judged_inj u v a b h = (cc, cc)

module _ (sha256_hex : String → String) (upper : Char → Char) where
  judge-granted :
      (utc : ℕ) (policies : String → List ServerPolicy) (of_door : List ServerPolicy)
      (found : Option Member) (u : Member) (t : Table) (shown : ServerPolicy)
      → judge sha256_hex upper utc policies of_door found ≡ judged u (t, granted shown)
      → (found ≡ some u)
        × (u.is_active ≡ true)
        × Admits utc (record { of_user = policies u.id; of_door = of_door }) shown
  judge-granted utc policies of_door none u t shown e = cc
  judge-granted utc policies of_door (some v) u t shown e = elim (Bool-cases v.is_active) [
    | inl active ↦
        let table : Table = record { of_user = policies v.id; of_door = of_door } in
        let e' : judged v (evaluate utc table) ≡ judged u (t, granted shown) =
          ap (λ (b : Bool). if not b then inactive_user v else judged v (evaluate utc table))
            (sym active)
          ∙ e in
        let (same, verdict) = judged_inj v u (evaluate utc table) (t, granted shown) e' in
        let admits : Admits utc table shown =
          evaluate-granted utc table shown (ap (λ (r : Table × Verdict). r.1) verdict) in
        subst
          (λ w.
            (some v ≡ some w)
            × (w.is_active ≡ true)
            × Admits utc (record { of_user = policies w.id; of_door = of_door }) shown)
          same (refl, active, admits)
    | inr inactive_one ↦ ground (arith, e, inactive_one)
  ]

  -- No one gets in but by a PIN of an active user, under a policy that is enabled and active: where
  -- the keypad's PIN is granted to a user, the user is one of those listed, is active and has a
  -- credential that accepts the PIN, the PIN is not blank, and the policy is the user's or the
  -- access point's, with one use less shown where it is a pass.
  pub evaluate_async-granted :
      (pin : String) (utc : ℕ) (members : List Member) (policies : String → List ServerPolicy)
      (of_door : List ServerPolicy) (u : Member) (t : Table) (shown : ServerPolicy)
      → evaluate_async sha256_hex upper pin utc members policies of_door
        ≡ judged u (t, granted shown)
      → Mem u members
        × (any_verifies sha256_hex upper pin u.credentials ≡ true)
        × (u.is_active ≡ true)
        × (is_null_or_white_space pin ≡ false)
        × Admits utc (record { of_user = policies u.id; of_door = of_door }) shown
  unfolding evaluate_async
  evaluate_async-granted pin utc members policies of_door u t shown e =
      elim (Bool-cases (is_null_or_white_space pin)) [
        | inl blank ↦ ground (arith, e, blank)
        | inr given ↦
            let found = find_member sha256_hex upper pin members in
            let e' : judge sha256_hex upper utc policies of_door found
                ≡ judged u (t, granted shown) =
              rw given at e in
            let (same, active, admits) = judge-granted utc policies of_door found u t shown e' in
            let (m, fits) =
              find-some (λ w. any_verifies sha256_hex upper pin w.credentials) members u same in
            (m, fits, active, given, admits)
      ]

  -- An inactive user who has the PIN and is listed first keeps out every other user with that PIN:
  -- the entry is denied whoever is listed after, active and with any policies.
  inactive_hides :
      (pin : String) (utc : ℕ) (u : Member) (members : List Member)
      (policies : String → List ServerPolicy) (of_door : List ServerPolicy)
      → is_null_or_white_space pin ≡ false
      → any_verifies sha256_hex upper pin u.credentials ≡ true
      → u.is_active ≡ false
      → evaluate_async sha256_hex upper pin utc (u ∷ members) policies of_door ≡ inactive_user u
  unfolding evaluate_async
  inactive_hides pin utc u members policies of_door given fits off = rw (given, fits, off) refl

  or_true : (b : Bool) → (b || true) ≡ true
  or_true b = ground arith

  verifies_new :
      (new : String)
      → is_null_or_white_space new ≡ false
      → verify_pin sha256_hex upper new (new_credential sha256_hex upper new) ≡ true
  unfolding verify_pin is_null_or_white_space
  verifies_new empty given = cc
  verifies_new (c ∷∷ s) given = ground (arith, eq_refl (c ∷∷ s))

  any_verifies-append :
      (pin : String) (cs : List StoredCredential) (c : StoredCredential)
      → any_verifies sha256_hex upper pin (cs ++ c ∷ [])
        ≡ (any_verifies sha256_hex upper pin cs || verify_pin sha256_hex upper pin c)
  unfolding any_verifies
  any_verifies-append pin [] c = ground arith
  any_verifies-append pin (x ∷ cs) c = ground (arith, any_verifies-append pin cs c)

  -- A new PIN does not replace the old ones: a user whose PIN was set anew is found by the new one,
  -- and still by each PIN that found the user before; by any other PIN only where the new
  -- credential accepts it.
  pub set_pin-any_verifies :
      (new pin : String) (u v : Member)
      → set_pin sha256_hex upper new u ≡ some v
      → (any_verifies sha256_hex upper new v.credentials ≡ true)
        × (any_verifies sha256_hex upper pin v.credentials ≡ (
            any_verifies sha256_hex upper pin u.credentials
            || verify_pin sha256_hex upper pin (new_credential sha256_hex upper new)))
  unfolding set_pin
  set_pin-any_verifies new pin u v e = elim (Bool-cases (is_null_or_white_space new)) [
    | inl blank ↦ ground (arith, e, blank)
    | inr given ↦
        let added : Member = record u {
          credentials = u.credentials ++ new_credential sha256_hex upper new ∷ [];
        } in
        let same : added ≡ v = some_inj added v (rw given at e) in
        subst
          (λ (w : Member).
            (any_verifies sha256_hex upper new w.credentials ≡ true)
            × (any_verifies sha256_hex upper pin w.credentials ≡ (
                any_verifies sha256_hex upper pin u.credentials
                || verify_pin sha256_hex upper pin (new_credential sha256_hex upper new))))
          same
          (
            any_verifies-append new u.credentials (new_credential sha256_hex upper new)
                ∙ rw (verifies_new new given)
                    (or_true (any_verifies sha256_hex upper new u.credentials)),
            any_verifies-append pin u.credentials (new_credential sha256_hex upper new),
          )
  ]
