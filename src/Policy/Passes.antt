-- ===== src/Policy/Passes.antt =====
-- How often a one-time pass opens a door.
use access_control.Base.{
  ℕ, zero, suc, ◌+◌, ◌≡◌, refl, ◌∙◌, pos, true, false, some, List, [], ◌∷◌, length, All, eq_refl,
  arith,
}
use Prim.Native.Nat.{min}
use access_control.Model.{one_time}
use access_control.Policy.{ServerPolicy, is_before, is_after, is_active_at}
use access_control.Policy.Evaluation.{Table, Verdict, no_policy, inactive, granted, evaluate}

abbrev pub grants_of : Verdict → ℕ
grants_of no_policy = 0
grants_of (inactive p) = 0
grants_of (granted p) = 1

-- How many of the entries at some times are granted, the first time first.
abbrev pub grants : List ℕ → Table → ℕ
grants [] t = 0
grants (utc ∷ times) t = grants_of (evaluate utc t).1 + grants times (evaluate utc t).0

-- A user's only policy, at a door without any.
abbrev pub only : ServerPolicy → Table
only p = record { of_user = p ∷ []; of_door = [] }

abbrev pub ValidAt : ServerPolicy → ℕ → Type 0
ValidAt p utc = (is_before utc p.valid_from ≡ false) × (is_after utc p.valid_until ≡ false)

module _ (p : ServerPolicy) (enabled : p.is_enabled ≡ true)
    (pass : p.schedule_type ≡ one_time) where
  abbrev left : ℕ → ServerPolicy
  left n = record p { remaining_uses = some (pos n) }

  used :
      (n utc : ℕ)
      → ValidAt p utc
      → evaluate utc (only (left (suc n))) ≡ (only (left n), granted (left n))
  unfolding evaluate is_active_at
  used n utc (from, until) = rw (enabled, from, until, pass, eq_refl p.id)

  spent :
      (utc : ℕ) → ValidAt p utc → evaluate utc (only (left 0)) ≡ (only (left 0), inactive (left 0))
  unfolding evaluate is_active_at
  spent utc (from, until) = rw (enabled, from, until, pass)

  none_left : (times : List ℕ) → All (ValidAt p) times → grants times (only (left 0)) ≡ 0
  none_left [] h = refl
  none_left (utc ∷ times) (valid, h) = rw (spent utc valid) (rw (none_left times h) (omega arith))

  -- An enabled one-time pass of n uses, which is a user's only policy, lets the user in n times and
  -- no more, at a door without policies: of any number of entries within its dates the first n are
  -- granted.
  pub grants-only :
      (n : ℕ) (times : List ℕ)
      → All (ValidAt p) times
      → grants times (only (record p { remaining_uses = some (pos n) })) ≡ min (length times) n
  grants-only n [] h = omega arith
  grants-only zero (utc ∷ times) h = none_left (utc ∷ times) h ∙ (omega arith)
  grants-only (suc n) (utc ∷ times) (valid, h) =
      rw (used n utc valid) (rw (grants-only n times h) (omega arith))
