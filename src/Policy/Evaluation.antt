-- ===== src/Policy/Evaluation.antt =====
-- How the server decides on a user whose PIN was entered, the second half of
-- src/CodeMaster.Engine/Services/AccessPolicyEvaluator.cs: the policies that count, the one that is
-- active, and the use that it takes.
use access_control.Base.{
  ℕ, String, ℤ, pos, negsuc, pred, Bool, true, false, ◌&&◌, Option, none, some, List, [], ◌∷◌, keep,
  find, update_key, ◌==◌, if◌then◌else◌,
}
use access_control.Schedule.{is_one_time}
use access_control.Policy.{ServerPolicy, is_active_at}

-- The rows of the policies as the two queries give them: by user, and by access point.
pub record Table : Type 0 where
  pub of_user : List ServerPolicy
  pub of_door : List ServerPolicy

abbrev pub policy_key : ServerPolicy → String
policy_key p = p.id

-- `doorPolicies.Any(dp => dp.Id == id)`
abbrev pub has_id : String → List ServerPolicy → Bool
has_id id [] = false
has_id id (p ∷ ps) = let rest = has_id id ps in if p.id == id then true else rest

-- `intersection.Count > 0 ? intersection : userPolicies`
abbrev pub or_all : List ServerPolicy → List ServerPolicy → List ServerPolicy
or_all [] all = all
or_all (p ∷ ps) all = p ∷ ps

-- The candidates; an empty list is where there is no policy at all.
unfoldable pub candidates : List ServerPolicy → List ServerPolicy → List ServerPolicy
candidates [] of_door = of_door
candidates (u ∷ us) [] = u ∷ us
candidates (u ∷ us) (d ∷ ds) = or_all (keep (λ p. has_id p.id (d ∷ ds)) (u ∷ us)) (u ∷ us)

pub data Verdict : Type 0 where
  no_policy : Verdict
  inactive : ServerPolicy → Verdict  -- the first candidate
  granted : ServerPolicy → Verdict

-- `Math.Max(0, n)`
abbrev pub max_zero : ℤ → ℤ
max_zero (pos n) = pos n
max_zero (negsuc n) = pos 0

-- `activePolicy.RemainingUses ?? 1`
abbrev pub uses_or_one : Option ℤ → ℤ
uses_or_one none = pos 1
uses_or_one (some uses) = uses

-- `RemainingUses = Math.Max(0, (RemainingUses ?? 1) - 1)`
abbrev pub take_use : ServerPolicy → ServerPolicy
take_use p = record p { remaining_uses = some (max_zero (pred (uses_or_one p.remaining_uses))) }

-- `UpdateAsync(activePolicy)`
abbrev pub update_policy : ServerPolicy → Table → Table
update_policy p t = record {
  of_user = update_key policy_key p.id (λ _. p) t.of_user;
  of_door = update_key policy_key p.id (λ _. p) t.of_door;
}

abbrev pub grant : ServerPolicy → Table → Table × Verdict
grant p t =
    if is_one_time p.schedule_type
    then (update_policy (take_use p) t, granted (take_use p))
    else (t, granted p)

abbrev pub grant_found : ServerPolicy → Option ServerPolicy → Table → Table × Verdict
grant_found primary none t = (t, inactive primary)
grant_found primary (some p) t = grant p t

abbrev pub first_active : List ServerPolicy → ℕ → Table → Table × Verdict
first_active [] utc t = (t, no_policy)
first_active (p ∷ ps) utc t =
    grant_found p (find (λ q. q.is_enabled && is_active_at q utc) (p ∷ ps)) t

unfoldable pub evaluate : ℕ → Table → Table × Verdict
unfolding candidates
evaluate utc t = first_active (candidates t.of_user t.of_door) utc t
