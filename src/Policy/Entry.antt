-- ===== src/Policy/Entry.antt =====
-- Who is let in, with an active policy and without.
use access_control.Base.{
  ℕ, ◌≡◌, refl, ◌≢◌, true, false, ◌&&◌, none, List, [], ◌∷◌, All, All-keep, keep, find, ◌==◌,
  eq_iff, arith, Bool-cases, inl, inr,
}
use access_control.Schedule.{is_one_time}
use access_control.Policy.{ServerPolicy, is_active_at}
use access_control.Policy.Evaluation.{
  Table, has_id, or_all, candidates, first_active, grant, evaluate,
}
use access_control.Policy.Passes.{grants_of}

-- No policy of a list is active.
abbrev pub NoneActive : ℕ → List ServerPolicy → Type 0
NoneActive utc = All (λ p. is_active_at p utc ≡ false)

or_all-NoneActive :
    (utc : ℕ) (some_of all : List ServerPolicy)
    → NoneActive utc some_of
    → NoneActive utc all
    → NoneActive utc (or_all some_of all)
or_all-NoneActive utc [] all h k = k
or_all-NoneActive utc (p ∷ ps) all h k = h

candidates-NoneActive :
    (utc : ℕ) (of_user of_door : List ServerPolicy)
    → NoneActive utc of_user
    → NoneActive utc of_door
    → NoneActive utc (candidates of_user of_door)
unfolding candidates
candidates-NoneActive utc [] of_door h k = k
candidates-NoneActive utc (u ∷ us) [] h k = h
candidates-NoneActive utc (u ∷ us) (d ∷ ds) h k =
    or_all-NoneActive utc (keep (λ p. has_id p.id (d ∷ ds)) (u ∷ us)) (u ∷ us)
      (All-keep (λ p. is_active_at p utc ≡ false) (λ p. has_id p.id (d ∷ ds)) (u ∷ us) h) h

nothing_found :
    (utc : ℕ) (ps : List ServerPolicy)
    → NoneActive utc ps
    → find (λ q. q.is_enabled && is_active_at q utc) ps ≡ none
nothing_found utc [] h = refl
nothing_found utc (p ∷ ps) (here, h) = ground (arith, here, nothing_found utc ps h)

first_active-NoneActive :
    (utc : ℕ) (ps : List ServerPolicy) (t : Table)
    → NoneActive utc ps
    → ((first_active ps utc t).0 ≡ t) × (grants_of (first_active ps utc t).1 ≡ 0)
first_active-NoneActive utc [] t h = (refl, refl)
first_active-NoneActive utc (p ∷ ps) t h = rw (nothing_found utc (p ∷ ps) h) (refl, refl)

-- No one is let in, and no use is taken, where neither a policy of the user nor one of the access
-- point is active.
evaluate-NoneActive :
    (utc : ℕ) (t : Table)
    → NoneActive utc t.of_user
    → NoneActive utc t.of_door
    → ((evaluate utc t).0 ≡ t) × (grants_of (evaluate utc t).1 ≡ 0)
unfolding evaluate
evaluate-NoneActive utc t h k =
    first_active-NoneActive utc (candidates t.of_user t.of_door) t
      (candidates-NoneActive utc t.of_user t.of_door h k)

grants_of-grant : (p : ServerPolicy) (t : Table) → grants_of (grant p t).1 ≡ 1
grants_of-grant p t = elim (Bool-cases (is_one_time p.schedule_type)) [
  | inl pass ↦ rw pass
  | inr other ↦ rw other
]

-- A user whose one policy is not among those of the access point is let in by it all the same while
-- it is active, although the access point has a policy of its own.
pub other_policy_grants :
    (utc : ℕ) (mine doors : ServerPolicy)
    → mine.id ≢ doors.id
    → mine.is_enabled ≡ true
    → is_active_at mine utc ≡ true
    → grants_of (evaluate utc (record { of_user = mine ∷ []; of_door = doors ∷ [] })).1 ≡ 1
unfolding evaluate candidates
other_policy_grants utc mine doors ne enabled active =
    let apart : (doors.id == mine.id) ≡ false = ground (arith, eq_iff doors.id mine.id) in
    let good : (mine.is_enabled && is_active_at mine utc) ≡ true =
      ground (enabled, active, arith) in
    rw (apart, good) (grants_of-grant mine (record { of_user = mine ∷ []; of_door = doors ∷ [] }))
