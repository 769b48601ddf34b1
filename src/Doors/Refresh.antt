-- ===== src/Doors/Refresh.antt =====
-- What `fetchDoors` makes of the server's list.
use access_control.Base.{
  String, ◌≡◌, refl, ◌≢◌, ◌∙◌, ap, subst, sym, differ, ℤ, false, Option, none, some, List, [], ◌∷◌,
  ok, found_or, if◌then◌else◌, Dict, lookup, insert, merge, lookup-insert, by_key, Distinct, Lacks,
  ◌==◌, eq_iff, arith, Bool-cases, inl, inr,
}
use access_control.Model.{AccessPoint}
use access_control.Doors.{DoorState, door_id, count_from, countdowns_of, fetch_doors}

-- An entry's key.
abbrev key : String × Option ℤ → String
key entry = entry.0

lookup-Lacks : (j : String) (m : Dict (Option ℤ)) → Lacks key j m → lookup j m ≡ none
unfolding lookup
lookup-Lacks j [] h = refl
lookup-Lacks j ((k, v) ∷ m) (ne, h) = ground (arith, eq_iff k j, lookup-Lacks j m h)

by_key-Lacks :
    (j : String) (doors : List AccessPoint) → Lacks door_id j doors → by_key door_id j doors ≡ none
by_key-Lacks j [] h = refl
by_key-Lacks j (d ∷ doors) (ne, h) = ground (arith, eq_iff d.id j, by_key-Lacks j doors h)

Lacks-insert :
    (k j : String) (v : Option ℤ) (m : Dict (Option ℤ))
    → k ≢ j
    → Lacks key j m
    → Lacks key j (insert k v m)
unfolding insert
Lacks-insert k j v [] ne h = (ne, tt)
Lacks-insert k j v ((i, w) ∷ m) ne (here, h) = ground (arith, eq_iff i k, Lacks-insert k j v m ne h)

Distinct-insert :
    (k : String) (v : Option ℤ) (m : Dict (Option ℤ)) → Distinct key m → Distinct key (insert k v m)
unfolding insert
Distinct-insert k v [] h = (tt, tt)
Distinct-insert k v ((i, w) ∷ m) (here, h) = elim (Bool-cases (i == k)) [
  | inl same ↦ rw same (subst (λ j. Lacks key j m) ((eq_iff i k).0 same) here, h)
  | inr other ↦
      rw other (Lacks-insert k i v m (λ e. differ i k other (sym e)) here, Distinct-insert k v m h)
]

-- What the newer object holds goes before what the older one does.
lookup-merge :
    (j : String) (m news : Dict (Option ℤ))
    → Distinct key news
    → lookup j (merge m news) ≡ found_or (lookup j news) (lookup j m)
unfolding lookup merge
lookup-merge j m [] h = refl
lookup-merge j m ((k, v) ∷ news) (here, h) =
    lookup-merge j (insert k v m) news h ∙ (elim (Bool-cases (k == j)) [
      | inl same ↦
          let hidden =
            lookup-Lacks j news (subst (λ i. Lacks key i news) ((eq_iff k j).0 same) here) in
          rw (lookup-insert k j v m, same, hidden)
      | inr other ↦ rw (lookup-insert k j v m, other)
    ])

-- What the server reports of a door's countdown, undefined where it does not list the door.
abbrev pub reported : Option AccessPoint → Option (Option ℤ)
reported none = none
reported (some d) = d.remaining_countdown_seconds

lookup-count_from :
    (k j : String) (o : Option (Option ℤ)) (m : Dict (Option ℤ))
    → lookup j (count_from k o m) ≡ (if k == j then found_or o (lookup j m) else lookup j m)
lookup-count_from k j none m = ground arith
lookup-count_from k j (some v) m = lookup-insert k j v m

found_or-none : (o : Option (Option ℤ)) → found_or o none ≡ o
found_or-none none = refl
found_or-none (some v) = refl

lookup-countdowns_of :
    (j : String) (m : Dict (Option ℤ)) (doors : List AccessPoint)
    → Distinct door_id doors
    → lookup j (countdowns_of m doors) ≡ found_or (reported (by_key door_id j doors)) (lookup j m)
unfolding countdowns_of
lookup-countdowns_of j m [] h = refl
lookup-countdowns_of j m (d ∷ doors) (here, h) =
    lookup-countdowns_of j (count_from d.id d.remaining_countdown_seconds m) doors h
    ∙ (elim (Bool-cases (d.id == j)) [
      | inl same ↦
          let last =
            by_key-Lacks j doors
              (subst (λ i. Lacks door_id i doors) ((eq_iff d.id j).0 same) here) in
          rw (lookup-count_from d.id j d.remaining_countdown_seconds m, same, last)
      | inr other ↦ rw (lookup-count_from d.id j d.remaining_countdown_seconds m, other)
    ])

Distinct-countdowns_of :
    (m : Dict (Option ℤ)) (doors : List AccessPoint)
    → Distinct key m
    → Distinct key (countdowns_of m doors)
unfolding countdowns_of
Distinct-countdowns_of m [] h = h
Distinct-countdowns_of m (d ∷ doors) h =
    Distinct-countdowns_of (count_from d.id d.remaining_countdown_seconds m) doors
      (counted d.remaining_countdown_seconds)
  where
    counted : (o : Option (Option ℤ)) → Distinct key (count_from d.id o m)
    counted none = h
    counted (some v) = Distinct-insert d.id v m h

-- `fetchDoors` replaces the doors. A countdown becomes what the server reports of it, and null
-- where the server says null; one that is not reported is as it was. The ids listed are distinct.
pub fetch_doors-ok :
    (j : String) (doors : List AccessPoint) (s : DoorState)
    → Distinct door_id doors
    → let t = fetch_doors (ok doors) s in
      (t.doors ≡ doors)
      × (lookup j t.auto_lock_countdowns
          ≡ found_or (reported (by_key door_id j doors)) (lookup j s.auto_lock_countdowns))
      × (t.is_loading ≡ false)
      × (t.error ≡ none)
unfolding fetch_doors lookup
fetch_doors-ok j doors s h = (
  refl,
  lookup-merge j s.auto_lock_countdowns (countdowns_of [] doors)
        (Distinct-countdowns_of [] doors tt)
      ∙ ap (λ o. found_or o (lookup j s.auto_lock_countdowns))
          (lookup-countdowns_of j [] doors h ∙ found_or-none (reported (by_key door_id j doors))),
  refl,
  refl,
)
