-- ===== src/Doors/Countdowns.antt =====
-- The countdowns that `tickCountdowns` runs down, once a second.
use mathlib.Core.Option
use access_control.Base.{
  ℕ, zero, suc, ◌-◌, ℤ, pos, negsuc, String, ◌≡◌, refl, false, Option, none, some, [], ◌∷◌, Dict,
  lookup, All, arith, Bool-cases, inl, inr, ◌∙◌, ap,
}
use access_control.Doors.{is_running, DoorState, tick_seconds, tick_entries, tick_countdowns}

-- What n seconds leave of a countdown.
abbrev pub seconds_left : ℕ → ℤ → ℤ
seconds_left n (pos seconds) = pos (seconds - n)
seconds_left n (negsuc k) = negsuc k

abbrev pub countdown_left : ℕ → Option ℤ → Option ℤ
countdown_left n none = none
countdown_left n (some seconds) = some (seconds_left n seconds)

lookup-tick_entries :
    (j : String) (m : Dict (Option ℤ))
    → lookup j (tick_entries m).0 ≡ Option.map tick_seconds (lookup j m)
unfolding tick_entries lookup
lookup-tick_entries j [] = refl
lookup-tick_entries j ((k, seconds) ∷ m) = ground (arith, lookup-tick_entries j m)

-- No entry is positive.
abbrev pub AllDone : Dict (Option ℤ) → Type 0
AllDone = All (λ entry. is_running entry.1 ≡ false)

tick_entries_done :
    (m : Dict (Option ℤ)) → (tick_entries m).1 ≡ false → AllDone m × ((tick_entries m).0 ≡ m)
unfolding tick_entries
tick_entries_done [] h = (tt, refl)
tick_entries_done ((k, seconds) ∷ m) h = ground (arith, tick_entries_done m)

tick_entries_of_AllDone : (m : Dict (Option ℤ)) → AllDone m → (tick_entries m).1 ≡ false
unfolding tick_entries
tick_entries_of_AllDone [] h = refl
tick_entries_of_AllDone ((k, seconds) ∷ m) h = ground (arith, tick_entries_of_AllDone m h.1)

-- Returning `state` where nothing changed gives what the loop's object would.
countdowns-tick_countdowns :
    (s : DoorState)
    → (tick_countdowns s).auto_lock_countdowns ≡ (tick_entries s.auto_lock_countdowns).0
unfolding tick_countdowns
countdowns-tick_countdowns s = elim (Bool-cases (tick_entries s.auto_lock_countdowns).1) [
  | inl changed ↦ rw changed
  | inr unchanged ↦ ground (arith, tick_entries_done s.auto_lock_countdowns unchanged)
]

abbrev pub ticks : ℕ → DoorState → DoorState
ticks zero s = s
ticks (suc n) s = ticks n (tick_countdowns s)

countdown_left-tick :
    (n : ℕ) (o : Option (Option ℤ))
    → Option.map (countdown_left n) (Option.map tick_seconds o)
      ≡ Option.map (countdown_left (suc n)) o
countdown_left-tick n none = refl
countdown_left-tick n (some none) = refl
countdown_left-tick n (some (some (pos zero))) = ground arith
countdown_left-tick n (some (some (pos (suc k)))) = ground arith
countdown_left-tick n (some (some (negsuc k))) = refl

countdown_left-zero : (o : Option (Option ℤ)) → o ≡ Option.map (countdown_left 0) o
countdown_left-zero none = refl
countdown_left-zero (some none) = refl
countdown_left-zero (some (some (pos k))) = ground arith
countdown_left-zero (some (some (negsuc k))) = refl

-- After n ticks each countdown of s seconds is at s - n, or at 0 where n is more; one that is not
-- positive or is null stays, and no countdown comes or goes.
pub lookup-ticks :
    (n : ℕ) (j : String) (s : DoorState)
    → lookup j (ticks n s).auto_lock_countdowns
      ≡ Option.map (countdown_left n) (lookup j s.auto_lock_countdowns)
lookup-ticks zero j s = countdown_left-zero (lookup j s.auto_lock_countdowns)
lookup-ticks (suc n) j s =
    lookup-ticks n j (tick_countdowns s)
    ∙ ap (λ m. Option.map (countdown_left n) (lookup j m)) (countdowns-tick_countdowns s)
    ∙ ap (Option.map (countdown_left n)) (lookup-tick_entries j s.auto_lock_countdowns)
    ∙ countdown_left-tick n (lookup j s.auto_lock_countdowns)

-- Every countdown is spent after n seconds.
abbrev pub SpentAfter : ℕ → Dict (Option ℤ) → Type 0
SpentAfter n = All (λ entry. is_running (countdown_left n entry.1) ≡ false)

SpentAfter-tick :
    (n : ℕ) (m : Dict (Option ℤ)) → SpentAfter (suc n) m → SpentAfter n (tick_entries m).0
unfolding tick_entries
SpentAfter-tick n [] h = tt
SpentAfter-tick n ((k, none) ∷ m) (_, h) = (refl, SpentAfter-tick n m h)
SpentAfter-tick n ((k, some (pos zero)) ∷ m) (_, h) = (ground arith, SpentAfter-tick n m h)
SpentAfter-tick n ((k, some (pos (suc i))) ∷ m) (p, h) = (ground arith, SpentAfter-tick n m h)
SpentAfter-tick n ((k, some (negsuc i)) ∷ m) (_, h) = (refl, SpentAfter-tick n m h)

AllDone-SpentAfter : (m : Dict (Option ℤ)) → SpentAfter zero m → AllDone m
AllDone-SpentAfter [] h = tt
AllDone-SpentAfter ((k, none) ∷ m) (p, h) = (refl, AllDone-SpentAfter m h)
AllDone-SpentAfter ((k, some (pos i)) ∷ m) (p, h) = (ground arith, AllDone-SpentAfter m h)
AllDone-SpentAfter ((k, some (negsuc i)) ∷ m) (p, h) = (refl, AllDone-SpentAfter m h)

AllDone-ticks :
    (n : ℕ) (s : DoorState)
    → SpentAfter n s.auto_lock_countdowns
    → AllDone (ticks n s).auto_lock_countdowns
AllDone-ticks zero s h = AllDone-SpentAfter s.auto_lock_countdowns h
AllDone-ticks (suc n) s h =
    AllDone-ticks n (tick_countdowns s)
      (rw countdowns-tick_countdowns (SpentAfter-tick n s.auto_lock_countdowns h))

tick_countdowns_of_AllDone :
    (s : DoorState) → AllDone s.auto_lock_countdowns → tick_countdowns s ≡ s
unfolding tick_countdowns
tick_countdowns_of_AllDone s h = rw (tick_entries_of_AllDone s.auto_lock_countdowns h)

-- The ticking comes to rest: once n seconds spend every countdown, n ticks reach a state in which
-- no countdown is positive, and a further tick returns that very state.
pub ticks_settle :
    (n : ℕ) (s : DoorState)
    → SpentAfter n s.auto_lock_countdowns
    → AllDone (ticks n s).auto_lock_countdowns × (tick_countdowns (ticks n s) ≡ ticks n s)
ticks_settle n s h =
    let done = AllDone-ticks n s h in (done, tick_countdowns_of_AllDone (ticks n s) done)
