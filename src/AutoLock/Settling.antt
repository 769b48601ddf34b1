-- ===== src/AutoLock/Settling.antt =====
-- How an unlocked door comes to be locked, with a lock that fails for a while.
use access_control.Base.{
  ℕ, zero, suc, ◌+◌, ◌-◌, ◌*◌, ◌≡◌, refl, ◌∙◌, true, false, none, some, List, [], ◌∷◌, ◌++◌, arith,
  ap,
}
use access_control.Model.{AutoLockStatusType, LockStateType, closed, counting_down, unlocked}
use access_control.AutoLock.{
  create_timer, countdown_delay, on_lock_state_changed, attempt_ended, arm_countdown_timer,
  arm_retry_timer,
}
use access_control.AutoLock.System.{
  System, Event, lock_reported, second, countdown_fires, retry_fires, answered, step, run,
  trigger_countdown_expired, trigger_retry_expired,
}

abbrev pub seconds : ℕ → List Event
seconds zero = []
seconds (suc n) = second ∷ seconds n

-- The timer that is running has n seconds left. The lock fails k times, r seconds apart, then it
-- works.
abbrev pub attempts : ℕ → ℕ → Event → ℕ → List Event
attempts zero r fires n = seconds n ++ fires ∷ answered true ∷ []
attempts (suc k) r fires n = seconds n ++ fires ∷ answered false ∷ attempts k r retry_fires r

abbrev pub length_of : List Event → ℕ
length_of [] = 0
length_of (second ∷ es) = suc (length_of es)
length_of (_ ∷ es) = length_of es

run-append : (xs ys : List Event) (s : System) → run (xs ++ ys) s ≡ run ys (run xs s)
unfolding run
run-append [] ys s = refl
run-append (x ∷ xs) ys s = run-append xs ys (step x s)

-- Only the countdown is armed, with n seconds, or only the retry timer.
abbrev pub with_countdown : ℕ → System → System
with_countdown n s = record s {
  machine = record s.machine { countdown_timer = some n; retry_timer = none };
}

abbrev pub with_retry : ℕ → System → System
with_retry n s = record s {
  machine = record s.machine { countdown_timer = none; retry_timer = some n };
}

pub run-seconds_countdown :
    (n m : ℕ) (s : System) → run (seconds n) (with_countdown m s) ≡ with_countdown (m - n) s
unfolding run step
run-seconds_countdown zero m s = ap (λ k. with_countdown k s) (omega arith)
run-seconds_countdown (suc n) m s =
    run-seconds_countdown n (m - 1) s ∙ ap (λ k. with_countdown k s) (omega arith)

run-seconds_retry : (n m : ℕ) (s : System) → run (seconds n) (with_retry m s) ≡ with_retry (m - n) s
unfolding run step
run-seconds_retry zero m s = ap (λ k. with_retry k s) (omega arith)
run-seconds_retry (suc n) m s =
    run-seconds_retry n (m - 1) s ∙ ap (λ k. with_retry k s) (omega arith)

-- Locked after k + 1 attempts.
abbrev pub settled : ℕ → System → System
settled k s = record s {
  machine = record s.machine {
    status = AutoLockStatusType.locked;
    lock_state = LockStateType.locked;
    countdown_timer = none;
    retry_timer = none;
  };
  requests = s.requests + k + 1;
}

abbrev pub failed : System → System
failed s = record s {
  machine = record s.machine { status = AutoLockStatusType.jammed_retry };
  requests = s.requests + 1;
}

settled-failed : (k : ℕ) (s : System) → settled k (failed s) ≡ settled (suc k) s
settled-failed k s = ap (λ n. record (settled k s) { requests = n }) (omega arith)

countdown_succeeds :
    (s : System) → run (countdown_fires ∷ answered true ∷ []) (with_countdown 0 s) ≡ settled 0 s
unfolding run step trigger_countdown_expired attempt_ended
countdown_succeeds s = ground arith

retry_succeeds :
    (s : System) → run (retry_fires ∷ answered true ∷ []) (with_retry 0 s) ≡ settled 0 s
unfolding run step trigger_retry_expired attempt_ended
retry_succeeds s = ground arith

countdown_fails :
    (r : ℕ) (es : List Event) (s : System)
    → s.machine.retry_on_failure ≡ true
    → create_timer s.machine.retry_delay_seconds ≡ some r
    → run (countdown_fires ∷ answered false ∷ es) (with_countdown 0 s)
      ≡ run es (with_retry r (failed s))
unfolding run step trigger_countdown_expired attempt_ended arm_retry_timer
countdown_fails r es s again delay = ap (run es) (ground (arith, again, delay))

retry_fails :
    (r : ℕ) (es : List Event) (s : System)
    → s.machine.retry_on_failure ≡ true
    → create_timer s.machine.retry_delay_seconds ≡ some r
    → run (retry_fires ∷ answered false ∷ es) (with_retry 0 s) ≡ run es (with_retry r (failed s))
unfolding run step trigger_retry_expired attempt_ended arm_retry_timer
retry_fails r es s again delay = ap (run es) (ground (arith, again, delay))

pub due_retry :
    (n : ℕ) (es : List Event) (s : System)
    → run (seconds n ++ es) (with_retry n s) ≡ run es (with_retry 0 s)
due_retry n es s =
    run-append (seconds n) es (with_retry n s)
    ∙ ap (run es) (run-seconds_retry n n s ∙ ap (λ m. with_retry m s) (omega arith))

due_countdown :
    (n : ℕ) (es : List Event) (s : System)
    → run (seconds n ++ es) (with_countdown n s) ≡ run es (with_countdown 0 s)
due_countdown n es s =
    run-append (seconds n) es (with_countdown n s)
    ∙ ap (run es) (run-seconds_countdown n n s ∙ ap (λ m. with_countdown m s) (omega arith))

retries_settle :
    (k r : ℕ) (s : System)
    → s.machine.retry_on_failure ≡ true
    → create_timer s.machine.retry_delay_seconds ≡ some r
    → run (attempts k r retry_fires r) (with_retry r s) ≡ settled k s
retries_settle zero r s again delay =
    due_retry r (retry_fires ∷ answered true ∷ []) s ∙ retry_succeeds s
retries_settle (suc k) r s again delay =
    due_retry r (retry_fires ∷ answered false ∷ attempts k r retry_fires r) s
    ∙ retry_fails r (attempts k r retry_fires r) s again delay
    ∙ retries_settle k r (failed s) again delay
    ∙ settled-failed k s

pub countdown_settles :
    (k r n : ℕ) (s : System)
    → s.machine.retry_on_failure ≡ true
    → create_timer s.machine.retry_delay_seconds ≡ some r
    → run (attempts k r countdown_fires n) (with_countdown n s) ≡ settled k s
countdown_settles zero r n s again delay =
    due_countdown n (countdown_fires ∷ answered true ∷ []) s ∙ countdown_succeeds s
countdown_settles (suc k) r n s again delay =
    due_countdown n (countdown_fires ∷ answered false ∷ attempts k r retry_fires r) s
    ∙ countdown_fails r (attempts k r retry_fires r) s again delay
    ∙ retries_settle k r (failed s) again delay
    ∙ settled-failed k s

length_of-append_seconds :
    (n : ℕ) (es : List Event) → length_of (seconds n ++ es) ≡ n + length_of es
length_of-append_seconds zero es = omega arith
length_of-append_seconds (suc n) es = omega (arith, length_of-append_seconds n es)

length_of-retries : (k r n : ℕ) → length_of (attempts k r retry_fires n) ≡ n + k * r
length_of-retries zero r n =
    omega (arith, length_of-append_seconds n (retry_fires ∷ answered true ∷ []))
length_of-retries (suc k) r n = omega (
  arith,
  length_of-append_seconds n (retry_fires ∷ answered false ∷ attempts k r retry_fires r),
  length_of-retries k r r,
)

length_of-attempts : (k r n : ℕ) → length_of (attempts k r countdown_fires n) ≡ n + k * r
length_of-attempts zero r n =
    omega (arith, length_of-append_seconds n (countdown_fires ∷ answered true ∷ []))
length_of-attempts (suc k) r n = omega (
  arith,
  length_of-append_seconds n (countdown_fires ∷ answered false ∷ attempts k r retry_fires r),
  length_of-retries k r r,
)

-- The machine after a lock with its door closed is reported unlocked.
abbrev pub as_unlocked : System → System
as_unlocked s = record s {
  machine = record s.machine { status = counting_down; lock_state = LockStateType.unlocked };
}

pub report_unlocked :
    (d : ℕ) (s : System)
    → s.machine.is_enabled ≡ true
    → s.machine.contact ≡ closed
    → create_timer (countdown_delay s.machine) ≡ some d
    → step (lock_reported unlocked) s ≡ with_countdown d (as_unlocked s)
unfolding step on_lock_state_changed arm_countdown_timer
report_unlocked d s on shut delay = ground (arith, on, shut, delay)

-- A lock that is reported unlocked, its door closed, and that fails k times and then works is
-- locked, with no timer left, by exactly k + 1 attempts, after the delay d and k times the delay r
-- of a retry; nothing else happens meanwhile, the machine is enabled and it retries.
pub unlocked_settles :
    (k r d : ℕ) (s : System)
    → s.machine.is_enabled ≡ true
    → s.machine.contact ≡ closed
    → s.machine.retry_on_failure ≡ true
    → create_timer (countdown_delay s.machine) ≡ some d
    → create_timer s.machine.retry_delay_seconds ≡ some r
    → (run (lock_reported unlocked ∷ attempts k r countdown_fires d) s ≡ settled k s)
      × (length_of (attempts k r countdown_fires d) ≡ d + k * r)
unlocked_settles k r d s on shut again delay retry = (
  unfold run in
      (ap (run (attempts k r countdown_fires d)) (report_unlocked d s on shut delay)
        ∙ countdown_settles k r d (as_unlocked s) again retry),
  length_of-attempts k r d,
)
