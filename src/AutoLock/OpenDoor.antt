-- ===== src/AutoLock/OpenDoor.antt =====
-- A retry does not look at the door.
use access_control.Base.{
  ℕ, suc, ◌+◌, ◌-◌, ◌≡◌, refl, ◌∙◌, true, false, none, some, [], ◌∷◌, ◌++◌, arith,
}
use access_control.Model.{open_door, unlocked, paused_door_open}
use access_control.AutoLock.{create_timer, on_door_contact_changed, attempt_ended, arm_retry_timer}
use access_control.AutoLock.System.{
  System, contact_reported, retry_fires, answered, step, run, trigger_retry_expired,
}
use access_control.AutoLock.Settling.{seconds, with_retry, due_retry}

-- What opening the door leaves of a failed attempt, apart from the retry timer.
abbrev pub paused : System → System
paused s = record s {
  machine = record s.machine { status = paused_door_open; contact = open_door };
  waiting = s.waiting - 1;
}

opened_after :
    (r w : ℕ) (s : System)
    → s.waiting ≡ suc w
    → s.machine.is_enabled ≡ true
    → s.machine.lock_state ≡ unlocked
    → s.machine.retry_on_failure ≡ true
    → create_timer s.machine.retry_delay_seconds ≡ some r
    → run (answered false ∷ contact_reported open_door ∷ []) s ≡ with_retry r (paused s)
unfolding run step on_door_contact_changed attempt_ended arm_retry_timer
opened_after r w s busy on unlocked_lock again delay =
    ground (arith, busy, on, unlocked_lock, again, delay)

abbrev pub fired : System → System
fired s = record s {
  machine = record s.machine { countdown_timer = none; retry_timer = none };
  waiting = s.waiting + 1;
  requests = s.requests + 1;
}

fires : (s : System) → run (retry_fires ∷ []) (with_retry 0 s) ≡ fired s
unfolding run step trigger_retry_expired
fires s = ground arith

-- After a failed attempt, when the door is then opened, shows as paused and stays open, the machine
-- commands the lock all the same once the delay r of a retry is over: the door is open and the lock
-- unlocked.
pub retry_with_door_open :
    (r w : ℕ) (s : System)
    → s.waiting ≡ suc w
    → s.machine.is_enabled ≡ true
    → s.machine.lock_state ≡ unlocked
    → s.machine.retry_on_failure ≡ true
    → create_timer s.machine.retry_delay_seconds ≡ some r
    → let opened = run (answered false ∷ contact_reported open_door ∷ []) s in
      let after = run (seconds r ++ retry_fires ∷ []) opened in
      (opened.machine.status ≡ paused_door_open)
      × (opened.requests ≡ s.requests)
      × (after.machine.contact ≡ open_door)
      × (after.machine.lock_state ≡ unlocked)
      × (after.requests ≡ s.requests + 1)
retry_with_door_open r w s busy on unlocked_lock again delay =
    let later : run (seconds r ++ retry_fires ∷ []) (with_retry r (paused s)) ≡ fired (paused s) =
      due_retry r (retry_fires ∷ []) (paused s) ∙ fires (paused s) in
    rw (opened_after r w s busy on unlocked_lock again delay)
      (refl, refl, rw later refl, rw later unlocked_lock, rw later refl)
