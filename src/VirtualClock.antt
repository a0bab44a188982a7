-- ===== src/VirtualClock.antt =====
-- The virtual clock and timer service for tests (statesmantest/clock.go). A time is a number of
-- nanoseconds since the Unix epoch. A callback is known by a number, and what it does to the service
-- (it may schedule and cancel) is a parameter. The mutexes are left out: a call is one step.
use statesman.Base.{
  ℕ, ℤ, pos, ◌+ℤ◌, ◌≡◌, refl, ap, Bool, true, false, not, ◌&&◌, ◌||◌, Option, none, some, List, [],
  ◌∷◌, ◌++◌, if◌then◌else◌, leb_ℤ, ltb_ℤ, sort_by, keep, arith, Bool-cases, inl, inr, map,
}

pub record ManualTimer : Type 0 where
  pub deadline : ℤ
  pub fire : ℕ
  pub cancelled : Bool
  pub fired : Bool

-- `ManualTimerService` with the `ManualClock` that it is bound to.
pub record ManualTimerService : Type 0 where
  pub now : ℤ
  pub timers : List ManualTimer

-- `none` is the zero time, in place of which the clock starts at the epoch.
unfoldable new_manual_clock : Option ℤ → ℤ
new_manual_clock none = pos 0
new_manual_clock (some start) = start

unfoldable new_service : Option ℤ → ManualTimerService
unfolding new_manual_clock
new_service start = record { now = new_manual_clock start; timers = [] }

unfoldable pub schedule : ℤ → ℕ → ManualTimerService → ManualTimerService
schedule at fire s = record s {
  timers = s.timers ++ record { deadline = at; fire = fire; cancelled = false; fired = false } ∷ [];
}

unfoldable pub mark_fired_if_due : ℤ → ManualTimer → ManualTimer × Bool
mark_fired_if_due now t =
    if t.cancelled || t.fired || ltb_ℤ now t.deadline
    then (t, false)
    else (record t { fired = true }, true)

unfoldable pub cancel : ManualTimer → ManualTimer × Bool
cancel t = if t.fired || t.cancelled then (t, false) else (record t { cancelled = true }, true)

-- The loop over the snapshot: the timers as it leaves them, and those that are due.
unfoldable pub mark_due : ℤ → List ManualTimer → List ManualTimer × List ManualTimer
unfolding mark_fired_if_due
mark_due now [] = ([], [])
mark_due now (t ∷ ts) =
    let (t', is_due) = mark_fired_if_due now t in
    let (rest, due) = mark_due now ts in (t' ∷ rest, if is_due then t' ∷ due else due)

unfoldable pub fire_all :
    (ℕ → ManualTimerService → ManualTimerService)
    → List ManualTimer
    → ManualTimerService
    → ManualTimerService
fire_all callback [] s = s
fire_all callback (t ∷ ts) s = fire_all callback ts (callback t.fire s)

abbrev pub by_deadline : ManualTimer → ManualTimer → Bool
by_deadline t u = leb_ℤ t.deadline u.deadline

unfoldable pub advance :
    (ℕ → ManualTimerService → ManualTimerService) → ℤ → ManualTimerService → ManualTimerService
unfolding mark_due fire_all
advance callback d s =
    let now = s.now +ℤ d in
    let (marked, due) = mark_due now s.timers in
    fire_all callback (sort_by by_deadline due) (record s { now = now; timers = marked })

-- Neither cancelled nor fired.
abbrev pub live : ManualTimer → Bool
live t = not (t.cancelled || t.fired)

abbrev pub fired_now : ManualTimer → ManualTimer
fired_now t = record t { fired = true }

-- What one `Advance` to `now` fires.
abbrev pub due_by : ℤ → ManualTimer → Bool
due_by now t = live t && leb_ℤ t.deadline now

-- What a second one, to `later`, fires.
abbrev pub due_between : ℤ → ℤ → ManualTimer → Bool
due_between now later t = live t && ltb_ℤ now t.deadline && leb_ℤ t.deadline later

pub mark_fired_if_due-eq :
    (now : ℤ) (t : ManualTimer)
    → mark_fired_if_due now t ≡ (if due_by now t then (fired_now t, true) else (t, false))
unfolding mark_fired_if_due
mark_fired_if_due-eq now t = ground arith

pub mark_due-step :
    (now : ℤ) (t : ManualTimer) (ts : List ManualTimer)
    → mark_due now (t ∷ ts) ≡ (
      (if due_by now t then fired_now t else t) ∷ (mark_due now ts).0,
      if due_by now t then fired_now t ∷ (mark_due now ts).1 else (mark_due now ts).1,
    )
unfolding mark_due
mark_due-step now t ts = elim (Bool-cases (due_by now t)) [
  | inl e ↦ rw (mark_fired_if_due-eq now t) (rw e)
  | inr e ↦ rw (mark_fired_if_due-eq now t) (rw e)
]

mark_due-due :
    (now : ℤ) (ts : List ManualTimer) → (mark_due now ts).1 ≡ map fired_now (keep (due_by now) ts)
mark_due-due now [] = unfold mark_due in refl
mark_due-due now (t ∷ ts) = elim (Bool-cases (due_by now t)) [
  | inl e ↦ rw (mark_due-step now t ts) (rw e (ap (◌∷◌ (fired_now t)) (mark_due-due now ts)))
  | inr e ↦ rw (mark_due-step now t ts) (rw e (mark_due-due now ts))
]

not_again : (later : ℤ) (t : ManualTimer) → due_by later (fired_now t) ≡ false
not_again later t = ground arith

missed : (now later : ℤ) (t : ManualTimer) → due_by now t ≡ true → due_between now later t ≡ false
missed now later t e = ground arith

waiting :
    (now later : ℤ) (t : ManualTimer)
    → due_by now t ≡ false
    → due_between now later t ≡ due_by later t
waiting now later t e = ground arith

second_pass :
    (now later : ℤ) (ts : List ManualTimer)
    → (mark_due later (mark_due now ts).0).1 ≡ map fired_now (keep (due_between now later) ts)
second_pass now later [] = unfold mark_due in refl
second_pass now later (t ∷ ts) = elim (Bool-cases (due_by now t)) [
  | inl e ↦ rw (mark_due-step now t ts) (
      rw e (
        rw (mark_due-step later (fired_now t) (mark_due now ts).0)
          (rw (not_again later t, missed now later t e) (second_pass now later ts))))
  | inr e ↦ rw (mark_due-step now t ts) (
      rw e (
        rw (mark_due-step later t (mark_due now ts).0, waiting now later t e)
          (elim (Bool-cases (due_by later t)) [
            | inl f ↦ rw f (ap (◌∷◌ (fired_now t)) (second_pass now later ts))
            | inr f ↦ rw f (second_pass now later ts)
          ])))
]

-- Of two passes in a row, the first takes the timers, neither cancelled nor fired, whose deadline
-- it has reached, and the second those whose deadline lies between: no timer fires twice.
pub mark_due-once :
    (now later : ℤ) (ts : List ManualTimer)
    → ((mark_due now ts).1 ≡ map fired_now (keep (due_by now) ts))
      × ((mark_due later (mark_due now ts).0).1 ≡ map fired_now (keep (due_between now later) ts))
mark_due-once now later ts = (mark_due-due now ts, second_pass now later ts)

-- Of the cancelling and the firing of a timer that is due, only the one that comes first succeeds.
pub cancel_or_fire :
    (now : ℤ) (t : ManualTimer)
    → due_by now t ≡ true
    → ((cancel t).1 ≡ true)
      × ((mark_fired_if_due now (cancel t).0).1 ≡ false)
      × ((mark_fired_if_due now t).1 ≡ true)
      × ((cancel (mark_fired_if_due now t).0).1 ≡ false)
unfolding cancel mark_fired_if_due
cancel_or_fire now t e = (ground arith, ground arith, ground arith, ground arith)
