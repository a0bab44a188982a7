-- ===== src/StallObserver.antt =====
-- The stall observer (stall.go) over the virtual clock and timers: a watchdog that is armed before an
-- observer runs and cancelled after it.
--
-- The observer inside is a parameter: what it does to the clock and the timers, and its error. The
-- report's name is left out, and `OnStall` is a callback of the timer service, known by its number.
use statesman.Base.{
  ℕ, zero, suc, ℤ, pos, ◌+ℤ◌, leb_ℤ-+, ◌<◌, ◌≡◌, refl, ap, ◌∙◌, false, Option, List, [], ◌∷◌, ◌++◌,
  if◌then◌else◌, leb_ℤ, arith, Bool-cases, inl, inr, get_or, set, length, length-append, sort_by,
}
use statesman.VirtualClock.{
  ManualTimer, ManualTimerService, schedule, cancel, live, due_by, fired_now, mark_due,
  mark_due-step, advance, fire_all, by_deadline,
}

-- `OnTransition` of the observer inside, with its error.
abbrev pub Inner : Type 0 → Type 0
Inner Error = ManualTimerService → ManualTimerService × Option Error

abbrev pub watchdog : ℤ → ℕ → ManualTimer
watchdog at on_stall = record { deadline = at; fire = on_stall; cancelled = false; fired = false }

-- The timer that a place of the service holds.
abbrev pub timer_at : ℕ → ManualTimerService → ManualTimer
timer_at i s = get_or s.timers i (watchdog (pos 0) 0)

-- `timer.Cancel()`
abbrev cancel_at : ℕ → ManualTimerService → ManualTimerService
cancel_at i s = record s { timers = set s.timers i (cancel (timer_at i s)).0 }

-- `OnTransition`: the service and the error that it leaves. The watchdog stands behind the timers
-- that were there.
unfoldable pub on_transition :
    {Error : Type 0} → ℤ → ℕ → Inner Error → ManualTimerService → ManualTimerService × Option Error
unfolding schedule cancel
on_transition threshold on_stall inner s =
    let armed = schedule (s.now +ℤ threshold) on_stall s in
    let (after, err) = inner armed in (cancel_at (length s.timers) after, err)

-- An observer that takes `d` nanoseconds and returns `err`.
abbrev pub takes : {Error : Type 0} → ℤ → Option Error → Inner Error
takes d err s = (advance (λ f s. s) d s, err)

fire_all-nothing : (ts : List ManualTimer) (s : ManualTimerService) → fire_all (λ f s. s) ts s ≡ s
unfolding fire_all
fire_all-nothing [] s = refl
fire_all-nothing (t ∷ ts) s = fire_all-nothing ts s

advance-timers :
    (d : ℤ) (s : ManualTimerService)
    → (advance (λ f s. s) d s).timers ≡ (mark_due (s.now +ℤ d) s.timers).0
unfolding advance
advance-timers d s =
    ap (λ x. x.timers)
      (fire_all-nothing (sort_by by_deadline (mark_due (s.now +ℤ d) s.timers).1)
        (record { now = s.now +ℤ d; timers = (mark_due (s.now +ℤ d) s.timers).0 }))

-- The timer at the end, after a pass, and after it is replaced.
mark_due-last :
    (now : ℤ) (ts : List ManualTimer) (t u : ManualTimer)
    → get_or (mark_due now (ts ++ t ∷ [])).0 (length ts) u
      ≡ (if due_by now t then fired_now t else t)
mark_due-last now [] t u = rw (mark_due-step now t []) refl
mark_due-last now (x ∷ ts) t u = rw (mark_due-step now x (ts ++ t ∷ [])) (mark_due-last now ts t u)

length-mark_due : (now : ℤ) (ts : List ManualTimer) → length (mark_due now ts).0 ≡ length ts
length-mark_due now [] = unfold mark_due in refl
length-mark_due now (x ∷ ts) = rw (mark_due-step now x ts) (ap suc (length-mark_due now ts))

get_or-set :
    (ts : List ManualTimer) (i : ℕ) (t u : ManualTimer)
    → i < length ts
    → get_or (set ts i t) i u ≡ t
get_or-set [] i t u l = absurd (omega arith)
get_or-set (x ∷ ts) zero t u l = refl
get_or-set (x ∷ ts) (suc i) t u l = get_or-set ts i t u (omega arith)

module _ {Error : Type 0} (threshold d : ℤ) (on_stall : ℕ) (err : Option Error)
    (s : ManualTimerService) where
  abbrev armed : ManualTimer
  armed = watchdog (s.now +ℤ threshold) on_stall

  abbrev passed : ManualTimer
  passed = if due_by (s.now +ℤ d) armed then fired_now armed else armed

  passed-cancelled :
      ((cancel passed).0.fired ≡ leb_ℤ threshold d) × (live (cancel passed).0 ≡ false)
  unfolding cancel
  passed-cancelled = elim (Bool-cases (due_by (s.now +ℤ d) armed)) [
    | inl e ↦ rw e (ground (arith, e, leb_ℤ-+ s.now threshold d), ground arith)
    | inr e ↦ rw e (ground (arith, e, leb_ℤ-+ s.now threshold d), ground arith)
  ]

  timer_after :
      timer_at (length s.timers) (on_transition threshold on_stall (takes d err) s).0
      ≡ (cancel passed).0
  unfolding on_transition schedule
  timer_after =
      let started = record s { timers = s.timers ++ armed ∷ [] } in
      let after = advance (λ f x. x) d started in
      let marked = advance-timers d started in
      let found : timer_at (length s.timers) after ≡ passed =
        ap (λ ts. get_or ts (length s.timers) (watchdog (pos 0) 0)) marked
        ∙ mark_due-last (s.now +ℤ d) s.timers armed (watchdog (pos 0) 0) in
      let bound : length s.timers < length after.timers = rw marked (
        rw
          (
            length-mark_due (s.now +ℤ d) (s.timers ++ armed ∷ []),
            length-append s.timers (armed ∷ []),
          )
          (omega arith)) in
      get_or-set after.timers (length s.timers) (cancel (timer_at (length s.timers) after)).0
        (watchdog (pos 0) 0) bound
      ∙ ap (λ t. (cancel t).0) found

  -- Around an observer that takes `d` nanoseconds, the error is the observer's, the watchdog has
  -- fired exactly where `d` reaches the threshold, and it fires no more.
  pub on_transition_lem :
      ((on_transition threshold on_stall (takes d err) s).1 ≡ err)
      × ((timer_at (length s.timers) (on_transition threshold on_stall (takes d err) s).0).fired
          ≡ leb_ℤ threshold d)
      × (live (timer_at (length s.timers) (on_transition threshold on_stall (takes d err) s).0)
          ≡ false)
  on_transition_lem = (
    unfold on_transition in refl,
    rw timer_after passed-cancelled.0,
    rw timer_after passed-cancelled.1,
  )
