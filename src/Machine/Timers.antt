-- ===== src/Machine/Timers.antt =====
-- The `after` timers: `plannedPending`, `armAfterTimers`, `cancelAfterTimers`, `resolveDelay`.
use statesman.Base.{
  ◌*◌, String, List, [], ◌∷◌, ◌++◌, ◌==◌, str_eq, mem, if◌then◌else◌, ◌+ℤ◌, int64, map,
}
use statesman.Definition.{Addr, Heap, Transition, Delay, node}
use statesman.Snapshot.{Time, Duration, ScheduledTimer}
use statesman.Engine.{Microstep}
use statesman.Machine.{
  ArmedTimer, scheduled, cancelled, observed_timer, Config, Machine, emit, now, read_clock,
}

-- `time.Duration(d.Millis) * time.Millisecond` is a product of two `int64`.
unfoldable pub resolve_delay : (String → Duration) → Delay → Duration
unfolding int64
resolve_delay delays d = if str_eq d.symbol "" then int64 (d.millis * 1000000) else delays d.symbol

-- The timers that the entry of one node arms at a time.
unfoldable pub timers_of : (String → Duration) → Time → Addr → List Transition → List ArmedTimer
unfolding resolve_delay
timers_of delays at n [] = []
timers_of delays at n (t ∷ ts) =
    let rest = timers_of delays at n ts in
    if t.is_after
    then record { descriptor = t.event; deadline = at +ℤ resolve_delay delays t.delay; state = n }
      ∷ rest
    else rest

abbrev pub as_scheduled : Heap → ArmedTimer → ScheduledTimer
as_scheduled h a = record {
  state_id = (node h a.state).id;
  descriptor = a.descriptor;
  deadline = a.deadline;
}

-- The armed timers of the nodes that stay.
unfoldable pub surviving : List Addr → List (Addr × List ArmedTimer) → List (Addr × List ArmedTimer)
surviving exited [] = []
surviving exited ((n, arms) ∷ rest) =
    let kept = surviving exited rest in if mem n exited then kept else (n, arms) ∷ kept

abbrev pub timers_in : List (Addr × List ArmedTimer) → List ArmedTimer
timers_in [] = []
timers_in ((n, arms) ∷ rest) = arms ++ timers_in rest

abbrev pub timers_for : Heap → (String → Duration) → Time → List Addr → List ArmedTimer
timers_for h delays at [] = []
timers_for h delays at (n ∷ ns) =
    timers_of delays at n (node h n).transitions ++ timers_for h delays at ns

-- `m.armed[n] = append(m.armed[n], a)`
unfoldable pub arm :
    Addr → ArmedTimer → List (Addr × List ArmedTimer) → List (Addr × List ArmedTimer)
arm n a [] = (n, a ∷ []) ∷ []
arm n a ((k, arms) ∷ rest) = if k == n then (k, arms ++ a ∷ []) ∷ rest else (k, arms) ∷ arm n a rest

-- `m.armed[n]`
unfoldable pub armed_at : Addr → List (Addr × List ArmedTimer) → List ArmedTimer
armed_at n [] = []
armed_at n ((k, arms) ∷ rest) = if k == n then arms else armed_at n rest

module _ {Ctx Evt Cmd : Type 0} (config : Config Ctx Evt Cmd) where
  -- One reading of the clock for all the entries; the map is walked in the order of the model.
  unfoldable pub planned_pending : Machine Ctx Evt Cmd → Microstep Ctx Cmd → List ScheduledTimer
  unfolding surviving timers_of
  planned_pending m ms =
      let h = config.definition.heap in
      map (as_scheduled h) (
        timers_in (surviving ms.exited m.armed)
        ++ timers_for h config.delays (now config m) ms.entered)

  -- The body of the loop in `armAfterTimers` for one timer.
  unfoldable pub arm_timer : Machine Ctx Evt Cmd → ArmedTimer → Machine Ctx Evt Cmd
  unfolding arm
  arm_timer m a =
      emit config (observed_timer (as_scheduled config.definition.heap a))
        (emit config (scheduled a) (record m { armed = arm a.state a m.armed }))

  unfoldable pub arm_all : Machine Ctx Evt Cmd → List ArmedTimer → Machine Ctx Evt Cmd
  unfolding arm_timer
  arm_all m [] = m
  arm_all m (a ∷ as') = arm_all (arm_timer m a) as'

  unfoldable pub arm_after_timers : List Addr → Machine Ctx Evt Cmd → Machine Ctx Evt Cmd
  unfolding arm_all timers_of
  arm_after_timers entered m =
      let h = config.definition.heap in
      arm_all (read_clock config m) (timers_for h config.delays (now config m) entered)

  unfoldable pub cancel_timers : List ArmedTimer → Machine Ctx Evt Cmd → Machine Ctx Evt Cmd
  cancel_timers [] m = m
  cancel_timers (a ∷ as') m = cancel_timers as' (emit config (cancelled a) m)

  unfoldable pub cancel_after_timers : List Addr → Machine Ctx Evt Cmd → Machine Ctx Evt Cmd
  unfolding cancel_timers surviving armed_at
  cancel_after_timers [] m = m
  cancel_after_timers (n ∷ ns) m =
      let stopped = cancel_timers (armed_at n m.armed) m in
      cancel_after_timers ns (record stopped { armed = surviving (n ∷ []) stopped.armed })
