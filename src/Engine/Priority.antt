-- ===== src/Engine/Priority.antt =====
-- One call of `step`, case by case: which event it takes, and what it leaves alone.
use statesman.Base.{
  ◌≡◌, refl, ap, sym, ◌∙◌, ◌<◌, ◌≤◌, suc, true, false, Bool, Option, none, some, List, [], ◌∷◌,
  ◌++◌, arith, inl, inr, All, All-concat, Bool-cases, Option-cases, List-cases, leb, ◌>>=◌, ◌≢◌,
}
use mathlib.Core.Option.{some-injective}
use mathlib.Core.List.{append-nil, append_assoc}
use statesman.Definition.{Transition, Definition}
use statesman.Select.{select_eventless_transitions}
use statesman.Domain.{compute_exit_set}
use statesman.Entry.{EntrySet, compute_entry_set}
use statesman.Status.{ActorStatus, always_loop_exceeded}
use statesman.Engine.{Hooks, QueuedEvent, Microstep, Engine, guard_pass}
use statesman.Engine.Apply.{apply, microstep_for}
use statesman.Engine.Step.{staged, select_for, step_external, step_internal, step}

result_pair :
    {E M : Type 0} {e e' : E} {r r' : Option M}
    → ◌≡◌ {A = Option (E × Option M)} (some (e, r)) (some (e', r'))
    → (r' ≡ r) × (e' ≡ e)
result_pair p = let q = some-injective _ _ p in (sym (ap (λ y. y.1) q), sym (ap (λ y. y.0) q))

staged_pair :
    {E M : Type 0} {x : E × M} {e' : E} {r : Option M}
    → ◌≡◌ {A = Option (E × Option M)} (some (x.0, some x.1)) (some (e', r))
    → (r ≡ some x.1) × (x ≡ (e', x.1))
staged_pair {x = x} p = let q = some-injective _ _ p in (sym (ap (λ y. y.1) q), λ i. ((q i).0, x.1))

module _ {Ctx Evt Cmd : Type 0} (hooks : Hooks Ctx Evt Cmd) (d : Definition) where
  abbrev eventless_of : Engine Ctx Evt → List Transition
  eventless_of e = select_eventless_transitions d.heap e.cfg (guard_pass hooks e hooks.zero_event)

  -- The microstep is the one staged for these transitions and this event, with the engine left as
  -- it was but for the last event.
  pub record StagedFor (e : Engine Ctx Evt) (ts : List Transition) (evt : Evt) (triggered : Bool)
      (e' : Engine Ctx Evt) (ms : Microstep Ctx Cmd) : Type 0 where
    pub entries : EntrySet
    pub found : compute_entry_set d.heap e.hist ts ≡ some entries
    pub built :
        apply hooks d e (compute_exit_set d.heap e.cfg ts) ts entries.to_enter evt triggered
        ≡ (e', ms)

  -- The events of the queue match nothing.
  abbrev pub Unmatched : Engine Ctx Evt → QueuedEvent Evt → Type 0
  Unmatched e qe = select_for hooks d e qe ≡ []

  -- The cases of `step`: what it was given, what it leaves, and what it stages.
  pub data StepCase (e e' : Engine Ctx Evt) (r : Option (Microstep Ctx Cmd)) : Type 0 where
    exceeded :
        eventless_of e ≢ []
        → e.always_limit ≤ e.always_run
        → e' ≡ record e { status = ActorStatus.error; err_reason = some always_loop_exceeded }
        → r ≡ none
        → StepCase e e' r
    eventless :
        (ms : Microstep Ctx Cmd)
        → eventless_of e ≢ []
        → e.always_run < e.always_limit
        → r ≡ some ms
        → StagedFor
            (record e { always_run = suc e.always_run })
            (eventless_of e)
            hooks.zero_event
            false
            e'
            ms
        → StepCase e e' r
    internal :
        (ms : Microstep Ctx Cmd) (before rest : List (QueuedEvent Evt)) (qe : QueuedEvent Evt)
        → eventless_of e ≡ []
        → e.internal_queue ≡ before ++ (qe ∷ rest)
        → All (Unmatched e) before
        → select_for hooks d e qe ≢ []
        → r ≡ some ms
        → StagedFor
            (record e { internal_queue = rest })
            (select_for hooks d e qe)
            qe.payload
            true
            e'
            ms
        → StepCase e e' r
    external :
        (ms : Microstep Ctx Cmd) (qe : QueuedEvent Evt)
        → eventless_of e ≡ []
        → All (Unmatched e) e.internal_queue
        → e.pending_external ≡ some qe
        → select_for hooks d e qe ≢ []
        → r ≡ some ms
        → StagedFor
            (record e { internal_queue = []; pending_external = none })
            (select_for hooks d e qe)
            qe.payload
            true
            e'
            ms
        → StepCase e e' r
    quiescent :
        eventless_of e ≡ []
        → All (Unmatched e) e.internal_queue
        → ((qe : QueuedEvent Evt) → e.pending_external ≡ some qe → Unmatched e qe)
        → e' ≡ record e { internal_queue = []; pending_external = none }
        → r ≡ none
        → StepCase e e' r

  module _ (e : Engine Ctx Evt) (ts : List Transition) (evt : Evt) (b : Bool) where
    abbrev applied : EntrySet → Engine Ctx Evt × Microstep Ctx Cmd
    applied entries = apply hooks d e (compute_exit_set d.heap e.cfg ts) ts entries.to_enter evt b

    microstep_for-none :
        compute_entry_set d.heap e.hist ts ≡ none
        → staged hooks (microstep_for hooks d e ts evt b) ≡ none
    unfolding microstep_for
    microstep_for-none f = rw (f, ◌>>=◌)

    pub microstep_for-some :
        (entries : EntrySet)
        → compute_entry_set d.heap e.hist ts ≡ some entries
        → staged hooks (microstep_for hooks d e ts evt b)
          ≡ some ((applied entries).0, some (applied entries).1)
    unfolding microstep_for
    microstep_for-some entries f = rw (f, ◌>>=◌)

    microstep_for-StagedFor :
        (e' : Engine Ctx Evt) (r : Option (Microstep Ctx Cmd))
        → staged hooks (microstep_for hooks d e ts evt b) ≡ some (e', r)
        → (ms : Microstep Ctx Cmd) × (r ≡ some ms) × StagedFor e ts evt b e' ms
    microstep_for-StagedFor e' r eq = elim (Option-cases (compute_entry_set d.heap e.hist ts)) [
      | inl f ↦ cc (microstep_for-none f)
      | inr (entries, f) ↦
          let (same_result, built) = staged_pair (sym (microstep_for-some entries f) ∙ eq) in
          ((applied entries).1, same_result, record { entries = entries; found = f; built = built })
    ]

  -- The part after the internal queue.
  module _ (e : Engine Ctx Evt) (quiet : eventless_of e ≡ []) where
    abbrev drained : Engine Ctx Evt
    drained = record e { internal_queue = []; pending_external = none }

    step_external-StepCase :
        (o : Option (QueuedEvent Evt)) (e' : Engine Ctx Evt) (r : Option (Microstep Ctx Cmd))
        → e.pending_external ≡ o
        → All (Unmatched e) e.internal_queue
        → step_external hooks d (record e { internal_queue = [] }) o ≡ some (e', r)
        → StepCase e e' r
    unfolding step_external guard_pass
    step_external-StepCase none e' r p un eq =
        let (gone, left) = result_pair eq in
        quiescent quiet un (λ qe q. cc)
          (left ∙ λ i. record e { internal_queue = []; pending_external = p i }) gone
    step_external-StepCase (some qe) e' r p un eq = elim (List-cases (select_for hooks d e qe)) [
      | inl f ↦
          let (gone, left) = result_pair (rw (f, step_external) at eq) in
          quiescent quiet un (λ qe' q. (let same : qe ≡ qe' = cc in rw (← same) f)) left gone
      | inr (t, ts, f) ↦
          let (ms, same, built) =
            microstep_for-StagedFor drained (t ∷ ts) qe.payload true e' r
              (rw (f, step_external) at eq) in
          external ms qe quiet un p (λ g. cc) same (rw f built)
    ]

    -- The loop over the internal queue, behind the events that it has discarded.
    step_internal-StepCase :
        (before queue : List (QueuedEvent Evt)) (e' : Engine Ctx Evt)
        (r : Option (Microstep Ctx Cmd))
        → e.internal_queue ≡ before ++ queue
        → All (Unmatched e) before
        → step_internal hooks d e queue ≡ some (e', r)
        → StepCase e e' r
    unfolding step_internal guard_pass
    step_internal-StepCase before [] e' r split un eq =
        step_external-StepCase e.pending_external e' r refl (rw (split, append-nil) un) eq
    step_internal-StepCase before (qe ∷ rest) e' r split un eq =
        elim (List-cases (select_for hooks d e qe)) [
          | inl f ↦
              step_internal-StepCase (before ++ qe ∷ []) rest e' r
                (split ∙ sym (append_assoc before (qe ∷ []) rest))
                (All-concat (Unmatched e) before qe un f) (rw (f, step_internal) at eq)
          | inr (t, ts, f) ↦
              let (ms, same, built) =
                microstep_for-StagedFor (record e { internal_queue = rest }) (t ∷ ts) qe.payload
                  true e' r (rw (f, step_internal) at eq) in
              internal ms before rest qe quiet split un (λ g. cc) same (rw f built)
        ]

  -- What `step` returns, where it returns, is one of five cases: an eventless microstep under the
  -- limit, the limit error, a microstep of the first internal event that matches, of the external
  -- event, or quiescence with both queues emptied.
  pub step-StepCase :
      (e e' : Engine Ctx Evt) (r : Option (Microstep Ctx Cmd))
      → step hooks d e ≡ some (e', r)
      → StepCase e e' r
  unfolding step
  step-StepCase e e' r eq = elim (List-cases (eventless_of e)) [
    | inl quiet ↦
        step_internal-StepCase e quiet [] e.internal_queue e' r refl tt (rw (quiet, step) at eq)
    | inr (t, ts, f) ↦ elim (Bool-cases (leb e.always_limit e.always_run)) [
      | inl over ↦
          let (gone, left) = result_pair (rw over at (rw (f, step) at eq)) in
          exceeded (λ g. cc) (ground arith) left gone
      | inr under ↦
          let (ms, same, built) =
            microstep_for-StagedFor (record e { always_run = suc e.always_run }) (t ∷ ts)
              hooks.zero_event false e' r (rw under at (rw (f, step) at eq)) in
          eventless ms (λ g. cc) (ground arith) same (rw f built)
    ]
  ]
