-- ===== src/Examples/Engines.antt =====
-- The theorems on selection and on microsteps, at the charts of `Charts`.
use statesman.Base.{
  ◌≡◌, refl, ℕ, zero, suc, ◌+◌, ◌*◌, ◌≤◌, true, false, not, ◌&&◌, ◌||◌, Option, none, some, List,
  [], ◌∷◌, String, mem, All, arith,
}
use statesman.Definition.{Addr, Transition, Definition, node}
use statesman.Status.{ActorStatus}
use statesman.Select.{node_evented_transitions, match_at_node, select_by}
use statesman.Select.Match.{Matches, Enabled, match_at_node-Matches, select_by_lem}
use statesman.Select.Conflicts.{PairwiseApart}
use statesman.Entry.{no_entry, compute_entry_set, descend_from, ordered_entry}
use statesman.Entry.Total.{Returns, compute_entry_set-Returns}
use statesman.Engine.{Hooks, AppliedEffect, assign, noop, Microstep, Engine}
use statesman.Engine.Apply.{run_stage, start}
use statesman.Engine.Step.{step}
use statesman.Engine.Staging.{mem-run_stage}
use statesman.Engine.Actions.{run_stage-run_callsites, run_callsites}
use statesman.Engine.Priority.{StepCase, step-StepCase}
use statesman.Engine.Limits.{next, start as first, Chain-le-limit}
use statesman.Engine.Progress.{Linked, step-Returns}
use statesman.Examples.Charts.{
  job, spin, working, job-Restorable, spin-Restorable, chart, edge, noting_job, noting_job-IsTree,
}

-- Each action counts.
abbrev pub counting : Hooks ℕ String String
counting = record {
  apply_action = λ site ctx evt. assign (suc ctx);
  eval_guard = λ site ctx evt. true;
  zero_event = "";
  event_type = λ evt. evt;
}

abbrev pub engine_at : List Addr → Engine ℕ String
engine_at cfg = record {
  cfg = cfg;
  ctx = 0;
  hist = [];
  internal_queue = [];
  pending_external = none;
  always_limit = 3;
  always_run = 0;
  status = ActorStatus.running;
  err_reason = none;
  last_evt = "";
}

match_at_node-Matches_example :
    Matches "go"
      (λ t. true)
      (node_evented_transitions (node job 4))
      (match_at_node (node job 4) "go" (λ t. true))
match_at_node-Matches_example = match_at_node-Matches (node job 4) "go" (λ t. true)

abbrev at_go : Addr → Option Transition
at_go s = match_at_node (node job s) "go" (λ t. true)

select_by_lem_example :
    All (Enabled job working at_go) (select_by job working at_go)
    × PairwiseApart job working (select_by job working at_go)
select_by_lem_example = select_by_lem job working at_go

abbrev stop : Transition
stop = edge 2 2 "stop" (1 ∷ [])

compute_entry_set-Returns_example :
    Returns (compute_entry_set job [] (stop ∷ [])) × Returns (descend_from job [] 0 no_entry)
compute_entry_set-Returns_example =
    compute_entry_set-Returns job [] job-Restorable (stop ∷ []) 0 ((omega arith, tt), tt)
      (omega arith)

mem-run_stage_example :
    mem 1
      (run_stage counting
        (chart "job" job)
        (engine_at working)
        (8 ∷ 2 ∷ [])
        (stop ∷ [])
        (1 ∷ [])
        "").cfg
    ≡ mem 1 (1 ∷ []) || (not (mem 1 (8 ∷ 2 ∷ [])) && mem 1 working)
mem-run_stage_example =
    mem-run_stage counting (chart "job" job) (engine_at working) (8 ∷ 2 ∷ []) (stop ∷ []) (1 ∷ [])
      "" 1

abbrev site_or : Option ℕ → ℕ
site_or none = 0
site_or (some n) = n

-- Hooks that write the callsites as digits.
abbrev noting : Hooks ℕ String String
noting = record counting { apply_action = λ site ctx evt. assign (10 * ctx + site_or site) }

abbrev go : Transition
go = edge 0 1 "go" (2 ∷ [])

-- The set to enter is given upside down.
run_stage-run_callsites_example :
    let s =
      run_stage noting
        (chart "job" noting_job)
        (engine_at (0 ∷ 1 ∷ []))
        (1 ∷ [])
        (go ∷ [])
        (8 ∷ 2 ∷ [])
        "" in
    ◌≡◌ {A = ℕ × List (AppliedEffect ℕ String)} (s.ctx, s.effects) (28, [])
unfolding run_callsites node
run_stage-run_callsites_example =
    run_stage-run_callsites noting "" (chart "job" noting_job) (engine_at (0 ∷ 1 ∷ [])) (1 ∷ [])
      (go ∷ []) (8 ∷ 2 ∷ []) (2 ∷ 8 ∷ []) noting_job-IsTree (omega arith, (omega arith, tt))
      (refl, (refl, tt)) ((omega arith, tt), (tt, tt)) (λ n. ground arith)

abbrev step_or : Option (Engine ℕ String × Option (Microstep ℕ String)) → Engine ℕ String
step_or none = engine_at []
step_or (some r) = r.0

abbrev spinning : Engine ℕ String
spinning = engine_at (0 ∷ 1 ∷ [])

abbrev spun : Option (Engine ℕ String × Option (Microstep ℕ String))
spun = step counting (chart "spin" spin) spinning

-- What is taken where nothing is staged.
abbrev pub no_microstep : Microstep ℕ String
no_microstep = record {
  transitions = [];
  exited = [];
  entered = [];
  prev_active = [];
  next_active = [];
  prev_context = 0;
  next_context = 0;
  effects = [];
  triggered_by_event = true;
  reached_final = false;
  cfg = [];
  hist = [];
  internal_enqueue = [];
}

abbrev micro_or : Option (Engine ℕ String × Option (Microstep ℕ String)) → Microstep ℕ String
micro_or none = no_microstep
micro_or (some (e, none)) = no_microstep
micro_or (some (e, some ms)) = ms

spun_eq :
    (spun ≡ some (step_or spun, some (micro_or spun)))
    × ((micro_or spun).triggered_by_event ≡ false)
unfolding step statesman.Select.select_eventless_transitions statesman.Configuration.atomic
    statesman.Configuration.all_active statesman.Configuration.by_doc_order node
    statesman.Definition.is_atomic statesman.Definition.eventless statesman.Engine.guard_pass
    statesman.Entry.add_descendant_states_to_enter statesman.Definition.proper_ancestors
    statesman.Domain.get_transition_domain statesman.Definition.internal statesman.Domain.find_lcca
    statesman.Definition.is_descendant
spun_eq = (refl, refl)

step-StepCase_example :
    StepCase counting (chart "spin" spin) spinning (step_or spun) (some (micro_or spun))
step-StepCase_example =
    step-StepCase counting (chart "spin" spin) spinning (step_or spun) (some (micro_or spun))
      spun_eq.0

Chain-le-limit_example : spinning.always_run + 1 ≤ spinning.always_limit
Chain-le-limit_example =
    Chain-le-limit counting (chart "spin" spin) 0
      (next (step_or spun) (micro_or spun) first spun_eq.0 spun_eq.1)

spin-Linked : Linked spin
unfolding node_evented_transitions node
spin-Linked zero = (tt, tt)
spin-Linked (suc zero) = (((omega arith, tt), tt), ((omega arith, tt), tt))
spin-Linked (suc (suc zero)) = (((omega arith, tt), tt), ((omega arith, tt), tt))
spin-Linked (suc (suc (suc n))) = (tt, tt)

step-Returns_example :
    Returns (step counting (chart "spin" spin) spinning)
    × Returns (start counting (chart "spin" spin) spinning)
step-Returns_example =
    step-Returns counting (chart "spin" spin) spin-Linked (omega arith) spinning spin-Restorable
