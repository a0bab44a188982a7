-- ===== src/Engine/Actions.antt =====
-- The order of the actions in one microstep, against a plain run of a list of callsites.
use statesman.Base.{
  ◌≡◌, refl, ap, ◌∙◌, true, false, Bool, Option, none, some, List, [], ◌∷◌, ◌++◌, arith,
  if◌then◌else◌, ℕ, map, mem, IsDistinct, sym,
}
use statesman.Definition.{Addr, Heap, ActionRef, Transition, Definition, node}
use statesman.Definition.Ancestors.{IsTree}
use statesman.Configuration.{Configuration, add, remove, by_doc_order}
use statesman.Configuration.Order.{
  Fits, Ascending, Ascending-eq, by_doc_order-Ascending, mem-by_doc_order,
}
use statesman.Entry.{ordered_entry}
use statesman.Engine.{
  AppliedEffect, noop, assign, send, spawn, Hooks, Engine, Staged, fold, is_final,
  record_history_into,
}
use statesman.Engine.Apply.{
  fold_all, exit_states, transition_actions, note_final, enter_states, staged_of, run_stage,
}

-- The callsites that one microstep runs: the exit actions of the states that leave, the actions of
-- the transitions, the entry actions of the states that are entered.
abbrev pub callsites : List ActionRef → List (Option ℕ)
callsites = map (λ a. a.callsite)

abbrev pub exit_callsites : Heap → List Addr → List (Option ℕ)
exit_callsites h [] = []
exit_callsites h (n ∷ ns) = callsites (node h n).exit ++ exit_callsites h ns

abbrev pub transition_callsites : List Transition → List (Option ℕ)
transition_callsites [] = []
transition_callsites (t ∷ ts) = callsites t.actions ++ transition_callsites ts

abbrev pub entry_callsites : Heap → List Addr → List (Option ℕ)
entry_callsites h [] = []
entry_callsites h (n ∷ ns) = callsites (node h n).entry ++ entry_callsites h ns

module _ {Ctx Evt Cmd : Type 0} (hooks : Hooks Ctx Evt Cmd) (evt : Evt) where
  -- The context that the actions pass on, and the outbox that they fill.
  abbrev pub Work : Type 0
  Work = Ctx × List (AppliedEffect Ctx Cmd)

  -- One callsite: an assignment replaces the context, a send or a spawn joins the outbox.
  abbrev pub act : AppliedEffect Ctx Cmd → Work → Work
  act noop w = w
  act (assign ctx) w = (ctx, w.1)
  act (send target cmd) w = (w.0, w.1 ++ send target cmd ∷ [])
  act (spawn target) w = (w.0, w.1 ++ spawn target ∷ [])

  unfoldable pub run_callsites : List (Option ℕ) → Work → Work
  run_callsites [] w = w
  run_callsites (c ∷ cs) w = run_callsites cs (act (hooks.apply_action c w.0 evt) w)

  run_callsites-append :
      (cs ds : List (Option ℕ)) (w : Work)
      → run_callsites (cs ++ ds) w ≡ run_callsites ds (run_callsites cs w)
  unfolding run_callsites
  run_callsites-append [] ds w = refl
  run_callsites-append (c ∷ cs) ds w =
      run_callsites-append cs ds (act (hooks.apply_action c w.0 evt) w)

  abbrev work : Staged hooks → Work
  work s = (s.ctx, s.effects)

  fold-work :
      (c : Option ℕ) (s : Staged hooks)
      → work (fold hooks evt c s) ≡ act (hooks.apply_action c s.ctx evt) (work s)
  unfolding fold
  fold-work c s = ground arith

  fold_all-work :
      (acts : List ActionRef) (s : Staged hooks)
      → work (fold_all hooks evt acts s) ≡ run_callsites (callsites acts) (work s)
  unfolding fold_all run_callsites
  fold_all-work [] s = refl
  fold_all-work (a ∷ acts) s =
      fold_all-work acts (fold hooks evt a.callsite s)
      ∙ ap (run_callsites (callsites acts)) (fold-work a.callsite s)

  transition_actions-work :
      (ts : List Transition) (s : Staged hooks)
      → work (transition_actions hooks evt ts s) ≡ run_callsites (transition_callsites ts) (work s)
  unfolding transition_actions
  transition_actions-work [] s = unfold run_callsites in refl
  transition_actions-work (t ∷ ts) s =
      rw (run_callsites-append (callsites t.actions) (transition_callsites ts) (work s)) (
        transition_actions-work ts (fold_all hooks evt t.actions s)
        ∙ ap (run_callsites (transition_callsites ts)) (fold_all-work t.actions s))

  exit_states-work :
      (h : Heap) (live : Configuration) (ns : List Addr) (s : Staged hooks)
      → work (exit_states hooks h live evt ns s) ≡ run_callsites (exit_callsites h ns) (work s)
  unfolding exit_states
  exit_states-work h live [] s = unfold run_callsites in refl
  exit_states-work h live (n ∷ ns) s =
      let noted = record s { hist = record_history_into h n s.hist live } in
      let acted = fold_all hooks evt (node h n).exit noted in
      rw (run_callsites-append (callsites (node h n).exit) (exit_callsites h ns) (work s)) (
        exit_states-work h live ns (record acted { cfg = remove n acted.cfg })
        ∙ ap (run_callsites (exit_callsites h ns)) (fold_all-work (node h n).exit noted))

  note_final-work :
      (h : Heap) (root : Addr) (p : Option Addr) (n : Addr) (b : Bool) (s : Staged hooks)
      → work (if b then note_final hooks h root p n s else s) ≡ work s
  unfolding note_final
  note_final-work h root p n false s = refl
  note_final-work h root none n true s = refl
  note_final-work h root (some p) n true s = ground arith

  enter_states-work :
      (h : Heap) (root : Addr) (ns : List Addr) (s : Staged hooks)
      → work (enter_states hooks h root evt ns s) ≡ run_callsites (entry_callsites h ns) (work s)
  unfolding enter_states
  enter_states-work h root [] s = unfold run_callsites in refl
  enter_states-work h root (n ∷ ns) s =
      let added = record s { cfg = add n s.cfg } in
      let acted = fold_all hooks evt (node h n).entry added in
      let final = is_final (node h n).kind in
      let noted = if final then note_final hooks h root (node h n).parent n acted else acted in
      rw (run_callsites-append (callsites (node h n).entry) (entry_callsites h ns) (work s)) (
        enter_states-work h root ns noted
        ∙ ap (run_callsites (entry_callsites h ns)) (
            note_final-work h root (node h n).parent n final acted
            ∙ fold_all-work (node h n).entry added))

  run_stage-ordered :
      (d : Definition) (e : Engine Ctx Evt) (exit_set : List Addr) (ts : List Transition)
      (to_enter : List Addr)
      → let s = run_stage hooks d e exit_set ts to_enter evt in
        let script =
          exit_callsites d.heap exit_set
          ++ (transition_callsites ts ++ entry_callsites d.heap (ordered_entry d.heap to_enter)) in
        (s.ctx, s.effects) ≡ run_callsites script (e.ctx, [])
  unfolding run_stage
  run_stage-ordered d e exit_set ts to_enter =
      let h = d.heap in
      let entered = ordered_entry h to_enter in
      let exited = exit_states hooks h e.cfg evt exit_set (staged_of hooks e) in
      let acted = transition_actions hooks evt ts exited in
      let last = entry_callsites h entered in
      let middle = transition_callsites ts in
      rw
        (
          run_callsites-append (exit_callsites h exit_set) (middle ++ last) (e.ctx, []),
          run_callsites-append middle last (run_callsites (exit_callsites h exit_set) (e.ctx, [])),
        )
        (enter_states-work h d.root entered acted
          ∙ ap (run_callsites last) (
              transition_actions-work ts exited
              ∙ ap (run_callsites middle) (exit_states-work h e.cfg exit_set (staged_of hooks e))))

  -- In a chart that is a tree, the staging of a microstep runs the exit actions in the order of
  -- the exit set, the actions of the transitions, then the entry actions in ascending document
  -- order of the states to enter, each on the context that the one before left. The states to
  -- enter are states of the chart, each once.
  pub run_stage-run_callsites :
      (d : Definition) (e : Engine Ctx Evt) (exit_set : List Addr) (ts : List Transition)
      (to_enter entered : List Addr)
      → IsTree d.heap
      → Fits d.heap to_enter
      → IsDistinct to_enter
      → Ascending entered
      → ((n : Addr) → mem n entered ≡ mem n to_enter)
      → let s = run_stage hooks d e exit_set ts to_enter evt in
        let script =
          exit_callsites d.heap exit_set
          ++ (transition_callsites ts ++ entry_callsites d.heap entered) in
        (s.ctx, s.effects) ≡ run_callsites script (e.ctx, [])
  unfolding ordered_entry
  run_stage-run_callsites d e exit_set ts to_enter entered tree fits distinct asc same =
      let sorted : by_doc_order d.heap to_enter ≡ entered =
        Ascending-eq (by_doc_order d.heap to_enter) entered
          (by_doc_order-Ascending d.heap tree to_enter fits distinct) asc
          (λ n. mem-by_doc_order d.heap n to_enter ∙ sym (same n)) in
      rw (← sorted) (run_stage-ordered d e exit_set ts to_enter)
