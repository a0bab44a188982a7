-- ===== src/Engine/Staging.antt =====
-- What a staged microstep holds: its configuration, and the order in which its actions ran.
use statesman.Base.{
  ◌≡◌, refl, ◌∙◌, true, false, Bool, Option, none, some, List, [], ◌∷◌, ◌&&◌, ◌||◌, not, mem, arith,
  if◌then◌else◌, ℕ, mem-insert, mem-erase, insert, ◌==◌,
}
use statesman.Definition.{Addr, Heap, ActionRef, Transition, Definition, node}
use statesman.Configuration.{Configuration, add, remove}
use statesman.Configuration.Order.{mem-by_doc_order}
use statesman.Entry.{ordered_entry}
use statesman.Engine.{Hooks, Engine, Staged, fold, is_final, record_history_into}
use statesman.Engine.Apply.{
  fold_all, exit_states, transition_actions, note_final, enter_states, staged_of, run_stage,
}

module _ {Ctx Evt Cmd : Type 0} (hooks : Hooks Ctx Evt Cmd) where
  fold-cfg : (evt : Evt) (c : Option ℕ) (s : Staged hooks) → (fold hooks evt c s).cfg ≡ s.cfg
  unfolding fold
  fold-cfg evt c s = ground arith

  fold_all-cfg :
      (evt : Evt) (acts : List ActionRef) (s : Staged hooks)
      → (fold_all hooks evt acts s).cfg ≡ s.cfg
  unfolding fold_all
  fold_all-cfg evt [] s = refl
  fold_all-cfg evt (a ∷ acts) s =
      fold_all-cfg evt acts (fold hooks evt a.callsite s) ∙ fold-cfg evt a.callsite s

  transition_actions-cfg :
      (evt : Evt) (ts : List Transition) (s : Staged hooks)
      → (transition_actions hooks evt ts s).cfg ≡ s.cfg
  unfolding transition_actions
  transition_actions-cfg evt [] s = refl
  transition_actions-cfg evt (t ∷ ts) s =
      transition_actions-cfg evt ts (fold_all hooks evt t.actions s) ∙ fold_all-cfg evt t.actions s

  note_final-cfg :
      (h : Heap) (root : Addr) (p : Option Addr) (n : Addr) (s : Staged hooks)
      → (note_final hooks h root p n s).cfg ≡ s.cfg
  unfolding note_final
  note_final-cfg h root none n s = refl
  note_final-cfg h root (some p) n s = ground arith

  branch-cfg :
      (h : Heap) (root : Addr) (p : Option Addr) (n : Addr) (b : Bool) (s : Staged hooks)
      → (if b then note_final hooks h root p n s else s).cfg ≡ s.cfg
  branch-cfg h root p n true s = note_final-cfg h root p n s
  branch-cfg h root p n false s = refl

  mem-exit_states :
      (h : Heap) (live : Configuration) (evt : Evt) (a : Addr) (ns : List Addr) (s : Staged hooks)
      → mem a (exit_states hooks h live evt ns s).cfg ≡ not (mem a ns) && mem a s.cfg
  unfolding exit_states remove
  mem-exit_states h live evt a [] s = refl
  mem-exit_states h live evt a (n ∷ ns) s =
      let noted = record s { hist = record_history_into h n s.hist live } in
      let acted = fold_all hooks evt (node h n).exit noted in
      rw (mem-exit_states h live evt a ns (record acted { cfg = remove n acted.cfg }))
        (rw (mem-erase a n acted.cfg, fold_all-cfg evt (node h n).exit noted) (ground arith))

  swap : (p q r : Bool) → (p || (q || r)) ≡ ((q || p) || r)
  swap p q r = ground arith

  mem-enter_states :
      (h : Heap) (root : Addr) (evt : Evt) (a : Addr) (ns : List Addr) (s : Staged hooks)
      → mem a (enter_states hooks h root evt ns s).cfg ≡ mem a ns || mem a s.cfg
  unfolding enter_states add
  mem-enter_states h root evt a [] s = refl
  mem-enter_states h root evt a (n ∷ ns) s =
      let added = record s { cfg = add n s.cfg } in
      let acted = fold_all hooks evt (node h n).entry added in
      let noted = note_final hooks h root (node h n).parent n acted in
      let next = if is_final (node h n).kind then noted else acted in
      let same_cfg : next.cfg ≡ insert n s.cfg =
        branch-cfg h root (node h n).parent n (is_final (node h n).kind) acted
        ∙ fold_all-cfg evt (node h n).entry added in
      rw (mem-enter_states h root evt a ns next, same_cfg, mem-insert a n s.cfg)
        (swap (mem a ns) (a == n) (mem a s.cfg))

  -- The staged configuration is the live one without the exit set and with the entry set.
  pub mem-run_stage :
      (d : Definition) (e : Engine Ctx Evt) (exit_set : List Addr) (ts : List Transition)
      (to_enter : List Addr) (evt : Evt) (a : Addr)
      → mem a (run_stage hooks d e exit_set ts to_enter evt).cfg
        ≡ mem a to_enter || (not (mem a exit_set) && mem a e.cfg)
  unfolding run_stage ordered_entry
  mem-run_stage d e exit_set ts to_enter evt a =
      let exited = exit_states hooks d.heap e.cfg evt exit_set (staged_of hooks e) in
      rw
        (mem-enter_states d.heap d.root evt a (ordered_entry d.heap to_enter)
          (transition_actions hooks evt ts exited))
        (rw (mem-by_doc_order d.heap a to_enter, transition_actions-cfg evt ts exited)
          (rw (mem-exit_states d.heap e.cfg evt a exit_set (staged_of hooks e))))
